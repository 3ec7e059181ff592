-- ===== src/GatewayApp/Downlink/Answers.antt =====
-- Every command of the server is queued for its node, or answered.
use smart_gateway.Prelude.{
  ℕ, ◌≤◌, ◌<◌, ◌≡◌, refl, arith, Bool, false, inc64, if◌then◌else◌, [], Option, none, some, length,
}
use smart_gateway.Prelude.Text.{Text, codes}
use smart_gateway.Prelude.Int.{is_negative}
use smart_gateway.DeviceManager.{
  Command, Outcome, queue_empty, ok, invalid, not_found, exists, full, conflict, offline,
  queue_full, buffer_too_small,
}
use smart_gateway.DeviceManager.Queues.{device_manager_enqueue_command}
use smart_gateway.MessageJson.Decode.{message_json_decode_command}
use smart_gateway.MessageJson.Format.{line_of}
use smart_gateway.MessageJson.Lines.{build, build-line_of}
use smart_gateway.GatewayApp.{GatewayContext, count_decode_error}
use smart_gateway.GatewayApp.Upstream.{json_size, decoded, is_ok}
use smart_gateway.GatewayApp.Upstream.Pushed.{nack_of, length-nack_line}
use smart_gateway.GatewayApp.Downlink.{
  Downlink, route_error, route, on_command, gateway_app_send_route_nack, gateway_app_on_tcp_line,
}

-- The target of a decoded command fits its array.
command-short :
    (line : Text) {n : ℕ} {c : Command}
    → message_json_decode_command line ≡ some (n, c)
    → length c.target_node < 32
unfolding message_json_decode_command
command-short line {n} {c} e = ground (arith, e)

-- The reason that a NACK gives for a command that was not queued.
abbrev pub reason : Outcome → Text
reason not_found = codes "route_not_found"
reason offline = codes "route_offline"
reason queue_full = codes "route_queue_full"
reason other = codes "route_internal"

-- How the context counts a sending.
abbrev pub counted : Bool → GatewayContext → GatewayContext
counted sends context =
    if sends
    then record context { tcp_send = inc64 context.tcp_send }
    else record context { tcp_send_error = inc64 context.tcp_send_error }

send_route_nack-line :
    (sends : Bool) (context : GatewayContext) (c : Command) (error : Text)
    → is_negative context.tcp_fd ≡ false
    → length c.target_node < 32
    → 1 ≤ length error
    → length error < 32
    → gateway_app_send_route_nack sends context c error
      ≡ (sends, some (line_of (nack_of error c)), counted sends context)
unfolding gateway_app_send_route_nack build
send_route_nack-line sends context c error connected short some_error fits =
    let e = build-line_of [] json_size (nack_of error c) in
    let room =
      length-nack_line (record { node_id = c.target_node; sequence = c.sequence; error = error })
        short fits in
    ground (arith, e, room, connected, short, some_error, fits)

-- What is due to a command with this result of `device_manager_enqueue_command`.
abbrev pub answer : Bool → Command → Outcome → Downlink → Option Text × Downlink
answer sends c result d = if is_ok result then (none, d) else (
  some (line_of (nack_of (reason result) c)),
  record d { gateway_context = counted sends d.gateway_context },
)

-- What is due to a line: the text for the server, and the state.
abbrev pub answered : Bool → Option Command → Downlink → Option Text × Downlink
answered sends none d = (none, record d { gateway_context = count_decode_error d.gateway_context })
answered sends (some c) d =
    let (result, m) = device_manager_enqueue_command d.device_manager c.target_node c in
    answer sends c result (record d { device_manager = m })

module _ (sends : Bool) (c : Command) (d : Downlink)
    (connected : is_negative d.gateway_context.tcp_fd ≡ false)
    (short : length c.target_node < 32) where
  route-some :
      (error : Text)
      → 1 ≤ length error
      → length error < 32
      → route sends c (some error) d ≡ (
        some (line_of (nack_of error c)),
        record d { gateway_context = counted sends d.gateway_context },
      )
  route-some error given small =
      rw (send_route_nack-line sends d.gateway_context c error connected short given small) refl

  route-answer : (r : Outcome) → route sends c (route_error r) d ≡ answer sends c r d
  unfolding route_error
  route-answer ok = refl
  route-answer not_found = route-some (codes "route_not_found") (omega arith) (omega arith)
  route-answer offline = route-some (codes "route_offline") (omega arith) (omega arith)
  route-answer queue_full = route-some (codes "route_queue_full") (omega arith) (omega arith)
  route-answer queue_empty = route-some (codes "route_internal") (omega arith) (omega arith)
  route-answer invalid = route-some (codes "route_internal") (omega arith) (omega arith)
  route-answer exists = route-some (codes "route_internal") (omega arith) (omega arith)
  route-answer full = route-some (codes "route_internal") (omega arith) (omega arith)
  route-answer conflict = route-some (codes "route_internal") (omega arith) (omega arith)
  route-answer buffer_too_small = route-some (codes "route_internal") (omega arith) (omega arith)

on_command-answered :
    (sends : Bool) (line : Text) (d : Downlink) (x : Option (ℕ × Command))
    → is_negative d.gateway_context.tcp_fd ≡ false
    → message_json_decode_command line ≡ x
    → on_command sends (decoded x) d ≡ answered sends (decoded x) d
on_command-answered sends line d none connected e = refl
on_command-answered sends line d (some (n, c)) connected e =
    let (result, m) = device_manager_enqueue_command d.device_manager c.target_node c in
    route-answer sends c (record d { device_manager = m }) connected (command-short line e) result

-- On a connection to the server, a line that is no command is counted, and nothing else. A command is
-- queued as `device_manager_enqueue_command` does it; if the result is OK nothing is sent, otherwise one NACK
-- line with the command's own node and sequence is given to the socket, for the reason `route_not_found`,
-- `route_offline` or `route_queue_full` by the result, or else `route_internal`, and its sending is counted.
pub on_tcp_line-answered :
    (sends : Bool) (line : Text) (d : Downlink)
    → is_negative d.gateway_context.tcp_fd ≡ false
    → gateway_app_on_tcp_line sends line d
      ≡ answered sends (decoded (message_json_decode_command line)) d
unfolding gateway_app_on_tcp_line
on_tcp_line-answered sends line d connected =
    on_command-answered sends line d (message_json_decode_command line) connected refl
