-- ===== src/GatewayApp/Downlink.antt =====
-- What comes from the server: `gateway_app_on_tcp_line`.
pub mod Answers
use smart_gateway.Prelude.{
  ℕ, ltb, leb, ◌==◌, if◌then◌else◌, Bool, true, false, List, [], ◌∷◌, Option, none, some, length,
}
use smart_gateway.Prelude.Text.{Text, codes}
use smart_gateway.Prelude.Int.{is_negative}
use smart_gateway.Prelude.{inc64}
use smart_gateway.DeviceManager.{
  DeviceManager, Command, Outcome, queue_empty, ok, invalid, not_found, exists, full, conflict,
  offline, queue_full, buffer_too_small,
}
use smart_gateway.DeviceManager.Queues.{device_manager_enqueue_command}
use smart_gateway.MessageJson.Build.{message_json_build_nack}
use smart_gateway.MessageJson.Decode.{message_json_decode_command}
use smart_gateway.GatewayApp.{GatewayContext, count_decode_error}
use smart_gateway.GatewayApp.Upstream.{json_size, decoded}

-- The result of `tcp_client_send_all` is the argument `sends`; the text that it is given is `some`.
abbrev send_nack : Bool → GatewayContext → Option ℕ × Text → Bool × Option Text × GatewayContext
send_nack sends context (none, json) = (false, none, context)
send_nack sends context (some n, json) =
    if sends
    then (true, some json, record context { tcp_send = inc64 context.tcp_send })
    else (false, some json, record context { tcp_send_error = inc64 context.tcp_send_error })

-- Whether the result is 0, the text given to the socket, and the context afterwards.
unfoldable pub gateway_app_send_route_nack :
    Bool → GatewayContext → Command → Text → Bool × Option Text × GatewayContext
gateway_app_send_route_nack sends context command error =
    if length error == 0
    then (false, none, context)
    else if is_negative context.tcp_fd
    then (false, none, context)
    else if leb 32 (length error)
    then (false, none, context)
    else send_nack sends context (
        message_json_build_nack [] json_size
          (record { node_id = command.target_node; sequence = command.sequence; error = error }))

-- `gateway_app_downlink_context_t`, with what its pointers lead to.
pub record Downlink : Type 0 where
  pub gateway_context : GatewayContext
  pub device_manager : DeviceManager

-- The error text for a command that could not be queued.
unfoldable pub route_error : Outcome → Option Text
route_error ok = none
route_error not_found = some (codes "route_not_found")
route_error offline = some (codes "route_offline")
route_error queue_full = some (codes "route_queue_full")
route_error queue_empty = some (codes "route_internal")
route_error invalid = some (codes "route_internal")
route_error exists = some (codes "route_internal")
route_error full = some (codes "route_internal")
route_error conflict = some (codes "route_internal")
route_error buffer_too_small = some (codes "route_internal")

abbrev pub route : Bool → Command → Option Text → Downlink → Option Text × Downlink
route sends command none d = (none, d)
route sends command (some error) d =
    let (done, text, context) = gateway_app_send_route_nack sends d.gateway_context command error in
    (text, record d { gateway_context = context })

abbrev pub on_command : Bool → Option Command → Downlink → Option Text × Downlink
on_command sends none d =
    (none, record d { gateway_context = count_decode_error d.gateway_context })
on_command sends (some command) d =
    let (result, m) = device_manager_enqueue_command d.device_manager command.target_node command in
    route sends command (route_error result) (record d { device_manager = m })

-- The text given to the socket, and the state afterwards.
unfoldable pub gateway_app_on_tcp_line : Bool → Text → Downlink → Option Text × Downlink
gateway_app_on_tcp_line sends line d =
    on_command sends (decoded (message_json_decode_command line)) d
