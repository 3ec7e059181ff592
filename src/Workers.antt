-- ===== src/Workers.antt =====
-- gateway/bluetooth_worker.c and gateway/wifi_client.c: the threads that own a connection to a
-- node.
--
-- The workers of the nodes are the same but for how a command is encoded, so that is a parameter.
-- What the system calls return is an argument. A worker's loop is a sequence of the steps below, in
-- the order in which the descriptors become ready.
pub mod Accounts
pub mod Forward
mod Tests
use smart_gateway.Prelude.{
  ℕ, ◌+◌, ltb, leb, ◌==◌, if◌then◌else◌, Bool, true, false, ◌||◌, not, List, [], ◌∷◌, ◌++◌, Option,
  none, some, length, take,
}
use smart_gateway.Prelude.Text.{Text, codes}
use smart_gateway.Prelude.Int.{ℤ, negsuc, is_negative}
use smart_gateway.Frame.{frame_build_command_kv}
use smart_gateway.Frame.Kinds.{Result, ok, err}
use smart_gateway.FrameParser.{ParsedFrame, Parser, frame_parser_feed}
use smart_gateway.DeviceManager.{
  Command, Outcome, queue_empty, ok, invalid, not_found, exists, full, conflict, offline,
  queue_full, buffer_too_small, queue_capacity,
}
use smart_gateway.DeviceManager.Queues.{
  device_manager_try_dequeue_command, device_manager_disconnect_collect_commands,
}
use smart_gateway.SendAll.{Write, all_written, failed_after}
use smart_gateway.LineParser.{line_parser_feed}
use smart_gateway.MessageJson.Build.{message_json_build_command}
use smart_gateway.GatewayApp.Upstream.{
  Upstream, Now, is_ok, json_size, nack_all, gateway_app_enqueue_nack, gateway_app_on_frame,
  gateway_app_on_wifi_line,
}

-- The results 0, 1 and -1 of the functions that send a command.
pub data Attempted : Type 0 where
  no_command sent lost : Attempted

-- An encoder fails with `none`, or returns what is to be written.
abbrev pub Encoder : Type 0
Encoder = Command → Option Text

abbrev length_or_none : Result ℕ × Text → Option Text
length_or_none (ok n, frame) = some frame
length_or_none (err e, frame) = none

abbrev pub json_or_none : Option ℕ × Text → Option Text
json_or_none (none, json) = none
json_or_none (some n, json) = some json

-- `char frame[FRAME_MAX_LEN]`
unfoldable pub encode_frame : Encoder
encode_frame c = length_or_none (frame_build_command_kv [] 256 c.sender c.sequence c.fields)

-- `char json[256]`
unfoldable pub encode_json : Encoder
encode_json c = json_or_none (message_json_build_command [] json_size c)

-- The outcome, the bytes that went out to the node, and the state.
abbrev pub Sent : Type 0
Sent = Attempted × Text × Upstream

-- A command has been taken from the queue. A failed encoding leaves the connection open, a failed
-- write gives it up.
abbrev pub write_command : Write → Command → Option Text → Upstream → Sent
write_command write c none u = (
  no_command,
  [],
  gateway_app_enqueue_nack u.bound_node_id c.sequence (codes "cmd_encode_failed") u,
)
write_command all_written c (some text) u = (sent, text, u)
write_command (failed_after n) c (some text) u = (
  lost,
  take n text,
  gateway_app_enqueue_nack u.bound_node_id c.sequence (codes "transport_send_failed") u,
)

-- A worker that is not the owner any more gives up; other failures are passed over.
abbrev pub take_command : Encoder → Write → Outcome × Option Command → Upstream → Sent
take_command encode write (ok, some c) u = write_command write c (encode c) u
take_command encode write (conflict, c) u = (lost, [], u)
take_command encode write (other, c) u = (no_command, [], u)

-- `bluetooth_worker_try_send_command` with `encode_frame`, `wifi_client_try_send_command` with
-- `encode_json`. The argument is the result of `serial_port_write_all`, `wifi_client_send_all`.
unfoldable pub try_send_command : Encoder → Write → Now → ℤ → Upstream → Sent
try_send_command encode write now fd u =
    let (r, m) =
      device_manager_try_dequeue_command u.device_manager u.bound_node_id fd now.thread in
    if is_negative fd
    then (lost, [], u)
    else if length u.bound_node_id == 0
    then (no_command, [], u)
    else take_command encode write r (record u { device_manager = m })

-- The end of a connection: the commands that wait are answered, unless another worker owns the
-- device by now. Then the identity is forgotten.
unfoldable pub close_connection : Now → ℤ → Upstream → Upstream
close_connection now fd u =
    let (c, m) =
      device_manager_disconnect_collect_commands u.device_manager u.bound_node_id fd now.thread true
        queue_capacity in
    let u' = record u { device_manager = m } in
    let answered = nack_all c.commands (codes "transport_disconnected") u' in
    let done =
      if length u.bound_node_id == 0 then u else if is_ok c.outcome then answered else u' in
    record done { bound_node_id = []; device_fd = negsuc 0 }

-- The callback on each frame that the parser delivers.
unfoldable pub on_frames : Now → List ParsedFrame → Upstream → Upstream
on_frames now [] u = u
on_frames now (f ∷ fs) u = on_frames now fs (gateway_app_on_frame now f u)

-- Bytes from the serial port.
unfoldable pub bluetooth_receive : Now → List ℕ → Parser × Upstream → Parser × Upstream
bluetooth_receive now bytes (parser, u) =
    let (parser', count, frames) = frame_parser_feed parser bytes in
    (parser', on_frames now frames u)

-- `char wifi_buffer[1024]`
abbrev pub buffer_size : ℕ
buffer_size = 1024

unfoldable pub on_lines : Now → List Text → Upstream → Upstream
on_lines now [] u = u
on_lines now (line ∷ lines) u = on_lines now lines (gateway_app_on_wifi_line now line u)

-- Bytes from a socket. Those that the buffer has no room for empty it.
unfoldable pub wifi_receive : Now → List ℕ → List ℕ × Upstream → List ℕ × Upstream
wifi_receive now bytes (buffer, u) =
    let (count, lines, rest) = line_parser_feed (buffer ++ bytes) buffer_size in
    if ltb buffer_size (length buffer + length bytes) then ([], u) else (rest, on_lines now lines u)
