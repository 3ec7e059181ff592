-- ===== src/Workers/Tests.antt =====
-- The workers at concrete inputs.
use smart_gateway.Prelude.{
  ◌%◌, ◌<◌, ◌-◌, length, ◌≡◌, ◌++◌, refl, arith, true, false, [], ◌∷◌, some, map, set, replicate,
  take,
}
use smart_gateway.Prelude.Text.{codes, text_eq}
use smart_gateway.Prelude.Int.{pos, negsuc}
use smart_gateway.Frame.{decimal, frame_build_data_kv}
use smart_gateway.Frame.Tests.{node01, temperature, sample_length}
use smart_gateway.FrameParser.{frame_parser_init}
use smart_gateway.FrameParser.Decode.{KvMessage}
use smart_gateway.MessageQueue.{Message}
use smart_gateway.MessageJson.Build.{kv_json, print_uint}
use smart_gateway.MessageJson.Prefix.{from_node, numbered}
use smart_gateway.MessageJson.Parsed.{fields_end}
use smart_gateway.MessageJson.RoundTrip.{object_then}
use smart_gateway.LineParser.{line_parser_feed}
use smart_gateway.JsonStream.{HasNoLineEnd, object_text}
use smart_gateway.NodeStore.{no_entry, node_store_update}
use smart_gateway.CommandManager.{command_manager_create}
use smart_gateway.ServerMain.{ServerContext, line_has, bytes_at, on_line}
use smart_gateway.MessageJson.Fields.{kvs_json}
use smart_gateway.MessageJson.Tests.{sample-IsJsonMessage}
use smart_gateway.DeviceManager.{device_manager_update_last_seen}
use smart_gateway.GatewayApp.Upstream.{is_ok}
use smart_gateway.Workers.{bluetooth_receive}
use smart_gateway.Workers.Forward.{text_of, frame_reaches_server}
use smart_gateway.DeviceManager.{
  Command, Device, bluetooth, no_command, find_index, queue_capacity, ok,
}
use smart_gateway.DeviceManager.Queues.{
  dequeue_device, disconnect_device, device_manager_try_dequeue_command,
  device_manager_disconnect_collect_commands,
}
use smart_gateway.MessageJson.Format.{line_of, data_line}
use smart_gateway.GatewayApp.Upstream.{Upstream, message_of}
use smart_gateway.GatewayApp.Upstream.Pushed.{nack_of}
use smart_gateway.GatewayApp.Tests.{connection, moment}
use smart_gateway.SendAll.{failed_after}
use smart_gateway.Workers.{encode_frame, try_send_command, close_connection, wifi_receive}
use smart_gateway.Workers.Accounts.{accounted, try_send-accounted, close-answered}

abbrev led_on : Command
led_on = record {
  target_node = node01;
  sender = codes "GW";
  sequence = 4;
  fields = record { key = codes "LED"; value = codes "1" } ∷ [];
}

-- A device that the first thread owns, with one command.
abbrev device : Device
device = record {
  node_id = node01;
  transport = bluetooth;
  fd = pos 5;
  online = true;
  thread_id = 1;
  last_seen = pos 100;
  command_queue = set (replicate queue_capacity no_command) 0 led_on;
  command_head = 0;
  command_tail = 1;
  command_count = 1;
}

abbrev worker : Upstream
worker = record connection { device_manager = record { devices = device ∷ [] } }

led_on_taken :
    (device_manager_try_dequeue_command worker.device_manager node01 (pos 5) 1).0
    ≡ (ok, some led_on)
unfolding device_manager_try_dequeue_command dequeue_device find_index text_eq
led_on_taken = refl

try_send-accounted_example :
    let m = (device_manager_try_dequeue_command worker.device_manager node01 (pos 5) 1).1 in
    try_send_command encode_frame (failed_after 3) moment (pos 5) worker
    ≡ accounted led_on (encode_frame led_on) (failed_after 3) (record worker { device_manager = m })
try_send-accounted_example =
    try_send-accounted encode_frame (failed_after 3) moment (pos 5) worker led_on led_on_taken refl
      (omega arith) (omega arith)

led_on_collected :
    let c =
      (device_manager_disconnect_collect_commands worker.device_manager node01
        (pos 5)
        1
        true
        queue_capacity).0 in
    (c.outcome ≡ ok) × (c.commands ≡ led_on ∷ [])
unfolding device_manager_disconnect_collect_commands disconnect_device find_index text_eq
led_on_collected = (refl, refl)

-- The queue has been shut down.
abbrev closing : Upstream
closing = record worker { pushes_left = some 0 }

close-answered_example :
    let (c, m) =
      device_manager_disconnect_collect_commands worker.device_manager node01
        (pos 5)
        1
        true
        queue_capacity in
    let nacks =
      map (λ k. message_of (line_of (nack_of (codes "transport_disconnected") k))) c.commands in
    close_connection moment (pos 5) closing ≡ record closing {
      device_manager = m;
      bound_node_id = [];
      device_fd = negsuc 0;
      pushed = closing.pushed ++ take 0 nacks;
      pushes_left = some (0 - length nacks);
    }
close-answered_example =
    close-answered moment (pos 5) closing led_on_collected.0 (omega arith)
      (rw (led_on_collected.1) ((omega arith, omega arith), tt))

-- Bytes that the buffer has no room for empty it.
overflow : (wifi_receive moment (replicate 25 65) (replicate 1000 65, worker)).0 ≡ []
unfolding wifi_receive
overflow = refl

abbrev delivered : KvMessage
delivered = record { node_id = node01; sequence = 1000001 % 1000000; fields = temperature ∷ [] }

abbrev server : ServerContext
server = record {
  store = record { entries = no_entry ∷ []; capacity = 1; count = 0 };
  manager = command_manager_create;
}

delivered_short : length (line_of (data_line delivered)) < 256
unfolding line_of decimal
delivered_short = omega arith

delivered_plain : HasNoLineEnd (data_line delivered)
unfolding HasNoLineEnd
delivered_plain = (omega arith, ((omega arith, omega arith), tt))

no_ack : line_has (object_text (data_line delivered)) (codes "\"type\":\"ACK\"") ≡ false
unfolding object_text object_then from_node numbered fields_end kvs_json kv_json print_uint decimal
    line_has bytes_at
no_ack = refl

no_nack : line_has (object_text (data_line delivered)) (codes "\"type\":\"NACK\"") ≡ false
unfolding object_text object_then from_node numbered fields_end kvs_json kv_json print_uint decimal
    line_has bytes_at
no_nack = refl

worker_known :
    is_ok (device_manager_update_last_seen worker.device_manager node01 (pos 100)).0 ≡ true
unfolding device_manager_update_last_seen find_index text_eq
worker_known = refl

frame_reaches_server_example :
    let m = (device_manager_update_last_seen worker.device_manager node01 (pos 100)).1 in
    let line = object_text (data_line delivered) in
    let (q, v) =
      bluetooth_receive moment
        (frame_build_data_kv [] 256 node01 1000001 (temperature ∷ [])).1
        (frame_parser_init, worker) in
    (message : Message) × (v
      ≡ record worker { device_manager = m; pushed = worker.pushed ++ message ∷ [] })
    × (line_parser_feed (text_of message) 4096 ≡ (1, line ∷ [], []))
    × (on_line (some 5) line server
        ≡ record server { store = (node_store_update (some 5) delivered server.store).1 })
frame_reaches_server_example =
    frame_reaches_server [] 256 node01 1000001 (temperature ∷ []) frame_parser_init moment worker
      4096 (some 5) server (omega arith) (omega arith) (omega arith) (omega arith) (omega arith)
      sample_length refl refl (omega arith) worker_known
      (sample-IsJsonMessage (1000001 % 1000000) (omega arith)) delivered_plain delivered_short
      no_ack no_nack
