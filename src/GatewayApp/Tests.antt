-- ===== src/GatewayApp/Tests.antt =====
-- The gateway's steps at concrete inputs.
use smart_gateway.Prelude.{◌≡◌, refl, arith, true, [], ◌∷◌, some, none, List}
use smart_gateway.Prelude.Text.{Text, codes}
use smart_gateway.Prelude.Int.{pos, negsuc}
use smart_gateway.Frame.Tests.{node01}
use smart_gateway.FrameParser.Decode.{skip_space, read_sign, read_digits, is_digit, is_space}
use smart_gateway.DeviceManager.{bluetooth}
use smart_gateway.MessageJson.Decode.{message_json_decode_command}
use smart_gateway.GatewayApp.{GatewayContext, gateway_app_try_tcp_connect}
use smart_gateway.GatewayApp.Arguments.{
  parse_long, parse_port, parse_baud_rate, baud_is_supported, gateway_app_parse_args,
}
use smart_gateway.GatewayApp.Arguments.Valid.{IsUsable, parse_args-IsUsable}
use smart_gateway.GatewayApp.Upstream.{Upstream, Now, decoded}
use smart_gateway.GatewayApp.Upstream.Identity.{
  Arrival, line_arrived, arrive_all, IsFaithful, arrivals-IsFaithful,
}
use smart_gateway.GatewayApp.Downlink.{Downlink, gateway_app_on_tcp_line}
use smart_gateway.GatewayApp.Downlink.Answers.{answered, on_tcp_line-answered}

port_read : parse_port (codes "9000") ≡ some 9000
unfolding parse_port parse_long skip_space read_sign read_digits is_digit is_space
port_read = refl

port_too_large : parse_port (codes "65536") ≡ none
unfolding parse_port parse_long skip_space read_sign read_digits is_digit is_space
port_too_large = refl

baud_unsupported : parse_baud_rate (codes "9601") ≡ none
unfolding parse_baud_rate baud_is_supported parse_long skip_space read_sign read_digits is_digit
    is_space
baud_unsupported = refl

abbrev pub context : GatewayContext
context = record {
  tcp_fd = pos 3;
  serial_fd = negsuc 0;
  next_tcp_retry = pos 0;
  next_serial_retry = pos 0;
  tcp_send = 0;
  tcp_send_error = 0;
  tcp_dropped = 0;
  tcp_connections = 1;
  tcp_connect_error = 0;
  server_ip = codes "127.0.0.1";
  server_port = 9000;
  decode_errors = 0;
  serial_connections = 0;
}

-- A connection is kept.
connected_already : gateway_app_try_tcp_connect (pos 5) (pos 4) context ≡ context
unfolding gateway_app_try_tcp_connect
connected_already = refl

abbrev arguments : List Text
arguments = codes "--port" ∷ codes "9001" ∷ codes "--baud" ∷ codes "9601" ∷ []

parse_args-IsUsable_example : IsUsable (gateway_app_parse_args arguments context).1
parse_args-IsUsable_example = parse_args-IsUsable arguments context (omega arith) (omega arith)

abbrev pub connection : Upstream
connection = record {
  gateway_context = context;
  device_manager = record { devices = [] };
  transport = bluetooth;
  device_fd = pos 5;
  bound_node_id = node01;
  pushed = [];
  pushes_left = none;
}

abbrev pub moment : Now
moment = record { thread = 1; time = pos 100 }

abbrev spoofed : Arrival
spoofed =
    line_arrived
      (codes "{\"node\":\"NODE02\",\"seq\":1,\"type\":\"DATA\",\"fields\":{\"T\":\"1\"}}")

arrivals-IsFaithful_example : IsFaithful connection (arrive_all ((moment, spoofed) ∷ []) connection)
arrivals-IsFaithful_example = arrivals-IsFaithful ((moment, spoofed) ∷ []) connection (omega arith)

abbrev command_text : Text
command_text =
    codes
      "{\"node\":\"NODE09\",\"sender\":\"GW\",\"seq\":4,\"type\":\"CMD\",\"fields\":{\"LED\":\"1\"}}"

abbrev server_side : Downlink
server_side = record { gateway_context = context; device_manager = record { devices = [] } }

on_tcp_line-answered_example :
    gateway_app_on_tcp_line true command_text server_side
    ≡ answered true (decoded (message_json_decode_command command_text)) server_side
on_tcp_line-answered_example = on_tcp_line-answered true command_text server_side refl
