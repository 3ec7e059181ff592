-- ===== src/ServerMain/Tests.antt =====
-- Lines from the gateway at the server, at concrete inputs.
use smart_gateway.Prelude.{◌≡◌, refl, arith, [], ◌∷◌, some, none, true}
use smart_gateway.Prelude.Text.{codes, text_eq, c_string}
use smart_gateway.Frame.{decimal}
use smart_gateway.Frame.Tests.{temperature}
use smart_gateway.FrameParser.Decode.{KvMessage, is_digit}
use smart_gateway.CommandManager.{command_manager_create, command_manager_on_ack}
use smart_gateway.MessageJson.Build.{
  message_json_build_data, build_fields_json, node_prefix, kv_json, print_uint,
}
use smart_gateway.MessageJson.Scan.{json_skip_whitespace, read_string, read_key, read_value}
use smart_gateway.MessageJson.Object.{
  kv_array_add, read_field_value, read_fields, read_member, read_members, read_object,
}
use smart_gateway.MessageJson.Decode.{
  json_parse_object, object_string, object_number, object_value, message_json_decode_ack,
}
use smart_gateway.MessageJson.Format.{ack_line}
use smart_gateway.MessageJson.RoundTrip.{IsJsonMessage}
use smart_gateway.MessageJson.Tests.{sample, sample-IsJsonMessage}
use smart_gateway.JsonStream.{object_text}
use smart_gateway.ServerMain.{ServerContext, line_has, bytes_at, on_line, on_line-ack}

abbrev context : ServerContext
context = record {
  store = record { entries = []; capacity = 0; count = 0 };
  manager = command_manager_create;
}

sample-IsAck : IsJsonMessage (ack_line sample)
unfolding IsJsonMessage
sample-IsAck = sample-IsJsonMessage 7 (omega arith)

on_line-ack_example :
    on_line (some 5) (object_text (ack_line sample)) context
    ≡ record context { manager = (command_manager_on_ack context.manager sample).1 }
on_line-ack_example = on_line-ack (some 5) sample context sample-IsAck

-- Data with a field `type=ACK` are taken for an ACK, which they are not, and are lost.
abbrev misleading : KvMessage
misleading = record sample {
  fields = record { key = codes "type"; value = codes "ACK" } ∷ temperature ∷ [];
}

taken_for_ack :
    line_has (message_json_build_data [] 256 misleading).1 (codes "\"type\":\"ACK\"") ≡ true
unfolding message_json_build_data build_fields_json node_prefix kv_json print_uint decimal line_has
    bytes_at
taken_for_ack = refl

refused_as_ack : message_json_decode_ack (message_json_build_data [] 256 misleading).1 ≡ none
unfolding message_json_build_data build_fields_json node_prefix kv_json print_uint decimal
    message_json_decode_ack json_parse_object read_object read_members read_member
    json_skip_whitespace read_fields read_field_value kv_array_add read_string read_key text_eq
    c_string object_string object_number object_value read_value is_digit
refused_as_ack = refl

data_with_type_is_lost :
    on_line (some 5) (message_json_build_data [] 256 misleading).1 context ≡ context
unfolding on_line
data_with_type_is_lost = rw (taken_for_ack, refused_as_ack) refl
