-- ===== src/MessageJson/Tests.antt =====
-- The JSON codec at concrete inputs.
use smart_gateway.Prelude.{ℕ, ◌^◌, ◌≡◌, ◌<◌, ◌-◌, refl, arith, [], ◌∷◌, some, none, length}
use smart_gateway.Prelude.Text.{Text, codes, text_eq, c_string}
use smart_gateway.Prelude.Int.{to_int}
use smart_gateway.Frame.{decimal, print_int}
use smart_gateway.Frame.Tests.{node01, temperature}
use smart_gateway.FrameParser.Decode.{KvMessage, is_digit}
use smart_gateway.MessageJson.Build.{
  message_json_build_data, build_fields_json, node_prefix, kv_json, print_uint,
}
use smart_gateway.MessageJson.Scan.{
  json_skip_whitespace, read_string, read_key, read_value, skip_digits,
}
use smart_gateway.MessageJson.Object.{
  kv_array_add, read_field_value, read_fields, read_member, read_members, read_object,
}
use smart_gateway.MessageJson.Decode.{
  object_handler, empty_object, json_parse_object, object_string, object_number,
  message_json_decode_ack, message_json_peek_type,
}
use smart_gateway.MessageJson.Data.{
  message_json_decode_data, data_string, data_number, x10_field, json_parse_x10, data_sequence,
  data_handler, empty_state,
}
use smart_gateway.MessageJson.Format.{data_line, line_of}
use smart_gateway.MessageJson.Lines.{build, printed, build-line_of}
use smart_gateway.MessageJson.RoundTrip.{IsJsonMessage, decode_as, type_of, json_roundtrip}
use smart_gateway.MessageJson.Termination.{Ends}
use smart_gateway.MessageJson.Totality.{parsers_end}

abbrev pub sample : KvMessage
sample = record { node_id = node01; sequence = 7; fields = temperature ∷ [] }

sample_built : message_json_build_data [] 256 sample ≡ (
  some 61,
  codes "{\"node\":\"NODE01\",\"seq\":7,\"type\":\"DATA\",\"fields\":{\"T\":\"253\"}}\n",
)
unfolding message_json_build_data build_fields_json node_prefix kv_json print_uint decimal
sample_built = refl

sample_too_long : message_json_build_data [] 61 sample ≡ (none, [])
unfolding message_json_build_data build_fields_json node_prefix kv_json print_uint decimal
sample_too_long = refl

old_format :
    message_json_decode_data
      (codes "{\"node\":\"NODE01\",\"temperature\": -3.5,\"seq\":7,\"type\":\"DATA\"}")
    ≡ some (
      59,
      record {
        node_id = node01;
        sequence = 7;
        fields = record { key = codes "T"; value = codes "-35" } ∷ [];
      },
    )
unfolding message_json_decode_data read_object read_members read_member json_skip_whitespace
    read_string read_key text_eq c_string data_string data_number x10_field read_value is_digit
    skip_digits print_int
old_format = refl

-- A sequence without digits, which the other decoders refuse.
sequence_without_digits :
    message_json_decode_data (codes "{\"node\":\"NODE01\",\"seq\":,\"type\":\"DATA\"}")
    ≡ some (38, record { node_id = node01; sequence = 0; fields = [] })
unfolding message_json_decode_data read_object read_members read_member json_skip_whitespace
    read_string read_key text_eq c_string data_string data_number data_sequence read_value is_digit
sequence_without_digits = refl

ack_without_digits :
    message_json_decode_ack (codes "{\"node\":\"NODE01\",\"seq\":,\"type\":\"ACK\"}") ≡ none
unfolding message_json_decode_ack json_parse_object read_object read_members read_member
    json_skip_whitespace read_string read_key text_eq c_string object_string object_number is_digit
ack_without_digits = refl

-- 2147483639 degrees are -90 tenths.
large_number : json_parse_x10 (codes "2147483639}") ≡ some (to_int 4294967206, codes "}")
unfolding json_parse_x10
large_number = refl

-- A value with a quotation mark in it ends early, and the line is not read back.
abbrev quoted : KvMessage
quoted = record sample { fields = record { key = codes "S"; value = codes "a\"b" } ∷ [] }

quoted_is_lost : message_json_decode_data (message_json_build_data [] 256 quoted).1 ≡ none
unfolding message_json_build_data build_fields_json node_prefix kv_json print_uint decimal
    message_json_decode_data read_object read_members read_member json_skip_whitespace read_fields
    read_field_value kv_array_add read_string read_key text_eq c_string data_string data_number
    data_sequence read_value is_digit
quoted_is_lost = refl

-- With braces behind it, the line is read without the fields that follow.
abbrev shortened : KvMessage
shortened = record sample {
  fields = record { key = codes "S"; value = codes "a\"}}" } ∷ temperature ∷ [];
}

shortened_is_read :
    message_json_decode_data (message_json_build_data [] 256 shortened).1
    ≡ some (58, record sample { fields = record { key = codes "S"; value = codes "a" } ∷ [] })
unfolding message_json_build_data build_fields_json node_prefix kv_json print_uint decimal
    message_json_decode_data read_object read_members read_member json_skip_whitespace read_fields
    read_field_value kv_array_add read_string read_key text_eq c_string data_string data_number
    data_sequence read_value is_digit
shortened_is_read = refl

sample_length : (build [] 256 (data_line sample)).0 ≡ some 61
unfolding build message_json_build_data build_fields_json node_prefix kv_json print_uint decimal
sample_length = refl

pub sample-IsJsonMessage :
    (n : ℕ)
    → n < 2 ^ 32
    → IsJsonMessage
        (data_line (record { node_id = node01; sequence = n; fields = temperature ∷ [] }))
unfolding IsJsonMessage
sample-IsJsonMessage n small = (
  record { plain = omega arith; short = omega arith; text = omega arith },
  small,
  (
    record {
      fits = record {
        key_fits = omega arith;
        value_fits = omega arith;
        key_text = omega arith;
        value_text = omega arith;
      };
      key_given = omega arith;
      value_given = omega arith;
      key_plain = omega arith;
      value_plain = omega arith;
    },
    tt,
  ),
  omega arith,
)

json_roundtrip_example :
    let line = (build [] 256 (data_line sample)).1 in
    (message_json_peek_type line 8 ≡ some (type_of (data_line sample)))
    × (decode_as (data_line sample) line ≡ some (61 - 1, data_line sample))
json_roundtrip_example =
    json_roundtrip [] 256 (data_line sample) (sample-IsJsonMessage 7 (omega arith)) sample_length

build-line_of_example : build [] 61 (data_line sample) ≡ printed [] 61 (line_of (data_line sample))
build-line_of_example = build-line_of [] 61 (data_line sample)

abbrev cut_line : Text
cut_line = codes "{\"node\":\"NODE01\",\"fields\":{\"T\""

parsers_end_example :
    Ends (λ p. length p.1 < length cut_line) (read_object object_handler empty_object cut_line)
    × Ends (λ p. length p.1 < length cut_line) (read_object data_handler empty_state cut_line)
parsers_end_example = parsers_end cut_line
