-- ===== src/MessageJson/Data.antt =====
-- `message_json_decode_data`, which has a parser of its own, and `json_parse_x10`.
use smart_gateway.Prelude.{
  ℕ, ◌+◌, ◌-◌, ◌*◌, ◌/◌, ltb, leb, if◌then◌else◌, Bool, true, false, not, List, [], ◌∷◌, Option,
  none, some, length, drop,
}
use smart_gateway.Prelude.Text.{Text, codes, c_string, text_eq}
use smart_gateway.Prelude.Int.{ℤ, to_int, negated}
use smart_gateway.Frame.{print_int, data_type}
use smart_gateway.Frame.Kinds.{Kv}
use smart_gateway.FrameParser.Decode.{KvMessage, is_digit}
use smart_gateway.MessageJson.Scan.{
  starts_with, starts_with_digit, skip_digits, skip_minus, skip_decimals, read_value, ◌>>=◌,
}
use smart_gateway.MessageJson.Object.{Handler, kv_array_add, read_object, result}

-- The digits before the point; a digit behind more than 214748363 fails.
unfoldable pub read_int_part : ℕ → Text → Option (ℕ × Text)
read_int_part acc [] = some (acc, [])
read_int_part acc (c ∷ s) =
    let rest = read_int_part (acc * 10 + (c - b'0')) s in
    if not (is_digit c)
    then some (acc, c ∷ s)
    else if ltb ((0x7FFFFFFF - 9) / 10) acc
    then none
    else rest

-- The first digit behind the point, 0 if there is none.
pub first_digit : Text → ℕ
first_digit [] = 0
first_digit (c ∷ s) = if is_digit c then c - b'0' else 0

-- Tenths, and the text behind the number.
unfoldable pub tenths : Text → ℕ × Text
tenths s = if starts_with b'.' s then (first_digit (drop 1 s), skip_digits (drop 1 s)) else (0, s)

-- The value is cut to the low 32 bits of a `long`.
unfoldable pub json_parse_x10 : Text → Option (ℤ × Text)
unfolding read_int_part tenths first_digit is_digit skip_digits
json_parse_x10 s =
    let digits = skip_minus s in
    let read : Option (ℤ × Text) = (do
      (int_part, s1) ← read_int_part 0 digits
      let (frac_digit, s2) = tenths s1
      let value = int_part * 10 + frac_digit
      some (to_int (if starts_with b'-' s then negated value else value), s2)) in
    if starts_with_digit digits then read else none

-- The found flags of the function, and `data->fields`.
pub record DataState : Type 0 where
  pub node_id : Option Text
  pub sequence : Option ℕ
  pub found_type : Bool
  pub fields : List Kv

abbrev pub empty_state : DataState
empty_state = record { node_id = none; sequence = none; found_type = false; fields = [] }

unfoldable pub data_string : Text → Text → DataState → Option DataState
data_string key value d =
    if text_eq key (codes "node")
    then if leb 32 (length value) then none else some (record d { node_id = some (c_string value) })
    else if text_eq key (codes "type")
    then if text_eq value data_type then some (record d { found_type = true }) else none
    else some d

-- `"temperature"` or `"humidity"`, as a field with this key.
unfoldable pub x10_field : Text → Text → DataState → Option (DataState × Text)
unfolding json_parse_x10 kv_array_add
x10_field key s d = do
  (x10, rest) ← json_parse_x10 s
  fields ← kv_array_add d.fields key (print_int x10)
  some (record d { fields = fields }, rest)

-- `"seq"`, which needs no digit here.
unfoldable pub data_sequence : Text → DataState → Option (DataState × Text)
data_sequence s d =
    let read : Option (DataState × Text) = (do
      (n, rest) ← read_value 0 s
      some (record d { sequence = some n }, skip_decimals rest)) in
    if starts_with b'-' s then none else read

unfoldable pub data_number : Text → Text → DataState → Option (DataState × Text)
unfolding data_sequence
data_number key s d =
    if text_eq key (codes "temperature")
    then x10_field (codes "T") s d
    else if text_eq key (codes "humidity")
    then x10_field (codes "H") s d
    else if text_eq key (codes "seq")
    then data_sequence s d
    else some (d, skip_decimals (skip_digits (skip_minus s)))

abbrev pub data_handler : Handler
data_handler = record {
  State = DataState;
  fields = λ d. d.fields;
  set_fields = λ d fs. record d { fields = fs };
  on_string = data_string;
  on_number = data_number;
}

unfoldable pub message_json_decode_data : Text → Option (ℕ × KvMessage)
message_json_decode_data line = do
  (d, rest) ← result (read_object data_handler empty_state line)
  node_id ← d.node_id
  sequence ← d.sequence
  if d.found_type
      then some (
        length line - length rest,
        record { node_id = node_id; sequence = sequence; fields = d.fields },
      )
      else none
