-- ===== src/MessageJson/Decode.antt =====
-- `json_parse_object` and the decoders of CMD, ACK and NACK lines. A decoder returns the number of
-- bytes that it consumed beside the message; a failure is `none`, though `*out` is cleared then.
use smart_gateway.Prelude.{
  ℕ, ◌-◌, leb, ◌==◌, if◌then◌else◌, Bool, true, false, ◌||◌, List, [], ◌∷◌, Option, none, some,
  length,
}
use smart_gateway.Prelude.Text.{Text, codes, c_string, text_eq}
use smart_gateway.Prelude.Int.{ℤ, to_int, negated}
use smart_gateway.Frame.{print_int, led_key, cmd_type, ack_type, nack_type}
use smart_gateway.Frame.Kinds.{Kv}
use smart_gateway.FrameParser.Decode.{
  KvMessage, NackMessage, skip_space, read_sign, read_digits, is_digit, is_space,
}
use smart_gateway.DeviceManager.{Command}
use smart_gateway.MessageJson.Scan.{
  starts_with, starts_with_digit, skip_minus, skip_decimals, read_value, ◌>>=◌,
}
use smart_gateway.MessageJson.Object.{Handler, read_object, result}

-- `json_object_t`: a found flag and its value are an `Option`.
pub record JsonObject : Type 0 where
  pub node_id : Option Text
  pub sender : Option Text
  pub sequence : Option ℕ
  pub led : Option ℤ
  pub error : Option Text
  pub type_value : Option Text
  pub found_fields : Bool
  pub fields : List Kv

abbrev pub empty_object : JsonObject
empty_object = record {
  node_id = none;
  sender = none;
  sequence = none;
  led = none;
  error = none;
  type_value = none;
  found_fields = false;
  fields = [];
}

-- `atoi` of at most 15 characters, which a `long` holds.
unfoldable pub atoi : Text → ℤ
unfolding skip_space read_sign read_digits is_digit is_space
atoi s =
    let (minus, s1) = read_sign (skip_space s) in
    let (n, s2) = read_digits 0 s1 in to_int (if minus then negated n else n)

-- A member with a string value.
unfoldable pub object_string : Text → Text → JsonObject → Option JsonObject
object_string key value o =
    if text_eq key (codes "node")
    then if leb 32 (length value) then none else some (record o { node_id = some (c_string value) })
    else if text_eq key (codes "sender")
    then if leb 32 (length value) then none else some (record o { sender = some (c_string value) })
    else if text_eq key (codes "type")
    then if leb 8 (length value)
      then none
      else some (record o { type_value = some (c_string value) })
    else if text_eq key (codes "led")
    then if length value == 0 || leb 16 (length value)
      then none
      else some (record o { led = some (atoi (c_string value)) })
    else if text_eq key (codes "error")
    then if length value == 0 || leb 32 (length value)
      then none
      else some (record o { error = some (c_string value) })
    else some o

-- The value of the member `"led"`. The sign changes the `int`; that of -2 ^ 31 is undefined in C,
-- and keeps its bits here.
unfoldable pub led_value : Bool → ℕ → ℤ
led_value minus n = to_int (if minus then negated n else n)

-- What a number does to the object.
unfoldable pub object_value : Text → Bool → ℕ → JsonObject → Option JsonObject
object_value key minus n o =
    if text_eq key (codes "seq")
    then if minus then none else some (record o { sequence = some n })
    else if text_eq key (codes "led")
    then some (record o { led = some (led_value minus n) })
    else some o

-- A member with a number.
unfoldable pub object_number : Text → Text → JsonObject → Option (JsonObject × Text)
object_number key s o =
    let digits = skip_minus s in
    let read : Option (JsonObject × Text) = (do
      (n, rest) ← read_value 0 digits
      o' ← object_value key (starts_with b'-' s) n o
      some (o', skip_decimals rest)) in
    if starts_with_digit digits then read else none

abbrev pub object_handler : Handler
object_handler = record {
  State = JsonObject;
  fields = λ o. o.fields;
  set_fields = λ o fs. record o { found_fields = true; fields = fs };
  on_string = object_string;
  on_number = object_number;
}

-- The object, and the number of bytes consumed.
unfoldable pub json_parse_object : Text → Option (ℕ × JsonObject)
json_parse_object line = do
  (o, rest) ← result (read_object object_handler empty_object line)
  some (length line - length rest, o)

-- `type_size` bytes are there for the type and its NUL.
unfoldable pub message_json_peek_type : Text → ℕ → Option Text
message_json_peek_type line type_size =
    let peek : Option Text = (do
      (n, o) ← json_parse_object line
      type ← o.type_value
      if leb type_size (length type) then none else some type) in
    if type_size == 0 then none else peek

-- The parameters of a command and the state in an ACK: `"fields"`, or else the old `"led"`.
unfoldable pub fields_or_led : JsonObject → List Kv
fields_or_led o =
    if o.found_fields
    then o.fields
    else elim (o.led) [ none ↦ [] | some n ↦ record { key = led_key; value = print_int n } ∷ [] ]

-- A text that fits an array of 32 bytes.
abbrev pub fits32 : Text → Option Text
fits32 s = if leb 32 (length s) then none else some s

-- The type must be there, and be this one.
abbrev pub has_type : Text → Option Text → Option Text
has_type type none = none
has_type type (some t) = if text_eq t type then some t else none

unfoldable pub message_json_decode_command : Text → Option (ℕ × Command)
message_json_decode_command line = do
  (n, o) ← json_parse_object line
  node ← o.node_id
  sender ← o.sender
  sequence ← o.sequence
  type ← has_type cmd_type o.type_value
  target_node ← fits32 node
  from ← fits32 sender
  some (
    n,
    record {
      target_node = target_node;
      sender = from;
      sequence = sequence;
      fields = fields_or_led o;
    },
  )

unfoldable pub message_json_decode_ack : Text → Option (ℕ × KvMessage)
message_json_decode_ack line = do
  (n, o) ← json_parse_object line
  node ← o.node_id
  sequence ← o.sequence
  type ← has_type ack_type o.type_value
  node_id ← fits32 node
  some (n, record { node_id = node_id; sequence = sequence; fields = fields_or_led o })

unfoldable pub message_json_decode_nack : Text → Option (ℕ × NackMessage)
message_json_decode_nack line = do
  (n, o) ← json_parse_object line
  node ← o.node_id
  sequence ← o.sequence
  text ← o.error
  type ← has_type nack_type o.type_value
  node_id ← fits32 node
  error ← fits32 text
  some (n, record { node_id = node_id; sequence = sequence; error = error })
