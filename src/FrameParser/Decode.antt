-- ===== src/FrameParser/Decode.antt =====
-- The second half of common/frame_parser.c: the fields of a payload. The decoders fill a structure
-- only on success, as far as their callers may look: a failure is `none` here, though the code has
-- then cleared `*out` already.
pub mod Numbers
pub mod Tokens
pub mod Payload
use smart_gateway.Prelude.{
  ℕ, suc, ◌+◌, ◌-◌, ◌*◌, ◌%◌, ◌^◌, ltb, leb, ◌==◌, if◌then◌else◌, Bool, true, false, ◌&&◌, ◌||◌,
  not, List, [], ◌∷◌, Option, none, some, length, take, drop,
}
use smart_gateway.Prelude.Text.{Text, c_string, text_eq}
use smart_gateway.Frame.Kinds.{Kv}
use smart_gateway.Frame.{data_max_fields, data_type, cmd_type, ack_type, nack_type, err_prefix}

-- `isspace`
unfoldable pub is_space : ℕ → Bool
is_space c = c == 32 || leb 9 c && leb c 13

unfoldable pub is_digit : ℕ → Bool
is_digit c = leb b'0' c && leb c b'9'

unfoldable pub skip_space : Text → Text
skip_space [] = []
skip_space (c ∷ s) = if is_space c then skip_space s else c ∷ s

-- The sign of `strtoul`, and the text behind it.
unfoldable pub read_sign : Text → Bool × Text
read_sign [] = (false, [])
read_sign (c ∷ s) =
    if c == b'-' then (true, s) else if c == b'+' then (false, s) else (false, c ∷ s)

-- The digits at the head of a text, after the value `acc`, and the rest of the text.
unfoldable pub read_digits : ℕ → Text → ℕ × Text
read_digits acc [] = (acc, [])
read_digits acc (c ∷ s) =
    let rest = read_digits (acc * 10 + (c - b'0')) s in if is_digit c then rest else (acc, c ∷ s)

starts_with_digit : Text → Bool
starts_with_digit [] = false
starts_with_digit (c ∷ s) = is_digit c

-- `strtoul` has read `(value, end)`: `errno` is set above `ULONG_MAX`, a minus sign negates modulo
-- 2 ^ 64, and the caller refuses a rest and a result above `UINT32_MAX`.
check_value : Bool → ℕ × Text → Option ℕ
check_value minus (value, _ ∷ _) = none
check_value minus (value, []) =
    let parsed = if minus then (2 ^ 64 - value) % 2 ^ 64 else value in
    if leb (2 ^ 64) value then none else if leb (2 ^ 32) parsed then none else some parsed

read_number : Bool × Text → Option ℕ
read_number (minus, s) = if starts_with_digit s then check_value minus (read_digits 0 s) else none

-- The empty text is refused by the code's own test; `read_number` refuses it too.
unfoldable pub parse_uint32_decimal : Text → Option ℕ
unfolding skip_space read_sign read_digits starts_with_digit check_value read_number is_space
    is_digit
parse_uint32_decimal text = read_number (read_sign (skip_space text))

push_char : ℕ → List Text → List Text
push_char c [] = (c ∷ []) ∷ []
push_char c (w ∷ ws) = (c ∷ w) ∷ ws

-- The pieces between commas, empty ones included.
pub split_commas : Text → List Text
unfolding push_char
split_commas [] = [] ∷ []
split_commas (c ∷ s) = if c == b',' then [] ∷ split_commas s else push_char c (split_commas s)

pub drop_empty : List Text → List Text
drop_empty [] = []
drop_empty ([] ∷ ws) = drop_empty ws
drop_empty ((c ∷ w) ∷ ws) = (c ∷ w) ∷ drop_empty ws

-- The tokens that repeated calls of `strtok_r (…, ",", …)` return: never an empty one.
pub tokens : Text → List Text
unfolding split_commas drop_empty
tokens s = drop_empty (split_commas s)

-- `strchr`, as an index.
index_of : ℕ → Text → Option ℕ
index_of c [] = none
index_of c (x ∷ s) =
    if x == c then some 0 else elim (index_of c s) [ none ↦ none | some i ↦ some (suc i) ]

-- `KEY=VALUE`, cut at the first '='.
cut_field : Text → Option ℕ → Option Kv
cut_field kv none = none
cut_field kv (some eq) =
    let key = take eq kv in
    let value = drop (eq + 1) kv in
    if eq == 0
    then none
    else if length value == 0
    then none
    else if leb 16 eq || leb 32 (length value)
    then none
    else some (record { key = key; value = value })

pub parse_field : Text → Option Kv
unfolding cut_field index_of
parse_field kv = cut_field kv (index_of b'=' kv)

cons_field : Option Kv → Option (List Kv) → Option (List Kv)
cons_field none fs = none
cons_field (some f) none = none
cons_field (some f) (some fs) = some (f ∷ fs)

pub parse_fields : List Text → Option (List Kv)
unfolding cons_field
parse_fields [] = some []
parse_fields (kv ∷ kvs) = cons_field (parse_field kv) (parse_fields kvs)

-- `frame_data_t`, `frame_ack_t` and, with the sender as `node_id`, `frame_command_t`.
pub record KvMessage : Type 0 where
  pub node_id : Text
  pub sequence : ℕ
  pub fields : List Kv

-- `sizeof` of the id arrays of all three structures.
abbrev pub id_capacity : ℕ
id_capacity = 32

with_fields : Text → Option ℕ → Option (List Kv) → Option KvMessage
with_fields id none fs = none
with_fields id (some n) none = none
with_fields id (some n) (some fs) = some (record { node_id = id; sequence = n; fields = fs })

-- The checks on the tokens. With more than 4 + 16 of them the loop stops at a token that is left.
check_tokens : Text → List Text → Option KvMessage
check_tokens type (version ∷ id ∷ sequence ∷ kind ∷ kvs) =
    if ltb data_max_fields (length kvs)
    then none
    else if not (text_eq version (b'1' ∷ []))
    then none
    else if not (text_eq kind type)
    then none
    else if leb id_capacity (length id)
    then none
    else if not (length sequence == 6)
    then none
    else with_fields id (parse_uint32_decimal sequence) (parse_fields kvs)
check_tokens type few = none

pub parse_kv_payload : Text → Text → Option KvMessage
unfolding check_tokens with_fields
parse_kv_payload payload type =
    if leb 256 (length payload) then none else check_tokens type (tokens (c_string payload))

unfoldable pub frame_decode_data : Text → Option KvMessage
frame_decode_data payload = parse_kv_payload payload data_type

unfoldable pub frame_decode_command : Text → Option KvMessage
frame_decode_command payload = parse_kv_payload payload cmd_type

unfoldable pub frame_decode_ack : Text → Option KvMessage
frame_decode_ack payload = parse_kv_payload payload ack_type

-- `frame_nack_t`
pub record NackMessage : Type 0 where
  pub node_id : Text
  pub sequence : ℕ
  pub error : Text

with_error : Text → Option ℕ → Text → Option NackMessage
with_error id none error = none
with_error id (some n) error =
    if length error == 0 || leb 32 (length error)
    then none
    else some (record { node_id = id; sequence = n; error = error })

check_nack : List Text → Option NackMessage
check_nack (version ∷ id ∷ sequence ∷ kind ∷ error ∷ []) =
    if not (text_eq version (b'1' ∷ []))
    then none
    else if not (text_eq kind nack_type)
    then none
    else if not (text_eq (take 4 error) err_prefix)
    then none
    else if leb id_capacity (length id)
    then none
    else if not (length sequence == 6)
    then none
    else with_error id (parse_uint32_decimal sequence) (drop 4 error)
check_nack other = none

pub frame_decode_nack : Text → Option NackMessage
unfolding check_nack with_error
frame_decode_nack payload =
    if leb 256 (length payload) then none else check_nack (tokens (c_string payload))

-- `frame_message_type_t`
pub data MessageType : Type 0 where
  unknown_message data_message cmd_message ack_message nack_message : MessageType

unfoldable pub type_of_token : Text → MessageType
type_of_token s =
    if text_eq s data_type
    then data_message
    else if text_eq s cmd_type
    then cmd_message
    else if text_eq s ack_type
    then ack_message
    else if text_eq s nack_type
    then nack_message
    else unknown_message

type_of_tokens : List Text → MessageType
type_of_tokens (version ∷ id ∷ sequence ∷ kind ∷ rest) = type_of_token kind
type_of_tokens few = unknown_message

pub frame_get_message_type : Text → MessageType
unfolding type_of_tokens type_of_token
frame_get_message_type payload =
    if leb 256 (length payload) then unknown_message else type_of_tokens (tokens (c_string payload))

-- The value of the first field with a key; `none` is NULL.
find_key : List Kv → Text → Option Text
find_key [] key = none
find_key (f ∷ fs) key = if text_eq f.key key then some f.value else find_key fs key

pub frame_fields_find : List Kv → Text → Option Text
unfolding find_key
frame_fields_find fields key = if length key == 0 then none else find_key fields key

pub frame_data_find_field : KvMessage → Text → Option Text
frame_data_find_field message key = frame_fields_find message.fields key
