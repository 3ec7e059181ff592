-- ===== src/Frame.antt =====
-- common/frame.h and common/frame.c: building DATA, CMD, ACK and NACK frames.
--
-- A pointer that the code tests for NULL is a value here, so those tests have no counterpart, and
-- an array with its count is a list. `char key[16]` and `char value[32]` are texts; that they end
-- within their arrays is stated by `FitsKv`. A builder takes what `out` held before, and returns
-- its result beside what `out` holds afterwards.
pub mod Kinds
pub mod Build
pub mod Tests
use Kinds.{Kv, FrameError, param, too_long, bad_node_id, Result, ok, err}
use smart_gateway.Prelude.{
  ℕ, zero, suc, ◌+◌, ◌-◌, ◌/◌, ◌%◌, ◌^◌, ltb, leb, ◌==◌, if◌then◌else◌, Bool, true, false, ◌&&◌,
  ◌||◌, not, List, [], ◌∷◌, ◌++◌, length,
}
use smart_gateway.Prelude.Text.{Text}
use smart_gateway.Prelude.Int.{ℤ, pos, negsuc}
use smart_gateway.Crc16.{crc16_ccitt_false}

-- The characters that `node_id_is_valid` refuses: @ * , CR LF.
unfoldable pub is_reserved : ℕ → Bool
is_reserved c = c == b'@' || c == b'*' || c == b',' || c == 13 || c == 10

has_no_reserved : Text → Bool
has_no_reserved [] = true
has_no_reserved (c ∷ s) = if is_reserved c then false else has_no_reserved s

is_empty : Text → Bool
is_empty [] = true
is_empty (c ∷ s) = false

pub node_id_is_valid : Text → Bool
node_id_is_valid s = if is_empty s then false else has_no_reserved s

-- In a key or a value '=' is refused too.
has_no_delimiter : Text → Bool
has_no_delimiter [] = true
has_no_delimiter (c ∷ s) = if is_reserved c || c == b'=' then false else has_no_delimiter s

pub field_text_is_valid : Text → Bool
field_text_is_valid s = if is_empty s then false else has_no_delimiter s

-- A decimal digit, and a digit of `%X`.
abbrev pub digit_char : ℕ → ℕ
digit_char d = b'0' + d

unfoldable pub hex_char : ℕ → ℕ
hex_char d = if ltb d 10 then b'0' + d else b'A' + (d - 10)

-- `%06u` of a number below 10 ^ 6, which the callers' `% 1000000` ensures.
unfoldable pub decimal6 : ℕ → Text
decimal6 n =
    digit_char (n / 100000 % 10)
    ∷ digit_char (n / 10000 % 10)
    ∷ digit_char (n / 1000 % 10)
    ∷ digit_char (n / 100 % 10)
    ∷ digit_char (n / 10 % 10)
    ∷ digit_char (n % 10)
    ∷ []

-- `%04X` of a 16-bit number.
unfoldable pub hex4 : ℕ → Text
hex4 n =
    hex_char (n / 4096 % 16)
    ∷ hex_char (n / 256 % 16)
    ∷ hex_char (n / 16 % 16)
    ∷ hex_char (n % 16)
    ∷ []

-- `1,%s,%06u,%s`
unfoldable pub header : Text → ℕ → Text → Text
header id sequence type = b'1' ∷ b',' ∷ (id ++ b',' ∷ (decimal6 sequence ++ b',' ∷ type))

-- `,%s=%s`
unfoldable pub kv_text : Kv → Text
kv_text f = b',' ∷ (f.key ++ b'=' ∷ f.value)

abbrev pub frame_max_len : ℕ
frame_max_len = 256

abbrev pub data_max_fields : ℕ
data_max_fields = 16

-- The loop of step 3 with the text built so far; `pos` is its length.
pub append_fields : Text → List Kv → Result Text
append_fields crc_data [] = ok crc_data
append_fields crc_data (f ∷ fs) =
    let rest = append_fields (crc_data ++ kv_text f) fs in
    if not (field_text_is_valid f.key && field_text_is_valid f.value)
    then err param
    else if leb frame_max_len (length crc_data)
    then err too_long
    else if leb (frame_max_len - length crc_data) (length (kv_text f))
    then err too_long
    else rest

-- `@%s*%04X\r\n`
unfoldable pub frame_text : Text → Text
frame_text crc_data =
    b'@' ∷ (crc_data ++ b'*' ∷ (hex4 (crc16_ccitt_false crc_data) ++ 13 ∷ 10 ∷ []))

-- Steps 4 and 5: the CRC, and the frame if it leaves room for the final NUL.
write_frame : ℕ → Text → Result ℕ × Text
write_frame out_size crc_data =
    let frame = frame_text crc_data in
    if leb out_size (length frame) then (err too_long, []) else (ok (length frame), frame)

finish : ℕ → Result Text → Result ℕ × Text
finish out_size (ok crc_data) = write_frame out_size crc_data
finish out_size (err e) = (err e, [])

pub build_kv_frame : Text → ℕ → Text → ℕ → Text → List Kv → Result ℕ × Text
unfolding write_frame finish
build_kv_frame out out_size id sequence type fields =
    let start = header id (sequence % 1000000) type in
    if out_size == 0
    then (err param, out)
    else if ltb data_max_fields (length fields)
    then (err param, out)
    else if not (node_id_is_valid id)
    then (err bad_node_id, [])
    else if leb frame_max_len (length start)
    then (err too_long, [])
    else finish out_size (append_fields start fields)

abbrev pub data_type : Text
data_type = b'D' ∷ b'A' ∷ b'T' ∷ b'A' ∷ []

abbrev pub cmd_type : Text
cmd_type = b'C' ∷ b'M' ∷ b'D' ∷ []

abbrev pub ack_type : Text
ack_type = b'A' ∷ b'C' ∷ b'K' ∷ []

abbrev pub nack_type : Text
nack_type = b'N' ∷ ack_type

unfoldable pub frame_build_data_kv : Text → ℕ → Text → ℕ → List Kv → Result ℕ × Text
frame_build_data_kv out out_size node_id sequence fields =
    build_kv_frame out out_size node_id sequence data_type fields

unfoldable pub frame_build_command_kv : Text → ℕ → Text → ℕ → List Kv → Result ℕ × Text
frame_build_command_kv out out_size sender sequence fields =
    build_kv_frame out out_size sender sequence cmd_type fields

unfoldable pub frame_build_ack_kv : Text → ℕ → Text → ℕ → List Kv → Result ℕ × Text
frame_build_ack_kv out out_size node_id sequence fields =
    build_kv_frame out out_size node_id sequence ack_type fields

-- The digits of `%d`: an `int` has at most ten, so ten rounds print each of them.
unfoldable pub decimal : ℕ → ℕ → Text
decimal zero n = []
decimal (suc k) n =
    let front = decimal k (n / 10) in
    if ltb n 10 then digit_char n ∷ [] else front ++ digit_char (n % 10) ∷ []

unfoldable pub print_int : ℤ → Text
unfolding decimal
print_int (pos n) = decimal 10 n
print_int (negsuc n) = b'-' ∷ decimal 10 (suc n)

int_field : Text → ℤ → Kv
int_field key value = record { key = key; value = print_int value }

pub frame_build_data : Text → ℕ → Text → ℕ → ℤ → ℤ → Result ℕ × Text
unfolding int_field
frame_build_data out out_size node_id sequence temperature_x10 humidity_x10 =
    frame_build_data_kv out out_size node_id sequence
      (int_field (b'T' ∷ []) temperature_x10 ∷ int_field (b'H' ∷ []) humidity_x10 ∷ [])

abbrev pub led_key : Text
led_key = b'L' ∷ b'E' ∷ b'D' ∷ []

pub frame_build_command : Text → ℕ → Text → ℕ → ℤ → Result ℕ × Text
unfolding int_field
frame_build_command out out_size sender sequence led_value =
    frame_build_command_kv out out_size sender sequence (int_field led_key led_value ∷ [])

pub frame_build_ack : Text → ℕ → Text → ℕ → ℤ → Result ℕ × Text
unfolding int_field
frame_build_ack out out_size node_id sequence led_value =
    frame_build_ack_kv out out_size node_id sequence (int_field led_key led_value ∷ [])

-- The text `NACK,ERR=%s` behind the sequence.
abbrev pub err_prefix : Text
err_prefix = b'E' ∷ b'R' ∷ b'R' ∷ b'=' ∷ []

abbrev pub nack_text : Text → ℕ → Text → Text
nack_text node_id sequence error = header node_id sequence nack_type ++ b',' ∷ (err_prefix ++ error)

pub frame_build_nack : Text → ℕ → Text → ℕ → Text → Result ℕ × Text
unfolding write_frame
frame_build_nack out out_size node_id sequence error =
    let crc_nack = nack_text node_id (sequence % 1000000) error in
    if out_size == 0
    then (err param, out)
    else if not (node_id_is_valid node_id)
    then (err bad_node_id, [])
    else if not (node_id_is_valid error)
    then (err param, [])
    else if leb frame_max_len (length crc_nack)
    then (err too_long, [])
    else write_frame out_size crc_nack
