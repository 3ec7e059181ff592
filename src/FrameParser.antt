-- ===== src/FrameParser.antt =====
-- common/frame_parser.h and the first half of common/frame_parser.c: the byte-wise state machine
-- that finds frames in a stream and checks their CRC. `FrameParser.Decode` has the second half.
--
-- The bytes `buffer[0 .. length)` of the parser are a list, so `length` is the list's, and the NUL
-- behind them is understood. The callback is modelled by the list of the frames that it is given,
-- in order. Counters are 64-bit `unsigned long`s.
pub mod Decode
pub mod Validate
pub mod Stream
pub mod Frames
pub mod Sound
mod Tests
use smart_gateway.Prelude.{
  ℕ, zero, suc, ◌+◌, ◌-◌, ◌*◌, ◌%◌, ltb, leb, ◌==◌, if◌then◌else◌, inc64, Bool, true, false, ◌&&◌,
  ◌||◌, not, List, [], ◌∷◌, ◌++◌, Option, none, some, length, get_or, take, drop,
}
use smart_gateway.Prelude.Text.{Text, c_string}
use smart_gateway.Crc16.{crc16_ccitt_false}
use smart_gateway.Frame.{frame_max_len}

-- `parsed_frame_t`
pub record ParsedFrame : Type 0 where
  pub raw : Text
  pub payload : Text
  pub received_crc : ℕ
  pub calculated_crc : ℕ

-- `frame_parser_stats_t`
pub record Stats : Type 0 where
  pub valid_frames : ℕ
  pub crc_errors : ℕ
  pub format_errors : ℕ
  pub overflow_errors : ℕ
  pub discarded_bytes : ℕ

-- `frame_parser_t`
pub record Parser : Type 0 where
  pub buffer : List ℕ
  pub collecting : Bool
  pub stats : Stats

to_upper : ℕ → ℕ
to_upper c = if leb b'a' c && leb c b'z' then c - 32 else c

-- `none` is the result -1.
pub hex_value : ℕ → Option ℕ
unfolding to_upper
hex_value c =
    if leb b'0' c && leb c b'9'
    then some (c - b'0')
    else if leb b'A' (to_upper c) && leb (to_upper c) b'F'
    then some (to_upper c - b'A' + 10)
    else none

-- The loop of `parse_crc4` with `n` rounds left. At the end of the text it reads the NUL, which is
-- no digit. The low four bits of `value << 4` are 0, so `| digit` is a sum.
pub parse_hex : ℕ → ℕ → Text → Option ℕ
parse_hex zero value s = some value
parse_hex (suc n) value [] = none
parse_hex (suc n) value (c ∷ s) = elim (hex_value c) [
  | none ↦ none
  | some d ↦ parse_hex n ((value * 16 + d) % 65536) s
]

pub parse_crc4 : Text → Option ℕ
unfolding parse_hex
parse_crc4 s = parse_hex 4 0 s

-- `strrchr`, as an index.
pub last_index : ℕ → Text → Option ℕ
last_index c [] = none
last_index c (x ∷ s) = elim (last_index c s) [
  | some i ↦ some (suc i)
  | none ↦ if x == c then some 0 else none
]

-- The results 0, 1 and -1 of `validate_frame`.
pub data Verdict : Type 0 where
  accepted : ParsedFrame → Verdict
  crc_error format_error : Verdict

-- The CRC text was read: compare it with the CRC of the payload.
compare_crc : List ℕ → ℕ → Option ℕ → Verdict
compare_crc buffer star none = format_error
compare_crc buffer star (some received) =
    let payload = take (star - 1) (drop 1 buffer) in
    let calculated = crc16_ccitt_false payload in
    if not (calculated == received)
    then crc_error
    else accepted (record {
      raw = buffer;
      payload = payload;
      received_crc = received;
      calculated_crc = calculated;
    })

-- The last '*' was looked for.
check_star : List ℕ → Option ℕ → Verdict
check_star buffer none = format_error
check_star buffer (some star) =
    if not (star + 7 == length buffer)
    then format_error
    else if leb star 1
    then format_error
    else compare_crc buffer star (parse_crc4 (drop (star + 1) buffer))

pub validate_frame : List ℕ → Verdict
unfolding check_star compare_crc
validate_frame buffer =
    let n = length buffer in
    if ltb n 8 || leb frame_max_len n
    then format_error
    else if not (
        get_or buffer 0 0 == b'@' && get_or buffer (n - 2) 0 == 13 && get_or buffer (n - 1) 0 == 10)
    then format_error
    else check_star buffer (last_index b'*' (c_string buffer))

abbrev pub no_stats : Stats
no_stats = record {
  valid_frames = 0;
  crc_errors = 0;
  format_errors = 0;
  overflow_errors = 0;
  discarded_bytes = 0;
}

unfoldable pub frame_parser_init : Parser
frame_parser_init = record { buffer = []; collecting = false; stats = no_stats }

abbrev pub frame_parser_reset : Parser → Parser
frame_parser_reset p = record p { buffer = []; collecting = false }

-- A whole line has been collected: count the verdict, hand a good frame to the callback, reset.
pub close_frame : Parser → Verdict → Parser × Option ParsedFrame
close_frame p (accepted frame) =
    let stats = record (p.stats) { valid_frames = inc64 p.stats.valid_frames } in
    (frame_parser_reset (record p { stats = stats }), some frame)
close_frame p crc_error =
    let stats = record (p.stats) { crc_errors = inc64 p.stats.crc_errors } in
    (frame_parser_reset (record p { stats = stats }), none)
close_frame p format_error =
    let stats = record (p.stats) { format_errors = inc64 p.stats.format_errors } in
    (frame_parser_reset (record p { stats = stats }), none)

-- Waiting for '@'.
wait_byte : Parser → ℕ → Parser
wait_byte p c =
    if c == b'@'
    then record p { buffer = b'@' ∷ []; collecting = true }
    else record p { stats = record (p.stats) { discarded_bytes = inc64 p.stats.discarded_bytes } }

-- Inside a frame.
collect_byte : Parser → ℕ → Parser × Option ParsedFrame
collect_byte p c =
    let stored = record p { buffer = p.buffer ++ c ∷ [] } in
    if c == b'@'
    then (
      record p {
        buffer = b'@' ∷ [];
        stats = record (p.stats) { format_errors = inc64 p.stats.format_errors };
      },
      none,
    )
    else if leb (frame_max_len - 1) (length p.buffer)
    then (
      frame_parser_reset (record p {
        stats = record (p.stats) { overflow_errors = inc64 p.stats.overflow_errors };
      }),
      none,
    )
    else if c == 10
    then close_frame stored (validate_frame stored.buffer)
    else (stored, none)

-- The body of the loop, on one byte.
pub feed_byte : Parser → ℕ → Parser × Option ParsedFrame
feed_byte p c = if p.collecting then collect_byte p c else (wait_byte p c, none)

-- The loop: the parser, `valid_count`, and the frames given to the callback. The count stays below
-- the number of bytes, so it does not wrap.
abbrev pub Fed : Type 0
Fed = Parser × ℕ × List ParsedFrame

abbrev pub deliver : Option ParsedFrame → Fed → Fed
deliver none (p, count, frames) = (p, count, frames)
deliver (some frame) (p, count, frames) = (p, count + 1, frame ∷ frames)

pub frame_parser_feed : Parser → List ℕ → Fed
frame_parser_feed p [] = (p, 0, [])
frame_parser_feed p (c ∷ rest) =
    let (p', frame) = feed_byte p c in deliver frame (frame_parser_feed p' rest)
