-- ===== src/FrameParser/Tests.antt =====
-- The parser at concrete inputs.
use smart_gateway.Prelude.{ℕ, ◌≡◌, refl, arith, false, List, [], ◌∷◌, ◌++◌, All, some}
use smart_gateway.Crc16.{crc16_ccitt_false}
use smart_gateway.Frame.{frame_text}
use smart_gateway.FrameParser.{frame_parser_init, frame_parser_feed}
use smart_gateway.FrameParser.Validate.{framed}
use smart_gateway.FrameParser.Stream.{feed_again, feed-append}
use smart_gateway.FrameParser.Frames.{IsLine, one_byte_damage}
use smart_gateway.FrameParser.Sound.{IsValid, IsGood, feed-IsValid, feed-IsGood}
use smart_gateway.FrameParser.Decode.{parse_uint32_decimal}

-- A stray byte, then the smallest frame.
abbrev noise : List ℕ
noise = b'x' ∷ frame_text (b'1' ∷ [])

init-IsValid : IsValid frame_parser_init
unfolding frame_parser_init
init-IsValid = record { room = omega arith; started = λ e. cc; idle = λ e. refl }

feed-append_example :
    frame_parser_feed frame_parser_init (noise ++ noise)
    ≡ feed_again (frame_parser_feed frame_parser_init noise) noise
feed-append_example = feed-append frame_parser_init noise noise

feed-IsValid_example : IsValid (frame_parser_feed frame_parser_init noise).0
feed-IsValid_example = feed-IsValid frame_parser_init noise init-IsValid

feed-IsGood_example : All IsGood (frame_parser_feed frame_parser_init noise).2
feed-IsGood_example = feed-IsGood frame_parser_init noise

damaged-IsLine : IsLine (b'1' ∷ b'3' ∷ [])
damaged-IsLine = record {
  payload = record { has_no_nul = omega arith; nonempty = omega arith; short = omega arith };
  inner = omega arith;
}

one_byte_damage_example :
    let (q, count, frames) =
      frame_parser_feed frame_parser_init
        (framed (b'1' ∷ b'3' ∷ []) (crc16_ccitt_false (b'1' ∷ b'2' ∷ []))) in
    (count ≡ 0)
    × (frames ≡ [])
    × (q.buffer ≡ [])
    × (q.collecting ≡ false)
    × (q.stats.valid_frames ≡ frame_parser_init.stats.valid_frames)
one_byte_damage_example =
    one_byte_damage (b'1' ∷ []) [] b'2' b'3' frame_parser_init tt (omega arith) (omega arith)
      (omega arith) damaged-IsLine

-- `strtoul` lets a sign or a space stand among the six characters of a sequence number.
signed_number : parse_uint32_decimal (b'+' ∷ b'0' ∷ b'0' ∷ b'0' ∷ b'4' ∷ b'2' ∷ []) ≡ some 42
unfolding parse_uint32_decimal
signed_number = refl
