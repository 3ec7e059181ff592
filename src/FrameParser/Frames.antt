-- ===== src/FrameParser/Frames.antt =====
-- What the parser delivers when a framed payload arrives.
use smart_gateway.Prelude.{
  ℕ, ◌≤◌, ◌<◌, ◌≡◌, ◌≢◌, sym, ap, arith, false, inc64, [], ◌∷◌, ◌++◌, length, length-append, All,
  All-append, All-mono, append_assoc,
}
use smart_gateway.Prelude.Text.{Text}
use smart_gateway.Crc16.{crc16_ccitt_false}
use smart_gateway.Crc16.Detect.{crc16_lt, IsByte, one_byte_detected}
use smart_gateway.Frame.{hex4}
use smart_gateway.FrameParser.{Parser, close_frame, frame_parser_feed}
use smart_gateway.FrameParser.Validate.{
  IsPayload, IsHexDigit, framed, hex4-IsHexDigit, length-framed, parsed, validate-framed,
}
use smart_gateway.FrameParser.Stream.{IsInner, after_start, after_start_lem, close_line, feed-line}

-- A payload as the builders make it: no '@' and no LF inside.
pub record IsLine (s : Text) : Type 0 where
  pub payload : IsPayload s
  pub inner : All IsInner s

module _ (s : Text) (crc : ℕ) where
  inside : Text
  inside = s ++ b'*' ∷ (hex4 crc ++ 13 ∷ [])

  framed-line : framed s crc ≡ b'@' ∷ (inside ++ 10 ∷ [])
  unfolding framed inside
  framed-line = simp append_assoc

  inside-IsInner : All IsInner s → All IsInner inside
  unfolding inside
  inside-IsInner h = All-append IsInner s (b'*' ∷ (hex4 crc ++ 13 ∷ [])) h (
    omega arith,
    All-append IsInner (hex4 crc) (13 ∷ [])
        (All-mono IsHexDigit IsInner (hex4 crc) (λ c d. (d.2, d.3)) (hex4-IsHexDigit crc))
        (omega arith),
  )

  length-inside : length s ≤ 247 → length inside ≤ 253
  length-inside h =
      omega (arith, ap length framed-line, length-framed s crc, length-append inside (10 ∷ []))

  feed-framed_line :
      (p : Parser)
      → IsLine s
      → frame_parser_feed p (framed s crc) ≡ close_line (after_start p) (framed s crc)
  feed-framed_line p h =
      rw framed-line (feed-line inside p (inside-IsInner h.inner) (length-inside h.payload.short))

  -- With its own CRC a framed payload is delivered, as the only frame, from whatever state the
  -- parser was in; then it waits for the next frame.
  pub feed-good :
      (p : Parser)
      → IsLine s
      → crc ≡ crc16_ccitt_false s
      → let (q, count, frames) = frame_parser_feed p (framed s crc) in
        (count ≡ 1)
        × (frames ≡ parsed s crc ∷ [])
        × (q.buffer ≡ [])
        × (q.collecting ≡ false)
        × (q.stats.valid_frames ≡ inc64 p.stats.valid_frames)
  unfolding close_line close_frame
  feed-good p h e =
      rw (feed-framed_line p h, validate-framed s crc h.payload (omega (arith, crc16_lt s)))
        (ground (arith, after_start_lem p))

  -- With any other CRC nothing is delivered.
  pub feed-bad :
      (p : Parser)
      → IsLine s
      → crc < 65536
      → crc16_ccitt_false s ≢ crc
      → let (q, count, frames) = frame_parser_feed p (framed s crc) in
        (count ≡ 0)
        × (frames ≡ [])
        × (q.buffer ≡ [])
        × (q.collecting ≡ false)
        × (q.stats.valid_frames ≡ p.stats.valid_frames)
  unfolding close_line close_frame
  feed-bad p h lt ne =
      rw (feed-framed_line p h, validate-framed s crc h.payload lt)
        (ground (arith, after_start_lem p))

-- Damage in one byte of the payload, which leaves it a line, is always noticed: nothing is
-- delivered, and the parser is ready for the next frame.
pub one_byte_damage :
    (pre post : Text) (a b : ℕ) (p : Parser)
    → All IsByte post
    → a < 256
    → b < 256
    → a ≢ b
    → IsLine (pre ++ b ∷ post)
    → let (q, count, frames) =
        frame_parser_feed p (framed (pre ++ b ∷ post) (crc16_ccitt_false (pre ++ a ∷ post))) in
      (count ≡ 0)
      × (frames ≡ [])
      × (q.buffer ≡ [])
      × (q.collecting ≡ false)
      × (q.stats.valid_frames ≡ p.stats.valid_frames)
one_byte_damage pre post a b p hp ha hb ne line =
    feed-bad (pre ++ b ∷ post) (crc16_ccitt_false (pre ++ a ∷ post)) p line
      (crc16_lt (pre ++ a ∷ post)) (λ e. one_byte_detected pre post a b hp ha hb ne (sym e))
