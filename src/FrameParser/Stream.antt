-- ===== src/FrameParser/Stream.antt =====
-- The parser on a stream: how a stream may be cut, and what it delivers.
use smart_gateway.Prelude.{
  ℕ, ◌+◌, ◌≤◌, ◌<◌, ◌≡◌, ◌≢◌, ◌∙◌, refl, sym, ap, arith, true, List, [], ◌∷◌, ◌++◌, Option, none,
  some, length, length-append, All, append_assoc, append-nil,
}
use smart_gateway.FrameParser.{
  ParsedFrame, Parser, Fed, deliver, close_frame, wait_byte, collect_byte, feed_byte,
  frame_parser_feed, validate_frame,
}

-- First one part of a stream, then the other.
abbrev pub feed_again : Fed → List ℕ → Fed
feed_again (p, count, frames) bytes =
    let (q, more, later) = frame_parser_feed p bytes in (q, count + more, frames ++ later)

deliver-feed_again :
    (f : Option ParsedFrame) (r : Fed) (bytes : List ℕ)
    → deliver f (feed_again r bytes) ≡ feed_again (deliver f r) bytes
deliver-feed_again none r bytes = refl
deliver-feed_again (some f) r bytes = ground arith

-- Where a stream is cut into reads makes no difference to the parser's state, to the count or to
-- the frames delivered.
pub feed-append :
    (p : Parser) (xs ys : List ℕ)
    → frame_parser_feed p (xs ++ ys) ≡ feed_again (frame_parser_feed p xs) ys
unfolding frame_parser_feed
feed-append p [] ys = ground arith
feed-append p (x ∷ xs) ys =
    ap (deliver (feed_byte p x).1) (feed-append (feed_byte p x).0 xs ys)
    ∙ deliver-feed_again (feed_byte p x).1 (frame_parser_feed (feed_byte p x).0 xs) ys

-- A byte that neither starts nor ends a frame.
abbrev pub IsInner : ℕ → Type 0
IsInner c = (c ≢ b'@') × (c ≢ 10)

feed_byte-inner :
    (p : Parser) (c : ℕ)
    → p.collecting ≡ true
    → IsInner c
    → length p.buffer < 255
    → feed_byte p c ≡ (record p { buffer = p.buffer ++ c ∷ [] }, none)
unfolding feed_byte collect_byte
feed_byte-inner p c on h room = ground arith

feed_byte-line_end :
    (p : Parser)
    → p.collecting ≡ true
    → length p.buffer < 255
    → feed_byte p 10
      ≡ close_frame
          (record p { buffer = p.buffer ++ 10 ∷ [] })
          (validate_frame (p.buffer ++ 10 ∷ []))
unfolding feed_byte collect_byte
feed_byte-line_end p on room = ground arith

with_buffer : Parser → List ℕ → Parser
with_buffer p b = record p { buffer = b }

-- Inside a frame such bytes are only stored, as long as there is room.
pub feed-inner :
    (s : List ℕ) (p : Parser)
    → p.collecting ≡ true
    → All IsInner s
    → length p.buffer + length s ≤ 255
    → frame_parser_feed p s ≡ (record p { buffer = p.buffer ++ s }, 0, [])
unfolding frame_parser_feed with_buffer
feed-inner [] p on h room = ap (λ b. (with_buffer p b, 0, [])) (sym (append-nil p.buffer))
feed-inner (c ∷ s) p on h room = rw (feed_byte-inner p c on h.0 (omega arith)) (
    feed-inner s (record p { buffer = p.buffer ++ c ∷ [] }) on h.1
      (omega (arith, length-append p.buffer (c ∷ [])))
    ∙ ap (λ b. (with_buffer p b, 0, [])) (append_assoc p.buffer (c ∷ []) s))

-- What the parser is after the '@' of a frame, in whatever state it was before.
pub after_start : Parser → Parser
after_start p = (feed_byte p b'@').0

pub after_start_lem :
    (p : Parser)
    → (feed_byte p b'@' ≡ (after_start p, none))
      × ((after_start p).buffer ≡ b'@' ∷ [])
      × ((after_start p).collecting ≡ true)
      × ((after_start p).stats.valid_frames ≡ p.stats.valid_frames)
unfolding after_start feed_byte wait_byte collect_byte
after_start_lem p = ground arith

-- The parser's state and the frame that a finished line gives, as a feed.
unfoldable pub close_line : Parser → List ℕ → Fed
close_line p line =
    let (q, f) = close_frame (record p { buffer = line }) (validate_frame line) in
    deliver f (q, 0, [])

feed-line_end :
    (p : Parser) (b : List ℕ)
    → p.collecting ≡ true
    → p.buffer ≡ b
    → length b < 255
    → frame_parser_feed p (10 ∷ []) ≡ close_line p (b ++ 10 ∷ [])
unfolding frame_parser_feed close_line
feed-line_end p b on e room = rw (feed_byte-line_end p on (omega (arith, ap length e)), e)

feed_again_fresh :
    (p : Parser) (bytes : List ℕ) → feed_again (p, 0, []) bytes ≡ frame_parser_feed p bytes
feed_again_fresh p bytes = ground arith

feed-rest :
    (s : List ℕ) (p : Parser)
    → p.collecting ≡ true
    → p.buffer ≡ b'@' ∷ []
    → All IsInner s
    → length s ≤ 253
    → frame_parser_feed p (s ++ 10 ∷ []) ≡ close_line p (b'@' ∷ (s ++ 10 ∷ []))
unfolding with_buffer close_line
feed-rest s p on start h room =
    feed-append p s (10 ∷ [])
    ∙ ap (λ r. feed_again r (10 ∷ [])) (feed-inner s p on h (omega (arith, ap length start)))
    ∙ feed_again_fresh (with_buffer p (p.buffer ++ s)) (10 ∷ [])
    ∙ feed-line_end (with_buffer p (p.buffer ++ s)) (b'@' ∷ s) on (ap (λ b. b ++ s) start)
        (omega arith)

-- A line that starts with '@', has neither '@' nor LF inside, ends in LF and is not too long is
-- judged as a whole, whatever the parser did before.
pub feed-line :
    (s : List ℕ) (p : Parser)
    → All IsInner s
    → length s ≤ 253
    → let line = b'@' ∷ (s ++ 10 ∷ []) in frame_parser_feed p line ≡ close_line (after_start p) line
unfolding frame_parser_feed
feed-line s p h room =
    rw ((after_start_lem p).0)
      (feed-rest s (after_start p) (after_start_lem p).2 (after_start_lem p).1 h room)
