-- ===== src/LineParser/Feeds.antt =====
-- What `line_parser_feed` finds, over any sequence of receipts.
use smart_gateway.Prelude.{
  ℕ, ◌+◌, ◌≤◌, ◌≡◌, ◌≢◌, refl, ap, ◌∙◌, arith, List, [], ◌∷◌, ◌++◌, length, map, append_assoc, All,
  length-map, length-append,
}
use smart_gateway.Prelude.Text.{Text}
use smart_gateway.LineParser.{strip_cr, line_parser_feed}
use smart_gateway.LineParser.Split.{in_front, split_lines, feed_lines-eq, split_lines-append}

-- With any capacity but 0, the parser reports the lines of the buffer in order, each without a '\r' at its
-- end, returns their number, and leaves what follows the last '\n'.
pub feed-split_lines :
    (buffer : Text) (capacity : ℕ)
    → 1 ≤ capacity
    → line_parser_feed buffer capacity
      ≡ (length (split_lines buffer).0, map strip_cr (split_lines buffer).0, (split_lines buffer).1)
unfolding line_parser_feed
feed-split_lines buffer capacity h =
    rw
      (
        feed_lines-eq (length buffer) buffer (omega arith),
        length-map strip_cr (split_lines buffer).0,
      )
      (ground arith)

map-append : (f : Text → Text) (xs ys : List Text) → map f (xs ++ ys) ≡ map f xs ++ map f ys
map-append f [] ys = refl
map-append f (x ∷ xs) ys = rw (map-append f xs ys) refl

-- A text that arrives in two pieces, the second received behind what the first call left, gives the lines,
-- their number and the rest that it gives in one piece.
pub line_parser_feed-append :
    (s t : Text) (capacity : ℕ)
    → 1 ≤ capacity
    → let (m, lines, rest) = line_parser_feed s capacity in
      let (n, more, last) = line_parser_feed (rest ++ t) capacity in
      line_parser_feed (s ++ t) capacity ≡ (m + n, lines ++ more, last)
line_parser_feed-append s t capacity h =
    let rest = (split_lines s).1 in
    rw
      (
        feed-split_lines s capacity h,
        feed-split_lines (rest ++ t) capacity h,
        feed-split_lines (s ++ t) capacity h,
        split_lines-append s t,
        map-append strip_cr (split_lines s).0 (split_lines (rest ++ t)).0,
        length-append (split_lines s).0 (split_lines (rest ++ t)).0,
      )
      refl

-- A text without ends of lines.
abbrev pub IsOneLine : Text → Type 0
IsOneLine = All (λ c. (c ≢ b'\n') × (c ≢ b'\r'))

-- The lines as they are sent.
abbrev pub sent : List Text → Text
sent [] = []
sent (line ∷ lines) = line ++ b'\n' ∷ sent lines

split_lines-line :
    (line t : Text)
    → IsOneLine line
    → split_lines (line ++ b'\n' ∷ t) ≡ (line ∷ (split_lines t).0, (split_lines t).1)
unfolding split_lines in_front
split_lines-line [] t h = refl
split_lines-line (c ∷ line) t h = rw (split_lines-line line t h.1) (ground (arith, h.0))

split_lines-rest : (t : Text) → IsOneLine t → split_lines t ≡ ([], t)
unfolding split_lines in_front
split_lines-rest [] h = refl
split_lines-rest (c ∷ t) h = rw (split_lines-rest t h.1) (ground (arith, h.0))

split_lines-sent :
    (lines : List Text) (t : Text)
    → All IsOneLine lines
    → IsOneLine t
    → split_lines (sent lines ++ t) ≡ (lines, t)
split_lines-sent [] t hs h = split_lines-rest t h
split_lines-sent (line ∷ lines) t hs h =
    ap split_lines (append_assoc line (b'\n' ∷ sent lines) t)
    ∙ split_lines-line line (sent lines ++ t) hs.0
    ∙ ap (λ p. (line ∷ p.0, p.1)) (split_lines-sent lines t hs.1 h)

strip_cr-IsOneLine : (line : Text) → IsOneLine line → strip_cr line ≡ line
unfolding strip_cr
strip_cr-IsOneLine [] h = refl
strip_cr-IsOneLine (c ∷ []) h = ground (arith, h.0)
strip_cr-IsOneLine (c ∷ d ∷ s) h = rw (strip_cr-IsOneLine (d ∷ s) h.1) refl

map-strip_cr : (lines : List Text) → All IsOneLine lines → map strip_cr lines ≡ lines
map-strip_cr [] h = refl
map-strip_cr (line ∷ lines) h = rw (strip_cr-IsOneLine line h.0, map-strip_cr lines h.1) refl

-- Of lines that were sent, each with a '\n' behind it, and the beginning of a line, the parser reports the
-- lines in order, and leaves the beginning; no line contains '\n' or '\r'.
pub feed-sent :
    (lines : List Text) (start : Text) (capacity : ℕ)
    → 1 ≤ capacity
    → All IsOneLine lines
    → IsOneLine start
    → line_parser_feed (sent lines ++ start) capacity ≡ (length lines, lines, start)
feed-sent lines start capacity h hs hr =
    rw
      (
        feed-split_lines (sent lines ++ start) capacity h,
        split_lines-sent lines start hs hr,
        map-strip_cr lines hs,
      )
      refl
