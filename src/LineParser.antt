-- ===== src/LineParser.antt =====
-- common/line_parser.h and common/line_parser.c: messages that end with '\n', out of a buffer of
-- bytes. The buffer is the list of its `*buffer_length` valid bytes; what the callback sees is the
-- list of lines, in order. NULL tests have no counterpart.
pub mod Split
pub mod Feeds
mod Tests
use smart_gateway.Prelude.{
  ℕ, zero, suc, ◌==◌, if◌then◌else◌, List, [], ◌∷◌, Option, none, some, length,
}
use smart_gateway.Prelude.Text.{Text}

-- `memchr`: the bytes before the first '\n', and those behind it.
unfoldable pub find_newline : List ℕ → Option (Text × List ℕ)
find_newline [] = none
find_newline (c ∷ s) =
    let rest = find_newline s in
    if c == b'\n' then some ([], s) else elim rest [ none ↦ none | some p ↦ some (c ∷ p.0, p.1) ]

-- A '\r' that stands last is left out.
unfoldable pub strip_cr : Text → Text
strip_cr [] = []
strip_cr (c ∷ []) = if c == b'\r' then [] else c ∷ []
strip_cr (c ∷ d ∷ s) = c ∷ strip_cr (d ∷ s)

-- The loop: the lines, and what stays in the buffer. A round consumes at least the '\n', so that
-- the length of the buffer is fuel enough.
unfoldable pub feed_lines : ℕ → List ℕ → List Text × List ℕ
feed_lines zero buffer = ([], buffer)
feed_lines (suc n) buffer = elim (find_newline buffer) [
  | none ↦ ([], buffer)
  | some p ↦ let (lines, rest) = feed_lines n p.1 in (strip_cr p.0 ∷ lines, rest)
]

-- The number of lines, the lines, and the rest.
unfoldable pub line_parser_feed : List ℕ → ℕ → ℕ × List Text × List ℕ
unfolding feed_lines
line_parser_feed buffer buffer_capacity =
    let (lines, rest) = feed_lines (length buffer) buffer in
    if buffer_capacity == 0 then (0, [], buffer) else (length lines, lines, rest)
