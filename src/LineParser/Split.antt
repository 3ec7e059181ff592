-- ===== src/LineParser/Split.antt =====
-- Lines as the text falls into them.
use smart_gateway.Prelude.{
  ℕ, zero, suc, ◌≤◌, ◌<◌, ◌≡◌, refl, arith, false, ◌==◌, if◌then◌else◌, List, [], ◌∷◌, ◌++◌, Option,
  none, some, length, map, Bool-cases, inl, inr,
}
use smart_gateway.Prelude.Text.{Text}
use smart_gateway.LineParser.{find_newline, strip_cr, feed_lines}

-- A byte in front of a text that has been split.
unfoldable pub in_front : ℕ → List Text × Text → List Text × Text
in_front c ([], rest) = ([], c ∷ rest)
in_front c (line ∷ lines, rest) = ((c ∷ line) ∷ lines, rest)

-- The lines of a text, each without its '\n', and what follows the last '\n'.
unfoldable pub split_lines : Text → List Text × Text
split_lines [] = ([], [])
split_lines (c ∷ s) =
    let (lines, rest) = split_lines s in
    if c == b'\n' then ([] ∷ lines, rest) else in_front c (lines, rest)

-- What the search for a '\n' says of the lines.
abbrev IsFound : Text → List Text × Text → Option (Text × Text) → Type 0
IsFound s split none = split ≡ ([], s)
IsFound s split (some p) =
    (split ≡ (p.0 ∷ (split_lines p.1).0, (split_lines p.1).1)) × (length p.1 < length s)

IsFound-in_front :
    (c : ℕ) (s : Text) (split : List Text × Text) (x : Option (Text × Text))
    → IsFound s split x
    → IsFound (c ∷ s) (in_front c split) (elim x [ none ↦ none | some p ↦ some (c ∷ p.0, p.1) ])
unfolding in_front
IsFound-in_front c s split none h = rw h refl
IsFound-in_front c s split (some p) h = rw h.0 (refl, omega arith)

find_newline-IsFound : (s : Text) → IsFound s (split_lines s) (find_newline s)
unfolding find_newline split_lines
find_newline-IsFound [] = refl
find_newline-IsFound (c ∷ s) = elim (Bool-cases (c == b'\n')) [
  | inl e ↦ rw e (refl, omega arith)
  | inr e ↦ rw e (IsFound-in_front c s (split_lines s) (find_newline s) (find_newline-IsFound s))
]

-- One round of the loop.
feed_lines-round :
    (n : ℕ) (s : Text) (x : Option (Text × Text))
    → IsFound s (split_lines s) x
    → ((t : Text)
        → length t < length s
        → feed_lines n t ≡ (map strip_cr (split_lines t).0, (split_lines t).1))
    → (elim x as (λ y. List Text × Text) [
      | none ↦ ([], s)
      | some p ↦ (strip_cr p.0 ∷ (feed_lines n p.1).0, (feed_lines n p.1).1)
    ])
      ≡ (map strip_cr (split_lines s).0, (split_lines s).1)
feed_lines-round n s none e next = rw e refl
feed_lines-round n s (some p) e next = rw (e.0, next p.1 e.1) refl

pub feed_lines-eq :
    (n : ℕ) (s : Text)
    → length s ≤ n
    → feed_lines n s ≡ (map strip_cr (split_lines s).0, (split_lines s).1)
unfolding feed_lines split_lines
feed_lines-eq zero [] h = refl
feed_lines-eq zero (c ∷ s) h = absurd (omega arith)
feed_lines-eq (suc n) s h =
    feed_lines-round n s (find_newline s) (find_newline-IsFound s)
      (λ t lt. feed_lines-eq n t (omega arith))

-- A text split behind one that has been split.
abbrev split_behind : List Text → Text → Text → List Text × Text
split_behind lines rest t = (lines ++ (split_lines (rest ++ t)).0, (split_lines (rest ++ t)).1)

in_front-split_behind :
    (c : ℕ) (lines : List Text) (rest t : Text)
    → (c == b'\n') ≡ false
    → in_front c (split_behind lines rest t)
      ≡ split_behind (in_front c (lines, rest)).0 (in_front c (lines, rest)).1 t
unfolding split_lines in_front
in_front-split_behind c [] rest t e = rw e refl
in_front-split_behind c (line ∷ lines) rest t e = refl

-- The feeds of two pieces, the second behind what the first leaves in the buffer.
pub split_lines-append :
    (s t : Text) → split_lines (s ++ t) ≡ split_behind (split_lines s).0 (split_lines s).1 t
unfolding split_lines
split_lines-append [] t = refl
split_lines-append (c ∷ s) t = elim (Bool-cases (c == b'\n')) [
  | inl e ↦ rw (e, split_lines-append s t) refl
  | inr e ↦
      rw (e, split_lines-append s t)
        (in_front-split_behind c (split_lines s).0 (split_lines s).1 t e)
]
