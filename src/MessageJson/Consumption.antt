-- ===== src/MessageJson/Consumption.antt =====
-- The steps of the JSON parsers leave no more text than they were given.
use smart_gateway.Prelude.{
  ℕ, suc, ◌+◌, ◌-◌, ◌*◌, ◌/◌, ◌≤◌, ◌<◌, arith, Bool, true, false, ◌==◌, if◌then◌else◌, [], ◌∷◌,
  Option, none, some, length, drop, ltb, not, ◌&&◌,
}
use smart_gateway.Prelude.Text.{Text}
use smart_gateway.FrameParser.Decode.{is_digit}
use smart_gateway.MessageJson.Scan.{
  json_skip_whitespace, starts_with, expect, expect_more, read_string, read_key, read_number_text,
  skip_digits, skip_decimals, skip_minus, read_value, starts_with_digit, ◌>>=◌, push, some_digits,
  fraction, exponent, starts_exponent, skip_sign, loose_fraction, loose_exponent,
}
use smart_gateway.MessageJson.Object.{read_field_value}

-- A step of which `P` holds where it succeeds.
abbrev pub Holds : {A : Type 0} → (A → Type 0) → Option A → Type 0
Holds P none = Unit
Holds P (some a) = P a

-- A text of at most `n` bytes, and a value in front of one.
abbrev pub IsTextWithin : ℕ → Text → Type 0
IsTextWithin n s = length s ≤ n

abbrev pub IsRestWithin : {A : Type 0} → ℕ → A × Text → Type 0
IsRestWithin n p = length p.1 ≤ n

-- The same, strictly.
abbrev pub IsTextBelow : ℕ → Text → Type 0
IsTextBelow n s = length s < n

abbrev pub IsRestBelow : {A : Type 0} → ℕ → A × Text → Type 0
IsRestBelow n p = length p.1 < n

module _ {A : Type 0} (P : A → Type 0) where
  pub Holds-bind :
      {B : Type 0} (Q : B → Type 0) (x : Option A) (f : A → Option B)
      → Holds P x
      → ((a : A) → P a → Holds Q (f a))
      → Holds Q (x >>= f)
  Holds-bind Q none f w h = tt
  Holds-bind Q (some a) f w h = h a w

  pub Holds-if : (b : Bool) (x y : Option A) → Holds P x → Holds P y → Holds P (if b then x else y)
  Holds-if true x y hx hy = hx
  Holds-if false x y hx hy = hy

  pub Holds-mono : (Q : A → Type 0) (x : Option A) → Holds P x → ((a : A) → P a → Q a) → Holds Q x
  Holds-mono Q none w h = tt
  Holds-mono Q (some a) w h = h a w

pub length-json_skip_whitespace : (s : Text) → length (json_skip_whitespace s) ≤ length s
unfolding json_skip_whitespace
length-json_skip_whitespace [] = omega arith
length-json_skip_whitespace (c ∷ s) = ground (arith, length-json_skip_whitespace s)

pub length-skip_digits : (s : Text) → length (skip_digits s) ≤ length s
unfolding skip_digits
length-skip_digits [] = omega arith
length-skip_digits (c ∷ s) = ground (arith, length-skip_digits s)

pub length-skip_minus : (s : Text) → length (skip_minus s) ≤ length s
length-skip_minus [] = omega arith
length-skip_minus (c ∷ s) = ground arith

length-skip_sign : (s : Text) → length (skip_sign s) ≤ length s
length-skip_sign [] = omega arith
length-skip_sign (c ∷ s) = ground arith

pub expect-Holds : (c : ℕ) (s : Text) → Holds (IsTextBelow (length s)) (expect c s)
expect-Holds c [] = tt
expect-Holds c (x ∷ s) = ground arith

expect_more-Holds : (s : Text) → Holds (IsTextWithin (length s)) (expect_more s)
expect_more-Holds [] = tt
expect_more-Holds (c ∷ s) = omega arith

push-Holds :
    (n c : ℕ) (x : Option (Text × Text))
    → Holds (IsRestWithin n) x
    → Holds (IsRestWithin n) (push c x)
push-Holds n c none h = tt
push-Holds n c (some (w, rest)) h = h

pub read_string-Holds :
    (e : Bool) (s : Text) → Holds (IsRestWithin (length s - 1)) (read_string e s)
unfolding read_string
read_string-Holds e [] = tt
read_string-Holds e (c ∷ s) =
    let n = suc (length s) - 1 in
    Holds-if (IsRestWithin n) (not e && c == b'"') _ _ (omega arith) (
      push-Holds n c _ (
        Holds-mono (IsRestWithin (length s - 1)) (IsRestWithin n) _
          (read_string-Holds (not e && c == b'\\') s) (λ p h. omega arith)))

pub read_value-Holds : (acc : ℕ) (s : Text) → Holds (IsRestWithin (length s)) (read_value acc s)
unfolding read_value
read_value-Holds acc [] = omega arith
read_value-Holds acc (c ∷ s) =
    let n = suc (length s) in
    Holds-if (IsRestWithin n) (not (is_digit c)) _ _ (omega arith) (
      Holds-if (IsRestWithin n) (ltb ((0xFFFFFFFF - (c - b'0')) / 10) acc) none _ tt (
        Holds-mono (IsRestWithin (length s)) (IsRestWithin n) _
          (read_value-Holds (acc * 10 + (c - b'0')) s) (λ p h. omega arith)))

pub read_key-Holds : (s : Text) → Holds (IsRestBelow (length s)) (read_key s)
unfolding read_key
read_key-Holds s =
    let Q = IsRestBelow {A = Text} (length s) in
    Holds-bind (IsTextBelow (length s)) Q _ _ (expect-Holds b'"' s) (λ s1 h1.
      Holds-bind (IsRestWithin (length s1 - 1)) Q _ _ (read_string-Holds false s1) (λ p h2.
        let s2 = json_skip_whitespace p.1 in
        Holds-bind (IsTextBelow (length s2)) Q _ _ (expect-Holds b':' s2) (λ s3 h3.
          let s4 = json_skip_whitespace s3 in
          Holds-bind (IsTextWithin (length s4)) Q _ _ (expect_more-Holds s4) (λ s5 h4.
            omega (arith, length-json_skip_whitespace p.1, length-json_skip_whitespace s3)))))

some_digits-Holds : (s : Text) → Holds (IsTextWithin (length s)) (some_digits s)
unfolding some_digits
some_digits-Holds s =
    Holds-if (IsTextWithin (length s)) (starts_with_digit s) _ none (length-skip_digits s) tt

pub length-drop_one : (s : Text) → length (drop 1 s) ≤ length s
length-drop_one [] = omega arith
length-drop_one (c ∷ s) = omega arith

fraction-Holds : (s : Text) → Holds (IsTextWithin (length s)) (fraction s)
unfolding fraction
fraction-Holds s =
    Holds-if (IsTextWithin (length s)) (starts_with b'.' s) _ (some s)
      (Holds-mono (IsTextWithin (length (drop 1 s))) (IsTextWithin (length s)) _
        (some_digits-Holds (drop 1 s)) (λ t h. omega (arith, length-drop_one s)))
      (omega arith)

exponent-Holds : (s : Text) → Holds (IsTextWithin (length s)) (exponent s)
unfolding exponent
exponent-Holds s =
    Holds-if (IsTextWithin (length s)) (starts_exponent s) _ (some s)
      (Holds-mono (IsTextWithin (length (skip_sign (drop 1 s)))) (IsTextWithin (length s)) _
        (some_digits-Holds (skip_sign (drop 1 s)))
        (λ t h. omega (arith, length-drop_one s, length-skip_sign (drop 1 s))))
      (omega arith)

pub read_number_text-Holds : (s : Text) → Holds (IsRestWithin (length s)) (read_number_text s)
unfolding read_number_text
read_number_text-Holds s =
    let Q = IsRestWithin {A = Text} (length s) in
    let s0 = skip_minus s in
    Holds-bind (IsTextWithin (length s0)) Q _ _ (some_digits-Holds s0) (λ s1 h1.
      Holds-bind (IsTextWithin (length s1)) Q _ _ (fraction-Holds s1) (λ s2 h2.
        Holds-bind (IsTextWithin (length s2)) Q _ _ (exponent-Holds s2)
          (λ s3 h3. omega (arith, length-skip_minus s))))

pub length-skip_decimals : (s : Text) → length (skip_decimals s) ≤ length s
length-skip_decimals s =
    omega (arith, length-loose_exponent (loose_fraction s), length-loose_fraction s)
  where
    length-loose_fraction : (t : Text) → length (loose_fraction t) ≤ length t
    length-loose_fraction t = ground (arith, length-skip_digits (drop 1 t), length-drop_one t)

    length-loose_exponent : (t : Text) → length (loose_exponent t) ≤ length t
    length-loose_exponent t = ground (
      arith,
      length-skip_digits (skip_sign (drop 1 t)),
      length-skip_sign (drop 1 t),
      length-drop_one t,
    )

pub read_field_value-Holds : (s : Text) → Holds (IsRestWithin (length s)) (read_field_value s)
unfolding read_field_value
read_field_value-Holds s =
    Holds-if (IsRestWithin (length s)) (starts_with b'"' s) _ (read_number_text s)
      (Holds-mono (IsRestWithin (length (drop 1 s) - 1)) (IsRestWithin (length s)) _
        (read_string-Holds false (drop 1 s)) (λ t h. omega (arith, length-drop_one s)))
      (read_number_text-Holds s)
