-- ===== src/MessageJson/Printed.antt =====
-- The scanning steps over what the builders print.
use native.Mathlib.Nat.{pow-suc}
use smart_gateway.Prelude.{
  ℕ, zero, suc, ◌+◌, ◌*◌, ◌/◌, ◌%◌, ◌^◌, ◌≤◌, ◌<◌, ◌≡◌, ◌≢◌, refl, ap, ◌∙◌, arith, Bool, true,
  false, [], ◌∷◌, ◌++◌, some, All, append_assoc, Bool-cases, inl, inr, ltb,
}
use smart_gateway.Prelude.Text.{Text}
use smart_gateway.Frame.{digit_char, decimal}
use smart_gateway.FrameParser.Decode.{is_digit}
use smart_gateway.MessageJson.Scan.{json_skip_whitespace, read_string, read_key, read_value}
use smart_gateway.MessageJson.Build.{print_uint}

-- A text that stands in a JSON string as it is.
abbrev pub IsQuotable : Text → Type 0
IsQuotable = All (λ c. (c ≢ b'"') × (c ≢ b'\\'))

pub read_string-IsQuotable :
    (w rest : Text) → IsQuotable w → read_string false (w ++ b'"' ∷ rest) ≡ some (w, rest)
unfolding read_string
read_string-IsQuotable [] rest h = refl
read_string-IsQuotable (c ∷ w) rest h = ground (arith, read_string-IsQuotable w rest h.1)

-- A character that does not begin white space.
abbrev pub is_mark : ℕ → Bool
is_mark c = ltb 32 c

pub skip_whitespace-mark :
    (c : ℕ) (s : Text) → is_mark c ≡ true → json_skip_whitespace (c ∷ s) ≡ c ∷ s
unfolding json_skip_whitespace
skip_whitespace-mark c s h = ground arith

-- A quoted key, and a value that begins with `c`.
pub read_key-IsQuotable :
    (key s : Text) (c : ℕ)
    → IsQuotable key
    → is_mark c ≡ true
    → read_key (b'"' ∷ (key ++ b'"' ∷ b':' ∷ c ∷ s)) ≡ some (key, c ∷ s)
unfolding read_key
read_key-IsQuotable key s c h m = rw (
  read_string-IsQuotable key (b':' ∷ c ∷ s) h,
  skip_whitespace-mark b':' (c ∷ s) refl,
  skip_whitespace-mark c s m,
)

-- A number is printed from its first digit on.
decimal_start : (k n : ℕ) → (d : ℕ) × (s : Text) × (d < 10) × (decimal (suc k) n ≡ digit_char d ∷ s)
unfolding decimal
decimal_start zero n = elim (Bool-cases (ltb n 10)) [
  | inl e ↦ (n, [], ground arith, rw e)
  | inr e ↦ (n % 10, [], omega arith, rw e)
]
decimal_start (suc k) n =
    let (d, s, lt, shape) = decimal_start k (n / 10) in
    elim (Bool-cases (ltb n 10)) [
      | inl e ↦ (n, [], ground arith, rw e)
      | inr e ↦ (
        d,
        s ++ digit_char (n % 10) ∷ [],
        lt,
        rw e (ap (λ t. t ++ digit_char (n % 10) ∷ []) shape),
      )
    ]

-- Reading digits with a value behind them.
read_value_digit :
    (acc d : ℕ) (s : Text)
    → d < 10
    → acc * 10 + d ≤ 0xFFFFFFFF
    → read_value acc (digit_char d ∷ s) ≡ read_value (acc * 10 + d) s
unfolding read_value is_digit
read_value_digit acc d s h m = ground arith

read_value-decimal :
    (k n : ℕ) (rest : Text)
    → n < 10 ^ k
    → n ≤ 0xFFFFFFFF
    → read_value 0 (decimal k n ++ rest) ≡ read_value n rest
unfolding decimal
read_value-decimal zero n rest h m = ap (λ v. read_value v rest) (omega arith)
read_value-decimal (suc k) n rest h m = elim (Bool-cases (ltb n 10)) [
  | inl e ↦ rw e (
      read_value_digit 0 n rest (ground arith) (omega arith)
      ∙ ap (λ v. read_value v rest) (omega arith))
  | inr e ↦
      rw (e, append_assoc (decimal k (n / 10)) (digit_char (n % 10) ∷ []) rest)
        (read_value-decimal k (n / 10) (digit_char (n % 10) ∷ rest) (omega (arith, pow-suc 10 k))
            (omega arith)
          ∙ read_value_digit (n / 10) (n % 10) rest (omega arith) (omega arith)
          ∙ ap (λ v. read_value v rest) (omega arith))
]

-- `%u`, and whatever follows that is no digit.
module _ (n : ℕ) (small : n < 2 ^ 32) (c : ℕ) (rest : Text) where
  pub read_value-print_uint :
      is_digit c ≡ false → read_value 0 (print_uint n ++ c ∷ rest) ≡ some (n, c ∷ rest)
  unfolding print_uint
  read_value-print_uint no_digit =
      read_value-decimal 10 n (c ∷ rest) (omega arith) (omega arith)
      ∙ (unfold read_value in rw no_digit)

pub print_uint_start : (n : ℕ) → (d : ℕ) × (s : Text) × (d < 10) × (print_uint n ≡ digit_char d ∷ s)
unfolding print_uint
print_uint_start n = decimal_start 9 n
