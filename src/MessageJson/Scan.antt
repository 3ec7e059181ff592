-- ===== src/MessageJson/Scan.antt =====
-- The scanning steps of common/message_json.c. A position `p` before `end` is the text from there
-- on; a step that fails is `none`. Bytes above 127 are no digits and no punctuation, whether `char`
-- is signed or not.
use smart_gateway.Prelude.{
  ℕ, ◌+◌, ◌-◌, ◌*◌, ◌/◌, ltb, ◌==◌, if◌then◌else◌, Bool, false, ◌&&◌, ◌||◌, not, [], ◌∷◌, Option,
  none, some, length, take, drop,
}
use smart_gateway.Prelude.Text.{Text}
use smart_gateway.FrameParser.Decode.{is_digit}

infixl 5 ◌>>=◌
abbrev pub ◌>>=◌ {ℓ κ} : {A : Type ℓ} {B : Type κ} → Option A → (A → Option B) → Option B
none >>= f = none
some a >>= f = f a

-- `json_skip_whitespace`
unfoldable pub json_skip_whitespace : Text → Text
json_skip_whitespace [] = []
json_skip_whitespace (c ∷ s) =
    if c == b' ' || c == 9 || c == 13 || c == 10 then json_skip_whitespace s else c ∷ s

-- `p < end && *p == c`
abbrev pub starts_with : ℕ → Text → Bool
starts_with c [] = false
starts_with c (x ∷ s) = x == c

-- `p >= end || *p != c` fails; then `p++`.
abbrev pub expect : ℕ → Text → Option Text
expect c [] = none
expect c (x ∷ s) = if x == c then some s else none

-- `p >= end` fails.
abbrev pub expect_more : Text → Option Text
expect_more [] = none
expect_more (c ∷ s) = some (c ∷ s)

abbrev pub push : ℕ → Option (Text × Text) → Option (Text × Text)
push c none = none
push c (some (w, rest)) = some (c ∷ w, rest)

-- The loop behind an opening quote, to the closing one: the text between them and the text behind.
-- A backslash, and `escaped` whatever follows it, stays in the text; one that stands last takes `p`
-- past `end`, which fails too.
unfoldable pub read_string : Bool → Text → Option (Text × Text)
read_string escaped [] = none
read_string escaped (c ∷ s) =
    let rest = read_string (not escaped && c == b'\\') s in
    if not escaped && c == b'"' then some ([], s) else push c rest

-- A member's key, the colon, and the text from its value on.
unfoldable pub read_key : Text → Option (Text × Text)
read_key s = do
  s1 ← expect b'"' s
  (key, s2) ← read_string false s1
  s3 ← expect b':' (json_skip_whitespace s2)
  s4 ← expect_more (json_skip_whitespace s3)
  some (key, s4)

abbrev pub starts_with_digit : Text → Bool
unfolding is_digit
starts_with_digit [] = false
starts_with_digit (c ∷ s) = is_digit c

unfoldable pub skip_digits : Text → Text
skip_digits [] = []
skip_digits (c ∷ s) = if is_digit c then skip_digits s else c ∷ s

-- At least one digit.
unfoldable pub some_digits : Text → Option Text
some_digits s = if starts_with_digit s then some (skip_digits s) else none

abbrev pub skip_minus : Text → Text
skip_minus s = if starts_with b'-' s then drop 1 s else s

unfoldable pub fraction : Text → Option Text
fraction s = if starts_with b'.' s then some_digits (drop 1 s) else some s

abbrev pub starts_exponent : Text → Bool
starts_exponent s = starts_with b'e' s || starts_with b'E' s

abbrev pub skip_sign : Text → Text
skip_sign s = if starts_with b'+' s || starts_with b'-' s then drop 1 s else s

unfoldable pub exponent : Text → Option Text
exponent s = if starts_exponent s then some_digits (skip_sign (drop 1 s)) else some s

-- A number whose text is kept: that text, and the text behind it.
unfoldable pub read_number_text : Text → Option (Text × Text)
unfolding some_digits fraction exponent skip_digits is_digit
read_number_text s = do
  s1 ← some_digits (skip_minus s)
  s2 ← fraction s1
  s3 ← exponent s2
  some (take (length s - length s3) s, s3)

-- Elsewhere a fraction and an exponent need no digits.
abbrev pub loose_fraction : Text → Text
loose_fraction s = if starts_with b'.' s then skip_digits (drop 1 s) else s

abbrev pub loose_exponent : Text → Text
loose_exponent s = if starts_exponent s then skip_digits (skip_sign (drop 1 s)) else s

abbrev pub skip_decimals : Text → Text
skip_decimals s = loose_exponent (loose_fraction s)

-- The digits at the head of a text, behind the value `acc`; a value above 2 ^ 32 - 1 fails.
unfoldable pub read_value : ℕ → Text → Option (ℕ × Text)
read_value acc [] = some (acc, [])
read_value acc (c ∷ s) =
    let digit = c - b'0' in
    let rest = read_value (acc * 10 + digit) s in
    if not (is_digit c)
    then some (acc, c ∷ s)
    else if ltb ((0xFFFFFFFF - digit) / 10) acc
    then none
    else rest
