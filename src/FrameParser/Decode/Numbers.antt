-- ===== src/FrameParser/Decode/Numbers.antt =====
-- The sequence number: six digits out, the same number in.
use smart_gateway.Prelude.{ℕ, ◌+◌, ◌*◌, ◌/◌, ◌%◌, ◌<◌, ◌≡◌, ◌≢◌, arith, [], ◌∷◌, some, false, All}
use smart_gateway.Prelude.Text.{Text}
use smart_gateway.Frame.{digit_char, decimal6}
use smart_gateway.Frame.Build.{IsPlain}
use smart_gateway.FrameParser.Decode.{is_digit, read_digits, check_value, parse_uint32_decimal}

read_digits_step :
    (acc d : ℕ) (s : Text)
    → d < 10
    → read_digits acc (digit_char d ∷ s) ≡ read_digits (acc * 10 + d) s
unfolding read_digits is_digit
read_digits_step acc d s h = ground arith

-- A digit is neither a space nor a sign.
digit_start :
    (d : ℕ) (s : Text)
    → d < 10
    → parse_uint32_decimal (digit_char d ∷ s) ≡ check_value false (read_digits 0 (digit_char d ∷ s))
unfolding parse_uint32_decimal
digit_start d s h = ground arith

number_end : (v n : ℕ) → v ≡ n → n < 1000000 → check_value false (read_digits v []) ≡ some n
unfolding check_value read_digits
number_end v n e h = ground arith

-- `parse_uint32_decimal` reads back what `%06u` prints.
pub parse_uint32-decimal6 : (n : ℕ) → n < 1000000 → parse_uint32_decimal (decimal6 n) ≡ some n
unfolding decimal6
parse_uint32-decimal6 n h =
    rw
      (
        digit_start (n / 100000 % 10) _ (omega arith),
        read_digits_step 0 (n / 100000 % 10) _ (omega arith),
        read_digits_step _ (n / 10000 % 10) _ (omega arith),
        read_digits_step _ (n / 1000 % 10) _ (omega arith),
        read_digits_step _ (n / 100 % 10) _ (omega arith),
        read_digits_step _ (n / 10 % 10) _ (omega arith),
        read_digits_step _ (n % 10) _ (omega arith),
      )
      (number_end _ n (omega arith) h)

pub decimal6-chars : (n : ℕ) → All (λ c. (c ≢ 0) × IsPlain c) (decimal6 n)
unfolding decimal6
decimal6-chars n = omega arith
