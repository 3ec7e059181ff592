-- ===== src/Crc16/Xor.antt =====
-- Laws of the native exclusive or, from the recursion on binary digits that it stands for.
use Prim.Native.Nat.{bit_xor, digits, bit_xor-bitwise, differ}
use native.Mathlib.Nat.{pow-suc}
use smart_gateway.Prelude.{
  ℕ, zero, suc, ◌+◌, ◌*◌, ◌/◌, ◌%◌, ◌^◌, ◌≤◌, ◌<◌, ◌≡◌, ◌∙◌, refl, sym, ap, ap₂, arith,
}

abbrev xor_digits : ℕ → ℕ → ℕ → ℕ
xor_digits n a b = digits (λ b. b) differ n a b

-- Any count of digits that covers the first number will do.
xor_digits_fuel : (n m a b : ℕ) → a ≤ n → a ≤ m → xor_digits n a b ≡ xor_digits m a b
xor_digits_fuel zero zero a b p q = refl
xor_digits_fuel zero (suc m) zero b p q = refl
xor_digits_fuel zero (suc m) (suc a) b p q = absurd (omega arith)
xor_digits_fuel (suc n) zero zero b p q = refl
xor_digits_fuel (suc n) zero (suc a) b p q = absurd (omega arith)
xor_digits_fuel (suc n) (suc m) zero b p q = refl
xor_digits_fuel (suc n) (suc m) (suc a) b p q =
    omega (arith, xor_digits_fuel n m (suc a / 2) (b / 2) (omega arith) (omega arith))

pub zero-bit_xor : (b : ℕ) → bit_xor 0 b ≡ b
zero-bit_xor b = bit_xor-bitwise 0 b

-- The digit of 0 and a number is that number's.
zero-differ : (d : ℕ) → d < 2 → differ 0 d ≡ d
zero-differ d h = ground arith

-- The lowest digit, and the rest.
pub bit_xor_step : (a b : ℕ) → bit_xor a b ≡ bit_xor (a / 2) (b / 2) * 2 + differ (a % 2) (b % 2)
bit_xor_step zero b =
    omega (arith, zero-bit_xor b, zero-bit_xor (b / 2), zero-differ (b % 2) (omega arith))
bit_xor_step (suc a) b = omega (
  arith,
  bit_xor-bitwise (suc a) b,
  bit_xor-bitwise (suc a / 2) (b / 2),
  xor_digits_fuel a (suc a / 2) (suc a / 2) (b / 2) (omega arith) (omega arith),
)

differ_lt : (c d : ℕ) → c < 2 → d < 2 → differ c d < 2
differ_lt zero d hc hd = hd
differ_lt (suc zero) zero hc hd = omega arith
differ_lt (suc zero) (suc d) hc hd = omega arith
differ_lt (suc (suc c)) d hc hd = absurd (omega arith)

differ_twice : (c d : ℕ) → c < 2 → d < 2 → differ (differ c d) d ≡ c
differ_twice zero zero hc hd = refl
differ_twice zero (suc zero) hc hd = refl
differ_twice (suc zero) zero hc hd = refl
differ_twice (suc zero) (suc zero) hc hd = refl
differ_twice c (suc (suc d)) hc hd = absurd (omega arith)
differ_twice (suc (suc c)) d hc hd = absurd (omega arith)

differ_comm : (c d : ℕ) → differ c d ≡ differ d c
differ_comm zero zero = refl
differ_comm zero (suc d) = refl
differ_comm (suc c) zero = refl
differ_comm (suc c) (suc d) = differ_comm c d

pub bit_xor_lt : (k a b : ℕ) → a < 2 ^ k → b < 2 ^ k → bit_xor a b < 2 ^ k
bit_xor_lt zero zero b ha hb = rw (zero-bit_xor b) hb
bit_xor_lt zero (suc a) b ha hb = absurd (omega arith)
bit_xor_lt (suc k) a b ha hb = omega (
  arith,
  bit_xor_step a b,
  pow-suc 2 k,
  differ_lt (a % 2) (b % 2) (omega arith) (omega arith),
  bit_xor_lt k (a / 2) (b / 2) (omega (arith, pow-suc 2 k)) (omega (arith, pow-suc 2 k)),
)

pub bit_xor_comm_below : (n a b : ℕ) → a ≤ n → b ≤ n → bit_xor a b ≡ bit_xor b a
bit_xor_comm_below zero zero zero ha hb = refl
bit_xor_comm_below zero (suc a) b ha hb = absurd (omega arith)
bit_xor_comm_below zero a (suc b) ha hb = absurd (omega arith)
bit_xor_comm_below (suc n) a b ha hb = omega (
  arith,
  bit_xor_step a b,
  bit_xor_step b a,
  differ_comm (a % 2) (b % 2),
  bit_xor_comm_below n (a / 2) (b / 2) (omega arith) (omega arith),
)

pub bit_xor_comm : (a b : ℕ) → bit_xor a b ≡ bit_xor b a
bit_xor_comm a b = bit_xor_comm_below (a + b) a b (omega arith) (omega arith)

bit_xor_twice_below : (n a b : ℕ) → a ≤ n → b ≤ n → bit_xor (bit_xor a b) b ≡ a
bit_xor_twice_below zero zero zero ha hb = refl
bit_xor_twice_below zero (suc a) b ha hb = absurd (omega arith)
bit_xor_twice_below zero a (suc b) ha hb = absurd (omega arith)
bit_xor_twice_below (suc n) a b ha hb =
    bit_xor_step (bit_xor a b) b
    ∙ ap₂ (λ q d. bit_xor q (b / 2) * 2 + differ d (b % 2)) halves digit
    ∙ omega (
      arith,
      bit_xor_twice_below n (a / 2) (b / 2) (omega arith) (omega arith),
      differ_twice (a % 2) (b % 2) (omega arith) (omega arith),
    )
  where
    low : differ (a % 2) (b % 2) < 2
    low = differ_lt (a % 2) (b % 2) (omega arith) (omega arith)

    halves : bit_xor a b / 2 ≡ bit_xor (a / 2) (b / 2)
    halves = omega (arith, bit_xor_step a b, low)

    digit : bit_xor a b % 2 ≡ differ (a % 2) (b % 2)
    digit = omega (arith, bit_xor_step a b, low)

-- Exclusive or undoes itself.
pub bit_xor_twice : (a b : ℕ) → bit_xor (bit_xor a b) b ≡ a
bit_xor_twice a b = bit_xor_twice_below (a + b) a b (omega arith) (omega arith)

pub bit_xor_cancel_right : (a b c : ℕ) → bit_xor a c ≡ bit_xor b c → a ≡ b
bit_xor_cancel_right a b c h = sym (bit_xor_twice a c) ∙ ap (λ x. bit_xor x c) h ∙ bit_xor_twice b c

pub bit_xor_cancel_left : (a b c : ℕ) → bit_xor c a ≡ bit_xor c b → a ≡ b
bit_xor_cancel_left a b c h = bit_xor_cancel_right a b c (bit_xor_comm a c ∙ h ∙ bit_xor_comm c b)
