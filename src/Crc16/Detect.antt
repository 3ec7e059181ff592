-- ===== src/Crc16/Detect.antt =====
-- The CRC detects every change that is confined to one byte.
use Prim.Native.Nat.{bit_xor}
use smart_gateway.Prelude.{
  ℕ, zero, suc, ◌+◌, ◌*◌, ◌/◌, ◌%◌, ◌<◌, ◌≡◌, ◌≢◌, ◌∙◌, refl, sym, ap, arith, Bool, true, ◌&&◌,
  ◌==◌, if◌then◌else◌, eq_of_==, List, [], ◌∷◌, ◌++◌, All,
}
use smart_gateway.Crc16.{shift_bit, shift_bits, add_byte, crc_from, crc16_ccitt_false}
use smart_gateway.Crc16.Xor.{bit_xor_lt, bit_xor_cancel_left, bit_xor_cancel_right}

-- A round can be undone: its lowest bit tells whether the polynomial was added.
unshift_bit : ℕ → ℕ
unshift_bit r = if r % 2 == 0 then r / 2 else bit_xor r 0x1021 / 2 + 0x8000

all_below : ℕ → (ℕ → Bool) → Bool
all_below zero p = true
all_below (suc n) p = p n && all_below n p

all_below_lem : (n : ℕ) (p : ℕ → Bool) (x : ℕ) → all_below n p ≡ true → x < n → p x ≡ true
unfolding all_below
all_below_lem zero p x h lt = absurd (omega arith)
all_below_lem (suc n) p x h lt = ground (arith, all_below_lem n p x)

unshift_table : all_below 65536 (λ c. unshift_bit (shift_bit c) == c) ≡ true
unfolding all_below unshift_bit shift_bit
unshift_table = refl

unshift_bit-shift_bit : (c : ℕ) → c < 65536 → unshift_bit (shift_bit c) ≡ c
unshift_bit-shift_bit c h = eq_of_== _ c (all_below_lem 65536 _ c unshift_table h)

shift_bit_lt : (c : ℕ) → shift_bit c < 65536
unfolding shift_bit
shift_bit_lt c = ground arith

shift_bit-injective : (c d : ℕ) → c < 65536 → d < 65536 → shift_bit c ≡ shift_bit d → c ≡ d
shift_bit-injective c d hc hd e =
    sym (unshift_bit-shift_bit c hc) ∙ ap unshift_bit e ∙ unshift_bit-shift_bit d hd

shift_bits_lt : (n c : ℕ) → c < 65536 → shift_bits n c < 65536
unfolding shift_bits
shift_bits_lt zero c h = h
shift_bits_lt (suc n) c h = shift_bits_lt n (shift_bit c) (shift_bit_lt c)

shift_bits-injective : (n c d : ℕ) → c < 65536 → d < 65536 → shift_bits n c ≡ shift_bits n d → c ≡ d
unfolding shift_bits
shift_bits-injective zero c d hc hd e = e
shift_bits-injective (suc n) c d hc hd e =
    shift_bit-injective c d hc hd
      (shift_bits-injective n (shift_bit c) (shift_bit d) (shift_bit_lt c) (shift_bit_lt d) e)

-- The register with a byte put in is still below 2 ^ 16, so the cast changes nothing.
put_in : (c b : ℕ) → c < 65536 → b < 256 → bit_xor c (b * 256) < 65536
put_in c b hc hb = bit_xor_lt 16 c (b * 256) (omega arith) (omega arith)

add_byte_lt : (c b : ℕ) → add_byte c b < 65536
unfolding add_byte
add_byte_lt c b = shift_bits_lt 8 _ (omega arith)

same_xor :
    (c d a b : ℕ)
    → c < 65536
    → d < 65536
    → a < 256
    → b < 256
    → add_byte c a ≡ add_byte d b
    → bit_xor c (a * 256) ≡ bit_xor d (b * 256)
unfolding add_byte
same_xor c d a b hc hd ha hb e = omega (
  arith,
  put_in c a hc ha,
  put_in d b hd hb,
  shift_bits-injective 8 (bit_xor c (a * 256) % 65536) (bit_xor d (b * 256) % 65536) (omega arith)
      (omega arith) e,
)

add_byte-injective :
    (c d b : ℕ) → c < 65536 → d < 65536 → b < 256 → add_byte c b ≡ add_byte d b → c ≡ d
add_byte-injective c d b hc hd hb e =
    bit_xor_cancel_right c d (b * 256) (same_xor c d b b hc hd hb hb e)

add_byte-byte_injective :
    (c a b : ℕ) → c < 65536 → a < 256 → b < 256 → add_byte c a ≡ add_byte c b → a ≡ b
add_byte-byte_injective c a b hc ha hb e =
    omega (arith, bit_xor_cancel_left (a * 256) (b * 256) c (same_xor c c a b hc hc ha hb e))

abbrev pub IsByte : ℕ → Type 0
IsByte b = b < 256

crc_from-injective :
    (s : List ℕ) (c d : ℕ)
    → All IsByte s
    → c < 65536
    → d < 65536
    → crc_from c s ≡ crc_from d s
    → c ≡ d
unfolding crc_from
crc_from-injective [] c d hs hc hd e = e
crc_from-injective (b ∷ s) c d hs hc hd e =
    add_byte-injective c d b hc hd hs.0 (
      crc_from-injective s (add_byte c b) (add_byte d b) hs.1 (add_byte_lt c b) (add_byte_lt d b) e)

crc_from_lt : (s : List ℕ) (c : ℕ) → c < 65536 → crc_from c s < 65536
unfolding crc_from
crc_from_lt [] c h = h
crc_from_lt (b ∷ s) c h = crc_from_lt s (add_byte c b) (add_byte_lt c b)

pub crc_from-append : (s t : List ℕ) (c : ℕ) → crc_from c (s ++ t) ≡ crc_from (crc_from c s) t
unfolding crc_from
crc_from-append [] t c = refl
crc_from-append (b ∷ s) t c = crc_from-append s t (add_byte c b)

-- The result is a 16-bit number.
pub crc16_lt : (s : List ℕ) → crc16_ccitt_false s < 65536
unfolding crc16_ccitt_false
crc16_lt s = crc_from_lt s 0xFFFF (omega arith)

-- Two byte strings of one length that differ in exactly one byte have different CRCs.
pub one_byte_detected :
    (pre post : List ℕ) (a b : ℕ)
    → All IsByte post
    → a < 256
    → b < 256
    → a ≢ b
    → crc16_ccitt_false (pre ++ a ∷ post) ≢ crc16_ccitt_false (pre ++ b ∷ post)
unfolding crc16_ccitt_false
one_byte_detected pre post a b hp ha hb ne e = ne (add_byte-byte_injective c a b hc ha hb same)
  where
    c : ℕ
    c = crc_from 0xFFFF pre

    hc : c < 65536
    hc = crc_from_lt pre 0xFFFF (omega arith)

    same : add_byte c a ≡ add_byte c b
    same =
        crc_from-injective post (add_byte c a) (add_byte c b) hp (add_byte_lt c a) (add_byte_lt c b)
          (sym (crc_from-append pre (a ∷ post) 0xFFFF) ∙ e ∙ crc_from-append pre (b ∷ post) 0xFFFF)
