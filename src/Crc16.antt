-- ===== src/Crc16.antt =====
-- common/crc16.c: CRC-16/CCITT-FALSE over a list of bytes. The NULL test of `data` has no counterpart:
-- a list is never NULL.
pub mod Xor
pub mod Detect
use Prim.Native.Nat.{bit_and, bit_xor}
use smart_gateway.Prelude.{ℕ, zero, suc, ◌*◌, ◌%◌, ◌==◌, if◌then◌else◌, List, [], ◌∷◌, ◌≡◌, refl}

-- One round of the inner loop on the 16-bit register.
pub shift_bit : ℕ → ℕ
shift_bit crc =
    if bit_and crc 0x8000 == 0 then (crc * 2) % 65536 else bit_xor (crc * 2) 0x1021 % 65536

-- The inner loop with `n` rounds left.
pub shift_bits : ℕ → ℕ → ℕ
shift_bits zero crc = crc
shift_bits (suc n) crc = shift_bits n (shift_bit crc)

-- The body of the outer loop.
pub add_byte : ℕ → ℕ → ℕ
add_byte crc byte = shift_bits 8 (bit_xor crc (byte * 256) % 65536)

-- The outer loop from a register value on.
pub crc_from : ℕ → List ℕ → ℕ
crc_from crc [] = crc
crc_from crc (byte ∷ rest) = crc_from (add_byte crc byte) rest

unfoldable pub crc16_ccitt_false : List ℕ → ℕ
unfolding crc_from add_byte shift_bits shift_bit
crc16_ccitt_false data_bytes = crc_from 0xFFFF data_bytes

-- The check value of the algorithm's name, as tests/test_crc16.c has it.
standard_check :
    crc16_ccitt_false (b'1' ∷ b'2' ∷ b'3' ∷ b'4' ∷ b'5' ∷ b'6' ∷ b'7' ∷ b'8' ∷ b'9' ∷ []) ≡ 0x29B1
unfolding crc16_ccitt_false
standard_check = refl
