-- ===== src/FrameParser/Validate.antt =====
-- `validate_frame` on a payload in its frame, with the CRC that belongs to it or another.
use smart_gateway.Prelude.{
  ℕ, zero, suc, ◌+◌, ◌-◌, ◌/◌, ◌%◌, ◌≤◌, ◌<◌, ◌≡◌, ◌≢◌, refl, sym, ap, arith, [], ◌∷◌, ◌++◌, none,
  some, length, get_or, take, drop, length-append, All, All-append, All-mono, take-length_append,
  drop-past, ◌==◌, if◌then◌else◌, append_assoc,
}
use smart_gateway.Prelude.Text.{Text, HasNoNul, c_string, c_string-eq_self}
use smart_gateway.Crc16.{crc16_ccitt_false}
use smart_gateway.Frame.{hex_char, hex4, frame_text}
use smart_gateway.FrameParser.{
  ParsedFrame, accepted, crc_error, hex_value, parse_hex, parse_crc4, last_index, check_star,
  compare_crc, validate_frame,
}

hex_value-hex_char : (d : ℕ) → d < 16 → hex_value (hex_char d) ≡ some d
unfolding hex_value hex_char
hex_value-hex_char d h = ground arith

-- `parse_crc4` reads back what `%04X` prints, whatever follows.
pub parse_crc4-hex4 : (n : ℕ) (rest : Text) → n < 65536 → parse_crc4 (hex4 n ++ rest) ≡ some n
unfolding parse_crc4 hex4
parse_crc4-hex4 n rest h =
    rw
      (
        hex_value-hex_char (n / 4096 % 16) (omega arith),
        hex_value-hex_char (n / 256 % 16) (omega arith),
        hex_value-hex_char (n / 16 % 16) (omega arith),
        hex_value-hex_char (n % 16) (omega arith),
        parse_hex,
      )
      (ap some (omega arith))

-- What a character of the CRC text is not.
abbrev pub IsHexDigit : ℕ → Type 0
IsHexDigit c = (c ≢ 0) × (c ≢ b'*') × (c ≢ b'@') × (c ≢ 10)

hex_char-IsHexDigit : (d : ℕ) → d < 16 → IsHexDigit (hex_char d)
unfolding hex_char
hex_char-IsHexDigit d h = ground arith

pub hex4-IsHexDigit : (n : ℕ) → All IsHexDigit (hex4 n)
unfolding hex4
hex4-IsHexDigit n = (
  hex_char-IsHexDigit (n / 4096 % 16) (omega arith),
  (
    hex_char-IsHexDigit (n / 256 % 16) (omega arith),
    (
      hex_char-IsHexDigit (n / 16 % 16) (omega arith),
      (hex_char-IsHexDigit (n % 16) (omega arith), tt),
    ),
  ),
)

pub length-hex4 : (n : ℕ) → length (hex4 n) ≡ 4
unfolding hex4
length-hex4 n = refl

-- The last occurrence is the one behind which there is none.
last_index-eq_none : (c : ℕ) (s : Text) → All (λ x. x ≢ c) s → last_index c s ≡ none
unfolding last_index
last_index-eq_none c [] h = refl
last_index-eq_none c (x ∷ s) h = ground (arith, last_index-eq_none c s h.1)

last_index-append :
    (c : ℕ) (s t : Text) → All (λ x. x ≢ c) t → last_index c (s ++ c ∷ t) ≡ some (length s)
unfolding last_index
last_index-append c [] t h = ground (arith, last_index-eq_none c t h)
last_index-append c (x ∷ s) t h = ground (arith, last_index-append c s t h)

get_or-append : (s t : Text) (k n d : ℕ) → n ≡ length s + k → get_or (s ++ t) n d ≡ get_or t k d
get_or-append [] t k n d e = ap (λ i. get_or t i d) (omega arith)
get_or-append (x ∷ s) t k zero d e = absurd (omega arith)
get_or-append (x ∷ s) t k (suc n) d e = get_or-append s t k n d (omega arith)

-- A payload that a frame can carry: not empty, no NUL (it is a C string), and short enough that
-- the frame around it ends within `FRAME_MAX_LEN`.
pub record IsPayload (s : Text) : Type 0 where
  pub has_no_nul : HasNoNul s
  pub nonempty : 1 ≤ length s
  pub short : length s ≤ 247

-- A payload framed with any CRC; `frame_text` puts in the right one.
unfoldable pub framed : Text → ℕ → Text
framed s crc = b'@' ∷ (s ++ b'*' ∷ (hex4 crc ++ 13 ∷ 10 ∷ []))

pub frame_text-eq-framed : (s : Text) → frame_text s ≡ framed s (crc16_ccitt_false s)
unfolding frame_text framed
frame_text-eq-framed s = refl

module _ (s : Text) (crc : ℕ) where
  abbrev crc_tail : Text
  crc_tail = hex4 crc ++ 13 ∷ 10 ∷ []

  tail_chars : All (λ c. (c ≢ 0) × (c ≢ b'*')) crc_tail
  tail_chars =
      All-append (λ c. (c ≢ 0) × (c ≢ b'*')) (hex4 crc) (13 ∷ 10 ∷ [])
        (All-mono IsHexDigit (λ c. (c ≢ 0) × (c ≢ b'*')) (hex4 crc) (λ c h. (h.0, h.1))
          (hex4-IsHexDigit crc))
        (omega arith)

  pub length-framed : length (framed s crc) ≡ length s + 8
  unfolding framed
  length-framed = omega (
    arith,
    length-append s (b'*' ∷ crc_tail),
    length-append (hex4 crc) (13 ∷ 10 ∷ []),
    length-hex4 crc,
  )

  framed-HasNoNul : HasNoNul s → HasNoNul (framed s crc)
  unfolding framed
  framed-HasNoNul h = (
    omega arith,
    All-append (λ c. c ≢ 0) s (b'*' ∷ crc_tail) h
        (omega arith, All-mono _ (λ c. c ≢ 0) crc_tail (λ c h. h.0) tail_chars),
  )

  -- The frame without its last two bytes.
  abbrev frame_body : Text
  frame_body = b'@' ∷ (s ++ b'*' ∷ hex4 crc)

  framed-split : framed s crc ≡ frame_body ++ 13 ∷ 10 ∷ []
  unfolding framed
  framed-split = ap (λ t. b'@' ∷ t) (sym (append_assoc s (b'*' ∷ hex4 crc) (13 ∷ 10 ∷ [])))

  framed-end :
      (k : ℕ)
      → k < 2
      → get_or (framed s crc) (length (framed s crc) - 2 + k) 0 ≡ get_or (13 ∷ 10 ∷ []) k 0
  framed-end k h = rw framed-split (
      get_or-append frame_body (13 ∷ 10 ∷ []) k _ 0
        (omega (arith, length-append frame_body (13 ∷ 10 ∷ []))))

  star_found : HasNoNul s → last_index b'*' (c_string (framed s crc)) ≡ some (suc (length s))
  star_found h = rw (c_string-eq_self (framed s crc) (framed-HasNoNul h)) (
      unfold framed in
      last_index-append b'*' (b'@' ∷ s) crc_tail
        (All-mono _ (λ c. c ≢ b'*') crc_tail (λ c h. h.1) tail_chars))

  framed-crc : drop (suc (length s) + 1) (framed s crc) ≡ crc_tail
  unfolding framed
  framed-crc = drop-past (b'@' ∷ s) crc_tail b'*'

  framed-payload : take (length s) (drop 1 (framed s crc)) ≡ s
  unfolding framed
  framed-payload = take-length_append s (b'*' ∷ crc_tail)

  framed-start : get_or (framed s crc) 0 0 ≡ b'@'
  unfolding framed
  framed-start = refl

  -- What the parser makes of the frame if its CRC is right.
  abbrev pub parsed : ParsedFrame
  parsed = record {
    raw = framed s crc;
    payload = s;
    received_crc = crc;
    calculated_crc = crc16_ccitt_false s;
  }

  check_star-framed :
      IsPayload s
      → crc < 65536
      → check_star (framed s crc) (some (suc (length s)))
        ≡ (if crc16_ccitt_false s == crc then accepted parsed else crc_error)
  unfolding check_star compare_crc
  check_star-framed h lt =
      ground
        (arith, length-framed, framed-crc, framed-payload, parse_crc4-hex4 crc (13 ∷ 10 ∷ []) lt)

  -- A framed payload is accepted with the right CRC, and is a CRC error with any other.
  pub validate-framed :
      IsPayload s
      → crc < 65536
      → validate_frame (framed s crc)
        ≡ (if crc16_ccitt_false s == crc then accepted parsed else crc_error)
  unfolding validate_frame
  validate-framed h lt = ground (
    arith,
    length-framed,
    framed-start,
    framed-end 0 (omega arith),
    framed-end 1 (omega arith),
    star_found h.has_no_nul,
    check_star-framed h lt,
  )
