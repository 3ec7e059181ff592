-- ===== src/FrameParser/Sound.antt =====
-- Whatever bytes arrive: the parser stays within its buffer, and delivers well-formed frames only.
use smart_gateway.Prelude.{
  ℕ, zero, suc, ◌+◌, ◌-◌, ◌≤◌, ◌≡◌, ◌≢◌, refl, arith, true, false, List, [], ◌∷◌, ◌++◌, Option,
  none, some, length, length-append, get_or, take, drop, All,
}
use smart_gateway.Prelude.Text.{Text, c_string}
use smart_gateway.Crc16.{crc16_ccitt_false}
use smart_gateway.FrameParser.{
  ParsedFrame, Parser, Verdict, accepted, crc_error, format_error, Fed, deliver, parse_crc4,
  last_index, check_star, compare_crc, validate_frame, close_frame, wait_byte, collect_byte,
  feed_byte, frame_parser_feed,
}

-- What the code relies on between two bytes: `buffer[length]` may be written, and a buffer being
-- filled begins with '@'.
pub record IsValid (p : Parser) : Type 0 where
  pub room : length p.buffer ≤ 255
  pub started : p.collecting ≡ true → (get_or p.buffer 0 0 ≡ b'@') × (1 ≤ length p.buffer)
  pub idle : p.collecting ≡ false → p.buffer ≡ []

get_or-snoc : (s : List ℕ) (c : ℕ) → 1 ≤ length s → get_or (s ++ c ∷ []) 0 0 ≡ get_or s 0 0
get_or-snoc [] c h = absurd (omega arith)
get_or-snoc (x ∷ s) c h = refl

close_frame-IsValid : (p : Parser) (v : Verdict) → IsValid (close_frame p v).0
unfolding close_frame
close_frame-IsValid p (accepted f) = record {
  room = omega arith;
  started = λ e. cc;
  idle = λ e. refl;
}
close_frame-IsValid p crc_error = record { room = omega arith; started = λ e. cc; idle = λ e. refl }
close_frame-IsValid p format_error = record {
  room = omega arith;
  started = λ e. cc;
  idle = λ e. refl;
}

feed_byte-IsValid : (p : Parser) (c : ℕ) → IsValid p → IsValid (feed_byte p c).0
unfolding feed_byte wait_byte collect_byte
feed_byte-IsValid p c v = ground (
  arith,
  close_frame-IsValid (record p { buffer = p.buffer ++ c ∷ [] })
      (validate_frame (p.buffer ++ c ∷ [])),
  length-append p.buffer (c ∷ []),
  get_or-snoc p.buffer c,
)

deliver-parser : (f : Option ParsedFrame) (r : Fed) → (deliver f r).0 ≡ r.0
deliver-parser none r = refl
deliver-parser (some f) r = refl

-- Whatever bytes arrive, the parser neither writes outside its buffer of `FRAME_MAX_LEN` bytes nor
-- holds anything there that does not begin with '@'.
pub feed-IsValid : (p : Parser) (bytes : List ℕ) → IsValid p → IsValid (frame_parser_feed p bytes).0
unfolding frame_parser_feed
feed-IsValid p [] v = v
feed-IsValid p (c ∷ bytes) v =
    rw (deliver-parser (feed_byte p c).1 (frame_parser_feed (feed_byte p c).0 bytes))
      (feed-IsValid (feed_byte p c).0 bytes (feed_byte-IsValid p c v))

-- The last '*' is one.
last_index-get :
    (c : ℕ) (s : Text) (i : ℕ) → c ≢ 0 → last_index c (c_string s) ≡ some i → get_or s i 0 ≡ c
unfolding last_index c_string
last_index-get c [] i nz h = cc
last_index-get c (x ∷ s) zero nz h = ground arith
last_index-get c (x ∷ s) (suc i) nz h = ground (arith, last_index-get c s i nz)

-- A frame as the protocol has it: `@payload*CCCC\r\n`, with the CRC of the payload.
pub record IsGood (f : ParsedFrame) : Type 0 where
  pub long_enough : 9 ≤ length f.raw
  pub short_enough : length f.raw ≤ 255
  pub at_sign : get_or f.raw 0 0 ≡ b'@'
  pub star : get_or f.raw (length f.raw - 7) 0 ≡ b'*'
  pub carriage_return : get_or f.raw (length f.raw - 2) 0 ≡ 13
  pub line_feed : get_or f.raw (length f.raw - 1) 0 ≡ 10
  pub payload_inside : f.payload ≡ take (length f.raw - 8) (drop 1 f.raw)
  pub crc_text : parse_crc4 (drop (length f.raw - 6) f.raw) ≡ some f.received_crc
  pub crc_checked : f.received_crc ≡ crc16_ccitt_false f.payload
  pub crc_kept : f.calculated_crc ≡ f.received_crc

record Checked (b : List ℕ) (star : ℕ) (f : ParsedFrame) : Type 0 where
  raw_kept : f.raw ≡ b
  star_place : star + 7 ≡ length b
  star_after : 2 ≤ star
  payload_is : f.payload ≡ take (star - 1) (drop 1 b)
  text_is : parse_crc4 (drop (star + 1) b) ≡ some f.received_crc
  received_is : f.received_crc ≡ crc16_ccitt_false f.payload
  calculated_is : f.calculated_crc ≡ f.received_crc

compare_crc-Checked :
    (b : List ℕ) (star : ℕ) (r : Option ℕ) {f : ParsedFrame}
    → parse_crc4 (drop (star + 1) b) ≡ r
    → star + 7 ≡ length b
    → 2 ≤ star
    → compare_crc b star r ≡ accepted f
    → Checked b star f
unfolding compare_crc
compare_crc-Checked b star none e place after h = cc
compare_crc-Checked b star (some r) e place after h = ground arith

check_star-Checked :
    (b : List ℕ) (o : Option ℕ) {f : ParsedFrame}
    → check_star b o ≡ accepted f
    → (star : ℕ) × (o ≡ some star) × Checked b star f
unfolding check_star
check_star-Checked b none h = cc
check_star-Checked b (some star) {f} h =
    (star, refl, compare_crc-Checked b star _ refl (ground arith) (ground arith) inner)
  where
    inner : compare_crc b star (parse_crc4 (drop (star + 1) b)) ≡ accepted f
    inner = ground arith

validate_frame-outline :
    (b : List ℕ) {f : ParsedFrame}
    → validate_frame b ≡ accepted f
    → (length b ≤ 255)
      × (get_or b 0 0 ≡ b'@')
      × (get_or b (length b - 2) 0 ≡ 13)
      × (get_or b (length b - 1) 0 ≡ 10)
      × (check_star b (last_index b'*' (c_string b)) ≡ accepted f)
unfolding validate_frame
validate_frame-outline b h = ground arith

validate_frame-IsGood : (b : List ℕ) {f : ParsedFrame} → validate_frame b ≡ accepted f → IsGood f
validate_frame-IsGood b {f} h =
    let o = validate_frame-outline b h in
    let (star, found, k) = check_star-Checked b (last_index b'*' (c_string b)) o.4 in
    let place : star ≡ length b - 7 = omega (arith, k.star_place) in
    let before : star - 1 ≡ length b - 8 = omega (arith, k.star_place) in
    let behind : star + 1 ≡ length b - 6 = omega (arith, k.star_place) in
    record {
      long_enough = rw k.raw_kept (omega (arith, k.star_place, k.star_after));
      short_enough = rw k.raw_kept o.0;
      at_sign = rw k.raw_kept o.1;
      star = rw (k.raw_kept, ← place) (last_index-get b'*' b star (omega arith) found);
      carriage_return = rw k.raw_kept o.2;
      line_feed = rw k.raw_kept o.3;
      payload_inside = rw (k.raw_kept, ← before) k.payload_is;
      crc_text = rw (k.raw_kept, ← behind) k.text_is;
      crc_checked = k.received_is;
      crc_kept = k.calculated_is;
    }

close_frame-good :
    (p : Parser) (v : Verdict) {f : ParsedFrame} → (close_frame p v).1 ≡ some f → v ≡ accepted f
unfolding close_frame
close_frame-good p (accepted g) h = ground arith
close_frame-good p crc_error h = cc
close_frame-good p format_error h = cc

feed_byte-IsGood : (p : Parser) (c : ℕ) {f : ParsedFrame} → (feed_byte p c).1 ≡ some f → IsGood f
feed_byte-IsGood p c {f} h = validate_frame-IsGood b (close_frame-good q (validate_frame b) closed)
  where
    b : List ℕ
    b = p.buffer ++ c ∷ []

    q : Parser
    q = record p { buffer = b }

    closed : (close_frame q (validate_frame b)).1 ≡ some f
    closed = unfold feed_byte collect_byte in ground arith

deliver-IsGood :
    (o : Option ParsedFrame) (r : Fed)
    → ((f : ParsedFrame) → o ≡ some f → IsGood f)
    → All IsGood r.2
    → All IsGood (deliver o r).2
deliver-IsGood none r h later = later
deliver-IsGood (some f) r h later = (h f refl, later)

-- From any state and on any bytes, every frame that is delivered is well formed, no longer than
-- the protocol allows, and carries the CRC of its payload.
pub feed-IsGood : (p : Parser) (bytes : List ℕ) → All IsGood (frame_parser_feed p bytes).2
unfolding frame_parser_feed
feed-IsGood p [] = tt
feed-IsGood p (c ∷ bytes) =
    deliver-IsGood (feed_byte p c).1 (frame_parser_feed (feed_byte p c).0 bytes)
      (λ f e. feed_byte-IsGood p c e) (feed-IsGood (feed_byte p c).0 bytes)
