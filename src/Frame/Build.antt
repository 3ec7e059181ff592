-- ===== src/Frame/Build.antt =====
-- What the builders of common/frame.c accept, and what they write.
use smart_gateway.Prelude.{
  ℕ, ◌%◌, ◌≤◌, ◌<◌, ◌≡◌, ◌≢◌, ◌∙◌, ◌⊎◌, refl, sym, ap, arith, true, List, [], ◌∷◌, ◌++◌, length,
  length-append, All, append-nil, append_assoc,
}
use smart_gateway.Prelude.Text.{Text}
use smart_gateway.Frame.Kinds.{Kv, FrameError, Result, ok, err}
use smart_gateway.Frame.{
  is_reserved, has_no_reserved, is_empty, node_id_is_valid, has_no_delimiter, field_text_is_valid,
  header, kv_text, append_fields, frame_text, write_frame, finish, build_kv_frame,
}

-- A character that no id holds is none of @ * , CR LF.
abbrev pub IsPlain : ℕ → Type 0
IsPlain c = (c ≢ b'@') × (c ≢ b'*') × (c ≢ b',') × (c ≢ 13) × (c ≢ 10)

has_no_reserved-All : (s : Text) → has_no_reserved s ≡ true → All IsPlain s
unfolding has_no_reserved is_reserved
has_no_reserved-All [] h = tt
has_no_reserved-All (c ∷ s) h = (ground arith, has_no_reserved-All s (ground arith))

-- An accepted id is not empty and has none of the characters that structure a frame.
pub node_id_is_valid-IsPlain :
    (s : Text) → node_id_is_valid s ≡ true → (1 ≤ length s) × All IsPlain s
unfolding node_id_is_valid is_empty
node_id_is_valid-IsPlain [] h = ground arith
node_id_is_valid-IsPlain (c ∷ s) h = (omega arith, has_no_reserved-All (c ∷ s) h)

has_no_delimiter-All : (s : Text) → has_no_delimiter s ≡ true → All (λ c. IsPlain c × (c ≢ b'=')) s
unfolding has_no_delimiter is_reserved
has_no_delimiter-All [] h = tt
has_no_delimiter-All (c ∷ s) h = (ground arith, has_no_delimiter-All s (ground arith))

-- Nor does an accepted key or value, and it has no '=' either.
pub field_text_is_valid-IsPlain :
    (s : Text) → field_text_is_valid s ≡ true → (1 ≤ length s) × All (λ c. IsPlain c × (c ≢ b'=')) s
unfolding field_text_is_valid is_empty
field_text_is_valid-IsPlain [] h = ground arith
field_text_is_valid-IsPlain (c ∷ s) h = (omega arith, has_no_delimiter-All (c ∷ s) h)

-- The fields as they stand in a payload.
unfoldable pub fields_text : List Kv → Text
fields_text [] = []
fields_text (f ∷ fs) = kv_text f ++ fields_text fs

-- The payload that a builder is asked for.
unfoldable pub payload_of : Text → ℕ → Text → List Kv → Text
payload_of id sequence type fields = header id (sequence % 1000000) type ++ fields_text fields

abbrev pub IsValidField : Kv → Type 0
IsValidField f = (field_text_is_valid f.key ≡ true) × (field_text_is_valid f.value ≡ true)

-- The loop over the fields succeeds if each is valid and the text stays below `FRAME_MAX_LEN`.
append_fields-ok :
    (fs : List Kv) (acc : Text)
    → All IsValidField fs
    → length (acc ++ fields_text fs) ≤ 255
    → append_fields acc fs ≡ ok (acc ++ fields_text fs)
unfolding append_fields fields_text
append_fields-ok [] acc v h = ap ok (sym (append-nil acc))
append_fields-ok (f ∷ fs) acc v h = ground (
  arith,
  length-append acc (kv_text f ++ fields_text fs),
  length-append (kv_text f) (fields_text fs),
  append_assoc acc (kv_text f) (fields_text fs),
  append_fields-ok fs (acc ++ kv_text f) v.1,
)

append_fields_step :
    (f : Kv) (fs : List Kv) (acc : Text) {t : Text}
    → append_fields acc (f ∷ fs) ≡ ok t
    → length acc ≤ 255
    → IsValidField f
      × (length (acc ++ kv_text f) ≤ 255)
      × (append_fields (acc ++ kv_text f) fs ≡ ok t)
unfolding append_fields
append_fields_step f fs acc h short = ground (arith, length-append acc (kv_text f))

-- And only then.
append_fields-inv :
    (fs : List Kv) (acc : Text) {t : Text}
    → append_fields acc fs ≡ ok t
    → length acc ≤ 255
    → (t ≡ acc ++ fields_text fs) × All IsValidField fs × (length t ≤ 255)
unfolding fields_text
append_fields-inv [] acc h short = unfold append_fields in ground (arith, append-nil acc)
append_fields-inv (f ∷ fs) acc h short =
    let step = append_fields_step f fs acc h short in
    let rest = append_fields-inv fs (acc ++ kv_text f) step.2 step.1 in
    (rest.0 ∙ append_assoc acc (kv_text f) (fields_text fs), (step.0, rest.1), rest.2)

finish-ok :
    (out_size : ℕ) (r : Result Text) {n : ℕ}
    → (finish out_size r).0 ≡ ok n
    → (t : Text) × (r ≡ ok t) × (length (frame_text t) < out_size)
unfolding finish write_frame
finish-ok out_size (ok t) h = (t, refl, ground arith)
finish-ok out_size (err e) h = cc

-- What a builder of a DATA, CMD or ACK frame requires.
pub record Accepts (out_size : ℕ) (id : Text) (sequence : ℕ) (type : Text) (fields : List Kv)
    : Type 0 where
  pub few_fields : length fields ≤ 16
  pub valid_id : node_id_is_valid id ≡ true
  pub valid_fields : All IsValidField fields
  pub payload_fits : length (payload_of id sequence type fields) ≤ 255
  pub frame_fits : length (frame_text (payload_of id sequence type fields)) < out_size

module _ (out : Text) (out_size : ℕ) (id : Text) (sequence : ℕ) (type : Text)
    (fields : List Kv) where
  abbrev pub built : Result ℕ × Text
  built = build_kv_frame out out_size id sequence type fields

  -- A builder that is given what it requires writes the frame of the payload, and returns its
  -- length.
  pub build-Accepts :
      Accepts out_size id sequence type fields
      → built ≡ (
        ok (length (frame_text (payload_of id sequence type fields))),
        frame_text (payload_of id sequence type fields),
      )
  unfolding build_kv_frame payload_of
  build-Accepts a = ground (
    arith,
    append_fields-ok fields (header id (sequence % 1000000) type),
    length-append (header id (sequence % 1000000) type) (fields_text fields),
  )

  -- A builder that returns a length was given what it requires.
  pub build-ok-Accepts : {n : ℕ} → built.0 ≡ ok n → Accepts out_size id sequence type fields
  unfolding build_kv_frame payload_of
  build-ok-Accepts {n} h =
      let (t, e, room) = finish-ok out_size (append_fields start fields) g.3 in
      let inv = append_fields-inv fields start e g.2 in
      record {
        few_fields = g.0;
        valid_id = g.1;
        valid_fields = inv.1;
        payload_fits = rw (← inv.0) inv.2;
        frame_fits = rw (← inv.0) room;
      }
    where
      start : Text
      start = header id (sequence % 1000000) type

      g :
          (length fields ≤ 16)
          × (node_id_is_valid id ≡ true)
          × (length start ≤ 255)
          × ((finish out_size (append_fields start fields)).0 ≡ ok n)
      g = ground arith

  -- A builder that returns an error leaves an empty text, or `out` as it was where it did not
  -- look at it.
  pub build-err :
      {e : FrameError}
      → built.0 ≡ err e
      → (built.1 ≡ []) ⊎ ((built.1 ≡ out) × ((out_size ≡ 0) ⊎ (16 < length fields)))
  unfolding build_kv_frame
  build-err h = ground arith
