-- ===== src/FrameParser/Decode/Tokens.antt =====
-- The tokens of a comma-separated text, and the two halves of a field.
use smart_gateway.Prelude.{
  ℕ, ◌≤◌, ◌≡◌, ◌≢◌, ◌∙◌, refl, ap, arith, List, [], ◌∷◌, ◌++◌, map, some, length, All, All-append,
  All-mono, length-append, append-nil, take-length_append, drop-past,
}
use smart_gateway.Prelude.Text.{Text}
use smart_gateway.Frame.{kv_text}
use smart_gateway.Frame.Kinds.{Kv, FitsKv}
use smart_gateway.Frame.Build.{IsValidField, fields_text, field_text_is_valid-IsPlain}
use smart_gateway.FrameParser.Decode.{split_commas, drop_empty, index_of, parse_field, parse_fields}

abbrev pub HasNoComma : Text → Type 0
HasNoComma = All (λ c. c ≢ b',')

-- A piece without a comma, up to the next comma.
pub split_commas-append :
    (w rest : Text) → HasNoComma w → split_commas (w ++ b',' ∷ rest) ≡ w ∷ split_commas rest
unfolding split_commas
split_commas-append [] rest h = refl
split_commas-append (c ∷ w) rest h = ground (arith, split_commas-append w rest h.1)

pub split_commas-last : (w : Text) → HasNoComma w → split_commas w ≡ w ∷ []
unfolding split_commas
split_commas-last [] h = refl
split_commas-last (c ∷ w) h = ground (arith, split_commas-last w h.1)

-- `KEY=VALUE`
abbrev pub piece : Kv → Text
piece f = f.key ++ b'=' ∷ f.value

piece-HasNoComma : (f : Kv) → IsValidField f → HasNoComma (piece f)
piece-HasNoComma f v =
    All-append (λ c. c ≢ b',') f.key (b'=' ∷ f.value)
      (All-mono _ (λ c. c ≢ b',') f.key (λ c h. (h.0).2) (field_text_is_valid-IsPlain f.key v.0).1)
      (
        omega arith,
        All-mono _ (λ c. c ≢ b',') f.value (λ c h. (h.0).2)
            (field_text_is_valid-IsPlain f.value v.1).1,
      )

-- A piece and the fields behind it.
pub split_commas-fields :
    (w : Text) (fs : List Kv)
    → HasNoComma w
    → All IsValidField fs
    → split_commas (w ++ fields_text fs) ≡ w ∷ map piece fs
unfolding fields_text kv_text
split_commas-fields w [] h v = rw append-nil (split_commas-last w h)
split_commas-fields w (f ∷ fs) h v =
    split_commas-append w (piece f ++ fields_text fs) h
    ∙ ap (λ ws. w ∷ ws) (split_commas-fields (piece f) fs (piece-HasNoComma f v.0) v.1)

abbrev pub IsNonempty : Text → Type 0
IsNonempty s = 1 ≤ length s

pub drop_empty-eq_self : (ws : List Text) → All IsNonempty ws → drop_empty ws ≡ ws
unfolding drop_empty
drop_empty-eq_self [] h = refl
drop_empty-eq_self ([] ∷ ws) h = absurd (omega arith)
drop_empty-eq_self ((c ∷ w) ∷ ws) h = ap (λ vs. (c ∷ w) ∷ vs) (drop_empty-eq_self ws h.1)

pub pieces-IsNonempty : (fs : List Kv) → All IsValidField fs → All IsNonempty (map piece fs)
pieces-IsNonempty [] v = tt
pieces-IsNonempty (f ∷ fs) v =
    (omega (arith, length-append f.key (b'=' ∷ f.value)), pieces-IsNonempty fs v.1)

index_of-append :
    (c : ℕ) (s t : Text) → All (λ x. x ≢ c) s → index_of c (s ++ c ∷ t) ≡ some (length s)
unfolding index_of
index_of-append c [] t h = ground arith
index_of-append c (x ∷ s) t h = ground (arith, index_of-append c s t h.1)

-- A valid field is read back as it was.
pub parse_field-piece : (f : Kv) → IsValidField f → FitsKv f → parse_field (piece f) ≡ some f
unfolding parse_field
parse_field-piece f v fits =
    rw
      (index_of-append b'=' f.key f.value
        (All-mono _ _ f.key (λ c h. h.1) (field_text_is_valid-IsPlain f.key v.0).1))
      (ground (
        arith,
        drop-past f.key f.value b'=',
        take-length_append f.key (b'=' ∷ f.value),
        field_text_is_valid-IsPlain f.key v.0,
        field_text_is_valid-IsPlain f.value v.1,
      ))

pub parse_fields-pieces :
    (fs : List Kv) → All IsValidField fs → All FitsKv fs → parse_fields (map piece fs) ≡ some fs
unfolding parse_fields
parse_fields-pieces [] v h = refl
parse_fields-pieces (f ∷ fs) v h = rw (parse_field-piece f v.0 h.0, parse_fields-pieces fs v.1 h.1)
