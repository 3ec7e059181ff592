-- ===== src/MessageJson/Fields.antt =====
-- The member `"fields"` as the builders print it.
use smart_gateway.Prelude.{
  ℕ, zero, suc, ◌+◌, ◌≤◌, ◌<◌, ◌≡◌, refl, ap, ◌∙◌, arith, Bool, true, false, List, [], ◌∷◌, ◌++◌,
  some, length, All, append_assoc, append-nil, length-append,
}
use smart_gateway.Prelude.Text.{Text, codes, text_eq, c_string-eq_self}
use smart_gateway.Frame.Kinds.{Kv, FitsKv}
use smart_gateway.MessageJson.Object.{
  ok, kv_array_add, read_field_value, read_fields, Handler, read_member, read_members,
}
use smart_gateway.MessageJson.Build.{kv_json, separator}
use smart_gateway.MessageJson.Printed.{
  IsQuotable, read_string-IsQuotable, skip_whitespace-mark, read_key-IsQuotable,
}

-- A field that a line carries unchanged: its texts fit, are not empty, and need no escapes.
pub record IsJsonField (f : Kv) : Type 0 where
  pub fits : FitsKv f
  pub key_given : 1 ≤ length f.key
  pub value_given : 1 ≤ length f.value
  pub key_plain : IsQuotable f.key
  pub value_plain : IsQuotable f.value

kv_json-append :
    (f : Kv) (t : Text)
    → kv_json f ++ t ≡ b'"' ∷ (f.key ++ b'"' ∷ b':' ∷ b'"' ∷ (f.value ++ b'"' ∷ t))
unfolding kv_json
kv_json-append f t =
    ap (λ s. b'"' ∷ s)
      (append_assoc f.key (b'"' ∷ b':' ∷ b'"' ∷ (f.value ++ b'"' ∷ [])) t
        ∙ ap (λ s. f.key ++ b'"' ∷ b':' ∷ b'"' ∷ s) (append_assoc f.value (b'"' ∷ []) t))

module _ (f : Kv) (j : IsJsonField f) (acc : List Kv) (room : length acc < 16) where
  kv_array_add-field : kv_array_add acc f.key f.value ≡ some (acc ++ f ∷ [])
  unfolding kv_array_add
  kv_array_add-field = ground (
    arith,
    j.fits,
    j.key_given,
    j.value_given,
    c_string-eq_self f.key j.fits.key_text,
    c_string-eq_self f.value j.fits.value_text,
  )

  read_fields-comma :
      (n : ℕ) (t : Text)
      → read_fields (suc n) acc (kv_json f ++ b',' ∷ t) ≡ read_fields n (acc ++ f ∷ []) t
  unfolding read_fields read_field_value
  read_fields-comma n t =
      let s = f.value ++ b'"' ∷ b',' ∷ t in
      rw (
        kv_json-append f (b',' ∷ t),
        skip_whitespace-mark b'"' (f.key ++ b'"' ∷ b':' ∷ b'"' ∷ s) refl,
        read_key-IsQuotable f.key s b'"' j.key_plain refl,
        read_string-IsQuotable f.value (b',' ∷ t) j.value_plain,
        kv_array_add-field,
        skip_whitespace-mark b',' t refl,
      )

  read_fields-brace :
      (n : ℕ) (t : Text) → read_fields (suc n) acc (kv_json f ++ b'}' ∷ t) ≡ ok (acc ++ f ∷ [], t)
  unfolding read_fields read_field_value
  read_fields-brace n t =
      let s = f.value ++ b'"' ∷ b'}' ∷ t in
      rw (
        kv_json-append f (b'}' ∷ t),
        skip_whitespace-mark b'"' (f.key ++ b'"' ∷ b':' ∷ b'"' ∷ s) refl,
        read_key-IsQuotable f.key s b'"' j.key_plain refl,
        read_string-IsQuotable f.value (b'}' ∷ t) j.value_plain,
        kv_array_add-field,
        skip_whitespace-mark b'}' t refl,
      )

-- What the loop of a builder prints.
unfoldable pub kvs_json : Bool → List Kv → Text
kvs_json first [] = []
kvs_json first (f ∷ fs) = separator first ++ (kv_json f ++ kvs_json false fs)

pub length-kvs_json : (first : Bool) (fs : List Kv) → length fs ≤ length (kvs_json first fs)
unfolding kvs_json kv_json
length-kvs_json first [] = omega arith
length-kvs_json first (f ∷ fs) = omega (
  arith,
  length-kvs_json false fs,
  length-append (separator first) (kv_json f ++ kvs_json false fs),
  length-append (kv_json f) (kvs_json false fs),
)

read_fields-kvs :
    (f : Kv) (fs : List Kv) (acc : List Kv) (n : ℕ) (t : Text)
    → All IsJsonField (f ∷ fs)
    → length fs ≤ n
    → length acc + length fs < 16
    → read_fields (suc n) acc (kvs_json true (f ∷ fs) ++ b'}' ∷ t) ≡ ok (acc ++ f ∷ fs, t)
unfolding kvs_json
read_fields-kvs f [] acc n t js fuel room =
    rw append-nil (read_fields-brace f js.0 acc (omega arith) n t)
read_fields-kvs f (g ∷ fs) acc zero t js fuel room = absurd (omega arith)
read_fields-kvs f (g ∷ fs) acc (suc n) t js fuel room =
    ap (read_fields (suc (suc n)) acc) (append_assoc (kv_json f) _ (b'}' ∷ t))
    ∙ read_fields-comma f js.0 acc (omega arith) (suc n) _
    ∙ read_fields-kvs g fs (acc ++ f ∷ []) n t js.1 (omega arith)
        (omega (arith, length-append acc (f ∷ [])))
    ∙ ap (λ k. ok (k, t)) (append_assoc acc (f ∷ []) (g ∷ fs))

pub read_fields-kvs_json :
    (fs : List Kv) (acc : List Kv) (n : ℕ) (t : Text)
    → All IsJsonField fs
    → length fs ≤ n
    → length acc + length fs ≤ 16
    → read_fields (suc n) acc (kvs_json true fs ++ b'}' ∷ t) ≡ ok (acc ++ fs, t)
read_fields-kvs_json [] acc n t js fuel room =
    unfold read_fields kvs_json in rw (skip_whitespace-mark b'}' t refl, append-nil acc)
read_fields-kvs_json (f ∷ fs) acc n t js fuel room =
    read_fields-kvs f fs acc n t js (omega arith) (omega arith)

-- The member, the closing brace of the object behind it.
pub read_members-fields :
    (h : Handler) (n : ℕ) (o : h.State) (fs : List Kv) (t : Text)
    → All IsJsonField fs
    → length fs ≤ 16
    → h.fields o ≡ []
    → read_members h (suc n) o (codes "\"fields\":{" ++ (kvs_json true fs ++ b'}' ∷ b'}' ∷ t))
      ≡ ok (h.set_fields o fs, t)
unfolding read_members read_member text_eq
read_members-fields h n o fs t js few none_yet =
    let s = kvs_json true fs ++ b'}' ∷ b'}' ∷ t in
    rw (
      skip_whitespace-mark b'"' (codes "fields\":{" ++ s) refl,
      read_key-IsQuotable (codes "fields") s b'{' (omega arith) refl,
      none_yet,
      read_fields-kvs_json fs [] (suc (length s)) (b'}' ∷ t) js
          (omega
            (arith, length-kvs_json true fs, length-append (kvs_json true fs) (b'}' ∷ b'}' ∷ t)))
          (omega arith),
      skip_whitespace-mark b'}' t refl,
    )
