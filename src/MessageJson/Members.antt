-- ===== src/MessageJson/Members.antt =====
-- The loop over the members, one printed member at a time.
use smart_gateway.Prelude.{ℕ, suc, ◌≡◌, refl, true, false, ◌==◌, ◌∷◌, ◌++◌, some}
use smart_gateway.Prelude.Text.{Text, codes, text_eq}
use smart_gateway.MessageJson.Object.{ok, Handler, read_member, read_members}
use smart_gateway.MessageJson.Printed.{
  IsQuotable, is_mark, read_string-IsQuotable, skip_whitespace-mark, read_key-IsQuotable,
}

module _ (h : Handler) (n : ℕ) (o : h.State) (key : Text) (quotable : IsQuotable key)
    (other : text_eq key (codes "fields") ≡ false) where
  -- A member with a string, and the comma behind it.
  pub read_members-string :
      (value rest : Text) {o' : h.State}
      → IsQuotable value
      → h.on_string key value o ≡ some o'
      → read_members h
          (suc n)
          o
          (b'"' ∷ (key ++ b'"' ∷ b':' ∷ b'"' ∷ (value ++ b'"' ∷ b',' ∷ rest)))
        ≡ read_members h n o' rest
  unfolding read_members read_member
  read_members-string value rest q e = rw (
    skip_whitespace-mark b'"' (key ++ b'"' ∷ b':' ∷ b'"' ∷ (value ++ b'"' ∷ b',' ∷ rest)) refl,
    read_key-IsQuotable key (value ++ b'"' ∷ b',' ∷ rest) b'"' quotable refl,
    other,
    read_string-IsQuotable value (b',' ∷ rest) q,
    e,
    skip_whitespace-mark b',' rest refl,
  )

  -- The same before the closing brace.
  pub read_members-last_string :
      (value rest : Text) {o' : h.State}
      → IsQuotable value
      → h.on_string key value o ≡ some o'
      → read_members h
          (suc n)
          o
          (b'"' ∷ (key ++ b'"' ∷ b':' ∷ b'"' ∷ (value ++ b'"' ∷ b'}' ∷ rest)))
        ≡ ok (o', rest)
  unfolding read_members read_member
  read_members-last_string value rest q e = rw (
    skip_whitespace-mark b'"' (key ++ b'"' ∷ b':' ∷ b'"' ∷ (value ++ b'"' ∷ b'}' ∷ rest)) refl,
    read_key-IsQuotable key (value ++ b'"' ∷ b'}' ∷ rest) b'"' quotable refl,
    other,
    read_string-IsQuotable value (b'}' ∷ rest) q,
    e,
    skip_whitespace-mark b'}' rest refl,
  )

  -- A member with a number, which begins with `c`.
  pub read_members-number :
      (c : ℕ) (s rest : Text) {o' : h.State}
      → is_mark c ≡ true
      → (c == b'"') ≡ false
      → h.on_number key (c ∷ s) o ≡ some (o', b',' ∷ rest)
      → read_members h (suc n) o (b'"' ∷ (key ++ b'"' ∷ b':' ∷ c ∷ s)) ≡ read_members h n o' rest
  unfolding read_members read_member
  read_members-number c s rest mark no_quote e = rw (
    skip_whitespace-mark b'"' (key ++ b'"' ∷ b':' ∷ c ∷ s) refl,
    read_key-IsQuotable key s c quotable mark,
    other,
    no_quote,
    e,
    skip_whitespace-mark b',' rest refl,
  )
