-- ===== src/MessageJson/Termination.antt =====
-- The loops of the JSON parsers end: fuel above the length of the text is enough.
use smart_gateway.Prelude.{
  ℕ, zero, suc, ◌-◌, ◌≤◌, ◌<◌, arith, false, ◌==◌, if◌then◌else◌, List, [], ◌∷◌, Option, none, some,
  length, drop, Bool-cases, inl, inr,
}
use smart_gateway.Prelude.Text.{Text, codes, text_eq}
use smart_gateway.Frame.Kinds.{Kv}
use smart_gateway.MessageJson.Scan.{
  json_skip_whitespace, starts_with, expect, read_string, read_key,
}
use smart_gateway.MessageJson.Object.{
  Scan, ok, bad, out_of_fuel, from_option, ◌>>=◌, kv_array_add, read_field_value, read_fields,
  Handler, read_member, read_members, read_object,
}
use smart_gateway.MessageJson.Consumption.{
  Holds, IsRestWithin, IsTextBelow, IsRestBelow, length-json_skip_whitespace, length-drop_one,
  expect-Holds, read_key-Holds, read_string-Holds, read_field_value-Holds,
}

-- A loop that does not run out of fuel, and of which `P` holds where it succeeds.
abbrev pub Ends : {A : Type 0} → (A → Type 0) → Scan A → Type 0
Ends P (ok a) = P a
Ends P bad = Unit
Ends P out_of_fuel = ⊥

module _ {A B : Type 0} (P : A → Type 0) (Q : B → Type 0) where
  Ends-step :
      (x : Option A) (f : A → Scan B)
      → Holds P x
      → ((a : A) → P a → Ends Q (f a))
      → Ends Q (from_option x >>= f)
  Ends-step none f w h = tt
  Ends-step (some a) f w h = h a w

  Ends-bind :
      (x : Scan A) (f : A → Scan B) → Ends P x → ((a : A) → P a → Ends Q (f a)) → Ends Q (x >>= f)
  Ends-bind (ok a) f w h = h a w
  Ends-bind bad f w h = tt
  Ends-bind out_of_fuel f w h = absurd w

Ends-mono :
    {A : Type 0} (m n : ℕ) (x : Scan (A × Text))
    → Ends (IsRestWithin m) x
    → m ≤ n
    → Ends (IsRestWithin n) x
Ends-mono m n (ok p) h le = omega arith
Ends-mono m n bad h le = tt
Ends-mono m n out_of_fuel h le = h

Ends-mono-below :
    {A : Type 0} (m n : ℕ) (x : Scan (A × Text))
    → Ends (IsRestWithin m) x
    → m < n
    → Ends (IsRestBelow n) x
Ends-mono-below m n (ok p) h lt = omega arith
Ends-mono-below m n bad h lt = tt
Ends-mono-below m n out_of_fuel h lt = h

-- A round of a loop over members, after which stands `s`: `rest` continues behind a comma.
Ends-round :
    {A : Type 0} (n : ℕ) (a : A) (s : Text) (rest : Scan (A × Text))
    → length s ≤ n
    → Ends (IsRestWithin n) rest
    → Ends
        (IsRestWithin n)
        (if starts_with b',' s then rest else if starts_with b'}' s then ok (a, drop 1 s) else bad)
Ends-round n a [] rest le e = tt
Ends-round n a (c ∷ s) rest le e = elim (Bool-cases (c == b',')) [
  | inl comma ↦ rw comma e
  | inr other ↦ rw other (elim (Bool-cases (c == b'}')) [
    | inl brace ↦ rw brace (omega arith)
    | inr neither ↦ rw neither tt
  ])
]

Holds-any : {A : Type 0} (x : Option A) → Holds (λ a. Unit) x
Holds-any none = tt
Holds-any (some a) = tt

from_option-Ends : {A : Type 0} (P : A → Type 0) (x : Option A) → Holds P x → Ends P (from_option x)
from_option-Ends P none h = tt
from_option-Ends P (some a) h = h

read_fields-Ends :
    (n : ℕ) (fields : List Kv) (s : Text)
    → length s < n
    → Ends (IsRestWithin (length s)) (read_fields n fields s)
unfolding read_fields
read_fields-Ends zero fields s h = absurd (omega arith)
read_fields-Ends (suc n) fields s h =
    let r = json_skip_whitespace s in
    let Q = IsRestWithin {A = List Kv} (length s) in
    let shorter = length-json_skip_whitespace s in
    elim (Bool-cases (starts_with b'}' r)) [
      | inl brace ↦ rw brace (omega (arith, shorter, length-drop_one r))
      | inr other ↦ rw other (
          Ends-step (IsRestBelow (length r)) Q (read_key r) _ (read_key-Holds r) (λ k h1.
            Ends-step (IsRestWithin (length k.1)) Q (read_field_value k.1) _
              (read_field_value-Holds k.1)
              (λ v h2.
                Ends-step (λ a. Unit) Q (kv_array_add fields k.0 v.0) _
                  (Holds-any (kv_array_add fields k.0 v.0))
                  (λ fields' u.
                    let s3 = json_skip_whitespace v.1 in
                    let le : length s3 ≤ length k.1 =
                      omega (arith, length-json_skip_whitespace v.1) in
                    Ends-round (length s) fields' s3 (read_fields n fields' (drop 1 s3))
                      (omega arith)
                      (Ends-mono (length (drop 1 s3)) (length s) _
                        (read_fields-Ends n fields' (drop 1 s3) (omega (arith, length-drop_one s3)))
                        (omega (arith, length-drop_one s3)))))))
    ]

-- The loops of a parser whose numbers leave no more text than they were given.
module _ (h : Handler)
    (number : (key s : Text) (o : h.State)
      → Holds (IsRestWithin (length s)) (h.on_number key s o)) where
  read_member-Ends :
      (o : h.State) (key s : Text) → Ends (IsRestWithin (length s)) (read_member h o key s)
  unfolding read_member
  read_member-Ends o key s =
      let Q = IsRestWithin {A = h.State} (length s) in
      elim (Bool-cases (text_eq key (codes "fields"))) [
        | inl fields ↦ rw fields (
            Ends-step (IsTextBelow (length s)) Q (expect b'{' s) _ (expect-Holds b'{' s) (λ s1 h1.
              Ends-bind (IsRestWithin (length s1)) Q _ _
                (read_fields-Ends (suc (length s)) (h.fields o) s1 (omega arith))
                (λ p g. omega arith)))
        | inr other ↦ rw other (elim (Bool-cases (starts_with b'"' s)) [
          | inl quote ↦ rw quote (
              Ends-step (IsRestWithin (length (drop 1 s) - 1)) Q (read_string false (drop 1 s)) _
                (read_string-Holds false (drop 1 s))
                (λ v h2.
                  Ends-step (λ a. Unit) Q (h.on_string key v.0 o) _
                    (Holds-any (h.on_string key v.0 o)) (λ o' u. omega (arith, length-drop_one s))))
          | inr no_quote ↦ rw no_quote (from_option-Ends Q _ (number key s o))
        ])
      ]

  read_members-Ends :
      (n : ℕ) (o : h.State) (s : Text)
      → length s < n
      → Ends (IsRestWithin (length s)) (read_members h n o s)
  unfolding read_members
  read_members-Ends zero o s lt = absurd (omega arith)
  read_members-Ends (suc n) o s lt =
      let r = json_skip_whitespace s in
      let Q = IsRestWithin {A = h.State} (length s) in
      let shorter = length-json_skip_whitespace s in
      elim (Bool-cases (starts_with b'}' r)) [
        | inl brace ↦ rw brace (omega (arith, shorter, length-drop_one r))
        | inr other ↦ rw other (
            Ends-step (IsRestBelow (length r)) Q (read_key r) _ (read_key-Holds r) (λ k h1.
              Ends-bind (IsRestWithin (length k.1)) Q (read_member h o k.0 k.1) _
                (read_member-Ends o k.0 k.1)
                (λ v h2.
                  let s3 = json_skip_whitespace v.1 in
                  let le : length s3 ≤ length k.1 =
                    omega (arith, length-json_skip_whitespace v.1) in
                  Ends-round (length s) v.0 s3 (read_members h n v.0 (drop 1 s3)) (omega arith) (
                    Ends-mono (length (drop 1 s3)) (length s) _
                      (read_members-Ends n v.0 (drop 1 s3) (omega (arith, length-drop_one s3)))
                      (omega (arith, length-drop_one s3))))))
      ]

  pub read_object-Ends :
      (o : h.State) (line : Text) → Ends (IsRestBelow (length line)) (read_object h o line)
  unfolding read_object
  read_object-Ends o line =
      let r = json_skip_whitespace line in
      let Q = IsRestBelow {A = h.State} (length line) in
      Ends-step (IsTextBelow (length r)) Q (expect b'{' r) _ (expect-Holds b'{' r) (λ s h1.
        Ends-mono-below (length s) (length line) (read_members h (suc (length line)) o s)
          (read_members-Ends (suc (length line)) o s
            (omega (arith, length-json_skip_whitespace line)))
          (omega (arith, length-json_skip_whitespace line)))
