-- ===== src/MessageJson/Object.antt =====
-- The loops of `json_parse_object` and of `message_json_decode_data`, which are the same but for
-- what they do with a member; that is a parameter here. The fields of `message_json_decode_data`
-- have their key and their number tested before the value is read, and again when they are added;
-- both failures are the result -1, so one test stands here.
--
-- A round of a loop consumes text, so a fuel above the length of the text is enough.
use smart_gateway.Prelude.{
  ℕ, zero, suc, leb, ◌==◌, if◌then◌else◌, false, ◌||◌, List, [], ◌∷◌, ◌++◌, Option, none, some,
  length, drop,
}
use smart_gateway.Prelude.Text.{Text, codes, c_string, text_eq}
use smart_gateway.Frame.{data_max_fields}
use smart_gateway.Frame.Kinds.{Kv}
use smart_gateway.MessageJson.Scan.{
  json_skip_whitespace, starts_with, expect, read_string, read_key, read_number_text,
}

-- The outcome of a loop: a value, the result -1, or too little fuel.
pub data Scan {ℓ} (A : Type ℓ) : Type ℓ where
  ok : A → Scan A
  bad out_of_fuel : Scan A

infixl 5 ◌>>=◌
abbrev pub ◌>>=◌ {ℓ κ} : {A : Type ℓ} {B : Type κ} → Scan A → (A → Scan B) → Scan B
ok a >>= f = f a
bad >>= f = bad
out_of_fuel >>= f = out_of_fuel

abbrev pub from_option {ℓ} : {A : Type ℓ} → Option A → Scan A
from_option none = bad
from_option (some a) = ok a

-- `kv_array_add`. Later readers see the texts up to a NUL.
unfoldable pub kv_array_add : List Kv → Text → Text → Option (List Kv)
kv_array_add fields key value =
    if length key == 0
      || leb 16 (length key)
      || length value == 0
      || leb 32 (length value)
      || leb data_max_fields (length fields)
    then none
    else some (fields ++ record { key = c_string key; value = c_string value } ∷ [])

-- A field's value: a string, or a number as it is written.
unfoldable pub read_field_value : Text → Option (Text × Text)
read_field_value s = if starts_with b'"' s then read_string false (drop 1 s) else read_number_text s

-- The object of `"fields"` from behind its brace.
unfoldable pub read_fields : ℕ → List Kv → Text → Scan (List Kv × Text)
read_fields zero fields s = out_of_fuel
read_fields (suc n) fields s =
    let r = json_skip_whitespace s in
    let more : Scan (List Kv × Text) = (do
      (key, s1) ← from_option (read_key r)
      (value, s2) ← from_option (read_field_value s1)
      fields' ← from_option (kv_array_add fields key value)
      let s3 = json_skip_whitespace s2
      let rest = read_fields n fields' (drop 1 s3)
      if starts_with b',' s3
          then rest
          else if starts_with b'}' s3
          then ok (fields', drop 1 s3)
          else bad) in
    if starts_with b'}' r then ok (fields, drop 1 r) else more

-- What a parser keeps, and how it treats the members other than `"fields"`.
pub record Handler : Type 1 where
  pub State : Type 0
  pub fields : State → List Kv
  pub set_fields : State → List Kv → State
  -- A key and its string value.
  pub on_string : Text → Text → State → Option State
  -- A key and the text from its value on, which is no string; the text behind the value.
  pub on_number : Text → Text → State → Option (State × Text)

module _ (h : Handler) where
  open h use {State, fields, set_fields, on_string, on_number}

  -- A member's value.
  unfoldable pub read_member : State → Text → Text → Scan (State × Text)
  read_member o key s =
      let inner : Scan (State × Text) = (do
        s1 ← from_option (expect b'{' s)
        (fs, s2) ← read_fields (suc (length s)) (fields o) s1
        ok (set_fields o fs, s2)) in
      let text : Scan (State × Text) = (do
        (value, s1) ← from_option (read_string false (drop 1 s))
        o' ← from_option (on_string key value o)
        ok (o', s1)) in
      if text_eq key (codes "fields")
      then inner
      else if starts_with b'"' s
      then text
      else from_option (on_number key s o)

  -- The members of the object from behind its brace.
  unfoldable pub read_members : ℕ → State → Text → Scan (State × Text)
  read_members zero o s = out_of_fuel
  read_members (suc n) o s =
      let r = json_skip_whitespace s in
      let more : Scan (State × Text) = (do
        (key, s1) ← from_option (read_key r)
        (o', s2) ← read_member o key s1
        let s3 = json_skip_whitespace s2
        let rest = read_members n o' (drop 1 s3)
        if starts_with b',' s3
            then rest
            else if starts_with b'}' s3
            then ok (o', drop 1 s3)
            else bad) in
      if starts_with b'}' r then ok (o, drop 1 r) else more

  -- The whole line: the state at the end, and the text behind the object.
  unfoldable pub read_object : State → Text → Scan (State × Text)
  read_object o line = do
    s ← from_option (expect b'{' (json_skip_whitespace line))
    read_members (suc (length line)) o s

-- Too little fuel does not occur.
abbrev pub result {ℓ} : {A : Type ℓ} → Scan A → Option A
result (ok a) = some a
result bad = none
result out_of_fuel = none
