-- ===== src/MessageJson/Lines.antt =====
-- What the builders of lines write, and when the line fits.
use smart_gateway.Prelude.{
  ℕ, ◌<◌, ◌≡◌, refl, sym, ap, ◌∙◌, arith, Bool, true, false, ◌==◌, ltb, leb, if◌then◌else◌, List,
  [], ◌∷◌, ◌++◌, Option, none, some, length, append_assoc, append-nil, length-append, inl, inr,
  Bool-cases, map,
}
use smart_gateway.Prelude.Text.{Text, codes}
use smart_gateway.Frame.Kinds.{Kv}
use smart_gateway.Frame.{data_type, ack_type}
use smart_gateway.MessageJson.Build.{
  append_text, append_kv_json, close_json, build_fields_json, separator, kv_json, node_prefix,
  command_prefix, nack_json, print_uint, message_json_build_data, message_json_build_ack,
  message_json_build_command, message_json_build_nack,
}
use smart_gateway.MessageJson.Fields.{kvs_json}
use smart_gateway.MessageJson.Format.{
  LineMessage, data_line, ack_line, command_line, nack_line, field, joined, line_of,
}

module _ (size : ℕ) where
  append_text-eq :
      (text more : Text)
      → length text < size
      → append_text size text more
        ≡ (if ltb (length (text ++ more)) size then some (text ++ more) else none)
  unfolding append_text
  append_text-eq text more h = ground (arith, length-append text more)

  append_kv_json-none : (first : Bool) (fs : List Kv) → append_kv_json size first fs none ≡ none
  unfolding append_kv_json
  append_kv_json-none first fs = refl

  append_kv_json_step :
      (first : Bool) (f : Kv) (fs : List Kv) (text : Text)
      → append_kv_json size first (f ∷ fs) (some text)
        ≡ append_kv_json size false fs (append_text size text (separator first ++ kv_json f))
  unfolding append_kv_json
  append_kv_json_step first f fs text = refl

  regroup :
      (first : Bool) (f : Kv) (fs : List Kv) (text : Text)
      → text ++ kvs_json first (f ∷ fs)
        ≡ (text ++ (separator first ++ kv_json f)) ++ kvs_json false fs
  unfolding kvs_json
  regroup first f fs text =
      ap (λ s. text ++ s) (sym (append_assoc (separator first) (kv_json f) _))
      ∙ sym (append_assoc text (separator first ++ kv_json f) _)

  -- The loop ends with all fields, or fails where they do not fit.
  append_kv_json-eq :
      (first : Bool) (fs : List Kv) (text : Text)
      → length text < size
      → append_kv_json size first fs (some text) ≡ (
          if ltb (length (text ++ kvs_json first fs)) size
          then some (text ++ kvs_json first fs)
          else none)
  append_kv_json-eq first [] text h =
      unfold append_kv_json kvs_json in ground (arith, append-nil text)
  append_kv_json-eq first (f ∷ fs) text h =
      let more = separator first ++ kv_json f in
      let longer = length-append (text ++ more) (kvs_json false fs) in
      elim (Bool-cases (ltb (length (text ++ more)) size)) [
        | inl e ↦
            rw
              (
                append_kv_json_step first f fs text,
                append_text-eq text more h,
                e,
                regroup first f fs text,
              )
              (append_kv_json-eq false fs (text ++ more) (ground arith))
        | inr e ↦
            rw
              (
                append_kv_json_step first f fs text,
                append_text-eq text more h,
                e,
                append_kv_json-none false fs,
                regroup first f fs text,
              )
              (ground (arith, longer))
      ]

-- The line behind a prefix.
unfoldable pub fields_line : Text → List Kv → Text
fields_line prefix fields = prefix ++ (kvs_json true fields ++ codes "}}\n")

-- What a builder returns and leaves behind that prints a text.
abbrev pub printed : Text → ℕ → Text → Option ℕ × Text
printed out size text =
    if size == 0
    then (none, out)
    else if ltb (length text) size
    then (some (length text), text)
    else (none, [])

close_json-eq :
    (size : ℕ) (body : Text)
    → close_json size (if ltb (length body) size then some body else none) ≡ (
        if ltb (length (body ++ codes "}}\n")) size
        then (some (length (body ++ codes "}}\n")), body ++ codes "}}\n")
        else (none, []))
unfolding close_json append_text
close_json-eq size body = ground (arith, length-append body (codes "}}\n"))

build_fields_json-eq :
    (out : Text) (size : ℕ) (prefix : Text) (fields : List Kv)
    → build_fields_json out size prefix fields ≡ printed out size (fields_line prefix fields)
build_fields_json-eq out size prefix fields =
    let body = prefix ++ kvs_json true fields in
    let line : fields_line prefix fields ≡ body ++ codes "}}\n" =
      unfold fields_line in sym (append_assoc prefix (kvs_json true fields) (codes "}}\n")) in
    let longer = length-append prefix (kvs_json true fields) in
    let longest = length-append body (codes "}}\n") in
    rw line (elim (Bool-cases (leb size (length prefix))) [
      | inl e ↦ unfold build_fields_json in ground (arith, longer, longest)
      | inr e ↦
          unfold build_fields_json in
          rw e (
            rw (append_kv_json-eq size true fields prefix (ground arith), close_json-eq size body)
              refl)
    ])

-- The line as the builders put it together.
unfoldable pub built_line : LineMessage → Text
built_line (data_line d) = fields_line (node_prefix d.node_id d.sequence data_type) d.fields
built_line (ack_line a) = fields_line (node_prefix a.node_id a.sequence ack_type) a.fields
built_line (command_line c) = fields_line (command_prefix c) c.fields
built_line (nack_line n) = nack_json n

kvs_json-joined : (fs : List Kv) → kvs_json true fs ≡ joined (map field fs)
unfolding kvs_json kv_json
kvs_json-joined [] = refl
kvs_json-joined (f ∷ []) = simp (append_assoc, append-nil)
kvs_json-joined (f ∷ g ∷ fs) =
    rw (← kvs_json-joined (g ∷ fs)) (unfold kvs_json in simp append_assoc)

pub built_line-line_of : (m : LineMessage) → built_line m ≡ line_of m
unfolding built_line line_of fields_line node_prefix command_prefix nack_json print_uint
built_line-line_of (data_line d) = rw (kvs_json-joined d.fields) (simp append_assoc)
built_line-line_of (ack_line a) = rw (kvs_json-joined a.fields) (simp append_assoc)
built_line-line_of (command_line c) = rw (kvs_json-joined c.fields) (simp append_assoc)
built_line-line_of (nack_line n) = simp append_assoc

unfoldable pub build : Text → ℕ → LineMessage → Option ℕ × Text
build out size (data_line d) = message_json_build_data out size d
build out size (ack_line a) = message_json_build_ack out size a
build out size (command_line c) = message_json_build_command out size c
build out size (nack_line n) = message_json_build_nack out size n

build-built_line :
    (out : Text) (size : ℕ) (m : LineMessage) → build out size m ≡ printed out size (built_line m)
unfolding build built_line message_json_build_data message_json_build_ack message_json_build_command
    message_json_build_nack
build-built_line out size (data_line d) = build_fields_json-eq out size _ d.fields
build-built_line out size (ack_line a) = build_fields_json-eq out size _ a.fields
build-built_line out size (command_line c) = build_fields_json-eq out size _ c.fields
build-built_line out size (nack_line n) = ground arith

-- A builder writes the message's line, the JSON object of its members, and returns its length if the line
-- and its NUL fit into the buffer; otherwise it fails, and leaves an empty text, or a buffer of size 0 as
-- it was.
pub build-line_of :
    (out : Text) (size : ℕ) (m : LineMessage) → build out size m ≡ printed out size (line_of m)
build-line_of out size m =
    build-built_line out size m ∙ ap (printed out size) (built_line-line_of m)

-- Success leaves the text, and returns its length.
pub build-ok :
    (out : Text) (size : ℕ) (m : LineMessage) {n : ℕ}
    → (build out size m).0 ≡ some n
    → (build out size m ≡ (some (length (line_of m)), line_of m)) × (n ≡ length (line_of m))
build-ok out size m {n} built =
    let e = build-line_of out size m in
    let b : (printed out size (line_of m)).0 ≡ some n = sym (ap (λ r. r.0) e) ∙ built in
    rw e (ground (arith, b))
