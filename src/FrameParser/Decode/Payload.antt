-- ===== src/FrameParser/Decode/Payload.antt =====
-- A payload as the builders write it is decoded to what the builder was given.
use smart_gateway.Prelude.{
  ℕ, ◌%◌, ◌≤◌, ◌<◌, ◌≡◌, ◌≢◌, ◌∙◌, refl, ap, arith, true, List, [], ◌∷◌, ◌++◌, map, some, length,
  length-map, All, All-append, All-mono, append_assoc,
}
use smart_gateway.Prelude.Text.{Text, HasNoNul, c_string, c_string-eq_self, text_eq_refl}
use smart_gateway.Frame.{node_id_is_valid, header, field_text_is_valid, decimal6, kv_text}
use smart_gateway.Frame.Kinds.{Kv, FitsKv}
use smart_gateway.Frame.Build.{
  IsPlain, IsValidField, fields_text, payload_of, node_id_is_valid-IsPlain,
  field_text_is_valid-IsPlain,
}
use smart_gateway.FrameParser.Decode.{
  split_commas, drop_empty, tokens, check_tokens, with_fields, parse_kv_payload, MessageType,
  type_of_token, frame_get_message_type, id_capacity,
}
use smart_gateway.FrameParser.Decode.Numbers.{parse_uint32-decimal6, decimal6-chars}
use smart_gateway.FrameParser.Decode.Tokens.{
  HasNoComma, IsNonempty, piece, split_commas-append, split_commas-fields, drop_empty-eq_self,
  pieces-IsNonempty, parse_fields-pieces,
}

-- No NUL, and none of @ * CR LF: what a payload may hold beside the separators.
abbrev pub IsClean : ℕ → Type 0
IsClean c = (c ≢ 0) × (c ≢ b'@') × (c ≢ 10)

-- An id or a type as the protocol has it: a C string that is not empty, of plain characters.
pub record IsWord (s : Text) : Type 0 where
  pub text : HasNoNul s
  pub nonempty : IsNonempty s
  pub plain : All IsPlain s

pub valid_id-IsWord : (id : Text) → HasNoNul id → node_id_is_valid id ≡ true → IsWord id
valid_id-IsWord id t v =
    let p = node_id_is_valid-IsPlain id v in record { text = t; nonempty = p.0; plain = p.1 }

word-IsClean : (s : Text) → HasNoNul s → All IsPlain s → All IsClean s
word-IsClean [] t h = tt
word-IsClean (c ∷ s) t h = ((t.0, (h.0).0, (h.0).4), word-IsClean s t.1 h.1)

word-HasNoComma : (s : Text) → All IsPlain s → HasNoComma s
word-HasNoComma s h = All-mono IsPlain _ s (λ c p. p.2) h

field-IsClean : (f : Kv) → FitsKv f → IsValidField f → All IsClean (kv_text f)
unfolding kv_text
field-IsClean f fits v = (
  omega arith,
  All-append IsClean f.key (b'=' ∷ f.value) (part f.key fits.key_text v.0)
      (omega arith, part f.value fits.value_text v.1),
)
  where
    part : (s : Text) → HasNoNul s → field_text_is_valid s ≡ true → All IsClean s
    part s t h =
        word-IsClean s t (All-mono _ IsPlain s (λ c p. p.0) (field_text_is_valid-IsPlain s h).1)

fields_text-IsClean :
    (fs : List Kv) → All FitsKv fs → All IsValidField fs → All IsClean (fields_text fs)
unfolding fields_text
fields_text-IsClean [] h v = tt
fields_text-IsClean (f ∷ fs) h v =
    All-append IsClean (kv_text f) (fields_text fs) (field-IsClean f h.0 v.0)
      (fields_text-IsClean fs h.1 v.1)

module _ (id : Text) (sequence : ℕ) (type : Text) (fields : List Kv) where
  abbrev number : Text
  number = decimal6 (sequence % 1000000)

  -- The payload with its commas in view.
  payload_of-split :
      payload_of id sequence type fields
      ≡ b'1' ∷ b',' ∷ (id ++ b',' ∷ (number ++ b',' ∷ (type ++ fields_text fields)))
  unfolding payload_of header
  payload_of-split = simp append_assoc

  module _ (i : IsWord id) (k : IsWord type) (fit : All FitsKv fields)
      (v : All IsValidField fields) where
    pub payload_of-IsClean : All IsClean (payload_of id sequence type fields)
    payload_of-IsClean = rw payload_of-split (
      omega arith,
      (
        omega arith,
        All-append IsClean id _ (word-IsClean id i.text i.plain) (
          omega arith,
          All-append IsClean number _ number_clean (
            omega arith,
            All-append IsClean type (fields_text fields) (word-IsClean type k.text k.plain)
                (fields_text-IsClean fields fit v),
          ),
        ),
      ),
    )
      where
        number_clean : All IsClean number
        number_clean =
            All-mono _ IsClean number (λ c h. (h.0, (h.1).0, (h.1).4))
              (decimal6-chars (sequence % 1000000))

    number-HasNoComma : HasNoComma number
    number-HasNoComma = All-mono _ _ number (λ c h. (h.1).2) (decimal6-chars (sequence % 1000000))

    length-number : length number ≡ 6
    unfolding decimal6
    length-number = refl

    split_commas-payload_of :
        split_commas (payload_of id sequence type fields)
        ≡ (b'1' ∷ []) ∷ id ∷ number ∷ type ∷ map piece fields
    split_commas-payload_of = rw payload_of-split (
        split_commas-append (b'1' ∷ []) _ (omega arith)
        ∙ ap (λ ws. (b'1' ∷ []) ∷ ws)
            (split_commas-append id _ (word-HasNoComma id i.plain)
              ∙ ap (λ ws. id ∷ ws)
                  (split_commas-append number _ number-HasNoComma
                    ∙ ap (λ ws. number ∷ ws)
                        (split_commas-fields type fields (word-HasNoComma type k.plain) v))))

    pub payload_of-tokens :
        tokens (payload_of id sequence type fields)
        ≡ (b'1' ∷ []) ∷ id ∷ number ∷ type ∷ map piece fields
    unfolding tokens
    payload_of-tokens =
        ap drop_empty split_commas-payload_of
        ∙ drop_empty-eq_self _ (
          omega arith,
          (i.nonempty, (omega (arith, length-number), (k.nonempty, pieces-IsNonempty fields v))),
        )

    pub c_string-payload_of :
        c_string (payload_of id sequence type fields) ≡ payload_of id sequence type fields
    c_string-payload_of = c_string-eq_self _ (All-mono IsClean _ _ (λ c h. h.0) payload_of-IsClean)

    check_tokens-payload_of :
        length id < id_capacity
        → length fields ≤ 16
        → check_tokens type ((b'1' ∷ []) ∷ id ∷ number ∷ type ∷ map piece fields)
          ≡ some (record { node_id = id; sequence = sequence % 1000000; fields = fields })
    unfolding check_tokens with_fields
    check_tokens-payload_of short few = ground (
      arith,
      text_eq_refl type,
      text_eq_refl (b'1' ∷ []),
      length-map piece fields,
      length-number,
      parse_uint32-decimal6 (sequence % 1000000) (omega arith),
      parse_fields-pieces fields v fit,
    )

    -- Decoding gives back the id, the number modulo 10 ^ 6, and the fields in their order.
    pub parse_kv_payload-payload_of :
        length id < id_capacity
        → length fields ≤ 16
        → length (payload_of id sequence type fields) ≤ 255
        → parse_kv_payload (payload_of id sequence type fields) type
          ≡ some (record { node_id = id; sequence = sequence % 1000000; fields = fields })
    unfolding parse_kv_payload
    parse_kv_payload-payload_of short few fits =
        rw (c_string-payload_of, payload_of-tokens)
          (ground (arith, check_tokens-payload_of short few))

    -- The type of the message is read from the fourth token.
    pub message_type-payload_of :
        (m : MessageType)
        → type_of_token type ≡ m
        → length (payload_of id sequence type fields) ≤ 255
        → frame_get_message_type (payload_of id sequence type fields) ≡ m
    unfolding frame_get_message_type
    message_type-payload_of m e fits = rw (c_string-payload_of, payload_of-tokens) (ground arith)
