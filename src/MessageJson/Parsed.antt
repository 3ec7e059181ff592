-- ===== src/MessageJson/Parsed.antt =====
-- What `json_parse_object` and the parser of `message_json_decode_data` make of a printed line.
use smart_gateway.Prelude.{
  ℕ, suc, ◌^◌, ◌≤◌, ◌<◌, ◌≡◌, refl, arith, true, List, ◌∷◌, ◌++◌, some, length,
}
use smart_gateway.Prelude.Text.{Text, codes, text_eq, HasNoNul, c_string-eq_self}
use smart_gateway.Frame.Kinds.{Kv}
use smart_gateway.FrameParser.Decode.{is_digit}
use smart_gateway.MessageJson.Object.{Handler, read_members, read_object}
use smart_gateway.MessageJson.Decode.{JsonObject, object_string, object_number, object_value}
use smart_gateway.MessageJson.Data.{DataState, data_string, data_number}
use smart_gateway.MessageJson.Build.{print_uint}
use smart_gateway.MessageJson.Printed.{IsQuotable, read_value-print_uint, skip_whitespace-mark}
use smart_gateway.MessageJson.Members.{read_members-string}
use smart_gateway.MessageJson.Fields.{kvs_json}
use smart_gateway.MessageJson.Prefix.{uint_digit, from_node}

-- A text that an array of 32 bytes holds, and that needs no escapes.
pub record IsJsonText (s : Text) : Type 0 where
  pub plain : IsQuotable s
  pub short : length s < 32
  pub text : HasNoNul s

-- The fuel left behind the first member.
abbrev pub spare : Text → Text → ℕ
spare id t = suc (length (id ++ b'"' ∷ b',' ∷ t))

module _ (h : Handler) (id t : Text) (plain : IsQuotable id) {o o1 : h.State} where
  pub read_object-node :
      h.on_string (codes "node") id o ≡ some o1
      → read_object h o (from_node id t)
        ≡ read_members h (suc (suc (suc (suc (suc (suc (suc (suc (spare id t))))))))) o1 t
  unfolding read_object from_node text_eq
  read_object-node e =
      rw (skip_whitespace-mark b'{' (codes "\"node\":\"" ++ (id ++ b'"' ∷ b',' ∷ t)) refl) (
        read_members-string h (suc (suc (suc (suc (suc (suc (suc (suc (spare id t))))))))) o
          (codes "node") (omega arith) refl id t plain e)

-- What follows the member `"type"`: the fields and the end of the object.
unfoldable pub fields_end : List Kv → Text → Text
fields_end fields t = codes "\"fields\":{" ++ (kvs_json true fields ++ b'}' ∷ b'}' ∷ t)

-- The same for an error text.
unfoldable pub error_end : Text → Text → Text
error_end error t = codes "\"error\":\"" ++ (error ++ b'"' ∷ b'}' ∷ t)

-- The members of both parsers.
module _ (s : Text) (j : IsJsonText s) (o : JsonObject) where
  pub object_string-node : object_string (codes "node") s o ≡ some (record o { node_id = some s })
  unfolding object_string text_eq
  object_string-node = rw (c_string-eq_self s j.text) (ground (arith, j.short))

  pub object_string-sender :
      object_string (codes "sender") s o ≡ some (record o { sender = some s })
  unfolding object_string text_eq
  object_string-sender = rw (c_string-eq_self s j.text) (ground (arith, j.short))

  pub object_string-error :
      1 ≤ length s → object_string (codes "error") s o ≡ some (record o { error = some s })
  unfolding object_string text_eq
  object_string-error h = rw (c_string-eq_self s j.text) (ground (arith, j.short))

pub data_string-node :
    (s : Text) (d : DataState)
    → IsJsonText s
    → data_string (codes "node") s d ≡ some (record d { node_id = some s })
unfolding data_string text_eq
data_string-node s d j = rw (c_string-eq_self s j.text) (ground (arith, j.short))

module _ (n : ℕ) (small : n < 2 ^ 32) (t : Text) where
  pub object_number-seq :
      (o : JsonObject)
      → object_number (codes "seq") (print_uint n ++ b',' ∷ t) o
        ≡ some (record o { sequence = some n }, b',' ∷ t)
  unfolding object_number object_value text_eq is_digit
  object_number-seq o =
      let (digit, no_minus) = uint_digit n (b',' ∷ t) in
      rw (no_minus, digit, read_value-print_uint n small b',' t refl)

  pub data_number-seq :
      (d : DataState)
      → data_number (codes "seq") (print_uint n ++ b',' ∷ t) d
        ≡ some (record d { sequence = some n }, b',' ∷ t)
  unfolding data_number text_eq is_digit
  data_number-seq d =
      let (digit, no_minus) = uint_digit n (b',' ∷ t) in
      rw (no_minus, read_value-print_uint n small b',' t refl)
