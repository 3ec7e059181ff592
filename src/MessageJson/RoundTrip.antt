-- ===== src/MessageJson/RoundTrip.antt =====
-- A line that a builder of common/message_json.c printed, read by its decoders.
use smart_gateway.Prelude.{
  ℕ, ◌-◌, ◌^◌, ◌≤◌, ◌<◌, ◌≡◌, refl, sym, ap, ◌∙◌, arith, true, List, [], ◌∷◌, ◌++◌, Option, some,
  length, All, append_assoc, append-nil,
}
use smart_gateway.Prelude.Text.{Text, codes, text_eq, c_string}
use smart_gateway.Frame.{data_type, ack_type, cmd_type, nack_type}
use smart_gateway.Frame.Kinds.{Kv}
use smart_gateway.FrameParser.Decode.{KvMessage}
use smart_gateway.MessageJson.Scan.{◌>>=◌}
use smart_gateway.MessageJson.Object.{read_object, ok}
use smart_gateway.MessageJson.Decode.{
  JsonObject, empty_object, object_handler, object_string, json_parse_object,
  message_json_peek_type, fields_or_led, message_json_decode_command, message_json_decode_ack,
  message_json_decode_nack,
}
use smart_gateway.MessageJson.Data.{
  empty_state, data_handler, data_string, message_json_decode_data,
}
use smart_gateway.MessageJson.Members.{read_members-string, read_members-last_string}
use smart_gateway.MessageJson.Fields.{IsJsonField, kvs_json, read_members-fields}
use smart_gateway.MessageJson.Lines.{built_line, built_line-line_of, fields_line, build, build-ok}
use smart_gateway.MessageJson.Format.{
  LineMessage, data_line, ack_line, command_line, nack_line, line_of,
}
use smart_gateway.MessageJson.Prefix.{
  numbered, from_node, from_sender, read_members-numbered, node_prefix-append,
  command_prefix-append, nack_json-append,
}
use smart_gateway.MessageJson.Parsed.{
  IsJsonText, read_object-node, fields_end, error_end, object_string-node, object_string-sender,
  object_string-error, data_string-node, object_number-seq, data_number-seq,
}

-- A message whose line carries it unchanged.
unfoldable pub IsJsonMessage : LineMessage → Type 0
IsJsonMessage (data_line d) =
    IsJsonText d.node_id × (d.sequence < 2 ^ 32) × All IsJsonField d.fields × (length d.fields ≤ 16)
IsJsonMessage (ack_line a) =
    IsJsonText a.node_id × (a.sequence < 2 ^ 32) × All IsJsonField a.fields × (length a.fields ≤ 16)
IsJsonMessage (command_line c) =
    IsJsonText c.target_node
    × IsJsonText c.sender
    × (c.sequence < 2 ^ 32)
    × All IsJsonField c.fields
    × (length c.fields ≤ 16)
IsJsonMessage (nack_line n) =
    IsJsonText n.node_id × (n.sequence < 2 ^ 32) × IsJsonText n.error × (1 ≤ length n.error)

-- The object of a message, with a text behind it.
unfoldable pub object_then : LineMessage → Text → Text
object_then (data_line d) t =
    from_node d.node_id (numbered d.sequence data_type (fields_end d.fields t))
object_then (ack_line a) t =
    from_node a.node_id (numbered a.sequence ack_type (fields_end a.fields t))
object_then (command_line c) t =
    from_sender c.target_node c.sender (numbered c.sequence cmd_type (fields_end c.fields t))
object_then (nack_line n) t =
    from_node n.node_id (numbered n.sequence nack_type (error_end n.error t))

fields_line-append :
    (prefix : Text) (fs : List Kv) (t : Text)
    → fields_line prefix fs ++ t ≡ prefix ++ (kvs_json true fs ++ b'}' ∷ b'}' ∷ b'\n' ∷ t)
unfolding fields_line
fields_line-append prefix fs t =
    append_assoc prefix (kvs_json true fs ++ codes "}}\n") t
    ∙ ap (λ s. prefix ++ s) (append_assoc (kvs_json true fs) (codes "}}\n") t)

built_line-append : (m : LineMessage) (t : Text) → built_line m ++ t ≡ object_then m (b'\n' ∷ t)
unfolding built_line object_then fields_end error_end
built_line-append (data_line d) t =
    fields_line-append _ d.fields t ∙ node_prefix-append d.node_id d.sequence data_type _
built_line-append (ack_line a) t =
    fields_line-append _ a.fields t ∙ node_prefix-append a.node_id a.sequence ack_type _
built_line-append (command_line c) t = fields_line-append _ c.fields t ∙ command_prefix-append c _
built_line-append (nack_line n) t = nack_json-append n t

pub line_of-append : (m : LineMessage) (t : Text) → line_of m ++ t ≡ object_then m (b'\n' ∷ t)
line_of-append m t = rw (← built_line-line_of m) (built_line-append m t)

-- What `json_parse_object` finds.
object_of : LineMessage → JsonObject
object_of (data_line d) = record empty_object {
  node_id = some d.node_id;
  sequence = some d.sequence;
  type_value = some data_type;
  found_fields = true;
  fields = d.fields;
}
object_of (ack_line d) = record empty_object {
  node_id = some d.node_id;
  sequence = some d.sequence;
  type_value = some ack_type;
  found_fields = true;
  fields = d.fields;
}
object_of (command_line c) = record empty_object {
  node_id = some c.target_node;
  sender = some c.sender;
  sequence = some c.sequence;
  type_value = some cmd_type;
  found_fields = true;
  fields = c.fields;
}
object_of (nack_line n) = record empty_object {
  node_id = some n.node_id;
  sequence = some n.sequence;
  type_value = some nack_type;
  error = some n.error;
}

read_object-object_then :
    (m : LineMessage) (t : Text)
    → IsJsonMessage m
    → read_object object_handler empty_object (object_then m t) ≡ ok (object_of m, t)
unfolding object_then object_of fields_end error_end object_string text_eq c_string IsJsonMessage
    from_sender
read_object-object_then (data_line d) t (id, small, fs, few) =
    read_object-node object_handler d.node_id _ id.plain
      (object_string-node d.node_id id empty_object)
    ∙ read_members-numbered object_handler d.sequence data_type (omega arith) _ _
        (λ s. object_number-seq d.sequence small s _) refl
    ∙ read_members-fields object_handler _ _ d.fields t fs few refl
read_object-object_then (ack_line d) t (id, small, fs, few) =
    read_object-node object_handler d.node_id _ id.plain
      (object_string-node d.node_id id empty_object)
    ∙ read_members-numbered object_handler d.sequence ack_type (omega arith) _ _
        (λ s. object_number-seq d.sequence small s _) refl
    ∙ read_members-fields object_handler _ _ d.fields t fs few refl
read_object-object_then (command_line c) t (id, from, small, fs, few) =
    read_object-node object_handler c.target_node _ id.plain
      (object_string-node c.target_node id empty_object)
    ∙ read_members-string object_handler _ _ (codes "sender") (omega arith) refl c.sender _
        from.plain
        (object_string-sender c.sender from (record empty_object { node_id = some c.target_node }))
    ∙ read_members-numbered object_handler c.sequence cmd_type (omega arith) _ _
        (λ s. object_number-seq c.sequence small s _) refl
    ∙ read_members-fields object_handler _ _ c.fields t fs few refl
read_object-object_then (nack_line n) t (id, small, error, some_error) =
    read_object-node object_handler n.node_id _ id.plain
      (object_string-node n.node_id id empty_object)
    ∙ read_members-numbered object_handler n.sequence nack_type (omega arith) _ _
        (λ s. object_number-seq n.sequence small s _) refl
    ∙ read_members-last_string object_handler _ _ (codes "error") (omega arith) refl n.error t
        error.plain
        (object_string-error n.error error
          (record empty_object {
            node_id = some n.node_id;
            sequence = some n.sequence;
            type_value = some nack_type;
          })
          some_error)

read_object-data :
    (d : KvMessage) (t : Text)
    → IsJsonMessage (data_line d)
    → read_object data_handler empty_state (object_then (data_line d) t)
      ≡ ok (
        record {
          node_id = some d.node_id;
          sequence = some d.sequence;
          found_type = true;
          fields = d.fields;
        },
        t,
      )
unfolding object_then fields_end data_string text_eq IsJsonMessage
read_object-data d t (id, small, fs, few) =
    read_object-node data_handler d.node_id _ id.plain (data_string-node d.node_id empty_state id)
    ∙ read_members-numbered data_handler d.sequence data_type (omega arith) _ _
        (λ s. data_number-seq d.sequence small s _) refl
    ∙ read_members-fields data_handler _ _ d.fields t fs few refl

-- The decoder that belongs to a message.
unfoldable pub decode_as : LineMessage → Text → Option (ℕ × LineMessage)
decode_as (data_line d) line = do (n, r) ← message_json_decode_data line; some (n, data_line r)
decode_as (ack_line a) line = do (n, r) ← message_json_decode_ack line; some (n, ack_line r)
decode_as (command_line c) line = do
  (n, r) ← message_json_decode_command line
  some (n, command_line r)
decode_as (nack_line e) line = do (n, r) ← message_json_decode_nack line; some (n, nack_line r)

unfoldable pub type_of : LineMessage → Text
type_of (data_line d) = data_type
type_of (ack_line a) = ack_type
type_of (command_line c) = cmd_type
type_of (nack_line n) = nack_type

json_parse_object-object_then :
    (m : LineMessage) (t : Text)
    → IsJsonMessage m
    → json_parse_object (object_then m t) ≡ some (length (object_then m t) - length t, object_of m)
unfolding json_parse_object
json_parse_object-object_then m t good = rw (read_object-object_then m t good)

pub peek-object_then :
    (m : LineMessage) (t : Text)
    → IsJsonMessage m
    → message_json_peek_type (object_then m t) 8 ≡ some (type_of m)
unfolding message_json_peek_type type_of object_of
peek-object_then (data_line d) t good = rw (json_parse_object-object_then (data_line d) t good)
peek-object_then (ack_line a) t good = rw (json_parse_object-object_then (ack_line a) t good)
peek-object_then (command_line c) t good =
    rw (json_parse_object-object_then (command_line c) t good)
peek-object_then (nack_line n) t good = rw (json_parse_object-object_then (nack_line n) t good)

pub decode-object_then :
    (m : LineMessage) (t : Text)
    → IsJsonMessage m
    → decode_as m (object_then m t) ≡ some (length (object_then m t) - length t, m)
unfolding decode_as message_json_decode_data message_json_decode_ack message_json_decode_command
    message_json_decode_nack object_of fields_or_led text_eq IsJsonMessage
decode-object_then (data_line d) t good = rw (read_object-data d t good)
decode-object_then (ack_line a) t good =
    rw (json_parse_object-object_then (ack_line a) t good) (ground (arith, good.0.short))
decode-object_then (command_line c) t good =
    rw (json_parse_object-object_then (command_line c) t good)
      (ground (arith, good.0.short, good.1.short))
decode-object_then (nack_line n) t good =
    rw (json_parse_object-object_then (nack_line n) t good)
      (ground (arith, good.0.short, good.2.short))

-- A line that a builder printed, of a message whose texts fit their arrays and have no quotation marks or
-- backslashes, with at most 16 fields of nonempty key and value and a sequence below 2 ^ 32 (a NACK with a
-- nonempty error): its type is the message's, and its decoder returns the message, and consumes the line but for the newline.
pub json_roundtrip :
    (out : Text) (size : ℕ) (m : LineMessage) {n : ℕ}
    → IsJsonMessage m
    → (build out size m).0 ≡ some n
    → let line = (build out size m).1 in
      (message_json_peek_type line 8 ≡ some (type_of m)) × (decode_as m line ≡ some (n - 1, m))
json_roundtrip out size m {n} good built =
    let (returned, size_eq) = build-ok out size m built in
    let shape : line_of m ≡ object_then m (b'\n' ∷ []) =
      sym (append-nil (line_of m)) ∙ line_of-append m [] in
    rw (returned, size_eq, shape)
      (peek-object_then m (b'\n' ∷ []) good, decode-object_then m (b'\n' ∷ []) good)
