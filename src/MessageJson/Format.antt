-- ===== src/MessageJson/Format.antt =====
-- The format of the lines, as JSON objects: what common/message_json.h calls the generated format,
-- with the fields of an ACK and the sender of a command as the builders of common/message_json.c
-- print them.
use smart_gateway.Prelude.{ℕ, List, [], ◌∷◌, ◌++◌, map}
use smart_gateway.Prelude.Text.{Text, codes}
use smart_gateway.Frame.{decimal}
use smart_gateway.Frame.Kinds.{Kv}
use smart_gateway.FrameParser.Decode.{KvMessage, NackMessage}
use smart_gateway.DeviceManager.{Command}

-- The messages that the module turns into lines.
pub data LineMessage : Type 0 where
  data_line ack_line : KvMessage → LineMessage
  command_line : Command → LineMessage
  nack_line : NackMessage → LineMessage

abbrev pub quoted : Text → Text
quoted t = codes "\"" ++ (t ++ codes "\"")

abbrev pub member : Text → Text → Text
member key value = quoted key ++ (codes ":" ++ value)

-- Members with a comma between them.
abbrev pub joined : List Text → Text
joined [] = []
joined (x ∷ []) = x
joined (x ∷ y ∷ ys) = x ++ (codes "," ++ joined (y ∷ ys))

abbrev pub object : List Text → Text
object members = codes "{" ++ (joined members ++ codes "}")

abbrev pub field : Kv → Text
field f = member f.key (quoted f.value)

abbrev pub node_member : Text → Text
node_member id = member (codes "node") (quoted id)

abbrev pub seq_member : ℕ → Text
seq_member n = member (codes "seq") (decimal 10 n)

abbrev pub type_member : Text → Text
type_member type = member (codes "type") (quoted type)

abbrev pub fields_member : List Kv → Text
fields_member fs = member (codes "fields") (object (map field fs))

abbrev pub members : LineMessage → List Text
members (data_line d) =
    node_member d.node_id
    ∷ seq_member d.sequence
    ∷ type_member (codes "DATA")
    ∷ fields_member d.fields
    ∷ []
members (ack_line a) =
    node_member a.node_id
    ∷ seq_member a.sequence
    ∷ type_member (codes "ACK")
    ∷ fields_member a.fields
    ∷ []
members (command_line c) =
    node_member c.target_node
    ∷ member (codes "sender") (quoted c.sender)
    ∷ seq_member c.sequence
    ∷ type_member (codes "CMD")
    ∷ fields_member c.fields
    ∷ []
members (nack_line n) =
    node_member n.node_id
    ∷ seq_member n.sequence
    ∷ type_member (codes "NACK")
    ∷ member (codes "error") (quoted n.error)
    ∷ []

-- The line of a message.
unfoldable pub line_of : LineMessage → Text
line_of m = object (members m) ++ codes "\n"
