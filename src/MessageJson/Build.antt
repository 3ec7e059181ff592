-- ===== src/MessageJson/Build.antt =====
-- The builders of common/message_json.c. A builder takes what `out` held before, and returns its
-- length, or `none` for -1, beside what `out` holds afterwards; a text that does not fit is
-- cleared. The number of fields is the length of their list.
use smart_gateway.Prelude.{
  ℕ, leb, ◌-◌, ◌==◌, if◌then◌else◌, Bool, true, false, List, [], ◌∷◌, ◌++◌, Option, none, some,
  length,
}
use smart_gateway.Prelude.Text.{Text, codes}
use smart_gateway.Frame.{decimal, data_type, ack_type}
use smart_gateway.Frame.Kinds.{Kv}
use smart_gateway.FrameParser.Decode.{KvMessage, NackMessage}
use smart_gateway.DeviceManager.{Command}

-- `%u` of a `uint32_t`, which has at most ten digits.
unfoldable pub print_uint : ℕ → Text
print_uint n = decimal 10 n

-- `"%s":"%s"`
unfoldable pub kv_json : Kv → Text
kv_json f = b'"' ∷ (f.key ++ (codes "\":\"" ++ (f.value ++ codes "\"")))

-- The comma before each field but the first.
abbrev pub separator : Bool → Text
separator true = []
separator false = codes ","

-- `snprintf` behind the text built so far fails if the text and its NUL do not fit.
unfoldable pub append_text : ℕ → Text → Text → Option Text
append_text out_size text more =
    if leb (out_size - length text) (length more) then none else some (text ++ more)

-- The loop over the fields; `first` is `i == 0`.
unfoldable pub append_kv_json : ℕ → Bool → List Kv → Option Text → Option Text
append_kv_json out_size first fields none = none
append_kv_json out_size first [] (some text) = some text
append_kv_json out_size first (f ∷ fs) (some text) =
    append_kv_json out_size false fs (append_text out_size text (separator first ++ kv_json f))

-- The closing braces.
unfoldable pub close_json : ℕ → Option Text → Option ℕ × Text
close_json out_size none = (none, [])
close_json out_size (some text) = elim (append_text out_size text (codes "}}\n")) [
  | none ↦ (none, [])
  | some t ↦ (some (length t), t)
]

-- What the builders of DATA, ACK and CMD lines have in common, behind their fixed prefix.
unfoldable pub build_fields_json : Text → ℕ → Text → List Kv → Option ℕ × Text
unfolding append_text close_json append_kv_json
build_fields_json out out_size prefix fields =
    if out_size == 0
    then (none, out)
    else if leb out_size (length prefix)
    then (none, [])
    else close_json out_size (append_kv_json out_size true fields (some prefix))

-- `{"node":"%s","seq":%u,"type":"…","fields":{`
unfoldable pub node_prefix : Text → ℕ → Text → Text
node_prefix node_id sequence type =
    codes "{\"node\":\""
    ++ (node_id
        ++ (codes "\",\"seq\":"
            ++ (print_uint sequence
                ++ (codes ",\"type\":\"" ++ (type ++ codes "\",\"fields\":{")))))

unfoldable pub message_json_build_data : Text → ℕ → KvMessage → Option ℕ × Text
message_json_build_data out out_size data_message =
    build_fields_json out out_size
      (node_prefix data_message.node_id data_message.sequence data_type) data_message.fields

unfoldable pub message_json_build_ack : Text → ℕ → KvMessage → Option ℕ × Text
message_json_build_ack out out_size ack =
    build_fields_json out out_size (node_prefix ack.node_id ack.sequence ack_type) ack.fields

-- `{"node":"%s","sender":"%s","seq":%u,"type":"CMD","fields":{`
unfoldable pub command_prefix : Command → Text
command_prefix c =
    codes "{\"node\":\""
    ++ (c.target_node
        ++ (codes "\",\"sender\":\""
            ++ (c.sender
                ++ (codes "\",\"seq\":"
                    ++ (print_uint c.sequence ++ codes ",\"type\":\"CMD\",\"fields\":{")))))

unfoldable pub message_json_build_command : Text → ℕ → Command → Option ℕ × Text
message_json_build_command out out_size command =
    build_fields_json out out_size (command_prefix command) command.fields

-- `{"node":"%s","seq":%u,"type":"NACK","error":"%s"}\n`
unfoldable pub nack_json : NackMessage → Text
nack_json nack =
    codes "{\"node\":\""
    ++ (nack.node_id
        ++ (codes "\",\"seq\":"
            ++ (print_uint nack.sequence
                ++ (codes ",\"type\":\"NACK\",\"error\":\"" ++ (nack.error ++ codes "\"}\n")))))

unfoldable pub message_json_build_nack : Text → ℕ → NackMessage → Option ℕ × Text
message_json_build_nack out out_size nack =
    let text = nack_json nack in
    if out_size == 0
    then (none, out)
    else if leb out_size (length text)
    then (none, [])
    else (some (length text), text)
