-- ===== src/Workers/Forward.antt =====
-- From the node to the server: a frame that a node built, through the parser and the gateway, to the
-- server's node store.
use smart_gateway.Prelude.{
  ℕ, ◌-◌, ◌%◌, ◌≤◌, ◌<◌, ◌≡◌, sym, ap, ◌∙◌, arith, true, false, ltb, List, [], ◌∷◌, ◌++◌, Option,
  none, some, length, take, All, append-nil, replicate, take-length_append,
}
use smart_gateway.Prelude.Text.{Text, codes, HasNoNul, text_eq_refl}
use smart_gateway.Frame.Kinds.{Kv, FitsKv, ok}
use smart_gateway.Frame.{frame_build_data_kv}
use smart_gateway.FrameParser.{ParsedFrame, Parser}
use smart_gateway.FrameParser.Decode.{
  KvMessage, frame_decode_data, frame_get_message_type, data_message,
}
use smart_gateway.RoundTrip.{is_data, frame_roundtrip}
use smart_gateway.DeviceManager.{device_manager_update_last_seen}
use smart_gateway.MessageQueue.{Message}
use smart_gateway.MessageJson.Build.{message_json_build_data}
use smart_gateway.MessageJson.Format.{LineMessage, data_line, line_of}
use smart_gateway.MessageJson.Lines.{build}
use smart_gateway.MessageJson.RoundTrip.{IsJsonMessage}
use smart_gateway.LineParser.{line_parser_feed}
use smart_gateway.NodeStore.{node_store_update}
use smart_gateway.JsonStream.{object_text, HasNoLineEnd, feed-printed_lines}
use smart_gateway.ServerMain.{ServerContext, line_has, on_line, on_line-data}
use smart_gateway.GatewayApp.Upstream.{
  push_message, push_when, Upstream, Now, message_of, json_size, is_ok, accept_data,
  gateway_app_touch_device, gateway_app_on_frame, forward,
}
use smart_gateway.GatewayApp.Upstream.Pushed.{push_line, forward-build}
use smart_gateway.Workers.{bluetooth_receive, on_frames}

-- A device that is known and bound.
touch-known :
    (now : Now) (id : Text) (u : Upstream)
    → 1 ≤ length id
    → u.bound_node_id ≡ id
    → let (r, m) = device_manager_update_last_seen u.device_manager id now.time in
      is_ok r ≡ true → gateway_app_touch_device now id u ≡ (true, record u { device_manager = m })
unfolding gateway_app_touch_device
touch-known now id u named bound known = rw (bound, text_eq_refl id, known) (ground (arith, named))

-- The bytes of a message that count.
abbrev pub text_of : Message → Text
text_of m = take m.size m.bytes

push_line-fits :
    (m : LineMessage) (u : Upstream)
    → length (line_of m) < json_size
    → u.pushes_left ≡ none
    → push_line m u ≡ record u { pushed = u.pushed ++ message_of (line_of m) ∷ [] }
unfolding push_line push_message
push_line-fits m u fits opened =
    let e : ltb (length (line_of m)) json_size ≡ true = ground (arith, fits) in
    rw e (ap (λ x. push_when x (message_of (line_of m)) u) opened)

forward-data :
    (d : KvMessage) (u : Upstream)
    → length (line_of (data_line d)) < json_size
    → u.pushes_left ≡ none
    → forward (message_json_build_data [] json_size d) u
      ≡ record u { pushed = u.pushed ++ message_of (line_of (data_line d)) ∷ [] }
unfolding build
forward-data d u fits opened =
    forward-build (data_line d) u ∙ push_line-fits (data_line d) u fits opened

module _ (now : Now) (u : Upstream) (d : KvMessage) (named : 1 ≤ length d.node_id)
    (bound : u.bound_node_id ≡ d.node_id) (fits : length (line_of (data_line d)) < json_size)
    (opened : u.pushes_left ≡ none) where
  on_frame-pushed :
      (f : ParsedFrame)
      → frame_get_message_type f.payload ≡ data_message
      → frame_decode_data f.payload ≡ some d
      → let (r, m) = device_manager_update_last_seen u.device_manager d.node_id now.time in
        is_ok r ≡ true
        → gateway_app_on_frame now f u ≡ record u {
          device_manager = m;
          pushed = u.pushed ++ message_of (line_of (data_line d)) ∷ [];
        }
  unfolding gateway_app_on_frame accept_data
  on_frame-pushed f type decoded known =
      let m = (device_manager_update_last_seen u.device_manager d.node_id now.time).1 in
      rw (type, decoded, touch-known now d.node_id u named bound known)
        (forward-data d (record u { device_manager = m }) fits opened)

text_of-message_of : (line : Text) → text_of (message_of line) ≡ line
text_of-message_of line = take-length_append line (replicate (256 - length line) 0)

feed-line_of :
    (m : LineMessage) (capacity : ℕ)
    → 1 ≤ capacity
    → HasNoLineEnd m
    → line_parser_feed (text_of (message_of (line_of m))) capacity ≡ (1, object_text m ∷ [], [])
feed-line_of m capacity room plain =
    ap (λ t. line_parser_feed t capacity)
      (text_of-message_of (line_of m) ∙ sym (append-nil (line_of m)))
    ∙ feed-printed_lines (m ∷ []) capacity room (plain, tt)

-- A DATA frame that a node built into a buffer of at most 256 bytes, received by the worker whose connection
-- is bound to that node, while the registry knows the node and the upstream queue is not shut down: one
-- message is pushed to the queue. Its text is for the server's parser one line, and the server's `on_line`
-- updates the node store with the node's id, the sequence modulo 10 ^ 6 and the fields, and leaves the
-- command manager as it is. Conditions: the printed line is shorter than 256 bytes; there are at most 16
-- fields; keys and values are not empty; no text has quotation marks, backslashes or ends of lines; and the
-- line nowhere has `"type":"ACK"` or `"type":"NACK"`, which a field could bring in.
pub frame_reaches_server :
    (out : Text) (out_size : ℕ) (id : Text) (sequence : ℕ) (fields : List Kv) (p : Parser)
    (now : Now) (u : Upstream) (capacity : ℕ) (clock : Option ℕ) (ctx : ServerContext) {n : ℕ}
    → out_size ≤ 256
    → HasNoNul id
    → 1 ≤ length id
    → length id < 32
    → All FitsKv fields
    → (frame_build_data_kv out out_size id sequence fields).0 ≡ ok n
    → u.bound_node_id ≡ id
    → u.pushes_left ≡ none
    → 1 ≤ capacity
    → let (r, m) = device_manager_update_last_seen u.device_manager id now.time in
      let d : KvMessage = record { node_id = id; sequence = sequence % 1000000; fields = fields } in
      let line = object_text (data_line d) in
      is_ok r ≡ true
      → IsJsonMessage (data_line d)
      → HasNoLineEnd (data_line d)
      → length (line_of (data_line d)) < 256
      → line_has line (codes "\"type\":\"ACK\"") ≡ false
      → line_has line (codes "\"type\":\"NACK\"") ≡ false
      → let (q, v) =
          bluetooth_receive now (frame_build_data_kv out out_size id sequence fields).1 (p, u) in
        (message : Message) × (v
          ≡ record u { device_manager = m; pushed = u.pushed ++ message ∷ [] })
        × (line_parser_feed (text_of message) capacity ≡ (1, line ∷ [], []))
        × (on_line clock line ctx ≡ record ctx { store = (node_store_update clock d ctx.store).1 })
unfolding bluetooth_receive on_frames
frame_reaches_server out out_size id sequence fields p now u capacity clock ctx small text named
      short fit built bound opened room known good plain fits no_ack no_nack =
    let d : KvMessage = record { node_id = id; sequence = sequence % 1000000; fields = fields } in
    let (f, one, count, collecting, decoded, type) =
      frame_roundtrip is_data out out_size id sequence fields p small text short fit built in
    (
      message_of (line_of (data_line d)),
      rw one (on_frame-pushed now u d named bound fits opened f type decoded known),
      feed-line_of (data_line d) capacity room plain,
      on_line-data clock d ctx good no_ack no_nack,
    )
