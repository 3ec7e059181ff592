-- ===== src/GatewayApp/Upstream.antt =====
-- What comes from the nodes: `gateway_app_on_frame` and `gateway_app_on_wifi_line`.
--
-- `message_queue_push` waits while the queue is full, and is refused once another thread has shut the
-- queue down, which no step here does. So the messages that the queue takes are kept as a list, in
-- their order, with the number of messages that it will still take before its shutdown.
pub mod Pushed
pub mod Identity
use smart_gateway.Prelude.{
  ℕ, zero, suc, ◌+◌, ◌-◌, ltb, leb, ◌==◌, if◌then◌else◌, Bool, true, false, ◌||◌, not, List, [],
  ◌∷◌, ◌++◌, Option, none, some, length, replicate,
}
use smart_gateway.Prelude.Text.{Text, codes, text_eq}
use smart_gateway.Prelude.Int.{ℤ}
use smart_gateway.Frame.{ack_type, nack_type}
use smart_gateway.FrameParser.{ParsedFrame}
use smart_gateway.FrameParser.Decode.{
  KvMessage, NackMessage, MessageType, frame_get_message_type, frame_decode_data, frame_decode_ack,
  frame_decode_nack, unknown_message, data_message, cmd_message, ack_message, nack_message,
}
use smart_gateway.DeviceManager.{
  Transport, DeviceManager, Command, Outcome, queue_empty, ok, invalid, not_found, exists, full,
  conflict, offline, queue_full, buffer_too_small, queue_capacity, device_manager_update_last_seen,
}
use smart_gateway.DeviceManager.Queues.{device_manager_bind_connection_collect_commands}
use smart_gateway.MessageQueue.{Message, max_size}
use smart_gateway.MessageJson.Build.{
  message_json_build_data, message_json_build_ack, message_json_build_nack,
}
use smart_gateway.MessageJson.Decode.{
  message_json_peek_type, message_json_decode_ack, message_json_decode_nack,
}
use smart_gateway.MessageJson.Data.{message_json_decode_data}
use smart_gateway.GatewayApp.{GatewayContext, count_decode_error}

-- `gateway_app_upstream_context_t`, with what its pointers lead to; `pushed` is what the
-- queue took, `pushes_left` how many messages it takes before it is shut down, `none` if it never is.
pub record Upstream : Type 0 where
  pub gateway_context : GatewayContext
  pub device_manager : DeviceManager
  pub transport : Transport
  pub device_fd : ℤ
  pub bound_node_id : Text
  pub pushed : List Message
  pub pushes_left : Option ℕ

-- What `pthread_self` and `time` return.
pub record Now : Type 0 where
  pub thread : ℕ
  pub time : ℤ

-- `gateway_message_t` after `memset` and `memcpy`.
abbrev pub message_of : Text → Message
message_of json = record {
  bytes = json ++ replicate (max_size - length json) 0;
  size = length json;
}

-- `message_queue_push`, with MESSAGE_QUEUE_OK or MESSAGE_QUEUE_SHUTDOWN for its result. The result
-- MESSAGE_QUEUE_ERROR is for a message that is too long, which its caller has excluded.
abbrev pub push_when : Option ℕ → Message → Upstream → Upstream
push_when none message u = record u { pushed = u.pushed ++ message ∷ [] }
push_when (some zero) message u = u
push_when (some (suc n)) message u = record u {
  pushed = u.pushed ++ message ∷ [];
  pushes_left = some n;
}

unfoldable pub push_message : Message → Upstream → Upstream
push_message message u = push_when u.pushes_left message u

unfoldable pub gateway_app_enqueue_json : Text → Upstream → Upstream
gateway_app_enqueue_json json u =
    if ltb max_size (length json) then u else push_message (message_of json) u

-- `char json[256]`
abbrev pub json_size : ℕ
json_size = 256

-- What a builder left is pushed, if it did not fail.
abbrev pub forward : Option ℕ × Text → Upstream → Upstream
forward (none, json) u = u
forward (some n, json) u = gateway_app_enqueue_json json u

unfoldable pub gateway_app_enqueue_nack : Text → ℕ → Text → Upstream → Upstream
gateway_app_enqueue_nack node_id sequence error u =
    if length node_id == 0 || length error == 0
    then u
    else if leb 32 (length node_id)
    then u
    else if leb 32 (length error)
    then u
    else forward
        (message_json_build_nack [] json_size
          (record { node_id = node_id; sequence = sequence; error = error }))
        u

-- The loop over the commands that an operation collected.
unfoldable pub nack_all : List Command → Text → Upstream → Upstream
nack_all [] error u = u
nack_all (c ∷ cs) error u =
    nack_all cs error (gateway_app_enqueue_nack c.target_node c.sequence error u)

abbrev pub is_ok : Outcome → Bool
is_ok queue_empty = false
is_ok ok = true
is_ok invalid = false
is_ok not_found = false
is_ok exists = false
is_ok full = false
is_ok conflict = false
is_ok offline = false
is_ok queue_full = false
is_ok buffer_too_small = false

-- The first message of a connection binds it to its node.
unfoldable pub bind_device : Now → Text → Upstream → Bool × Upstream
bind_device now node_id u =
    let (c, m) =
      device_manager_bind_connection_collect_commands u.device_manager node_id u.transport
        u.device_fd now.thread true queue_capacity now.time in
    let u' = record u { device_manager = m } in
    let replaced = nack_all c.commands (codes "transport_replaced") u' in
    if is_ok c.outcome then (true, record replaced { bound_node_id = node_id }) else (false, u')

unfoldable pub gateway_app_touch_device : Now → Text → Upstream → Bool × Upstream
gateway_app_touch_device now node_id u =
    let (r, m) = device_manager_update_last_seen u.device_manager node_id now.time in
    if length node_id == 0
    then (false, u)
    else if length u.bound_node_id == 0
    then if leb 32 (length node_id) then (false, u) else bind_device now node_id u
    else if not (text_eq u.bound_node_id node_id)
    then (false, u)
    else (is_ok r, record u { device_manager = m })

abbrev pub undecoded : Upstream → Upstream
undecoded u = record u { gateway_context = count_decode_error u.gateway_context }

-- What follows a decoder: the device is touched, and the message is pushed as a line. `build` is
-- the builder for a buffer of `json_size`, whose old contents do not matter.
abbrev pub accept :
    {A : Type 0} → (A → Text) → (A → Option ℕ × Text) → Now → Option A → Upstream → Upstream
accept node_of build now none u = undecoded u
accept node_of build now (some a) u =
    let (known, u') = gateway_app_touch_device now (node_of a) u in
    if known then forward (build a) u' else u'

unfoldable pub accept_data : Now → Option KvMessage → Upstream → Upstream
accept_data = accept (λ d. d.node_id) (message_json_build_data [] json_size)

unfoldable pub accept_ack : Now → Option KvMessage → Upstream → Upstream
accept_ack = accept (λ a. a.node_id) (message_json_build_ack [] json_size)

unfoldable pub accept_nack : Now → Option NackMessage → Upstream → Upstream
accept_nack = accept (λ n. n.node_id) (message_json_build_nack [] json_size)

-- The branches of the `switch`.
abbrev pub on_message : Now → ParsedFrame → MessageType → Upstream → Upstream
on_message now frame data_message u = accept_data now (frame_decode_data frame.payload) u
on_message now frame ack_message u = accept_ack now (frame_decode_ack frame.payload) u
on_message now frame nack_message u = accept_nack now (frame_decode_nack frame.payload) u
on_message now frame cmd_message u = undecoded u
on_message now frame unknown_message u = undecoded u

unfoldable pub gateway_app_on_frame : Now → ParsedFrame → Upstream → Upstream
gateway_app_on_frame now frame u = on_message now frame (frame_get_message_type frame.payload) u

-- A decoder's count of bytes is not used.
abbrev pub decoded : {A : Type 0} → Option (ℕ × A) → Option A
decoded none = none
decoded (some (n, a)) = some a

abbrev pub on_type : Now → Text → Option Text → Upstream → Upstream
on_type now line none u = undecoded u
on_type now line (some type_name) u =
    if text_eq type_name ack_type
    then accept_ack now (decoded (message_json_decode_ack line)) u
    else if text_eq type_name nack_type
    then accept_nack now (decoded (message_json_decode_nack line)) u
    else accept_data now (decoded (message_json_decode_data line)) u

-- `char type_name[8]`
unfoldable pub gateway_app_on_wifi_line : Now → Text → Upstream → Upstream
gateway_app_on_wifi_line now line u = on_type now line (message_json_peek_type line 8) u
