-- ===== src/GatewayApp/Upstream/Identity.antt =====
-- A connection speaks for one node.
use smart_gateway.Prelude.{
  ℕ, zero, suc, ◌≤◌, ◌≡◌, refl, sym, ap, ◌∙◌, arith, true, ltb, List, [], ◌∷◌, ◌++◌, Option, none,
  some, length, Bool-cases, inl, inr, All, map, append_assoc, append-nil, All-append,
}
use smart_gateway.Prelude.Text.{Text, text_eq, eq_of_text_eq}
use smart_gateway.FrameParser.{ParsedFrame}
use smart_gateway.FrameParser.Decode.{
  KvMessage, NackMessage, MessageType, unknown_message, data_message, cmd_message, ack_message,
  nack_message,
}
use smart_gateway.Frame.{ack_type, nack_type}
use smart_gateway.MessageQueue.{Message}
use smart_gateway.MessageJson.Format.{
  LineMessage, data_line, ack_line, command_line, nack_line, line_of,
}
use smart_gateway.MessageJson.Lines.{build}
use smart_gateway.GatewayApp.Upstream.{
  Upstream, Now, message_of, push_when, push_message, json_size, accept, accept_data, accept_ack,
  accept_nack, undecoded, on_type, on_message, gateway_app_touch_device, gateway_app_on_frame,
  gateway_app_on_wifi_line,
}
use smart_gateway.GatewayApp.Upstream.Pushed.{push_line, forward-build}

-- The node a message is about.
abbrev pub node_of : LineMessage → Text
node_of (data_line d) = d.node_id
node_of (ack_line a) = a.node_id
node_of (command_line c) = c.target_node
node_of (nack_line n) = n.node_id

-- Between two states of a connection that is bound: it stays bound to its node, and what was pushed
-- are lines of messages about that node.
pub record IsFaithful (u v : Upstream) : Type 0 where
  pub same_node : v.bound_node_id ≡ u.bound_node_id
  pub messages : List LineMessage
  pub about : All (λ m. node_of m ≡ u.bound_node_id) messages
  pub appended : v.pushed ≡ u.pushed ++ map (λ m. message_of (line_of m)) messages

quiet : (u v : Upstream) → v.bound_node_id ≡ u.bound_node_id → v.pushed ≡ u.pushed → IsFaithful u v
quiet u v same none_pushed = record {
  same_node = same;
  messages = [];
  about = tt;
  appended = none_pushed ∙ sym (append-nil u.pushed);
}

-- A device that is known again.
touch-bound :
    (now : Now) (id : Text) (u : Upstream)
    → 1 ≤ length u.bound_node_id
    → let (known, v) = gateway_app_touch_device now id u in
      (v.bound_node_id ≡ u.bound_node_id)
      × (v.pushed ≡ u.pushed)
      × (known ≡ true → u.bound_node_id ≡ id)
unfolding gateway_app_touch_device
touch-bound now id u h = ground (arith, eq_of_text_eq u.bound_node_id id)

push_when-IsFaithful :
    (x : Option ℕ) (m : LineMessage) (u : Upstream)
    → node_of m ≡ u.bound_node_id
    → IsFaithful u (push_when x (message_of (line_of m)) u)
push_when-IsFaithful none m u e = record {
  same_node = refl;
  messages = m ∷ [];
  about = (e, tt);
  appended = refl;
}
push_when-IsFaithful (some zero) m u e = quiet u u refl refl
push_when-IsFaithful (some (suc n)) m u e = record {
  same_node = refl;
  messages = m ∷ [];
  about = (e, tt);
  appended = refl;
}

push_line-IsFaithful :
    (m : LineMessage) (u : Upstream) → node_of m ≡ u.bound_node_id → IsFaithful u (push_line m u)
unfolding push_line push_message
push_line-IsFaithful m u e = elim (Bool-cases (ltb (length (line_of m)) json_size)) [
  | inl fits ↦ rw fits (push_when-IsFaithful u.pushes_left m u e)
  | inr long ↦ rw long (quiet u u refl refl)
]

IsFaithful-trans : {u v w : Upstream} → IsFaithful u v → IsFaithful v w → IsFaithful u w
IsFaithful-trans {u} {v} {w} p q = record {
  same_node = q.same_node ∙ p.same_node;
  messages = p.messages ++ q.messages;
  about =
      All-append (λ m. node_of m ≡ u.bound_node_id) p.messages q.messages p.about
        (rw (sym p.same_node) q.about);
  appended =
      q.appended
      ∙ ap (λ s. s ++ map line q.messages) p.appended
      ∙ append_assoc u.pushed (map line p.messages) (map line q.messages)
      ∙ ap (λ s. u.pushed ++ s) (sym (map-append p.messages));
}
  where
    line : LineMessage → Message
    line m = message_of (line_of m)

    map-append :
        (ms : List LineMessage) → map line (ms ++ q.messages) ≡ map line ms ++ map line q.messages
    map-append [] = refl
    map-append (m ∷ ms) = ap (λ s. line m ∷ s) (map-append ms)

-- One decoded message, which `make` turns into a line.
module _ {A : Type 0} (node : A → Text) (write : A → Option ℕ × Text) (make : A → LineMessage)
    (named : (a : A) → node_of (make a) ≡ node a)
    (writes : (a : A) → write a ≡ build [] json_size (make a)) where
  accept-IsFaithful :
      (now : Now) (x : Option A) (u : Upstream)
      → 1 ≤ length u.bound_node_id
      → IsFaithful u (accept node write now x u)
  accept-IsFaithful now none u h = quiet u (undecoded u) refl refl
  accept-IsFaithful now (some a) u h =
      let (same, none_pushed, by) = touch-bound now (node a) u h in
      let (known, v) = gateway_app_touch_device now (node a) u in
      elim (Bool-cases known) [
        | inr unknown ↦ rw unknown (quiet u v same none_pushed)
        | inl known_id ↦
            rw (known_id, writes a, forward-build (make a) v)
              (IsFaithful-trans (quiet u v same none_pushed)
                (push_line-IsFaithful (make a) v (named a ∙ sym (by known_id) ∙ sym same)))
      ]

data_accepted :
    (now : Now) (x : Option KvMessage) (u : Upstream)
    → 1 ≤ length u.bound_node_id
    → IsFaithful u (accept_data now x u)
unfolding accept_data build
data_accepted = accept-IsFaithful _ _ data_line (λ a. refl) (λ a. refl)

ack_accepted :
    (now : Now) (x : Option KvMessage) (u : Upstream)
    → 1 ≤ length u.bound_node_id
    → IsFaithful u (accept_ack now x u)
unfolding accept_ack build
ack_accepted = accept-IsFaithful _ _ ack_line (λ a. refl) (λ a. refl)

nack_accepted :
    (now : Now) (x : Option NackMessage) (u : Upstream)
    → 1 ≤ length u.bound_node_id
    → IsFaithful u (accept_nack now x u)
unfolding accept_nack build
nack_accepted = accept-IsFaithful _ _ nack_line (λ a. refl) (λ a. refl)

-- What a connection delivers.
pub data Arrival : Type 0 where
  frame_arrived : ParsedFrame → Arrival
  line_arrived : Text → Arrival

unfoldable pub arrive : Now → Arrival → Upstream → Upstream
arrive now (frame_arrived f) u = gateway_app_on_frame now f u
arrive now (line_arrived line) u = gateway_app_on_wifi_line now line u

unfoldable pub arrive_all : List (Now × Arrival) → Upstream → Upstream
arrive_all [] u = u
arrive_all (a ∷ rest) u = arrive_all rest (arrive a.0 a.1 u)

on_message-IsFaithful :
    (now : Now) (f : ParsedFrame) (type : MessageType) (u : Upstream)
    → 1 ≤ length u.bound_node_id
    → IsFaithful u (on_message now f type u)
on_message-IsFaithful now f data_message u h = data_accepted now _ u h
on_message-IsFaithful now f ack_message u h = ack_accepted now _ u h
on_message-IsFaithful now f nack_message u h = nack_accepted now _ u h
on_message-IsFaithful now f cmd_message u h = quiet u (undecoded u) refl refl
on_message-IsFaithful now f unknown_message u h = quiet u (undecoded u) refl refl

on_type-IsFaithful :
    (now : Now) (line : Text) (type : Option Text) (u : Upstream)
    → 1 ≤ length u.bound_node_id
    → IsFaithful u (on_type now line type u)
on_type-IsFaithful now line none u h = quiet u (undecoded u) refl refl
on_type-IsFaithful now line (some t) u h = elim (Bool-cases (text_eq t ack_type)) [
  | inl ack ↦ rw ack (ack_accepted now _ u h)
  | inr no_ack ↦ rw no_ack (elim (Bool-cases (text_eq t nack_type)) [
    | inl nack ↦ rw nack (nack_accepted now _ u h)
    | inr no_nack ↦ rw no_nack (data_accepted now _ u h)
  ])
]

arrive-IsFaithful :
    (now : Now) (a : Arrival) (u : Upstream)
    → 1 ≤ length u.bound_node_id
    → IsFaithful u (arrive now a u)
unfolding arrive gateway_app_on_frame gateway_app_on_wifi_line
arrive-IsFaithful now (frame_arrived f) u h = on_message-IsFaithful now f _ u h
arrive-IsFaithful now (line_arrived line) u h = on_type-IsFaithful now line _ u h

-- Whatever frames and lines arrive on a connection that is bound to a node, it stays bound to that node, and
-- all that is pushed to the server are lines of messages about that node.
pub arrivals-IsFaithful :
    (arrivals : List (Now × Arrival)) (u : Upstream)
    → 1 ≤ length u.bound_node_id
    → IsFaithful u (arrive_all arrivals u)
unfolding arrive_all
arrivals-IsFaithful [] u h = quiet u u refl refl
arrivals-IsFaithful (a ∷ rest) u h =
    let p = arrive-IsFaithful a.0 a.1 u h in
    IsFaithful-trans p (arrivals-IsFaithful rest (arrive a.0 a.1 u) (rw p.same_node h))
