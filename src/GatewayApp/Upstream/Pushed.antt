-- ===== src/GatewayApp/Upstream/Pushed.antt =====
-- What the steps from the nodes push to the queue.
use smart_gateway.Prelude.{
  ℕ, zero, suc, ◌-◌, Option, none, some, take, refl, ◌/◌, ◌%◌, ◌≤◌, ◌<◌, ◌≡◌, sym, ap, ◌∙◌, arith,
  ltb, if◌then◌else◌, List, [], ◌∷◌, ◌++◌, length, length-append, All, map, append_assoc,
  append-nil,
}
use smart_gateway.Prelude.Text.{Text, codes}
use smart_gateway.Frame.{decimal, digit_char}
use smart_gateway.FrameParser.Decode.{NackMessage}
use smart_gateway.DeviceManager.{Command}
use smart_gateway.MessageJson.Build.{print_uint, nack_json}
use smart_gateway.MessageQueue.{Message}
use smart_gateway.MessageJson.Format.{LineMessage, nack_line, line_of}
use smart_gateway.MessageJson.Lines.{build, build-line_of, built_line, built_line-line_of}
use smart_gateway.GatewayApp.Upstream.{
  Upstream, message_of, json_size, forward, gateway_app_enqueue_json, gateway_app_enqueue_nack,
  nack_all, push_message, push_when,
}

-- Of messages, those that a queue takes which takes so many, and how many it takes after them.
abbrev pub taken : Option ℕ → List Message → List Message
taken none ms = ms
taken (some n) ms = take n ms

abbrev pub left : Option ℕ → ℕ → Option ℕ
left none k = none
left (some n) k = some (n - k)

-- The state after messages that were given to the queue.
abbrev pub with_pushed : List Message → Upstream → Upstream
with_pushed ms u = record u {
  pushed = u.pushed ++ taken u.pushes_left ms;
  pushes_left = left u.pushes_left (length ms);
}

taken-nil : (x : Option ℕ) → taken x [] ≡ []
taken-nil none = refl
taken-nil (some zero) = refl
taken-nil (some (suc n)) = refl

taken-cons :
    (x : Option ℕ) (m : Message) (ms : List Message)
    → taken x (m ∷ []) ++ taken (left x 1) ms ≡ taken x (m ∷ ms)
taken-cons none m ms = refl
taken-cons (some zero) m ms = refl
taken-cons (some (suc n)) m ms = rw (taken-nil (some n)) (ap (λ k. m ∷ take k ms) (omega arith))

left-zero : (x : Option ℕ) → left x 0 ≡ x
left-zero none = refl
left-zero (some n) = ap some (omega arith)

left-left : (x : Option ℕ) (k : ℕ) → left (left x 1) k ≡ left x (suc k)
left-left none k = refl
left-left (some n) k = ap some (omega arith)

with_pushed-nil : (u : Upstream) → with_pushed [] u ≡ u
with_pushed-nil u = rw (taken-nil u.pushes_left, left-zero u.pushes_left, append-nil u.pushed) refl

with_pushed-cons :
    (m : Message) (ms : List Message) (u : Upstream)
    → with_pushed ms (with_pushed (m ∷ []) u) ≡ with_pushed (m ∷ ms) u
with_pushed-cons m ms u =
    let x = u.pushes_left in
    rw
      (
        append_assoc u.pushed (taken x (m ∷ [])) (taken (left x 1) ms),
        taken-cons x m ms,
        left-left x (length ms),
      )
      refl

push_when-taken :
    (x : Option ℕ) (m : Message) (u : Upstream)
    → u.pushes_left ≡ x
    → push_when x m u ≡ with_pushed (m ∷ []) u
push_when-taken none m u e = rw e refl
push_when-taken (some zero) m u e =
    rw e (ap (λ p. record u { pushed = p; pushes_left = some 0 }) (sym (append-nil u.pushed)))
push_when-taken (some (suc n)) m u e =
    rw (e, taken-nil (some n))
      (ap (λ p. record u { pushed = u.pushed ++ m ∷ []; pushes_left = p }) (ap some (omega arith)))

pub push_message-taken : (m : Message) (u : Upstream) → push_message m u ≡ with_pushed (m ∷ []) u
unfolding push_message
push_message-taken m u = push_when-taken u.pushes_left m u refl

-- A message pushed if its line fits.
unfoldable pub push_line : LineMessage → Upstream → Upstream
push_line m u =
    if ltb (length (line_of m)) json_size then push_message (message_of (line_of m)) u else u

pub forward-build :
    (m : LineMessage) (u : Upstream) → forward (build [] json_size m) u ≡ push_line m u
unfolding push_line gateway_app_enqueue_json
forward-build m u = rw (build-line_of [] json_size m) (ground arith)

length-decimal : (k n : ℕ) → length (decimal k n) ≤ k
unfolding decimal
length-decimal zero n = omega arith
length-decimal (suc k) n = ground (
  arith,
  length-decimal k (n / 10),
  length-append (decimal k (n / 10)) (digit_char (n % 10) ∷ []),
)

-- A NACK of texts that fit their arrays always fits.
pub length-nack_line :
    (n : NackMessage)
    → length n.node_id < 32
    → length n.error < 32
    → length (line_of (nack_line n)) < json_size
unfolding built_line nack_json print_uint
length-nack_line n h e = rw (← built_line-line_of (nack_line n)) (
    let number = print_uint n.sequence in
    let last = n.error ++ codes "\"}\n" in
    let more = codes ",\"type\":\"NACK\",\"error\":\"" ++ last in
    omega (
      arith,
      length-append n.node_id (codes "\",\"seq\":" ++ (number ++ more)),
      length-append number more,
      length-append n.error (codes "\"}\n"),
      length-decimal 10 n.sequence,
    ))

-- The NACK of a command.
abbrev pub nack_of : Text → Command → LineMessage
nack_of error c =
    nack_line (record { node_id = c.target_node; sequence = c.sequence; error = error })

-- An id that a command has.
abbrev pub IsTarget : Command → Type 0
IsTarget c = (1 ≤ length c.target_node) × (length c.target_node < 32)

module _ (error : Text) (some_error : 1 ≤ length error) (short : length error < 32) where
  pub enqueue_nack-push :
      (c : Command) (u : Upstream)
      → IsTarget c
      → gateway_app_enqueue_nack c.target_node c.sequence error u
        ≡ push_message (message_of (line_of (nack_of error c))) u
  unfolding gateway_app_enqueue_nack push_line build
  enqueue_nack-push c u h =
      let fits =
        length-nack_line (record { node_id = c.target_node; sequence = c.sequence; error = error })
          h.1 short in
      let e = forward-build (nack_of error c) u in ground (arith, e, fits, h)

  -- Every collected command is answered, in order.
  pub nack_all-pushed :
      (cs : List Command) (u : Upstream)
      → All IsTarget cs
      → nack_all cs error u ≡ with_pushed (map (λ c. message_of (line_of (nack_of error c))) cs) u
  unfolding nack_all
  nack_all-pushed [] u h = sym (with_pushed-nil u)
  nack_all-pushed (c ∷ cs) u h =
      let nack = message_of (line_of (nack_of error c)) in
      rw (enqueue_nack-push c u h.0, push_message-taken nack u)
        (nack_all-pushed cs (with_pushed (nack ∷ []) u) h.1 ∙ with_pushed-cons nack _ u)
