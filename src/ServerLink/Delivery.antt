-- ===== src/ServerLink/Delivery.antt =====
-- No message that was queued for the server is lost, doubled or overtaken.
use smart_gateway.Prelude.{
  ℕ, ◌≡◌, refl, sym, ap, ◌∙◌, arith, Bool, true, false, List, [], ◌∷◌, ◌++◌, Option, none, some,
  inc64, Bool-cases, inl, inr, append_assoc, append-nil,
}
use smart_gateway.Prelude.Int.{ℤ}
use smart_gateway.MessageQueue.{
  Message, MessageQueue, Attempt, waits, ok, shutdown, empty, invalid, message_queue_push,
  message_queue_try_pop, message_queue_shutdown,
}
use smart_gateway.MessageQueue.Refinement.{
  IsQueue, Fifo, fifo_push, fifo_take, view, push-refines, push-IsQueue, try_pop-refines,
  try_pop-IsQueue,
}
use smart_gateway.ServerLink.{
  Link, Calls, Arrived, poll_interrupted, poll_failed, timed_out, no_input, received,
  closed_by_server, would_block, recv_interrupted, recv_failed, server_link_disconnect, receive,
  check_hung_up, listen, send_message, send_pending, ensure_connected, fetch_unless, fetched,
  fetch_pending, after_sending, after_connecting, link_round,
}

abbrev held : Option Message → List Message
held none = []
held (some m) = m ∷ []

-- What is still to be sent, in order.
unfoldable pub waiting : Link → List Message
waiting link = held link.pending_message ++ (view link.queue).messages

-- A step that leaves the messages alone.
record IsQuiet (l m : Link) : Type 0 where
  same_queue : m.queue ≡ l.queue
  same_pending : m.pending_message ≡ l.pending_message

disconnect-IsQuiet : (now : ℤ) (l : Link) → IsQuiet l (server_link_disconnect now l)
unfolding server_link_disconnect
disconnect-IsQuiet now l = record { same_queue = refl; same_pending = refl }

hung_up-IsQuiet : (c : Calls) (l m : Link) → IsQuiet l m → IsQuiet l (check_hung_up c m)
unfolding server_link_disconnect
hung_up-IsQuiet c l m h = record {
  same_queue = ground (arith, h.same_queue);
  same_pending = ground (arith, h.same_pending);
}

receive-IsQuiet :
    (sends : List Bool) (bytes : List ℕ) (l : Link) → IsQuiet l (receive sends bytes l)
unfolding receive
receive-IsQuiet sends bytes l = record { same_queue = ground arith; same_pending = ground arith }

listen-IsQuiet : (c : Calls) (a : Arrived) (l : Link) → IsQuiet l (listen c a l)
unfolding listen
listen-IsQuiet c poll_interrupted l = record { same_queue = refl; same_pending = refl }
listen-IsQuiet c poll_failed l = disconnect-IsQuiet c.disconnect_time l
listen-IsQuiet c timed_out l = record { same_queue = refl; same_pending = refl }
listen-IsQuiet c no_input l =
    hung_up-IsQuiet c l l (record { same_queue = refl; same_pending = refl })
listen-IsQuiet c (received bytes) l =
    hung_up-IsQuiet c l (receive c.nacks_sent bytes l) (receive-IsQuiet c.nacks_sent bytes l)
listen-IsQuiet c closed_by_server l = disconnect-IsQuiet c.disconnect_time l
listen-IsQuiet c would_block l = record { same_queue = refl; same_pending = refl }
listen-IsQuiet c recv_interrupted l =
    hung_up-IsQuiet c l l (record { same_queue = refl; same_pending = refl })
listen-IsQuiet c recv_failed l = disconnect-IsQuiet c.disconnect_time l

connected-IsQuiet : (c : Calls) (l : Link) → IsQuiet l (ensure_connected c l).1
unfolding ensure_connected
connected-IsQuiet c l = record { same_queue = ground arith; same_pending = ground arith }

-- What is sent comes off the front of what waits.
record IsDelivery (l : Link) (sent : List Message) (m : Link) : Type 0 where
  same_queue : m.queue ≡ l.queue
  front : sent ++ held m.pending_message ≡ held l.pending_message

sent-IsDelivery :
    (c : Calls) (l : Link) (p : Option Message)
    → l.pending_message ≡ p
    → let (sent, m) = after_sending c (send_message c p l) in IsDelivery l sent m
unfolding listen
sent-IsDelivery c l none e =
    let q = listen-IsQuiet c c.arrived l in
    record { same_queue = q.same_queue; front = ap held q.same_pending }
sent-IsDelivery c l (some x) e = elim (Bool-cases c.message_sent) [
  | inl done ↦
      let v = record l {
        context = record (l.context) { tcp_send = inc64 l.context.tcp_send };
        pending_message = none;
      } in
      let q = listen-IsQuiet c c.arrived v in
      rw done (record {
        same_queue = q.same_queue;
        front = ap (λ p. x ∷ held p) q.same_pending ∙ sym (ap held e);
      })
  | inr failed ↦
      let v = record l {
        context = record (l.context) { tcp_send_error = inc64 l.context.tcp_send_error };
      } in
      let q = disconnect-IsQuiet c.disconnect_time v in
      rw failed (record { same_queue = q.same_queue; front = ap held q.same_pending })
]

connected-IsDelivery :
    (c : Calls) (l : Link)
    → let (sent, m) = after_connecting c (ensure_connected c l) in IsDelivery l sent m
unfolding send_pending
connected-IsDelivery c l =
    let (connected, v) = ensure_connected c l in
    let q = connected-IsQuiet c l in
    elim (Bool-cases connected) [
      | inl there ↦
          let d = sent-IsDelivery c v v.pending_message refl in
          rw there (record {
            same_queue = d.same_queue ∙ q.same_queue;
            front = d.front ∙ ap held q.same_pending;
          })
      | inr missing ↦
          rw missing (record { same_queue = q.same_queue; front = ap held q.same_pending })
    ]

-- The fetching takes the oldest message, and keeps what waits as a whole.
record IsFetched (l m : Link) : Type 0 where
  in_order : IsQueue m.queue
  same : waiting m ≡ waiting l

fetched-waiting :
    (l : Link) (a : Attempt) (m : Option Message) (q : MessageQueue) (messages : List Message)
    (closed : Bool)
    → l.pending_message ≡ none
    → ((a, m), view q) ≡ fifo_take empty messages closed
    → (view l.queue).messages ≡ messages
    → waiting (fetched ((a, m), q) l).1 ≡ messages
unfolding waiting fifo_take
fetched-waiting l ok m q [] true e h s = absurd (cc h)
fetched-waiting l ok m q [] false e h s = absurd (cc h)
fetched-waiting l ok m q (x ∷ xs) closed e h s =
    rw (ap (λ r. r.0.1) h, ap (λ r. r.1.messages) h) refl
fetched-waiting l empty m q [] closed e h s = rw (e, ap (λ r. r.1.messages) h) refl
fetched-waiting l empty m q (x ∷ xs) closed e h s = absurd (cc h)
fetched-waiting l shutdown m q [] closed e h s = rw (e, ap (λ r. r.1.messages) h) refl
fetched-waiting l shutdown m q (x ∷ xs) closed e h s = absurd (cc h)
fetched-waiting l waits m q [] true e h s = absurd (cc h)
fetched-waiting l waits m q [] false e h s = absurd (cc h)
fetched-waiting l waits m q (x ∷ xs) closed e h s = absurd (cc h)
fetched-waiting l invalid m q [] true e h s = absurd (cc h)
fetched-waiting l invalid m q [] false e h s = absurd (cc h)
fetched-waiting l invalid m q (x ∷ xs) closed e h s = absurd (cc h)

fetched-queue :
    (r : (Attempt × Option Message) × MessageQueue) (l : Link) → (fetched r l).1.queue ≡ r.1
fetched-queue ((ok, m), q) l = refl
fetched-queue ((empty, m), q) l = refl
fetched-queue ((shutdown, m), q) l = refl
fetched-queue ((waits, m), q) l = refl
fetched-queue ((invalid, m), q) l = refl

fetch-IsFetched :
    (l : Link) (p : Option Message)
    → l.pending_message ≡ p
    → IsQueue l.queue
    → IsFetched l (fetch_unless p l).1
fetch-IsFetched l (some x) e v = record { in_order = v; same = refl }
fetch-IsFetched l none e v =
    let r = message_queue_try_pop l.queue in
    record {
      in_order = rw (fetched-queue r l) (try_pop-IsQueue l.queue v);
      same =
          fetched-waiting l r.0.0 r.0.1 r.1 (view l.queue).messages l.queue.shutting_down e
            (try_pop-refines l.queue v) refl
          ∙ unfold waiting in sym (ap (λ p. held p ++ (view l.queue).messages) e);
    }

-- One round.
round-conserves :
    (c : Calls) (l : Link)
    → IsQueue l.queue
    → let (sent, goes_on, m) = link_round c l in (sent ++ waiting m ≡ waiting l) × IsQueue m.queue
unfolding link_round fetch_pending
round-conserves c l v =
    let (goes_on, f) = fetch_pending l in
    let fetch = fetch-IsFetched l l.pending_message refl v in
    let d = connected-IsDelivery c f in
    let (sent, m) = after_connecting c (ensure_connected c f) in
    let total : sent ++ waiting m ≡ waiting f =
      unfold waiting in
      (sym (append_assoc sent (held m.pending_message) (view m.queue).messages)
        ∙ ap (λ s. s ++ (view m.queue).messages) d.front
        ∙ ap (λ q. held f.pending_message ++ (view q).messages) d.same_queue) in
    elim (Bool-cases goes_on) [
      | inl on ↦ rw on (total ∙ fetch.same, rw d.same_queue fetch.in_order)
      | inr ended ↦ rw ended (fetch.same, fetch.in_order)
    ]

-- What happens to the link: its rounds, and what other threads do to the queue.
pub data LinkEvent : Type 0 where
  round : Calls → LinkEvent
  pushed : Message → LinkEvent
  queue_shutdown : LinkEvent

abbrev if_accepted : Attempt → Message → List Message
if_accepted ok m = m ∷ []
if_accepted waits m = []
if_accepted shutdown m = []
if_accepted empty m = []
if_accepted invalid m = []

-- One event: the messages sent, those accepted by the queue, and the state.
unfoldable pub happen : LinkEvent → Link → List Message × List Message × Link
happen (round c) l = let (sent, goes_on, m) = link_round c l in (sent, [], m)
happen (pushed m) l =
    let (a, q) = message_queue_push l.queue m in ([], if_accepted a m, record l { queue = q })
happen queue_shutdown l = ([], [], record l { queue = message_queue_shutdown l.queue })

unfoldable pub run_link : List LinkEvent → Link → List Message × List Message × Link
run_link [] l = ([], [], l)
run_link (e ∷ es) l =
    let (sent, accepted, m) = happen e l in
    let (more_sent, more_accepted, n) = run_link es m in
    (sent ++ more_sent, accepted ++ more_accepted, n)

fifo_push-accepted :
    (f : Fifo) (m : Message)
    → let (a, g) = fifo_push f m in g.messages ≡ f.messages ++ if_accepted a m
unfolding fifo_push
fifo_push-accepted f m = ground (arith, append-nil f.messages)

push-accepted :
    (m : Message) (q : MessageQueue)
    → IsQueue q
    → let (a, r) = message_queue_push q m in
      (view r).messages ≡ (view q).messages ++ if_accepted a m
push-accepted m q v =
    let e = push-refines q m v in
    ap (λ p. p.1.messages) e
    ∙ fifo_push-accepted (view q) m
    ∙ sym (ap (λ p. (view q).messages ++ if_accepted p.0 m) e)

happen-conserves :
    (e : LinkEvent) (l : Link)
    → IsQueue l.queue
    → let (sent, accepted, m) = happen e l in
      (sent ++ waiting m ≡ waiting l ++ accepted) × IsQueue m.queue
unfolding happen waiting message_queue_shutdown view
happen-conserves (round c) l v =
    let (e, w) = round-conserves c l v in (e ∙ sym (append-nil (waiting l)), w)
happen-conserves (pushed m) l v = (
  ap (λ s. held l.pending_message ++ s) (push-accepted m l.queue v)
      ∙ sym (append_assoc (held l.pending_message) (view l.queue).messages _),
  push-IsQueue l.queue m v,
)
happen-conserves queue_shutdown l v = (
  sym (append-nil (waiting l)),
  record {
    size = v.size;
    head_inside = v.head_inside;
    tail_behind = v.tail_behind;
    bounded = v.bounded;
  },
)

-- Over every sequence of rounds of the link, pushes of other threads and shutdowns, whatever the calls of the
-- system return, the messages sent followed by those that still wait are the messages that waited at first
-- followed by those that the queue accepted: none is lost, doubled or overtaken by a failed connection.
pub run_link-conserves :
    (es : List LinkEvent) (l : Link)
    → IsQueue l.queue
    → let (sent, accepted, m) = run_link es l in sent ++ waiting m ≡ waiting l ++ accepted
unfolding run_link
run_link-conserves [] l v = sym (append-nil (waiting l))
run_link-conserves (e ∷ es) l v =
    let (sent, accepted, m) = happen e l in
    let (first, w) = happen-conserves e l v in
    let (more_sent, more_accepted, n) = run_link es m in
    append_assoc sent more_sent (waiting n)
    ∙ ap (λ s. sent ++ s) (run_link-conserves es m w)
    ∙ sym (append_assoc sent (waiting m) more_accepted)
    ∙ ap (λ s. s ++ more_accepted) first
    ∙ append_assoc (waiting l) accepted more_accepted
