-- ===== src/MessageQueue/Refinement.antt =====
-- The ring behaves as a list of at most 32 messages.
use native.Mathlib.Numerals.{add-one}
use smart_gateway.Prelude.{
  ℕ, ◌+◌, ◌-◌, ◌%◌, ◌≤◌, ◌<◌, ◌≡◌, refl, sym, ap, arith, ltb, ◌==◌, if◌then◌else◌, Bool, true, List,
  [], ◌∷◌, ◌++◌, Option, none, some, length, set, length-set,
}
use smart_gateway.Prelude.Ring.{items_from, items_from-wrap, items_from-push, length-items_from}
use smart_gateway.MessageQueue.{
  Message, Attempt, waits, ok, shutdown, empty, invalid, MessageQueue, pop_head, no_message,
  max_size, message_capacity, message_queue_push, message_queue_pop, message_queue_try_pop,
  message_queue_shutdown,
}

-- What the threads may rely on: the messages in order, and whether the queue was shut down.
pub record Fifo : Type 0 where
  pub messages : List Message
  pub closed : Bool

unfoldable pub fifo_push : Fifo → Message → Attempt × Fifo
fifo_push f message =
    if ltb max_size message.size
    then (invalid, f)
    else if f.closed
    then (shutdown, f)
    else if length f.messages == message_capacity
    then (waits, f)
    else (ok, record f { messages = f.messages ++ message ∷ [] })

-- `idle` is the answer of an empty queue that is open.
unfoldable pub fifo_take : Attempt → List Message → Bool → (Attempt × Option Message) × Fifo
fifo_take idle [] closed =
    ((if closed then shutdown else idle, none), record { messages = []; closed = closed })
fifo_take idle (x ∷ xs) closed = ((ok, some x), record { messages = xs; closed = closed })

-- A ring in order.
pub record IsQueue (q : MessageQueue) : Type 0 where
  pub size : length q.items ≡ 32
  pub head_inside : q.head < 32
  pub tail_behind : q.tail ≡ (q.head + q.count) % 32
  pub bounded : q.count ≤ 32

unfoldable pub view : MessageQueue → Fifo
view q = record {
  messages = items_from no_message 32 q.items q.head q.count;
  closed = q.shutting_down;
}

pushed :
    (buf : List Message) (h n t : ℕ) (x : Message)
    → length buf ≡ 32
    → t ≡ (h + n) % 32
    → n < 32
    → items_from no_message 32 (set buf t x) h (n + 1) ≡ items_from no_message 32 buf h n ++ x ∷ []
pushed buf h n t x size tail room =
    rw (tail, add-one)
      (items_from-push no_message 32 buf h n x (λ k lt. omega arith) (omega (arith, size)))

pub push-refines :
    (q : MessageQueue) (x : Message)
    → IsQueue q
    → let (a, q') = message_queue_push q x in (a, view q') ≡ fifo_push (view q) x
unfolding message_queue_push fifo_push view
push-refines q x v = ground (
  arith,
  v.size,
  v.tail_behind,
  v.bounded,
  length-items_from no_message 32 q.items q.head q.count,
  pushed q.items q.head q.count q.tail x,
)

pub push-IsQueue : (q : MessageQueue) (x : Message) → IsQueue q → IsQueue (message_queue_push q x).1
unfolding message_queue_push
push-IsQueue q x v = ground (arith, v, length-set q.items q.tail x)

module _ (q : MessageQueue) (v : IsQueue q) (idle : Attempt) where
  take-empty :
      q.count ≡ 0
      → fifo_take idle (view q).messages q.shutting_down
        ≡ ((if q.shutting_down then shutdown else idle, none), view q)
  unfolding fifo_take view
  take-empty e = rw e refl

  take-head :
      (n : ℕ)
      → q.count ≡ n + 1
      → fifo_take idle (view q).messages q.shutting_down ≡ ((pop_head q).0, view (pop_head q).1)
  unfolding fifo_take view pop_head
  take-head n e =
      let h : q.head % 32 ≡ q.head = omega (arith, v.head_inside) in
      let p : n + 1 - 1 ≡ n = omega arith in
      rw (e, p, add-one, h, items_from-wrap no_message 32 q.items (q.head + 1) n) refl

pop-refines :
    (q : MessageQueue)
    → IsQueue q
    → let (a, q') = message_queue_pop q in
      (a, view q') ≡ fifo_take waits (view q).messages q.shutting_down
unfolding message_queue_pop
pop-refines q v = ground (arith, take-empty q v waits, take-head q v waits (q.count - 1))

pub try_pop-refines :
    (q : MessageQueue)
    → IsQueue q
    → let (a, q') = message_queue_try_pop q in
      (a, view q') ≡ fifo_take empty (view q).messages q.shutting_down
unfolding message_queue_try_pop
try_pop-refines q v = ground (arith, take-empty q v empty, take-head q v empty (q.count - 1))

pop_head-IsQueue : (q : MessageQueue) → 1 ≤ q.count → IsQueue q → IsQueue (pop_head q).1
unfolding pop_head
pop_head-IsQueue q one v = ground (arith, v, one)

pop-IsQueue : (q : MessageQueue) → IsQueue q → IsQueue (message_queue_pop q).1
unfolding message_queue_pop
pop-IsQueue q v = ground (arith, v, pop_head-IsQueue q)

pub try_pop-IsQueue : (q : MessageQueue) → IsQueue q → IsQueue (message_queue_try_pop q).1
unfolding message_queue_try_pop
try_pop-IsQueue q v = ground (arith, v, pop_head-IsQueue q)

-- What a thread does with the mutex held.
pub data Op : Type 0 where
  push : Message → Op
  pop try_pop close : Op

-- The answer of an operation: its result, and the message that it delivers.
abbrev pub Answer : Type 0
Answer = Attempt × Option Message

unfoldable pub step : MessageQueue → Op → Answer × MessageQueue
step q (push x) = let (a, q') = message_queue_push q x in ((a, none), q')
step q pop = message_queue_pop q
step q try_pop = message_queue_try_pop q
step q close = ((ok, none), message_queue_shutdown q)

unfoldable pub fifo_step : Fifo → Op → Answer × Fifo
fifo_step f (push x) = let (a, f') = fifo_push f x in ((a, none), f')
fifo_step f pop = fifo_take waits f.messages f.closed
fifo_step f try_pop = fifo_take empty f.messages f.closed
fifo_step f close = ((ok, none), record f { closed = true })

step-refines :
    (q : MessageQueue) (op : Op)
    → IsQueue q
    → let (a, q') = step q op in ((a, view q') ≡ fifo_step (view q) op) × IsQueue q'
unfolding step fifo_step
step-refines q (push x) v = (ap (λ r. ((r.0, none), r.1)) (push-refines q x v), push-IsQueue q x v)
step-refines q pop v = (unfold view in pop-refines q v, pop-IsQueue q v)
step-refines q try_pop v = (unfold view in try_pop-refines q v, try_pop-IsQueue q v)
step-refines q close v = (
  unfold view message_queue_shutdown in refl,
  unfold message_queue_shutdown in
      record {
        size = v.size;
        head_inside = v.head_inside;
        tail_behind = v.tail_behind;
        bounded = v.bounded;
      },
)

-- The answers of a sequence of operations, and the queue behind them.
unfoldable pub answers : MessageQueue → List Op → List Answer × MessageQueue
answers q [] = ([], q)
answers q (op ∷ ops) = let (a, q') = step q op in let (rs, q'') = answers q' ops in (a ∷ rs, q'')

unfoldable pub fifo_answers : Fifo → List Op → List Answer × Fifo
fifo_answers f [] = ([], f)
fifo_answers f (op ∷ ops) =
    let (a, f') = fifo_step f op in let (rs, f'') = fifo_answers f' ops in (a ∷ rs, f'')

-- On every sequence of pushes, pops, polls and shutdowns, a ring in order answers as a list of at
-- most 32 messages does: a push waits while the open list is full and is refused after the shutdown; a
-- pop delivers the oldest message, also after the shutdown, and waits only for an open empty list;
-- and the ring stays in order.
pub answers-refine :
    (q : MessageQueue) (ops : List Op)
    → IsQueue q
    → let (rs, q') = answers q ops in ((rs, view q') ≡ fifo_answers (view q) ops) × IsQueue q'
unfolding answers fifo_answers
answers-refine q [] v = (refl, v)
answers-refine q (op ∷ ops) v =
    let (e, w) = step-refines q op v in
    let (r, w') = answers-refine (step q op).1 ops w in
    (rw (sym e) (ap (λ k. ((step q op).0 ∷ k.0, k.1)) r), w')
