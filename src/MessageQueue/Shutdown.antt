-- ===== src/MessageQueue/Shutdown.antt =====
-- A consumer after the shutdown.
use smart_gateway.Prelude.{
  suc, ◌≡◌, refl, sym, ap, ◌∙◌, true, List, [], ◌∷◌, ◌++◌, map, some, none, length, replicate,
}
use smart_gateway.Prelude.Ring.{items_from, length-items_from}
use smart_gateway.MessageQueue.{
  Message, MessageQueue, ok, shutdown, no_message, message_queue_shutdown,
}
use smart_gateway.MessageQueue.Refinement.{
  Answer, IsQueue, view, pop, fifo_step, fifo_answers, fifo_take, answers, answers-refine,
}

-- The answers that deliver the given messages and then say that the queue is shut down.
pub delivered : List Message → List Answer
delivered xs = map (λ x. (ok, some x)) xs ++ (shutdown, none) ∷ []

closed_answers :
    (xs : List Message)
    → (fifo_answers (record { messages = xs; closed = true }) (replicate (suc (length xs)) pop)).0
      ≡ delivered xs
unfolding fifo_answers fifo_step fifo_take delivered
closed_answers [] = refl
closed_answers (x ∷ xs) = ap (λ t. (ok, some x) ∷ t) (closed_answers xs)

-- After the shutdown of a queue in order, a consumer that goes on to pop gets every message that is
-- left, in order, and then the answer SHUTDOWN; it never waits.
pub shutdown-delivers :
    (q : MessageQueue)
    → IsQueue q
    → (answers (message_queue_shutdown q) (replicate (suc q.count) pop)).0
      ≡ delivered (view q).messages
unfolding message_queue_shutdown view
shutdown-delivers q v =
    let closed : IsQueue (message_queue_shutdown q) = record {
      size = v.size;
      head_inside = v.head_inside;
      tail_behind = v.tail_behind;
      bounded = v.bounded;
    } in
    let xs = items_from no_message 32 q.items q.head q.count in
    let n = length-items_from no_message 32 q.items q.head q.count in
    ap (λ r. r.0) (answers-refine (message_queue_shutdown q) (replicate (suc q.count) pop) closed).0
    ∙ ap (λ k. (fifo_answers (record { messages = xs; closed = true }) (replicate (suc k) pop)).0)
        (sym n)
    ∙ closed_answers xs
