-- ===== src/MessageQueue/Tests.antt =====
-- The message queue at concrete inputs.
use smart_gateway.Prelude.{suc, ◌≡◌, refl, arith, List, [], ◌∷◌, replicate}
use smart_gateway.MessageQueue.{
  Message, MessageQueue, no_message, message_queue_init, message_queue_shutdown,
}
use smart_gateway.MessageQueue.Refinement.{
  IsQueue, Op, push, pop, try_pop, close, view, answers, fifo_answers, answers-refine,
}
use smart_gateway.MessageQueue.Shutdown.{delivered, shutdown-delivers}

abbrev fresh : MessageQueue
fresh = message_queue_init (replicate 32 no_message)

fresh-IsQueue : IsQueue fresh
unfolding message_queue_init
fresh-IsQueue = record {
  size = refl;
  head_inside = omega arith;
  tail_behind = refl;
  bounded = omega arith;
}

abbrev note : Message
note = record { bytes = b'a' ∷ []; size = 1 }

abbrev session : List Op
session = push note ∷ try_pop ∷ pop ∷ push note ∷ close ∷ pop ∷ pop ∷ []

answers-refine_example :
    let (rs, q) = answers fresh session in
    ((rs, view q) ≡ fifo_answers (view fresh) session) × IsQueue q
answers-refine_example = answers-refine fresh session fresh-IsQueue

one_pushed : MessageQueue
one_pushed = (answers fresh (push note ∷ [])).1

shutdown-delivers_example :
    (answers (message_queue_shutdown one_pushed) (replicate (suc one_pushed.count) pop)).0
    ≡ delivered (view one_pushed).messages
unfolding one_pushed
shutdown-delivers_example =
    shutdown-delivers one_pushed (answers-refine fresh (push note ∷ []) fresh-IsQueue).1
