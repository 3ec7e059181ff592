-- ===== src/MessageQueue.antt =====
-- gateway/message_queue.h and gateway/message_queue.c: the queue between the workers and the link to
-- the server.
--
-- A call that must wait on a condition variable leaves the queue as it is and tests again when it
-- is woken: `waits` is such a test that failed. Between the tests of one call other threads run, so
-- what the threads do is a sequence of tests, shutdowns and polls, each with the mutex held. Who is
-- woken is not modelled: a test that comes too early only waits again. NULL tests have no
-- counterpart.
pub mod Refinement
pub mod Shutdown
mod Tests
use smart_gateway.Prelude.{
  ℕ, ◌+◌, ◌-◌, ◌%◌, ltb, ◌==◌, if◌then◌else◌, Bool, true, false, ◌&&◌, not, List, [], Option, none,
  some, get_or, set, replicate,
}

-- `gateway_message_t`: `bytes` is the whole array.
pub record Message : Type 0 where
  pub bytes : List ℕ
  pub size : ℕ

abbrev pub message_capacity : ℕ
message_capacity = 32

abbrev pub max_size : ℕ
max_size = 256

-- The results of the calls, and `waits`.
pub data Attempt : Type 0 where
  waits ok shutdown empty invalid : Attempt

-- `message_queue_t`
pub record MessageQueue : Type 0 where
  pub items : List Message
  pub head : ℕ
  pub tail : ℕ
  pub count : ℕ
  pub shutting_down : Bool

-- `items` is not initialised; an item is written before it is read.
unfoldable pub message_queue_init : List Message → MessageQueue
message_queue_init items = record {
  items = items;
  head = 0;
  tail = 0;
  count = 0;
  shutting_down = false;
}

pub message_queue_push : MessageQueue → Message → Attempt × MessageQueue
message_queue_push q message =
    if ltb max_size message.size
    then (invalid, q)
    else if q.count == message_capacity && not q.shutting_down
    then (waits, q)
    else if q.shutting_down
    then (shutdown, q)
    else (
      ok,
      record q {
        items = set q.items q.tail message;
        tail = (q.tail + 1) % message_capacity;
        count = q.count + 1;
      },
    )

abbrev pub no_message : Message
no_message = record { bytes = []; size = 0 }

-- The message at the head leaves the ring.
pop_head : MessageQueue → (Attempt × Option Message) × MessageQueue
pop_head q = (
  (ok, some (get_or q.items q.head no_message)),
  record q { head = (q.head + 1) % message_capacity; count = q.count - 1 },
)

-- The message is `some` exactly where the code writes `*message`.
pub message_queue_pop : MessageQueue → (Attempt × Option Message) × MessageQueue
unfolding pop_head
message_queue_pop q =
    if q.count == 0 && not q.shutting_down
    then ((waits, none), q)
    else if q.count == 0 && q.shutting_down
    then ((shutdown, none), q)
    else pop_head q

pub message_queue_try_pop : MessageQueue → (Attempt × Option Message) × MessageQueue
unfolding pop_head
message_queue_try_pop q =
    if q.count == 0 then ((if q.shutting_down then shutdown else empty, none), q) else pop_head q

unfoldable pub message_queue_shutdown : MessageQueue → MessageQueue
message_queue_shutdown q = record q { shutting_down = true }
