-- ===== src/CommandManager.antt =====
-- server/command_manager.h and server/command_manager.c: the table of commands on their way.
--
-- `entries` is the array of 64 slots, and a pointer into it is an index. `fields` holds the first
-- `field_count` fields. Times are seconds; `time (NULL)` is the argument `now`. The differences of
-- times and the counters of one sweep are far below 2 ^ 63.
pub mod Numbering
pub mod Answers
pub mod Timeouts
pub mod Expiry
pub mod Sends
mod Tests
use smart_gateway.Prelude.{
  ℕ, zero, suc, ◌+◌, ◌%◌, ◌^◌, ltb, leb, ◌==◌, if◌then◌else◌, Bool, true, false, ◌&&◌, ◌||◌, not,
  List, [], ◌∷◌, ◌++◌, Option, none, some, length, get_or, set, replicate,
}
use smart_gateway.Prelude.Text.{Text, text_eq}
use smart_gateway.Prelude.Int.{ℤ, pos, negsuc}
use smart_gateway.Frame.{data_max_fields, frame_build_command_kv}
use smart_gateway.Frame.Kinds.{Kv, Result}
use smart_gateway.FrameParser.Decode.{KvMessage, NackMessage}

-- `command_state_t`
pub data CommandState : Type 0 where
  free waiting acked nacked timeout : CommandState

pub record Entry : Type 0 where
  pub state : CommandState
  pub sequence : ℕ
  pub sender : Text
  pub target_node : Text
  pub fields : List Kv
  pub sent_time : ℕ
  pub retries : ℕ

pub record Manager : Type 0 where
  pub entries : List Entry
  pub next_sequence : ℕ

abbrev pub max_commands : ℕ
max_commands = 64

abbrev pub empty_entry : Entry
empty_entry = record {
  state = free;
  sequence = 0;
  sender = [];
  target_node = [];
  fields = [];
  sent_time = 0;
  retries = 0;
}

unfoldable pub command_manager_create : Manager
command_manager_create = record { entries = replicate max_commands empty_entry; next_sequence = 1 }

pub command_manager_build_cmd : Text → ℕ → Text → ℕ → List Kv → Result ℕ × Text
command_manager_build_cmd out out_size sender sequence fields =
    frame_build_command_kv out out_size sender sequence fields

abbrev pub is_free : Entry → Bool
is_free e = elim (e.state) [ free ↦ true | _ ↦ false ]

abbrev pub is_waiting : Entry → Bool
is_waiting e = elim (e.state) [ waiting ↦ true | _ ↦ false ]

-- `state != FREE && sequence == n`
abbrev pub has_sequence : ℕ → Entry → Bool
has_sequence n e = not (is_free e) && e.sequence == n

-- The first slot that passes a test.
pub find_slot : (Entry → Bool) → List Entry → Option ℕ
find_slot test [] = none
find_slot test (e ∷ es) =
    if test e then some 0 else elim (find_slot test es) [ none ↦ none | some i ↦ some (suc i) ]

pub command_manager_find : Manager → ℕ → Option ℕ
command_manager_find m sequence = find_slot (has_sequence sequence) m.entries

-- The sequence number after `n`: 0 is left out.
pub next_after : ℕ → ℕ
next_after n = let k = (n + 1) % 2 ^ 32 in if k == 0 then 1 else k

new_entry : Manager → Text → Text → List Kv → ℕ → Entry
new_entry m target_node sender fields now = record {
  state = waiting;
  sequence = m.next_sequence;
  sender = sender;
  target_node = target_node;
  fields = fields;
  sent_time = now;
  retries = 0;
}

-- The slot is known: the length checks, and the write.
fill_slot : Manager → Option ℕ → Text → Text → List Kv → ℕ → Option ℕ × Manager
unfolding new_entry
fill_slot m none target_node sender fields now = (none, m)
fill_slot m (some i) target_node sender fields now =
    if leb 32 (length sender) || leb 32 (length target_node) then (none, m) else (
      some m.next_sequence,
      record {
        entries = set m.entries i (new_entry m target_node sender fields now);
        next_sequence = next_after m.next_sequence;
      },
    )

-- The number given to the command; `none` is the result -1.
pub command_manager_send : Manager → Text → Text → List Kv → ℕ → Option ℕ × Manager
unfolding fill_slot
command_manager_send m target_node sender fields now =
    if length sender == 0 || length target_node == 0
    then (none, m)
    else if ltb data_max_fields (length fields)
    then (none, m)
    else fill_slot m (find_slot is_free m.entries) target_node sender fields now

-- The common course of `command_manager_on_ack` and `command_manager_on_nack`, which differ in the
-- state that they set. `true` is the result 0.
answer_slot : CommandState → Manager → Option ℕ → Text → Bool × Manager
answer_slot s m none node_id = (false, m)
answer_slot s m (some i) node_id =
    let e = get_or m.entries i empty_entry in
    if not (text_eq e.target_node node_id)
    then (false, m)
    else if not (is_waiting e)
    then (true, m)
    else (true, record m { entries = set m.entries i (record e { state = s }) })

pub command_manager_on_ack : Manager → KvMessage → Bool × Manager
unfolding answer_slot
command_manager_on_ack m ack = answer_slot acked m (command_manager_find m ack.sequence) ack.node_id

pub command_manager_on_nack : Manager → NackMessage → Bool × Manager
unfolding answer_slot
command_manager_on_nack m nack =
    answer_slot nacked m (command_manager_find m nack.sequence) nack.node_id

state_at : List Entry → Option ℕ → Option CommandState
state_at es none = none
state_at es (some i) = some (get_or es i empty_entry).state

pub command_manager_query : Manager → ℕ → Option CommandState
unfolding state_at
command_manager_query m sequence = state_at m.entries (find_slot (has_sequence sequence) m.entries)

-- One record of the retry arrays.
pub record Retry : Type 0 where
  pub sequence : ℕ
  pub target_node : Text
  pub fields : List Kv

-- The arguments of a sweep. A capacity is `none` where the array of sequences is NULL.
pub record Limits : Type 0 where
  pub now : ℕ
  pub timeout_sec : ℕ
  pub max_retries : ℕ
  pub retry_capacity : Option ℕ
  pub timeout_capacity : Option ℕ

-- What a sweep has written and counted.
pub record Sweep : Type 0 where
  pub retried : List Retry
  pub retry_count : ℕ
  pub timed_out : List ℕ
  pub timeout_count : ℕ

note_retry : Option ℕ → Entry → Sweep → Sweep
note_retry none e s = record s { retry_count = s.retry_count + 1 }
note_retry (some capacity) e s =
    if ltb s.retry_count capacity
    then record s {
      retried =
          s.retried
          ++ record { sequence = e.sequence; target_node = e.target_node; fields = e.fields } ∷ [];
      retry_count = s.retry_count + 1;
    }
    else s

note_timeout : Option ℕ → Entry → Sweep → Sweep
note_timeout none e s = record s { timeout_count = s.timeout_count + 1 }
note_timeout (some capacity) e s =
    if ltb s.timeout_count capacity
    then record s {
      timed_out = s.timed_out ++ e.sequence ∷ [];
      timeout_count = s.timeout_count + 1;
    }
    else s

-- The body of the loop. `now - sent_time < timeout_sec`, on signed times, is a sum here.
pub sweep_entry : Limits → Entry → Sweep → Entry × Sweep
unfolding note_retry note_timeout
sweep_entry l e s =
    if not (is_waiting e)
    then (e, s)
    else if ltb l.now (e.sent_time + l.timeout_sec)
    then (e, s)
    else if ltb e.retries l.max_retries
    then (record e { retries = e.retries + 1; sent_time = l.now }, note_retry l.retry_capacity e s)
    else (record e { state = timeout }, note_timeout l.timeout_capacity e s)

pub sweep_entries : Limits → List Entry → Sweep → List Entry × Sweep
sweep_entries l [] s = ([], s)
sweep_entries l (e ∷ es) s =
    let (e', s') = sweep_entry l e s in let (es', s'') = sweep_entries l es s' in (e' ∷ es', s'')

abbrev pub no_sweep : Sweep
no_sweep = record { retried = []; retry_count = 0; timed_out = []; timeout_count = 0 }

-- `none` is the result -1, for a negative timeout or number of retries.
pub command_manager_check_timeouts :
    Manager → ℕ → ℤ → ℤ → Option ℕ → Option ℕ → Option Sweep × Manager
command_manager_check_timeouts m now (pos timeout_sec) (pos max_retries) rc tc =
    let (es, s) =
      sweep_entries
        (record {
          now = now;
          timeout_sec = timeout_sec;
          max_retries = max_retries;
          retry_capacity = rc;
          timeout_capacity = tc;
        })
        m.entries no_sweep in
    (some s, record m { entries = es })
command_manager_check_timeouts m now (negsuc n) max_retries rc tc = (none, m)
command_manager_check_timeouts m now (pos n) (negsuc k) rc tc = (none, m)
