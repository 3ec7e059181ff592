-- ===== src/CommandManager/Sends.antt =====
-- Sending: who gets a number, what every operation keeps, and how often sending can succeed.
use native.Mathlib.Numerals.{add-one}
use smart_gateway.Prelude.{
  ℕ, ◌+◌, ◌≤◌, ◌<◌, ◌≡◌, ◌≢◌, ◌∙◌, ◌⊎◌, inl, inr, refl, arith, List, [], ◌∷◌, Option, none, some,
  length, get_or, set, length-set, length-map, Option-cases, Bool-cases,
}
use smart_gateway.Prelude.Text.{Text, text_eq}
use smart_gateway.Prelude.Int.{ℤ, pos, negsuc}
use smart_gateway.Frame.Kinds.{Kv}
use smart_gateway.FrameParser.Decode.{KvMessage, NackMessage}
use smart_gateway.CommandManager.{
  CommandState, free, acked, nacked, Entry, Manager, Limits, empty_entry, is_free, is_waiting,
  find_slot, next_after, new_entry, command_manager_create, command_manager_send,
  command_manager_find, answer_slot, command_manager_on_ack, command_manager_on_nack, no_sweep,
  sweep_entry, command_manager_check_timeouts,
}
use smart_gateway.CommandManager.Timeouts.{limits, swept, sweep_entries-map}
use smart_gateway.CommandManager.Numbering.{
  IsValid, free_slot, no_free_slot, Numbered-set, Numbered-update, Numbered-map, create-IsValid,
}

-- What `command_manager_send` requires of its arguments.
pub record IsSendable (target_node sender : Text) (fields : List Kv) : Type 0 where
  pub sender_given : 1 ≤ length sender
  pub target_given : 1 ≤ length target_node
  pub sender_fits : length sender < 32
  pub target_fits : length target_node < 32
  pub few_fields : length fields ≤ 16

module _ (m : Manager) (v : IsValid m) (target_node sender : Text) (fields : List Kv)
    (now : ℕ) where
  send-at :
      IsSendable target_node sender fields
      → m.next_sequence ≤ 64
      → (i : ℕ) → find_slot is_free m.entries ≡ some i
      → command_manager_send m target_node sender fields now ≡ (
        some m.next_sequence,
        record {
          entries = set m.entries i (new_entry m target_node sender fields now);
          next_sequence = m.next_sequence + 1;
        },
      )
  unfolding command_manager_send next_after
  send-at a room i e = ground arith

  -- With a slot left, a command whose arguments are acceptable gets the next number, and the table
  -- stays in order.
  pub send-room :
      IsSendable target_node sender fields
      → m.next_sequence ≤ 64
      → let (n, m') = command_manager_send m target_node sender fields now in
        (n ≡ some m.next_sequence) × (m'.next_sequence ≡ m.next_sequence + 1) × IsValid m'
  unfolding new_entry
  send-room a room = elim (Option-cases (find_slot is_free m.entries)) [
    | inl full ↦
        absurd
          (omega (arith, no_free_slot m.next_sequence 1 m.entries v.numbered v.first full, v.size))
    | inr (i, e) ↦ rw (send-at a room i e) (refl, refl, filled i e)
  ]
    where
      filled :
          (i : ℕ)
          → find_slot is_free m.entries ≡ some i
          → IsValid (record {
            entries = set m.entries i (new_entry m target_node sender fields now);
            next_sequence = m.next_sequence + 1;
          })
      filled i e = record {
        size = length-set m.entries i _ ∙ v.size;
        numbered = rw add-one (
            Numbered-set m.next_sequence 1 m.entries i _ v.numbered
              (free_slot m.next_sequence 1 m.entries i v.numbered v.first e).0 refl refl);
        first = omega arith;
        last = omega arith;
      }

  -- A call that fails changes nothing.
  send-cases :
      let (n, m') = command_manager_send m target_node sender fields now in
      ((n ≡ none) × (m' ≡ m))
      ⊎ ((n ≡ some m.next_sequence) × (m.next_sequence ≤ 64) × IsSendable target_node sender fields)
  unfolding command_manager_send
  send-cases = elim (Option-cases (find_slot is_free m.entries)) [
    | inl full ↦ inl (ground arith)
    | inr (i, e) ↦
        ground (arith, free_slot m.next_sequence 1 m.entries i v.numbered v.first e, v.size)
  ]

answer_slot-IsValid :
    (s : CommandState) (m : Manager) (o : Option ℕ) (node_id : Text)
    → s ≢ free
    → IsValid m
    → IsValid (answer_slot s m o node_id).1
      × ((answer_slot s m o node_id).1.next_sequence ≡ m.next_sequence)
unfolding answer_slot
answer_slot-IsValid s m none node_id used v = (v, refl)
answer_slot-IsValid s m (some i) node_id used v =
    elim (Bool-cases (text_eq e.target_node node_id)) [
      | inr other ↦ rw other (v, refl)
      | inl target ↦ elim (Bool-cases (is_waiting e)) [
        | inr settled ↦ rw (target, settled) (v, refl)
        | inl waits ↦
            rw (target, waits)
              (
                record {
                  size = length-set m.entries i _ ∙ v.size;
                  numbered =
                      Numbered-update m.next_sequence 1 m.entries i (record e { state = s })
                        v.numbered (ground arith) refl;
                  first = v.first;
                  last = v.last;
                },
                refl,
              )
      ]
    ]
  where
    e : Entry
    e = get_or m.entries i empty_entry

swept_slot :
    (l : Limits) (e : Entry)
    → (is_free (swept l e) ≡ is_free e) × ((swept l e).sequence ≡ e.sequence)
unfolding sweep_entry
swept_slot l e = ground arith

check-IsValid :
    (m : Manager) (now : ℕ) (t r : ℤ) (rc tc : Option ℕ)
    → IsValid m
    → let m' = (command_manager_check_timeouts m now t r rc tc).1 in
      IsValid m' × (m'.next_sequence ≡ m.next_sequence)
unfolding command_manager_check_timeouts
check-IsValid m now (pos t) (pos r) rc tc v =
    rw (sweep_entries-map (limits now t r rc tc) m.entries no_sweep) (
      record {
        size = length-map _ m.entries ∙ v.size;
        numbered =
            Numbered-map _ m.next_sequence 1 m.entries (swept_slot (limits now t r rc tc))
              v.numbered;
        first = v.first;
        last = v.last;
      },
      refl,
    )
check-IsValid m now (negsuc t) r rc tc v = (v, refl)
check-IsValid m now (pos t) (negsuc r) rc tc v = (v, refl)

-- The operations that change a manager.
pub data Op : Type 0 where
  send : Text → Text → List Kv → ℕ → Op
  ack : KvMessage → Op
  nack : NackMessage → Op
  check : ℕ → ℤ → ℤ → Option ℕ → Option ℕ → Op

pub step : Manager → Op → Manager
step m (send target_node sender fields now) =
    (command_manager_send m target_node sender fields now).1
step m (ack a) = (command_manager_on_ack m a).1
step m (nack a) = (command_manager_on_nack m a).1
step m (check now t r rc tc) = (command_manager_check_timeouts m now t r rc tc).1

abbrev pub count_given : Option ℕ → ℕ
count_given none = 0
count_given (some n) = 1

-- Whether an operation is a send that gets a number.
pub given : Manager → Op → ℕ
given m (send target_node sender fields now) =
    count_given (command_manager_send m target_node sender fields now).0
given m other = 0

step-IsValid :
    (m : Manager) (op : Op)
    → IsValid m
    → IsValid (step m op) × ((step m op).next_sequence ≡ m.next_sequence + given m op)
unfolding step given command_manager_on_ack command_manager_on_nack
step-IsValid m (send target_node sender fields now) v =
    elim (send-cases m v target_node sender fields now) [
      | inl (failed, same) ↦ rw (failed, same) (v, omega arith)
      | inr (number, room, a) ↦
          let r = send-room m v target_node sender fields now a room in rw number (r.2, r.1)
    ]
step-IsValid m (ack a) v =
    let r = answer_slot-IsValid acked m (command_manager_find m a.sequence) a.node_id (λ e. cc) v in
    (r.0, omega (arith, r.1))
step-IsValid m (nack a) v =
    let r =
      answer_slot-IsValid nacked m (command_manager_find m a.sequence) a.node_id (λ e. cc) v in
    (r.0, omega (arith, r.1))
step-IsValid m (check now t r rc tc) v =
    let k = check-IsValid m now t r rc tc v in (k.0, omega (arith, k.1))

pub run : Manager → List Op → Manager
run m [] = m
run m (op ∷ ops) = run (step m op) ops

-- How many sends of a history get a number.
pub all_given : Manager → List Op → ℕ
all_given m [] = 0
all_given m (op ∷ ops) = given m op + all_given (step m op) ops

-- Every history of sends, answers and sweeps keeps a table in order, and moves the next number on
-- by one for each send that gets one.
pub run-IsValid :
    (m : Manager) (ops : List Op)
    → IsValid m
    → IsValid (run m ops) × ((run m ops).next_sequence ≡ m.next_sequence + all_given m ops)
unfolding run all_given
run-IsValid m [] v = (v, omega arith)
run-IsValid m (op ∷ ops) v =
    let s = step-IsValid m op v in
    let r = run-IsValid (step m op) ops s.0 in (r.0, omega (arith, r.1, s.1))

-- Since no slot is ever freed, a manager gives out at most 64 numbers in its life, whatever is
-- acknowledged, refused or timed out in between.
pub create-all_given : (ops : List Op) → all_given command_manager_create ops ≤ 64
create-all_given ops =
    let r = run-IsValid command_manager_create ops create-IsValid in
    omega (arith, r.1, r.0.last, created)
  where
    created : command_manager_create.next_sequence ≡ 1
    created = unfold command_manager_create in refl
