-- ===== src/CommandManager/Answers.antt =====
-- ACK and NACK: which command an answer reaches, and what a query says afterwards.
use smart_gateway.Prelude.{
  ℕ, zero, suc, ◌<◌, ◌≡◌, ◌≢◌, inl, inr, refl, arith, Bool, true, false, ◌&&◌, ◌==◌, if◌then◌else◌,
  List, [], ◌∷◌, Option, none, some, length, get_or, set, get_or-set_self, get_or-set_ne,
  Bool-cases,
}
use smart_gateway.Prelude.Text.{Text, text_eq}
use smart_gateway.FrameParser.Decode.{KvMessage, NackMessage}
use smart_gateway.CommandManager.{
  CommandState, free, acked, nacked, Entry, Manager, empty_entry, is_free, is_waiting, has_sequence,
  find_slot, command_manager_find, answer_slot, command_manager_on_ack, command_manager_on_nack,
  state_at, command_manager_query,
}

module _ (test : Entry → Bool) where
  -- What a search finds passes the test, and lies in the table.
  pub find_slot-some :
      (es : List Entry) (i : ℕ) (d : Entry)
      → find_slot test es ≡ some i
      → (test (get_or es i d) ≡ true) × (i < length es)
  unfolding find_slot
  find_slot-some [] i d h = cc
  find_slot-some (e ∷ es) zero d h = ground arith
  find_slot-some (e ∷ es) (suc i) d h = ground (arith, find_slot-some es i d)

  -- A write that does not change the test's answer for its slot does not change the search.
  pub find_slot-set :
      (es : List Entry) (i : ℕ) (e' d : Entry)
      → i < length es
      → test e' ≡ test (get_or es i d)
      → find_slot test (set es i e') ≡ find_slot test es
  unfolding find_slot
  find_slot-set [] i e' d h same = refl
  find_slot-set (e ∷ es) zero e' d h same = rw same
  find_slot-set (e ∷ es) (suc i) e' d h same = rw (find_slot-set es i e' d (omega arith) same)

-- Whether the found command waits for an answer of this node.
awaits_slot : Manager → Option ℕ → Text → Bool
awaits_slot m none node_id = false
awaits_slot m (some i) node_id =
    let e = get_or m.entries i empty_entry in text_eq e.target_node node_id && is_waiting e

pub awaits : Manager → ℕ → Text → Bool
unfolding awaits_slot
awaits m sequence node_id = awaits_slot m (command_manager_find m sequence) node_id

-- A search for a number, after an answer was written to the slot where another search ended.
module _ (s : CommandState) (used : s ≢ free) (es : List Entry) (n q i : ℕ)
    (found : find_slot (has_sequence n) es ≡ some i) where
  abbrev old : Entry
  old = get_or es i empty_entry

  abbrev new : Entry
  new = record old { state = s }

  old_number : (old.sequence ≡ n) × (is_free old ≡ false) × (i < length es)
  old_number = ground (arith, find_slot-some (has_sequence n) es i empty_entry found)

  same_search : find_slot (has_sequence q) (set es i new) ≡ find_slot (has_sequence q) es
  same_search =
      find_slot-set (has_sequence q) es i new empty_entry old_number.2 (ground (arith, old_number))

  state_at-set :
      (o : Option ℕ)
      → find_slot (has_sequence q) es ≡ o
      → state_at (set es i new) o ≡ (if q == n then some s else state_at es o)
  unfolding state_at
  state_at-set none e = ground (arith, found)
  state_at-set (some j) e = elim (Bool-cases (j == i)) [
    | inl same ↦ ground (
      arith,
      old_number,
      get_or-set_self es i new empty_entry,
      find_slot-some (has_sequence q) es j empty_entry e,
    )
    | inr other ↦ ground (arith, found, get_or-set_ne es i j new empty_entry)
  ]

  query_written :
      state_at (set es i new) (find_slot (has_sequence q) (set es i new))
      ≡ (if q == n then some s else state_at es (find_slot (has_sequence q) es))
  query_written = rw same_search (state_at-set (find_slot (has_sequence q) es) refl)

module _ (s : CommandState) (used : s ≢ free) (m : Manager) (n : ℕ) (node_id : Text) (q : ℕ) where
  answer_slot-query :
      (o : Option ℕ)
      → find_slot (has_sequence n) m.entries ≡ o
      → command_manager_query (answer_slot s m o node_id).1 q
        ≡ (if awaits_slot m o node_id && q == n then some s else command_manager_query m q)
  unfolding answer_slot awaits_slot command_manager_query
  answer_slot-query none e = refl
  answer_slot-query (some i) e =
      elim (Bool-cases (text_eq (get_or m.entries i empty_entry).target_node node_id)) [
        | inr other ↦ rw other
        | inl target ↦ elim (Bool-cases (is_waiting (get_or m.entries i empty_entry))) [
          | inr settled ↦ rw (target, settled)
          | inl waits ↦ rw (target, waits) (query_written s used m.entries n q i e)
        ]
      ]

-- After an ACK the command it names is acknowledged, if it was waiting and the ACK came from the
-- node that the command was sent to; all other queries answer as before.
pub query-on_ack :
    (m : Manager) (ack : KvMessage) (q : ℕ)
    → command_manager_query (command_manager_on_ack m ack).1 q ≡ (
        if awaits m ack.sequence ack.node_id && q == ack.sequence
        then some acked
        else command_manager_query m q)
unfolding command_manager_on_ack awaits command_manager_find
query-on_ack m ack q =
    answer_slot-query acked (λ e. cc) m ack.sequence ack.node_id q
      (command_manager_find m ack.sequence) refl

-- After a NACK the command it names has failed, if it was waiting and the NACK came from the node
-- that the command was sent to; all other queries answer as before.
pub query-on_nack :
    (m : Manager) (nack : NackMessage) (q : ℕ)
    → command_manager_query (command_manager_on_nack m nack).1 q ≡ (
        if awaits m nack.sequence nack.node_id && q == nack.sequence
        then some nacked
        else command_manager_query m q)
unfolding command_manager_on_nack awaits command_manager_find
query-on_nack m nack q =
    answer_slot-query nacked (λ e. cc) m nack.sequence nack.node_id q
      (command_manager_find m nack.sequence) refl
