-- ===== src/CommandManager/Numbering.antt =====
-- Sequence numbers and slots. No operation ever frees a slot, so the slots fill in order and the
-- number of a command is its slot's index plus one.
use smart_gateway.Prelude.{
  ℕ, zero, suc, ◌+◌, ◌≤◌, ◌<◌, ◌≡◌, ◌⊎◌, inr, refl, arith, true, false, List, [], ◌∷◌, map, none,
  some, length, get_or, set, replicate,
}
use smart_gateway.CommandManager.{
  Entry, Manager, empty_entry, is_free, find_slot, command_manager_create,
}

-- A used slot has the number `k`, below `next`; a free one would get a number that is not given yet.
abbrev pub SlotHas : ℕ → ℕ → Entry → Type 0
SlotHas next k e =
    ((is_free e ≡ false) × (e.sequence ≡ k) × (k < next)) ⊎ ((is_free e ≡ true) × (next ≤ k))

-- The slots from number `k` on.
abbrev pub Numbered : ℕ → ℕ → List Entry → Type 0
Numbered next k [] = Unit {0}
Numbered next k (e ∷ es) = SlotHas next k e × Numbered next (suc k) es

pub record IsValid (m : Manager) : Type 0 where
  pub size : length m.entries ≡ 64
  pub numbered : Numbered m.next_sequence 1 m.entries
  pub first : 1 ≤ m.next_sequence
  pub last : m.next_sequence ≤ 65

-- Beyond the next number all slots are free.
Numbered-raise :
    (next k : ℕ) (es : List Entry) → next < k → Numbered next k es → Numbered (suc next) k es
Numbered-raise next k [] h v = tt
Numbered-raise next k (e ∷ es) h v =
    (ground arith, Numbered-raise next (suc k) es (omega arith) v.1)

-- The first free slot is that of the next number.
pub free_slot :
    (next k : ℕ) (es : List Entry) (i : ℕ)
    → Numbered next k es
    → k ≤ next
    → find_slot is_free es ≡ some i
    → (k + i ≡ next) × (i < length es)
unfolding find_slot
free_slot next k [] i v h e = cc
free_slot next k (x ∷ es) zero v h e = ground arith
free_slot next k (x ∷ es) (suc i) v h e = ground (arith, free_slot next (suc k) es i v.1)

pub no_free_slot :
    (next k : ℕ) (es : List Entry)
    → Numbered next k es
    → k ≤ next
    → find_slot is_free es ≡ none
    → k + length es ≤ next
unfolding find_slot
no_free_slot next k [] v h e = omega arith
no_free_slot next k (x ∷ es) v h e = ground (arith, no_free_slot next (suc k) es v.1)

-- A new command in that slot.
pub Numbered-set :
    (next k : ℕ) (es : List Entry) (i : ℕ) (e : Entry)
    → Numbered next k es
    → k + i ≡ next
    → is_free e ≡ false
    → e.sequence ≡ next
    → Numbered (suc next) k (set es i e)
Numbered-set next k [] i e v at used number = tt
Numbered-set next k (x ∷ es) zero e v at used number =
    (ground arith, Numbered-raise next (suc k) es (omega arith) v.1)
Numbered-set next k (x ∷ es) (suc i) e v at used number =
    (ground arith, Numbered-set next (suc k) es i e v.1 (omega arith) used number)

-- A write that keeps the number and does not free the slot.
pub Numbered-update :
    (next k : ℕ) (es : List Entry) (i : ℕ) (e : Entry)
    → Numbered next k es
    → is_free (get_or es i empty_entry) ≡ is_free e
    → (get_or es i empty_entry).sequence ≡ e.sequence
    → Numbered next k (set es i e)
Numbered-update next k [] i e v same number = tt
Numbered-update next k (x ∷ es) zero e v same number = (ground arith, v.1)
Numbered-update next k (x ∷ es) (suc i) e v same number =
    (v.0, Numbered-update next (suc k) es i e v.1 same number)

pub Numbered-map :
    (f : Entry → Entry) (next k : ℕ) (es : List Entry)
    → ((e : Entry) → (is_free (f e) ≡ is_free e) × ((f e).sequence ≡ e.sequence))
    → Numbered next k es
    → Numbered next k (map f es)
Numbered-map f next k [] same v = tt
Numbered-map f next k (e ∷ es) same v =
    (ground (arith, same e), Numbered-map f next (suc k) es same v.1)

replicate-Numbered : (n k : ℕ) → 1 ≤ k → Numbered 1 k (replicate n empty_entry)
replicate-Numbered zero k h = tt
replicate-Numbered (suc n) k h = (inr (refl, h), replicate-Numbered n (suc k) (omega arith))

pub create-IsValid : IsValid command_manager_create
unfolding command_manager_create
create-IsValid = record {
  size = refl;
  numbered = replicate-Numbered 64 1 (omega arith);
  first = omega arith;
  last = omega arith;
}
