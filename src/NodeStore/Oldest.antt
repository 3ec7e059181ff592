-- ===== src/NodeStore/Oldest.antt =====
-- The entry that makes room for a new node.
use smart_gateway.Prelude.{
  ℕ, zero, suc, ◌+◌, ◌≤◌, ◌<◌, ◌≡◌, refl, sym, ap, ◌∙◌, arith, Bool, true, false, ltb,
  if◌then◌else◌, List, [], ◌∷◌, length, get_or, take, drop, All,
}
use smart_gateway.NodeStore.{NodeEntry, NodeStore, no_entry, oldest_from, oldest_entry}
use smart_gateway.NodeStore.Updates.{get_or-take, active, IsStore, length-take}

-- The oldest entry is one of those in use.
oldest_from-bound :
    (es rest : List NodeEntry) (i o n : ℕ)
    → i + length rest ≤ n
    → o < n
    → oldest_from es rest i o < n
unfolding oldest_from
oldest_from-bound es [] i o n le lt = lt
oldest_from-bound es (e ∷ rest) i o n le lt =
    oldest_from-bound es rest (i + 1) _ n (omega arith) (ground arith)

-- The head of a list at a position of another.
IsAt : List NodeEntry → ℕ → List NodeEntry → Type 0
IsAt es i rest = (k : ℕ) → k < length rest → get_or es (i + k) no_entry ≡ get_or rest k no_entry

oldest_from-least :
    (es rest : List NodeEntry) (i o : ℕ)
    → IsAt es i rest
    → let r = get_or es (oldest_from es rest i o) no_entry in
      (r.last_update ≤ (get_or es o no_entry).last_update)
      × All (λ e. r.last_update ≤ e.last_update) rest
unfolding oldest_from IsAt
oldest_from-least es [] i o places = (omega arith, tt)
oldest_from-least es (e ∷ rest) i o places =
    let head : get_or es i no_entry ≡ e =
      ap (λ k. get_or es k no_entry) (omega arith) ∙ places 0 (omega arith) in
    let later : ℕ = if ltb e.last_update (get_or es o no_entry).last_update then i else o in
    let next =
      oldest_from-least es rest (i + 1) later
        (λ k lt. ap (λ n. get_or es n no_entry) (omega arith) ∙ places (suc k) (omega arith)) in
    let least : ((get_or es later no_entry).last_update ≤ (get_or es o no_entry).last_update)
        × ((get_or es later no_entry).last_update ≤ e.last_update) =
      smaller (ltb e.last_update (get_or es o no_entry).last_update) refl head in
    (omega (arith, next.0, least.0), (omega (arith, next.0, least.1), next.1))
  where
    smaller :
        (b : Bool)
        → ltb e.last_update (get_or es o no_entry).last_update ≡ b
        → get_or es i no_entry ≡ e
        → ((get_or es (if b then i else o) no_entry).last_update
            ≤ (get_or es o no_entry).last_update)
          × ((get_or es (if b then i else o) no_entry).last_update ≤ e.last_update)
    smaller true less head = rw head (ground (arith, less))
    smaller false less head = ground (arith, less)

least_of :
    (n : ℕ) (es : List NodeEntry)
    → suc n ≤ length es
    → let o = oldest_from es (drop 1 (take (suc n) es)) 1 0 in
      (o < suc n) × All (λ e. (get_or es o no_entry).last_update ≤ e.last_update) (take (suc n) es)
unfolding IsAt
least_of n [] le = absurd (omega arith)
least_of n (e ∷ es) le =
    let size = length-take n es (omega arith) in
    let r = oldest_from-least (e ∷ es) (take n es) 1 0 (λ k lt.
      let shift : 1 + k ≡ suc k = omega arith in
      ap (λ i. get_or (e ∷ es) i no_entry) shift
      ∙ sym (get_or-take n k es (omega (arith, lt, size)))) in
    (
      oldest_from-bound (e ∷ es) (take n es) 1 0 (suc n) (omega (arith, size)) (omega arith),
      (r.0, r.1),
    )

-- In a store in order with an entry, the entry that makes room is in use, and none that is in use was
-- updated longer ago.
pub oldest-least :
    (s : NodeStore)
    → IsStore s
    → 1 ≤ s.count
    → (oldest_entry s < s.count)
      × All
          (λ e. (get_or s.entries (oldest_entry s) no_entry).last_update ≤ e.last_update)
          (active s)
unfolding oldest_entry
oldest-least s v some_entry = by_count s.count some_entry (omega (arith, v.size, v.within))
  where
    by_count :
        (n : ℕ)
        → 1 ≤ n
        → n ≤ length s.entries
        → let o = oldest_from s.entries (drop 1 (take n s.entries)) 1 0 in
          (o < n)
          × All (λ e. (get_or s.entries o no_entry).last_update ≤ e.last_update) (take n s.entries)
    by_count zero h le = absurd (omega arith)
    by_count (suc n) h le = least_of n s.entries le
