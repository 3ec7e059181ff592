-- ===== src/NodeStore/Updates.antt =====
-- A store in order, and its entries in use.
use smart_gateway.Prelude.{
  ℕ, zero, suc, ◌≤◌, ◌<◌, ◌≡◌, refl, sym, ap, ◌∙◌, arith, Bool, false, ◌==◌, if◌then◌else◌, List,
  [], ◌∷◌, ◌++◌, Option, none, some, length, get_or, set, take, All,
}
use smart_gateway.Prelude.Text.{Text}
use smart_gateway.NodeStore.{
  NodeEntry, NodeStore, no_entry, find_entry, entry_at, find_or_none, node_store_find,
}
use smart_gateway.NodeStore.Slots.{
  look, entry_or_none, look-find_entry, find_entry-bound, IsUsed, IsDistinct,
}

-- The entries in use.
abbrev pub active : NodeStore → List NodeEntry
active s = take s.count s.entries

-- A store in order: its entries are used and have different ids.
pub record IsStore (s : NodeStore) : Type 0 where
  pub size : length s.entries ≡ s.capacity
  pub within : s.count ≤ s.capacity
  pub room : 1 ≤ s.capacity
  pub used : All IsUsed (active s)
  pub distinct : IsDistinct (active s)

pub get_or-take :
    (n i : ℕ) (es : List NodeEntry) → i < n → get_or (take n es) i no_entry ≡ get_or es i no_entry
get_or-take zero i es lt = absurd (omega arith)
get_or-take (suc n) i [] lt = refl
get_or-take (suc n) zero (e ∷ es) lt = refl
get_or-take (suc n) (suc i) (e ∷ es) lt = get_or-take n i es (omega arith)

pub take-set :
    (n i : ℕ) (es : List NodeEntry) (e : NodeEntry)
    → i < n
    → take n (set es i e) ≡ set (take n es) i e
take-set zero i es e lt = absurd (omega arith)
take-set (suc n) i [] e lt = refl
take-set (suc n) zero (d ∷ es) e lt = refl
take-set (suc n) (suc i) (d ∷ es) e lt = ap (λ t. d ∷ t) (take-set n i es e (omega arith))

pub take-set_end :
    (n : ℕ) (es : List NodeEntry) (e : NodeEntry)
    → n < length es
    → take (suc n) (set es n e) ≡ take n es ++ e ∷ []
take-set_end n [] e lt = absurd (omega arith)
take-set_end zero (d ∷ es) e lt = refl
take-set_end (suc n) (d ∷ es) e lt = ap (λ t. d ∷ t) (take-set_end n es e (omega arith))

pub length-take : (n : ℕ) (es : List NodeEntry) → n ≤ length es → length (take n es) ≡ n
length-take zero es le = refl
length-take (suc n) [] le = absurd (omega arith)
length-take (suc n) (e ∷ es) le = ap suc (length-take n es (omega arith))

-- The search through the whole array finds what a lookup in the entries in use finds.
pub find_or_none-look :
    (s : NodeStore) (q : Text) → IsStore s → 1 ≤ length q → find_or_none s q ≡ look (active s) q
unfolding find_or_none node_store_find
find_or_none-look s q v h =
    not_empty (length q == 0) (ground arith)
    ∙ at (find_entry (active s) q) refl
    ∙ look-find_entry (active s) q
  where
    not_empty :
        (b : Bool)
        → b ≡ false
        → (if b then none else entry_at s (find_entry (active s) q))
          ≡ entry_at s (find_entry (active s) q)
    not_empty b e = rw e refl

    at : (x : Option ℕ) → find_entry (active s) q ≡ x → entry_at s x ≡ entry_or_none (active s) x
    at none e = refl
    at (some i) e = ap some (
        sym (
          get_or-take s.count i s.entries (
            omega (
              arith,
              find_entry-bound (active s) q i e,
              length-take s.count s.entries (omega (arith, v.size, v.within)),
            ))))
