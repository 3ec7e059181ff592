-- ===== src/DeviceManager/Lookup.antt =====
-- What the search by node id finds, after a write to an entry and after an entry is added.
use smart_gateway.Prelude.{
  ℕ, zero, suc, ◌<◌, ◌≡◌, ◌≢◌, refl, arith, true, false, List, [], ◌∷◌, ◌++◌, none, some, length,
  get_or, set, All, All-append, Bool-cases, inl, inr, if◌then◌else◌,
}
use smart_gateway.Prelude.Text.{Text, text_eq, text_eq_refl, eq_of_text_eq}
use smart_gateway.DeviceManager.{Device, no_device, find_index}

pub find_index-some :
    (ds : List Device) (node_id : Text) (i : ℕ)
    → find_index ds node_id ≡ some i
    → (text_eq (get_or ds i no_device).node_id node_id ≡ true) × (i < length ds)
unfolding find_index
find_index-some [] node_id i h = cc
find_index-some (d ∷ ds) node_id zero h = ground arith
find_index-some (d ∷ ds) node_id (suc i) h = ground (arith, find_index-some ds node_id i)

pub find_index-set :
    (ds : List Device) (i : ℕ) (d : Device) (q : Text)
    → d.node_id ≡ (get_or ds i no_device).node_id
    → find_index (set ds i d) q ≡ find_index ds q
unfolding find_index
find_index-set [] i d q same = refl
find_index-set (e ∷ ds) zero d q same = rw same
find_index-set (e ∷ ds) (suc i) d q same = rw (find_index-set ds i d q same)

pub find_index-append :
    (ds : List Device) (d : Device) (q : Text)
    → find_index (ds ++ d ∷ []) q ≡ elim (find_index ds q) [
      | none ↦ (if text_eq d.node_id q then some (length ds) else none)
      | some i ↦ some i
    ]
unfolding find_index
find_index-append [] d q = ground arith
find_index-append (e ∷ ds) d q = ground (arith, find_index-append ds d q)

pub All-get_or {ℓ} :
    (P : Device → Type ℓ) (ds : List Device) (i : ℕ)
    → All P ds
    → i < length ds
    → P (get_or ds i no_device)
All-get_or P [] i h lt = absurd (omega arith)
All-get_or P (d ∷ ds) zero h lt = h.0
All-get_or P (d ∷ ds) (suc i) h lt = All-get_or P ds i h.1 (omega arith)

pub All-set {ℓ} :
    (P : Device → Type ℓ) (ds : List Device) (i : ℕ) (d : Device)
    → All P ds
    → P d
    → All P (set ds i d)
All-set P [] i d h p = h
All-set P (e ∷ ds) zero d h p = (p, h.1)
All-set P (e ∷ ds) (suc i) d h p = (h.0, All-set P ds i d h.1 p)

-- No two devices have the same id.
abbrev pub IsDistinct : List Device → Type 0
IsDistinct [] = Unit
IsDistinct (d ∷ ds) = All (λ e. e.node_id ≢ d.node_id) ds × IsDistinct ds

pub IsDistinct-set :
    (ds : List Device) (i : ℕ) (d : Device)
    → d.node_id ≡ (get_or ds i no_device).node_id
    → i < length ds
    → IsDistinct ds
    → IsDistinct (set ds i d)
IsDistinct-set [] i d same lt h = h
IsDistinct-set (e ∷ ds) zero d same lt h = rw same h
IsDistinct-set (e ∷ ds) (suc i) d same lt h = (
  All-set (λ x. x.node_id ≢ e.node_id) ds i d h.0
      (rw same (All-get_or (λ x. x.node_id ≢ e.node_id) ds i h.0 (omega arith))),
  IsDistinct-set ds i d same (omega arith) h.1,
)

-- A search that fails has seen all ids.
pub find_index-none :
    (ds : List Device) (node_id : Text)
    → find_index ds node_id ≡ none
    → All (λ e. text_eq e.node_id node_id ≡ false) ds
unfolding find_index
find_index-none [] node_id h = tt
find_index-none (d ∷ ds) node_id h = ground (arith, find_index-none ds node_id)

pub find_index-eq_none :
    (ds : List Device) (node_id : Text)
    → All (λ e. e.node_id ≢ node_id) ds
    → find_index ds node_id ≡ none
unfolding find_index
find_index-eq_none [] node_id h = refl
find_index-eq_none (d ∷ ds) node_id h = elim (Bool-cases (text_eq d.node_id node_id)) [
  | inl same ↦ absurd (h.0 (eq_of_text_eq d.node_id node_id same))
  | inr other ↦ rw (other, find_index-eq_none ds node_id h.1)
]

pub IsDistinct-append :
    (ds : List Device) (d : Device)
    → IsDistinct ds
    → All (λ e. text_eq e.node_id d.node_id ≡ false) ds
    → IsDistinct (ds ++ d ∷ [])
IsDistinct-append [] d h new = (tt, tt)
IsDistinct-append (e ∷ ds) d h new = (
  All-append (λ x. x.node_id ≢ e.node_id) ds (d ∷ []) h.0
      (λ same. cc (new.0, text_eq_refl d.node_id, same), tt),
  IsDistinct-append ds d h.1 new.1,
)

pub get_or-inside :
    (ds : List Device) (d : Device) (i : ℕ)
    → i < length ds
    → get_or (ds ++ d ∷ []) i no_device ≡ get_or ds i no_device
get_or-inside [] d i h = absurd (omega arith)
get_or-inside (e ∷ ds) d zero h = refl
get_or-inside (e ∷ ds) d (suc i) h = get_or-inside ds d i (omega arith)

pub get_or-end : (ds : List Device) (d : Device) → get_or (ds ++ d ∷ []) (length ds) no_device ≡ d
get_or-end [] d = refl
get_or-end (e ∷ ds) d = get_or-end ds d
