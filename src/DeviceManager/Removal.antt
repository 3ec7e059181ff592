-- ===== src/DeviceManager/Removal.antt =====
-- `device_manager_unregister`: the loop that closes the gap removes one entry, and the registry
-- forgets that device and no other.
use smart_gateway.Prelude.{
  ℕ, zero, suc, ◌+◌, ◌-◌, ◌≤◌, ◌<◌, ◌≡◌, ◌≢◌, refl, sym, ap, ◌∙◌, arith, false, ◌==◌, if◌then◌else◌,
  List, [], ◌∷◌, Option, none, some, length, take, All, Bool-cases, Option-cases, inl, inr,
}
use smart_gateway.Prelude.Text.{Text, text_eq, eq_of_text_eq}
use smart_gateway.DeviceManager.{
  Device, DeviceManager, Outcome, ok, not_found, find_index, device_at, device_manager_find,
  close_gap, unregister_at, device_manager_unregister,
}
use smart_gateway.DeviceManager.Lookup.{IsDistinct, find_index-some, find_index-eq_none}
use smart_gateway.DeviceManager.Registry.{IsDevice, IsRegistry}

-- The devices without the one at an index.
remove : List Device → ℕ → List Device
remove [] i = []
remove (d ∷ ds) zero = ds
remove (d ∷ ds) (suc i) = d ∷ remove ds i

close_gap-cons :
    (n i : ℕ) (d : Device) (ds : List Device) → close_gap n (suc i) (d ∷ ds) ≡ d ∷ close_gap n i ds
unfolding close_gap
close_gap-cons zero i d ds = refl
close_gap-cons (suc n) i d ds =
    let e : suc i + 1 ≡ suc (i + 1) = omega arith in rw e (close_gap-cons n (i + 1) d _)

take-close_gap :
    (ds : List Device) (i n : ℕ)
    → length ds ≡ i + n + 1
    → take (i + n) (close_gap n i ds) ≡ remove ds i
unfolding close_gap remove
take-close_gap [] i n h = absurd (omega arith)
take-close_gap (d ∷ ds) (suc i) n h =
    let e : suc i + n ≡ suc (i + n) = omega arith in
    rw (e, close_gap-cons n i d ds) (ap (λ t. d ∷ t) (take-close_gap ds i n (omega arith)))
take-close_gap (d ∷ []) zero zero h = refl
take-close_gap (d ∷ []) zero (suc n) h = absurd (omega arith)
take-close_gap (d ∷ e ∷ ds) zero zero h = absurd (omega arith)
take-close_gap (d ∷ e ∷ ds) zero (suc n) h =
    let z : 0 + suc n ≡ suc (0 + n) = omega arith in
    rw (z, close_gap-cons n 0 e (e ∷ ds))
      (ap (λ t. e ∷ t) (take-close_gap (e ∷ ds) 0 n (omega arith)))

All-remove {ℓ} : (P : Device → Type ℓ) (ds : List Device) (i : ℕ) → All P ds → All P (remove ds i)
unfolding remove
All-remove P [] i h = h
All-remove P (d ∷ ds) zero h = h.1
All-remove P (d ∷ ds) (suc i) h = (h.0, All-remove P ds i h.1)

IsDistinct-remove : (ds : List Device) (i : ℕ) → IsDistinct ds → IsDistinct (remove ds i)
unfolding remove
IsDistinct-remove [] i h = h
IsDistinct-remove (d ∷ ds) zero h = h.1
IsDistinct-remove (d ∷ ds) (suc i) h =
    (All-remove (λ e. e.node_id ≢ d.node_id) ds i h.0, IsDistinct-remove ds i h.1)

length-remove : (ds : List Device) (i : ℕ) → length (remove ds i) ≤ length ds
unfolding remove
length-remove [] i = omega arith
length-remove (d ∷ ds) zero = omega arith
length-remove (d ∷ ds) (suc i) = omega (arith, length-remove ds i)

-- What a search delivers.
find_in : List Device → Text → Outcome × Option Device
find_in ds q = device_at ds (find_index ds q)

find_in-cons :
    (d : Device) (ds : List Device) (q : Text)
    → find_in (d ∷ ds) q ≡ (if text_eq d.node_id q then (ok, some d) else find_in ds q)
unfolding find_in device_at find_index
find_in-cons d ds q = elim (Bool-cases (text_eq d.node_id q)) [
  | inl same ↦ rw same refl
  | inr other ↦ elim (Option-cases (find_index ds q)) [
    | inl e ↦ rw (other, e) refl
    | inr (i, e) ↦ rw (other, e) refl
  ]
]

find_in-missing :
    (ds : List Device) (q : Text) → find_index ds q ≡ none → find_in ds q ≡ (not_found, none)
unfolding find_in device_at
find_in-missing ds q e = rw e refl

-- The search went past the first entry.
find_index-past :
    (d : Device) (ds : List Device) (id : Text) (i : ℕ)
    → find_index (d ∷ ds) id ≡ some (suc i)
    → (text_eq d.node_id id ≡ false) × (find_index ds id ≡ some i)
unfolding find_index
find_index-past d ds id i e = ground (arith, e)

find_in-remove :
    (ds : List Device) (id q : Text) (i : ℕ)
    → IsDistinct ds
    → find_index ds id ≡ some i
    → find_in (remove ds i) q ≡ (if text_eq id q then (not_found, none) else find_in ds q)
unfolding remove
find_in-remove [] id q i h e = absurd (unfold find_index in cc e)
find_in-remove (d ∷ ds) id q zero h e =
    let p = eq_of_text_eq d.node_id id (find_index-some (d ∷ ds) id zero e).0 in
    elim (Bool-cases (text_eq id q)) [
      | inl same ↦
          let r = p ∙ eq_of_text_eq id q same in
          rw same (find_in-missing ds q (find_index-eq_none ds q (rw (sym r) h.0)))
      | inr other ↦ rw (other, find_in-cons d ds q, p, other) refl
    ]
find_in-remove (d ∷ ds) id q (suc i) h e =
    let (past, found) = find_index-past d ds id i e in
    elim (Bool-cases (text_eq id q)) [
      | inl same ↦
          let r : text_eq d.node_id q ≡ false = rw (sym (eq_of_text_eq id q same)) past in
          rw (find_in-cons d (remove ds i) q, r, find_in-remove ds id q i h.1 found, same) refl
      | inr other ↦
          rw
            (
              find_in-cons d (remove ds i) q,
              find_in-cons d ds q,
              find_in-remove ds id q i h.1 found,
              other,
            )
            refl
    ]

module _ (m : DeviceManager) (v : IsRegistry m) (id : Text) where
  unregister_at-remove :
      (i : ℕ)
      → i < length m.devices
      → unregister_at m (some i) ≡ (ok, record { devices = remove m.devices i })
  unfolding unregister_at
  unregister_at-remove i lt =
      let n = length m.devices - 1 - i in
      let e : length m.devices - 1 ≡ i + n = omega arith in
      ap (λ ds. (ok, record { devices = ds }))
        (rw e (rw (the_rest i n) (take-close_gap m.devices i n (omega arith))))
    where
      the_rest : (i n : ℕ) → i + n - i ≡ n
      the_rest i n = omega arith

  -- A call that succeeds has found the device and removed its entry.
  unregister-remove :
      (device_manager_unregister m id).0 ≡ ok
      → (i : ℕ) × (find_index m.devices id ≡ some i)
        × (device_manager_unregister m id ≡ (ok, record { devices = remove m.devices i }))
  unfolding device_manager_unregister
  unregister-remove done = elim (Option-cases (find_index m.devices id)) [
    | inl e ↦ absurd (ground (arith, e, done))
    | inr (i, e) ↦
        let r = unregister_at-remove i (find_index-some m.devices id i e).1 in
        (i, e, ground (arith, e, r, done))
  ]

-- After `device_manager_unregister` has succeeded on a registry in order, the registry is in order,
-- the device is not found any more, and every other node is found as before.
pub unregister-find :
    (m : DeviceManager) (id q : Text)
    → IsRegistry m
    → (device_manager_unregister m id).0 ≡ ok
    → let m' = (device_manager_unregister m id).1 in
      IsRegistry m'
      × (device_manager_find m' q ≡ (
          if length q == 0
          then device_manager_find m q
          else if text_eq id q
          then (not_found, none)
          else device_manager_find m q))
unfolding device_manager_find find_in
unregister-find m id q v done =
    let (i, e, r) = unregister-remove m v id done in
    rw r (
      record {
        few_devices = omega (arith, length-remove m.devices i, v.few_devices);
        in_order = All-remove IsDevice m.devices i v.in_order;
        distinct = IsDistinct-remove m.devices i v.distinct;
      },
      elim (Bool-cases (length q == 0)) [
        | inl z ↦ rw z refl
        | inr z ↦ rw z (find_in-remove m.devices id q i v.distinct e)
      ],
    )
