-- ===== src/DeviceManager/Delivery.antt =====
-- What becomes of the commands of a node: they leave its queue once each, in the order in which
-- they were accepted.
use native.Mathlib.Numerals.{add-one}
use smart_gateway.Prelude.{
  ◌≤◌, ◌-◌, ℕ, zero, suc, ◌+◌, ◌%◌, ◌<◌, ◌≡◌, refl, sym, ap₂, arith, true, if◌then◌else◌, List, [],
  ◌∷◌, ◌++◌, Option, none, some, length, get_or, set, inl, inr, Bool-cases, ◌==◌, ==_refl, eq_of_==,
  append-nil, get_or-set_self, get_or-set_ne,
}
use smart_gateway.Prelude.Text.{Text, text_eq, text_eq_refl, eq_of_text_eq}
use smart_gateway.Prelude.Int.{ℤ}
use smart_gateway.Prelude.Ring.{items_from, items_from-wrap, items_from-push}
use smart_gateway.DeviceManager.{
  Transport, Command, Device, DeviceManager, Outcome, ok, no_command, no_device, find_index,
  at_index,
}
use smart_gateway.DeviceManager.Queues.{
  pending, enqueue_device, dequeue_device, disconnect_device, rebind_device,
}
use smart_gateway.DeviceManager.Lookup.{find_index-some, find_index-set, All-get_or}
use smart_gateway.DeviceManager.Registry.{IsDevice, IsRegistry}

-- What is accepted with a result.
abbrev pub if_ok : Outcome → List Command → List Command
if_ok ok cs = cs
if_ok _ cs = []

abbrev pub option_list : Option Command → List Command
option_list none = []
option_list (some c) = c ∷ []

module _ (buf : List Command) (h : ℕ) where
  pushed :
      (n t : ℕ) (c : Command)
      → length buf ≡ 8
      → t ≡ (h + n) % 8
      → n < 8
      → items_from no_command 8 (set buf t c) h (n + 1) ≡ items_from no_command 8 buf h n ++ c ∷ []
  pushed n t c size tail room =
      rw (tail, add-one)
        (items_from-push no_command 8 buf h n c (λ k lt. omega arith) (omega (arith, size)))

  popped :
      (n : ℕ)
      → h < 8
      → 1 ≤ n
      → items_from no_command 8 buf h n
        ≡ get_or buf h no_command ∷ items_from no_command 8 buf ((h + 1) % 8) (n - 1)
  popped zero inside one = absurd (omega arith)
  popped (suc n) inside one =
      let e : h % 8 ≡ h = omega arith in
      let p : suc n - 1 ≡ n = omega arith in
      rw p (
        ap₂ (λ x t. get_or buf x no_command ∷ t) e
          (sym (items_from-wrap no_command 8 buf (h + 1) n)))

pub enqueue_device-pending :
    (c : Command) (d : Device)
    → IsDevice d
    → pending d ++ if_ok (enqueue_device c d).0 (c ∷ []) ≡ pending (enqueue_device c d).1
unfolding enqueue_device
enqueue_device-pending c d k =
    let push = pushed d.command_queue d.command_head d.command_count d.command_tail c in
    ground (arith, k.queue_size, k.tail_behind, append-nil (pending d), push)

pub dequeue_device-pending :
    (t : ℕ) (d : Device)
    → IsDevice d
    → pending d ≡ option_list (dequeue_device t d).0.1 ++ pending (dequeue_device t d).1
unfolding dequeue_device
dequeue_device-pending t d k =
    ground (arith, k.head_inside, popped d.command_queue d.command_head d.command_count)

pub disconnect_device-pending :
    (fd : ℤ) (t n : ℕ) (d : Device)
    → pending d
      ≡ (disconnect_device fd t true n d).0.commands ++ pending (disconnect_device fd t true n d).1
unfolding disconnect_device
disconnect_device-pending fd t n d = ground (arith, append-nil (pending d))

pub rebind_device-pending :
    (tr : Transport) (fd : ℤ) (t n : ℕ) (now : ℤ) (d : Device)
    → pending d
      ≡ (rebind_device tr fd t true n now d).0.commands
        ++ pending (rebind_device tr fd t true n now d).1
unfolding rebind_device
rebind_device-pending tr fd t n now d = ground (arith, append-nil (pending d))

-- Two searches end at the same entry exactly if they are for the same id.
same_entry :
    (ds : List Device) (id q : Text) (i j : ℕ)
    → find_index ds id ≡ some i
    → find_index ds q ≡ some j
    → text_eq id q ≡ (j == i)
same_entry ds id q i j e h = elim (Bool-cases (text_eq id q)) [
  | inl same ↦ let p : j ≡ i = cc (e, h, eq_of_text_eq id q same) in rw (same, p) (sym (==_refl i))
  | inr other ↦ elim (Bool-cases (j == i)) [
    | inr apart ↦ rw (other, apart)
    | inl met ↦
        let a = eq_of_text_eq _ id (find_index-some ds id i e).0 in
        let b = eq_of_text_eq _ q (find_index-some ds q j h).0 in
        let p : id ≡ q = cc (a, b, eq_of_== j i met) in absurd (cc (other, p, text_eq_refl q))
  ]
]

unfoldable pub pending_at : List Device → Option ℕ → List Command
pending_at ds none = []
pending_at ds (some i) = pending (get_or ds i no_device)

-- The commands that wait for a node; none, if there is no such device.
unfoldable pub pending_of : DeviceManager → Text → List Command
pending_of m q = pending_at m.devices (find_index m.devices q)

-- What happens to `id`, seen at the node `q`.
pub only : Text → Text → List Command → List Command
only id q cs = if text_eq id q then cs else []

only-nil : (id q : Text) → only id q [] ≡ []
unfolding only
only-nil id q = ground arith

-- `acc` comes into a queue, and `out` leaves it.
abbrev pub Flow : DeviceManager → Text → List Command → List Command → DeviceManager → Type 0
Flow m q acc out m' = pending_of m q ++ acc ≡ out ++ pending_of m' q

module _ (m : DeviceManager) (v : IsRegistry m) (id q : Text) where
  pub nothing : Flow m q (only id q []) (only id q []) m
  nothing = rw only-nil (append-nil (pending_of m q))

  module _ {ℓ} {A : Type ℓ} (f : Device → A × Device) (acc out : A → List Command)
      (ids : (d : Device) → (f d).1.node_id ≡ d.node_id)
      (flow : (d : Device)
        → IsDevice d
        → pending d ++ acc (f d).0 ≡ out (f d).0 ++ pending (f d).1) where
    found-Flow :
        (i : ℕ) (o : Option ℕ)
        → find_index m.devices id ≡ some i
        → find_index m.devices q ≡ o
        → let (a, d) = f (get_or m.devices i no_device) in
          pending_at m.devices o ++ only id q (acc a)
          ≡ only id q (out a) ++ pending_at (set m.devices i d) o
    unfolding pending_at only
    found-Flow i none e h = elim (Bool-cases (text_eq id q)) [
      | inl same ↦ absurd (cc (e, h, eq_of_text_eq id q same))
      | inr other ↦ rw other refl
    ]
    found-Flow i (some j) e h =
        let (_, lt) = find_index-some m.devices id i e in
        let d = get_or m.devices i no_device in
        elim (Bool-cases (j == i)) [
          | inl met ↦
              rw
                (
                  same_entry m.devices id q i j e h,
                  met,
                  eq_of_== j i met,
                  get_or-set_self m.devices i (f d).1 no_device lt,
                )
                (flow d (All-get_or IsDevice m.devices i v.in_order lt))
          | inr apart ↦
              rw
                (
                  same_entry m.devices id q i j e h,
                  apart,
                  get_or-set_ne m.devices i j (f d).1 no_device (λ p. cc (p, apart, ==_refl j)),
                )
                (append-nil (pending (get_or m.devices j no_device)))
        ]

    pub at_index-Flow :
        (o : Option ℕ) (missing : A)
        → find_index m.devices id ≡ o
        → acc missing ≡ []
        → out missing ≡ []
        → let (a, m') = at_index m o missing f in
          Flow m q (only id q (acc a)) (only id q (out a)) m'
    at_index-Flow none missing e ha ho = rw (ha, ho) nothing
    at_index-Flow (some i) missing e ha ho =
        unfold pending_of in
        rw (find_index-set m.devices i (f (get_or m.devices i no_device)).1 q (ids _))
          (found-Flow i (find_index m.devices q) e refl)
