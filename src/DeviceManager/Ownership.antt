-- ===== src/DeviceManager/Ownership.antt =====
-- Who may take commands from a device or take it offline.
use smart_gateway.Prelude.{
  ℕ, zero, suc, ◌≤◌, leb, ◌≡◌, ◌≢◌, refl, ap, ◌∙◌, arith, Bool, true, false, List, [], ◌∷◌, Option,
  none, some, length, get_or, set, inl, inr, Bool-cases, get_or-set_self,
}
use smart_gateway.Prelude.Text.{Text, text_eq_refl}
use smart_gateway.Prelude.Int.{ℤ, is_negative}
use smart_gateway.DeviceManager.{
  Transport, Device, DeviceManager, ok, conflict, no_device, new_device, find_index,
}
use smart_gateway.DeviceManager.Queues.{
  Collected, refused, owns, rebind_device, bind_at, bind_new, device_manager_try_dequeue_command,
  device_manager_disconnect_collect_commands, device_manager_bind_connection_collect_commands,
}
use smart_gateway.DeviceManager.Lookup.{
  find_index-some, find_index-append, find_index-set, get_or-end,
}
use smart_gateway.DeviceManager.Devices.{rebind-id}

set_self : (ds : List Device) (i : ℕ) → set ds i (get_or ds i no_device) ≡ ds
set_self [] i = refl
set_self (d ∷ ds) zero = refl
set_self (d ∷ ds) (suc i) = ap (λ t. d ∷ t) (set_self ds i)

-- The device with an id belongs to a thread.
record IsBoundTo (m : DeviceManager) (id : Text) (t : ℕ) : Type 0 where
  index : ℕ
  found : find_index m.devices id ≡ some index
  thread : (get_or m.devices index no_device).thread_id ≡ t

module _ (m : DeviceManager) (id : Text) (fd : ℤ) (t : ℕ) where
  rebind_device-thread :
      (tr : Transport) (given : Bool) (n : ℕ) (now : ℤ) (d : Device)
      → let (c, d') = rebind_device tr fd t given n now d in c.outcome ≡ ok → d'.thread_id ≡ t
  unfolding rebind_device owns
  rebind_device-thread tr given n now d = ground arith

  bind_at-IsBoundTo :
      (o : Option ℕ) (d : Device) (tr : Transport) (given : Bool) (n : ℕ) (now : ℤ)
      → find_index m.devices id ≡ o
      → d.node_id ≡ id
      → d.thread_id ≡ t
      → let (c, m') = bind_at m o d (rebind_device tr fd t given n now) in
        c.outcome ≡ ok → IsBoundTo m' id t
  unfolding bind_at bind_new
  bind_at-IsBoundTo none d tr given n now e named by done =
      elim (Bool-cases (leb 16 (length m.devices))) [
        | inl full ↦ absurd (cc (full, done))
        | inr room ↦ rw room (record {
          index = length m.devices;
          found = rw (find_index-append m.devices d id, e, named, text_eq_refl id);
          thread = rw (get_or-end m.devices d) by;
        })
      ]
  bind_at-IsBoundTo (some i) d tr given n now e named by done =
      let d0 = get_or m.devices i no_device in
      record {
        index = i;
        found = find_index-set m.devices i _ id (rebind-id tr fd t given n now d0) ∙ e;
        thread =
            rw
              (get_or-set_self m.devices i (rebind_device tr fd t given n now d0).1 no_device
                (find_index-some m.devices id i e).1)
              (rebind_device-thread tr given n now d0 done);
      }

module _ (m : DeviceManager) (id : Text) (tr : Transport) (fd : ℤ) (t : ℕ) (given : Bool) (n : ℕ)
    (now : ℤ) where
  abbrev bound : Collected × DeviceManager
  bound = device_manager_bind_connection_collect_commands m id tr fd t given n now

  bind-IsBoundTo : bound.0.outcome ≡ ok → IsBoundTo bound.1 id t
  unfolding device_manager_bind_connection_collect_commands
  bind-IsBoundTo done =
      let r =
        bind_at-IsBoundTo m id fd t (find_index m.devices id) (new_device id tr fd true t now) tr
          given n now refl refl refl in
      ground (arith, r, done)

  bind-named : bound.0.outcome ≡ ok → 1 ≤ length id
  unfolding device_manager_bind_connection_collect_commands
  bind-named done = ground (arith, done)

-- A thread that the device does not belong to.
module _ (m : DeviceManager) (id : Text) (owner : ℕ) (b : IsBoundTo m id owner) (fd : ℤ) (t : ℕ)
    (other : owner ≢ t) (named : 1 ≤ length id) (valid : is_negative fd ≡ false) where
  dequeue-refused : device_manager_try_dequeue_command m id fd t ≡ ((conflict, none), m)
  unfolding device_manager_try_dequeue_command
  dequeue-refused = rw b.found (ground (arith, b.thread, set_self m.devices b.index))

  disconnect-refused :
      (n : ℕ)
      → device_manager_disconnect_collect_commands m id fd t true n ≡ (refused conflict (some 0), m)
  unfolding device_manager_disconnect_collect_commands owns
  disconnect-refused n = rw b.found (ground (arith, b.thread, set_self m.devices b.index))

-- After a successful `bind` the node belongs to the binding thread alone: any other thread that
-- asks for a command, or reports that its own connection has ended, gets `CONFLICT`, no command,
-- and changes nothing.
pub bind-others_refused :
    (m : DeviceManager) (id : Text) (tr : Transport) (fd : ℤ) (t : ℕ) (given : Bool) (n : ℕ)
    (now : ℤ) (fd' : ℤ) (t' n' : ℕ)
    → t ≢ t'
    → is_negative fd' ≡ false
    → let (c, m') = device_manager_bind_connection_collect_commands m id tr fd t given n now in
      c.outcome ≡ ok
      → (device_manager_try_dequeue_command m' id fd' t' ≡ ((conflict, none), m'))
        × (device_manager_disconnect_collect_commands m' id fd' t' true n'
            ≡ (refused conflict (some 0), m'))
bind-others_refused m id tr fd t given n now fd' t' n' other valid done =
    let b = bind-IsBoundTo m id tr fd t given n now done in
    let named = bind-named m id tr fd t given n now done in
    let m' = (bound m id tr fd t given n now).1 in
    (
      dequeue-refused m' id t b fd' t' other named valid,
      disconnect-refused m' id t b fd' t' other named valid n',
    )
