-- ===== src/DeviceManager/Conservation.antt =====
-- The commands of a node over a sequence of operations.
use smart_gateway.Prelude.{
  ℕ, ◌≡◌, refl, sym, ◌∙◌, arith, true, List, [], ◌∷◌, ◌++◌, Option, none, some, inl, inr,
  Bool-cases, append-nil,
}
use smart_gateway.Prelude.Text.{Text, text_eq}
use smart_gateway.Prelude.Int.{ℤ, is_positive}
use smart_gateway.DeviceManager.{
  Transport, Command, Device, DeviceManager, Outcome, not_found, new_device, find_index, at_index,
  set_flag, clear_flag, touch, register_at, device_manager_register, device_manager_set_online,
  device_manager_update_last_seen,
}
use smart_gateway.DeviceManager.Queues.{
  refused, pending, enqueue_device, dequeue_device, disconnect_device, rebind_device, bind_at,
  bind_new, device_manager_enqueue_command, device_manager_try_dequeue_command,
  device_manager_disconnect_collect_commands, device_manager_bind_connection_collect_commands,
}
use smart_gateway.DeviceManager.Lookup.{
  find_index-some, find_index-append, get_or-inside, get_or-end,
}
use smart_gateway.DeviceManager.Registry.{IsRegistry}
use smart_gateway.DeviceManager.Devices.{enqueue-id, dequeue-id, disconnect-id, rebind-id}
use smart_gateway.DeviceManager.Delivery.{
  if_ok, option_list, enqueue_device-pending, dequeue_device-pending, disconnect_device-pending,
  rebind_device-pending, pending_at, pending_of, only, Flow, nothing, at_index-Flow,
}

-- A device that is added has no commands.
append_pending :
    (ds : List Device) (d : Device) (q : Text) (o : Option ℕ)
    → pending d ≡ []
    → find_index ds q ≡ o
    → pending_at (ds ++ d ∷ []) (find_index (ds ++ d ∷ []) q) ≡ pending_at ds o
unfolding pending_at
append_pending ds d q (some i) h e =
    rw (find_index-append ds d q, e, get_or-inside ds d i (find_index-some ds q i e).1)
append_pending ds d q none h e = elim (Bool-cases (text_eq d.node_id q)) [
  | inl same ↦ rw (find_index-append ds d q, e, same, get_or-end ds d) h
  | inr other ↦ rw (find_index-append ds d q, e, other)
]

module _ (m : DeviceManager) (v : IsRegistry m) (id q : Text) where
  append-Flow :
      (d : Device)
      → pending d ≡ []
      → Flow m q (only id q []) (only id q []) (record { devices = m.devices ++ d ∷ [] })
  append-Flow d h =
      unfold pending_of in
      rw (append_pending m.devices d q (find_index m.devices q) h refl) (nothing m v id q)

  register_at-Flow :
      (o : Option ℕ) (d : Device)
      → pending d ≡ []
      → Flow m q (only id q []) (only id q []) (register_at m o d).1
  unfolding register_at
  register_at-Flow (some i) d h = nothing m v id q
  register_at-Flow none d h = ground (arith, nothing m v id q, append-Flow d h)

  pub register-Flow :
      (tr : Transport) (fd : ℤ) (t : ℕ) (now : ℤ)
      → Flow m q (only id q []) (only id q []) (device_manager_register m id tr fd t now).1
  unfolding device_manager_register
  register-Flow tr fd t now =
      let r =
        register_at-Flow (find_index m.devices id) (new_device id tr fd (is_positive fd) t now)
          refl in
      ground (arith, nothing m v id q, r)

  -- An operation that leaves the queue alone.
  quiet-Flow :
      (f : Device → Outcome × Device)
      → ((d : Device) → (f d).1.node_id ≡ d.node_id)
      → ((d : Device) → pending (f d).1 ≡ pending d)
      → Flow m q (only id q []) (only id q []) (at_index m (find_index m.devices id) not_found f).1
  quiet-Flow f ids h =
      at_index-Flow m v id q f (λ r. []) (λ r. []) ids (λ d k. append-nil (pending d) ∙ sym (h d))
        (find_index m.devices id) not_found refl refl refl

  pub set_online-Flow :
      (online fd : ℤ)
      → Flow m q (only id q []) (only id q []) (device_manager_set_online m id online fd).1
  unfolding device_manager_set_online
  set_online-Flow online fd =
      let on = quiet-Flow (set_flag fd) (λ d. refl) (λ d. refl) in
      let off = quiet-Flow clear_flag (λ d. refl) (λ d. refl) in
      ground (arith, nothing m v id q, on, off)

  pub update-Flow :
      (now : ℤ)
      → Flow m q (only id q []) (only id q []) (device_manager_update_last_seen m id now).1
  unfolding device_manager_update_last_seen
  update-Flow now =
      let r = quiet-Flow (touch now) (λ d. refl) (λ d. refl) in ground (arith, nothing m v id q, r)

  pub enqueue-Flow :
      (c : Command)
      → let (r, m') = device_manager_enqueue_command m id c in
        Flow m q (only id q (if_ok r (c ∷ []))) (only id q []) m'
  unfolding device_manager_enqueue_command
  enqueue-Flow c =
      let r =
        at_index-Flow m v id q (enqueue_device c) (λ r. if_ok r (c ∷ [])) (λ r. []) (enqueue-id c)
          (enqueue_device-pending c) (find_index m.devices id) not_found refl refl refl in
      ground (arith, nothing m v id q, r)

  pub dequeue-Flow :
      (fd : ℤ) (t : ℕ)
      → let (r, m') = device_manager_try_dequeue_command m id fd t in
        Flow m q (only id q []) (only id q (option_list r.1)) m'
  unfolding device_manager_try_dequeue_command
  dequeue-Flow fd t =
      let missing : Outcome × Option Command = (not_found, none) in
      let r =
        at_index-Flow m v id q (dequeue_device t) (λ r. []) (λ r. option_list r.1) (dequeue-id t)
          (λ d k. append-nil (pending d) ∙ dequeue_device-pending t d k) (find_index m.devices id)
          missing refl refl refl in
      ground (arith, nothing m v id q, r)

  pub disconnect-Flow :
      (fd : ℤ) (t n : ℕ)
      → let (r, m') = device_manager_disconnect_collect_commands m id fd t true n in
        Flow m q (only id q []) (only id q r.commands) m'
  unfolding device_manager_disconnect_collect_commands
  disconnect-Flow fd t n =
      let r =
        at_index-Flow m v id q (disconnect_device fd t true n) (λ r. []) (λ r. r.commands)
          (disconnect-id fd t true n)
          (λ d k. append-nil (pending d) ∙ disconnect_device-pending fd t n d)
          (find_index m.devices id) (refused not_found (some 0)) refl refl refl in
      ground (arith, nothing m v id q, r)

  bind_at-Flow :
      (o : Option ℕ) (d : Device) (tr : Transport) (fd : ℤ) (t n : ℕ) (now : ℤ)
      → find_index m.devices id ≡ o
      → pending d ≡ []
      → let (r, m') = bind_at m o d (rebind_device tr fd t true n now) in
        Flow m q (only id q []) (only id q r.commands) m'
  unfolding bind_at bind_new
  bind_at-Flow none d tr fd t n now e h = ground (arith, nothing m v id q, append-Flow d h)
  bind_at-Flow (some i) d tr fd t n now e h =
      at_index-Flow m v id q (rebind_device tr fd t true n now) (λ r. []) (λ r. r.commands)
        (rebind-id tr fd t true n now)
        (λ d k. append-nil (pending d) ∙ rebind_device-pending tr fd t n now d) (some i)
        (refused not_found none) e refl refl

  pub bind-Flow :
      (tr : Transport) (fd : ℤ) (t n : ℕ) (now : ℤ)
      → let (r, m') = device_manager_bind_connection_collect_commands m id tr fd t true n now in
        Flow m q (only id q []) (only id q r.commands) m'
  unfolding device_manager_bind_connection_collect_commands
  bind-Flow tr fd t n now =
      let r =
        bind_at-Flow (find_index m.devices id) (new_device id tr fd true t now) tr fd t n now refl
          refl in
      ground (arith, nothing m v id q, r)
