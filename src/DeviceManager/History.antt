-- ===== src/DeviceManager/History.antt =====
-- Sequences of operations, as the threads of the gateway interleave them, keep the registry in
-- order. Commands are always collected into an array; `Removal` is about `unregister`.
use smart_gateway.Prelude.{
  ℕ, ◌≤◌, ◌<◌, ◌≡◌, refl, arith, Bool, true, false, List, [], ◌∷◌, Option, none, some, length,
}
use smart_gateway.Prelude.Text.{Text}
use smart_gateway.Prelude.Int.{ℤ, pos, negsuc, is_negative, is_positive}
use smart_gateway.DeviceManager.{
  Transport, Command, Device, DeviceManager, Outcome, set_flag, clear_flag, touch, register_at,
  new_device, not_found, find_index, at_index, device_manager_register, device_manager_set_online,
  device_manager_update_last_seen,
}
use smart_gateway.DeviceManager.Queues.{
  Collected, enqueue_device, dequeue_device, disconnect_device, rebind_device, bind_at, bind_new,
  device_manager_enqueue_command, device_manager_try_dequeue_command,
  device_manager_disconnect_collect_commands, device_manager_bind_connection_collect_commands,
  refused,
}
use smart_gateway.DeviceManager.Devices.{
  enqueue-id, dequeue-id, disconnect-id, rebind-id, enqueue-IsDevice, dequeue-IsDevice,
  disconnect-IsDevice, rebind-IsDevice, new_device-IsDevice,
}
use smart_gateway.DeviceManager.Registry.{
  IsDevice, IsRegistry, at_index-IsRegistry, append-IsRegistry,
}

pub data Op : Type 0 where
  register : Text → Transport → ℤ → ℕ → ℤ → Op
  set_online : Text → ℤ → ℤ → Op
  update_last_seen : Text → ℤ → Op
  bind : Text → Transport → ℤ → ℕ → ℕ → ℤ → Op
  disconnect : Text → ℤ → ℕ → ℕ → Op
  enqueue : Text → Command → Op
  try_dequeue : Text → ℤ → ℕ → Op

unfoldable pub step : DeviceManager → Op → DeviceManager
step m (register node_id tr fd t now) = (device_manager_register m node_id tr fd t now).1
step m (set_online node_id online fd) = (device_manager_set_online m node_id online fd).1
step m (update_last_seen node_id now) = (device_manager_update_last_seen m node_id now).1
step m (bind node_id tr fd t capacity now) =
    (device_manager_bind_connection_collect_commands m node_id tr fd t true capacity now).1
step m (disconnect node_id fd t capacity) =
    (device_manager_disconnect_collect_commands m node_id fd t true capacity).1
step m (enqueue node_id command) = (device_manager_enqueue_command m node_id command).1
step m (try_dequeue node_id fd t) = (device_manager_try_dequeue_command m node_id fd t).1

is_positive-fd : (fd : ℤ) → is_positive fd ≡ true → is_negative fd ≡ false
is_positive-fd (pos n) h = refl
is_positive-fd (negsuc n) h = cc

module _ (m : DeviceManager) (v : IsRegistry m) (node_id : Text) where
  register_at-IsRegistry :
      (o : Option ℕ) (d : Device)
      → find_index m.devices d.node_id ≡ o
      → IsDevice d
      → IsRegistry (register_at m o d).1
  unfolding register_at
  register_at-IsRegistry (some i) d e k = v
  register_at-IsRegistry none d e k = ground (arith, v, k, v.few_devices, append-IsRegistry m d e)

  register-IsRegistry :
      (tr : Transport) (fd : ℤ) (t : ℕ) (now : ℤ)
      → IsRegistry (device_manager_register m node_id tr fd t now).1
  unfolding device_manager_register
  register-IsRegistry tr fd t now = ground (arith, v, new)
    where
      new :
          1 ≤ length node_id
          → length node_id < 32
          → IsRegistry
              (register_at m
                (find_index m.devices node_id)
                (new_device node_id tr fd (is_positive fd) t now)).1
      new one fits =
          register_at-IsRegistry (find_index m.devices node_id) _ refl
            (new_device-IsDevice node_id tr fd (is_positive fd) t now one fits (is_positive-fd fd))

  -- An operation on one device.
  device-IsRegistry {ℓ} :
      {A : Type ℓ} (missing : A) (f : Device → A × Device)
      → ((d : Device) → (f d).1.node_id ≡ d.node_id)
      → ((d : Device) → IsDevice d → IsDevice (f d).1)
      → IsRegistry (at_index m (find_index m.devices node_id) missing f).1
  device-IsRegistry missing f ids devices =
      at_index-IsRegistry m (find_index m.devices node_id) node_id missing f refl ids devices v

  set_online-IsRegistry :
      (online fd : ℤ) → IsRegistry (device_manager_set_online m node_id online fd).1
  unfolding device_manager_set_online
  set_online-IsRegistry online fd = ground (arith, v, on, off)
    where
      off : IsRegistry (at_index m (find_index m.devices node_id) not_found clear_flag).1
      off = device-IsRegistry not_found clear_flag (λ d. refl) (λ d k. ground (arith, k))

      on :
          is_negative fd ≡ false
          → IsRegistry (at_index m (find_index m.devices node_id) not_found (set_flag fd)).1
      on h = device-IsRegistry not_found (set_flag fd) (λ d. refl) (λ d k. ground (arith, k, h))

  update-IsRegistry : (now : ℤ) → IsRegistry (device_manager_update_last_seen m node_id now).1
  unfolding device_manager_update_last_seen
  update-IsRegistry now =
      let r =
        device-IsRegistry not_found (touch now) (λ d. refl)
          (λ d k. ground (arith, k, k.connected)) in
      ground (arith, v, r)

  bind_at-IsRegistry :
      (o : Option ℕ) (d : Device) (f : Device → Collected × Device)
      → find_index m.devices node_id ≡ o
      → d.node_id ≡ node_id
      → IsDevice d
      → ((d : Device) → (f d).1.node_id ≡ d.node_id)
      → ((d : Device) → IsDevice d → IsDevice (f d).1)
      → IsRegistry (bind_at m o d f).1
  unfolding bind_at bind_new
  bind_at-IsRegistry none d f e named k same kept =
      ground (arith, v, k, v.few_devices, append-IsRegistry m d (rw named e))
  bind_at-IsRegistry (some i) d f e named k same kept =
      at_index-IsRegistry m (some i) node_id (refused not_found none) f e same kept v

  bind-IsRegistry :
      (tr : Transport) (fd : ℤ) (t : ℕ) (given : Bool) (n : ℕ) (now : ℤ)
      → IsRegistry (device_manager_bind_connection_collect_commands m node_id tr fd t given n now).1
  unfolding device_manager_bind_connection_collect_commands
  bind-IsRegistry tr fd t given n now = ground (arith, v, bound)
    where
      bound :
          1 ≤ length node_id
          → length node_id < 32
          → is_negative fd ≡ false
          → IsRegistry
              (bind_at m
                (find_index m.devices node_id)
                (new_device node_id tr fd true t now)
                (rebind_device tr fd t given n now)).1
      bound one fits valid =
          bind_at-IsRegistry (find_index m.devices node_id) _ _ refl refl
            (new_device-IsDevice node_id tr fd true t now one fits (λ on. valid))
            (rebind-id tr fd t given n now) (λ d k. rebind-IsDevice tr fd t given n now d valid k)

  disconnect-IsRegistry :
      (fd : ℤ) (t : ℕ) (given : Bool) (n : ℕ)
      → IsRegistry (device_manager_disconnect_collect_commands m node_id fd t given n).1
  unfolding device_manager_disconnect_collect_commands
  disconnect-IsRegistry fd t given n =
      let r =
        device-IsRegistry (refused not_found (some 0)) (disconnect_device fd t given n)
          (disconnect-id fd t given n) (disconnect-IsDevice fd t given n) in
      ground (arith, v, r)

  enqueue-IsRegistry : (c : Command) → IsRegistry (device_manager_enqueue_command m node_id c).1
  unfolding device_manager_enqueue_command
  enqueue-IsRegistry c =
      let r = device-IsRegistry not_found (enqueue_device c) (enqueue-id c) (enqueue-IsDevice c) in
      ground (arith, v, r)

  dequeue-IsRegistry :
      (fd : ℤ) (t : ℕ) → IsRegistry (device_manager_try_dequeue_command m node_id fd t).1
  unfolding device_manager_try_dequeue_command
  dequeue-IsRegistry fd t =
      let missing : Outcome × Option Command = (not_found, none) in
      let r = device-IsRegistry missing (dequeue_device t) (dequeue-id t) (dequeue-IsDevice t) in
      ground (arith, v, r)

pub step-IsRegistry : (m : DeviceManager) (op : Op) → IsRegistry m → IsRegistry (step m op)
unfolding step
step-IsRegistry m (register node_id tr fd t now) v = register-IsRegistry m v node_id tr fd t now
step-IsRegistry m (set_online node_id online fd) v = set_online-IsRegistry m v node_id online fd
step-IsRegistry m (update_last_seen node_id now) v = update-IsRegistry m v node_id now
step-IsRegistry m (bind node_id tr fd t n now) v = bind-IsRegistry m v node_id tr fd t true n now
step-IsRegistry m (disconnect node_id fd t n) v = disconnect-IsRegistry m v node_id fd t true n
step-IsRegistry m (enqueue node_id c) v = enqueue-IsRegistry m v node_id c
step-IsRegistry m (try_dequeue node_id fd t) v = dequeue-IsRegistry m v node_id fd t

unfoldable pub run : DeviceManager → List Op → DeviceManager
run m [] = m
run m (op ∷ ops) = run (step m op) ops

-- Every sequence of operations, unregistering apart and with arrays for the collected commands,
-- keeps a registry in order: at most 16 devices with different ids, each with a ring of at most 8
-- commands, and with a file descriptor if online.
pub run-IsRegistry : (m : DeviceManager) (ops : List Op) → IsRegistry m → IsRegistry (run m ops)
unfolding run
run-IsRegistry m [] v = v
run-IsRegistry m (op ∷ ops) v = run-IsRegistry (step m op) ops (step-IsRegistry m op v)
