-- ===== src/DeviceManager/Devices.antt =====
-- What the operations on one device keep: its id, and that it is in order.
use smart_gateway.Prelude.{ℕ, ◌≤◌, ◌<◌, ◌≡◌, refl, arith, Bool, true, false, length, length-set}
use smart_gateway.Prelude.Text.{Text}
use smart_gateway.Prelude.Int.{ℤ, is_negative}
use smart_gateway.DeviceManager.{Transport, Command, Device, new_device}
use smart_gateway.DeviceManager.Queues.{
  enqueue_device, dequeue_device, disconnect_device, rebind_device,
}
use smart_gateway.DeviceManager.Registry.{IsDevice}

-- The operations on one device leave its id alone.
pub enqueue-id : (c : Command) (d : Device) → (enqueue_device c d).1.node_id ≡ d.node_id
unfolding enqueue_device
enqueue-id c d = ground arith

pub dequeue-id : (t : ℕ) (d : Device) → (dequeue_device t d).1.node_id ≡ d.node_id
unfolding dequeue_device
dequeue-id t d = ground arith

pub disconnect-id :
    (fd : ℤ) (t : ℕ) (given : Bool) (n : ℕ) (d : Device)
    → (disconnect_device fd t given n d).1.node_id ≡ d.node_id
unfolding disconnect_device
disconnect-id fd t given n d = ground arith

pub rebind-id :
    (tr : Transport) (fd : ℤ) (t : ℕ) (given : Bool) (n : ℕ) (now : ℤ) (d : Device)
    → (rebind_device tr fd t given n now d).1.node_id ≡ d.node_id
unfolding rebind_device
rebind-id tr fd t given n now d = ground arith

pub enqueue-IsDevice : (c : Command) (d : Device) → IsDevice d → IsDevice (enqueue_device c d).1
unfolding enqueue_device
enqueue-IsDevice c d k = ground (arith, k, k.connected, length-set d.command_queue d.command_tail c)

pub dequeue-IsDevice : (t : ℕ) (d : Device) → IsDevice d → IsDevice (dequeue_device t d).1
unfolding dequeue_device
dequeue-IsDevice t d k = ground (arith, k, k.connected, length-set d.command_queue)

pub disconnect-IsDevice :
    (fd : ℤ) (t : ℕ) (given : Bool) (n : ℕ) (d : Device)
    → IsDevice d
    → IsDevice (disconnect_device fd t given n d).1
unfolding disconnect_device
disconnect-IsDevice fd t given n d k = ground (arith, k, k.connected, length-set d.command_queue)

pub rebind-IsDevice :
    (tr : Transport) (fd : ℤ) (t : ℕ) (given : Bool) (n : ℕ) (now : ℤ) (d : Device)
    → is_negative fd ≡ false
    → IsDevice d
    → IsDevice (rebind_device tr fd t given n now d).1
unfolding rebind_device
rebind-IsDevice tr fd t given n now d h k = ground (arith, k, k.connected)

-- A device as `device_manager_register` and a first `bind` write it.
pub new_device-IsDevice :
    (node_id : Text) (tr : Transport) (fd : ℤ) (online : Bool) (t : ℕ) (now : ℤ)
    → 1 ≤ length node_id
    → length node_id < 32
    → (online ≡ true → is_negative fd ≡ false)
    → IsDevice (new_device node_id tr fd online t now)
new_device-IsDevice node_id tr fd online t now one fits connected = record {
  named = one;
  fits = fits;
  connected = connected;
  queue_size = refl;
  head_inside = omega arith;
  tail_behind = refl;
  few_commands = omega arith;
}
