-- ===== src/DeviceManager/Tests.antt =====
-- The device manager at concrete inputs.
use smart_gateway.Prelude.{
  ◌≡◌, ◌≢◌, refl, arith, true, false, List, [], ◌∷◌, ◌++◌, some, none, length, ◌==◌, if◌then◌else◌,
  get_or,
}
use smart_gateway.Prelude.Text.{text_eq, Text}
use smart_gateway.Prelude.Int.{pos}
use smart_gateway.Frame.Tests.{node01}
use smart_gateway.DeviceManager.{
  wifi, Command, Device, DeviceManager, ok, conflict, no_device, device_manager_init,
  device_manager_register, device_manager_unregister, device_manager_find, not_found,
}
use smart_gateway.DeviceManager.Queues.{
  refused, device_manager_try_dequeue_command, device_manager_disconnect_collect_commands,
  device_manager_bind_connection_collect_commands,
}
use smart_gateway.DeviceManager.Registry.{IsRegistry}
use smart_gateway.DeviceManager.History.{Op, bind, enqueue, try_dequeue, run, run-IsRegistry}
use smart_gateway.DeviceManager.Delivery.{pending_of}
use smart_gateway.DeviceManager.Lifetime.{all_accepted, all_handed, run-conserves}
use smart_gateway.DeviceManager.Removal.{unregister-find}
use smart_gateway.DeviceManager.Ownership.{bind-others_refused}

abbrev led : Command
led = record { target_node = node01; sender = b'G' ∷ []; sequence = 1; fields = [] }

abbrev beep : Command
beep = record led { sequence = 2 }

init-IsRegistry : IsRegistry device_manager_init
unfolding device_manager_init
init-IsRegistry = record { few_devices = omega arith; in_order = tt; distinct = tt }

-- Two commands for a node that binds, one of them taken, the other collected by the next binding.
abbrev session : List Op
session =
    bind node01 wifi (pos 5) 1 8 (pos 100)
    ∷ enqueue node01 led
    ∷ enqueue node01 beep
    ∷ try_dequeue node01 (pos 5) 1
    ∷ bind node01 wifi (pos 6) 2 8 (pos 101)
    ∷ []

run-IsRegistry_example : IsRegistry (run device_manager_init session)
run-IsRegistry_example = run-IsRegistry device_manager_init session init-IsRegistry

run-conserves_example :
    pending_of device_manager_init node01 ++ all_accepted device_manager_init session node01
    ≡ all_handed device_manager_init session node01
      ++ pending_of (run device_manager_init session) node01
run-conserves_example = run-conserves device_manager_init session node01 init-IsRegistry

one_bound : DeviceManager
unfolding device_manager_bind_connection_collect_commands device_manager_init
one_bound =
    (device_manager_bind_connection_collect_commands device_manager_init node01 wifi (pos 5) 1 true
      8 (pos 100)).1

rebound :
    (device_manager_bind_connection_collect_commands one_bound node01 wifi
      (pos 6)
      2
      true
      8
      (pos 101)).0.outcome
    ≡ ok
unfolding one_bound device_manager_bind_connection_collect_commands
    smart_gateway.Prelude.Text.text_eq smart_gateway.DeviceManager.find_index
    smart_gateway.DeviceManager.Queues.owns
rebound = refl

bind-others_refused_example :
    let (c, m') =
      device_manager_bind_connection_collect_commands one_bound node01 wifi
        (pos 6)
        2
        true
        8
        (pos 101) in
    (device_manager_try_dequeue_command m' node01 (pos 5) 1 ≡ ((conflict, none), m'))
    × (device_manager_disconnect_collect_commands m' node01 (pos 5) 1 true 8
        ≡ (refused conflict (some 0), m'))
bind-others_refused_example =
    bind-others_refused one_bound node01 wifi (pos 6) 2 true 8 (pos 101) (pos 5) 1 8 (omega arith)
      refl rebound

one_bound-IsRegistry : IsRegistry one_bound
unfolding one_bound smart_gateway.DeviceManager.History.run smart_gateway.DeviceManager.History.step
one_bound-IsRegistry =
    run-IsRegistry device_manager_init (bind node01 wifi (pos 5) 1 8 (pos 100) ∷ []) init-IsRegistry

removed : (device_manager_unregister one_bound node01).0 ≡ ok
unfolding one_bound device_manager_unregister device_manager_bind_connection_collect_commands
    device_manager_init smart_gateway.DeviceManager.find_index smart_gateway.Prelude.Text.text_eq
removed = refl

unregister-find_example :
    let m' = (device_manager_unregister one_bound node01).1 in
    IsRegistry m'
    × (device_manager_find m' node01 ≡ (
        if length node01 == 0
        then device_manager_find one_bound node01
        else if text_eq node01 node01
        then (not_found, none)
        else device_manager_find one_bound node01))
unregister-find_example = unregister-find one_bound node01 node01 one_bound-IsRegistry removed

-- A device that registers with file descriptor 0 is offline.
registered_with_zero :
    (get_or
      (device_manager_register device_manager_init node01 wifi (pos 0) 1 (pos 100)).1.devices
      0
      no_device).online
    ≡ false
unfolding device_manager_register device_manager_init smart_gateway.DeviceManager.find_index
registered_with_zero = refl

-- A thread takes a command with a file descriptor that is not the connection's.
other_descriptor :
    (device_manager_try_dequeue_command
      (run device_manager_init (bind node01 wifi (pos 5) 1 8 (pos 100) ∷ enqueue node01 led ∷ []))
      node01
      (pos 7)
      1).0
    ≡ (ok, some led)
unfolding run smart_gateway.DeviceManager.History.step device_manager_try_dequeue_command
    device_manager_bind_connection_collect_commands device_manager_init
    smart_gateway.DeviceManager.Queues.device_manager_enqueue_command
    smart_gateway.Prelude.Text.text_eq smart_gateway.DeviceManager.find_index
other_descriptor = refl
