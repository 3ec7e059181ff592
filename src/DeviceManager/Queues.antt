-- ===== src/DeviceManager/Queues.antt =====
-- The rest of gateway/device_manager.c: the command queues, and the connections that own them.
use smart_gateway.Prelude.{
  ℕ, ◌+◌, ◌-◌, ◌%◌, ltb, leb, ◌==◌, if◌then◌else◌, Bool, true, false, ◌&&◌, ◌||◌, not, List, [],
  ◌∷◌, ◌++◌, Option, none, some, length, get_or, set,
}
use smart_gateway.Prelude.Text.{Text, text_eq}
use smart_gateway.Prelude.Int.{ℤ, negsuc, is_negative, eq_ℤ}
use smart_gateway.Prelude.Ring.{items_from}
use smart_gateway.DeviceManager.{
  Transport, same_transport, Command, Device, DeviceManager, Outcome, queue_empty, ok, invalid,
  not_found, full, conflict, offline, queue_full, buffer_too_small, max_devices, queue_capacity,
  no_command, find_index, at_index, new_device,
}

-- The loop that copies the pending commands in the order of their arrival.
abbrev pub pending : Device → List Command
pending d = items_from no_command queue_capacity d.command_queue d.command_head d.command_count

unfoldable pub owns : ℤ → ℕ → Device → Bool
owns fd thread_id d = eq_ℤ d.fd fd && d.thread_id == thread_id

-- What an operation that collects commands returns: its result, the commands written to the
-- caller's array, and `*out_count`, where `none` says that it was not written.
pub record Collected : Type 0 where
  pub outcome : Outcome
  pub commands : List Command
  pub out_count : Option ℕ

abbrev pub refused : Outcome → Option ℕ → Collected
refused r n = record { outcome = r; commands = []; out_count = n }

abbrev pub collected : Bool → Device → Collected
collected given d = record {
  outcome = ok;
  commands = if given then pending d else [];
  out_count = some d.command_count;
}

abbrev emptied : Device → Device
emptied d = record d { command_head = 0; command_tail = 0; command_count = 0 }

unfoldable pub disconnect_device : ℤ → ℕ → Bool → ℕ → Device → Collected × Device
unfolding owns
disconnect_device fd thread_id given capacity d =
    if not (owns fd thread_id d)
    then (refused conflict (some 0), d)
    else if given && ltb capacity d.command_count
    then (refused buffer_too_small (some 0), d)
    else (collected given d, record (emptied d) { online = false; fd = negsuc 0 })

unfoldable pub device_manager_disconnect_collect_commands :
    DeviceManager → Text → ℤ → ℕ → Bool → ℕ → Collected × DeviceManager
unfolding disconnect_device
device_manager_disconnect_collect_commands m node_id fd thread_id given capacity =
    if length node_id == 0 || is_negative fd
    then (refused invalid none, m)
    else if not given && not (capacity == 0)
    then (refused invalid none, m)
    else at_index m (find_index m.devices node_id) (refused not_found (some 0))
        (disconnect_device fd thread_id given capacity)

unfoldable pub device_manager_disconnect : DeviceManager → Text → ℤ → ℕ → Outcome × DeviceManager
device_manager_disconnect m node_id fd thread_id =
    let (c, m') = device_manager_disconnect_collect_commands m node_id fd thread_id false 0 in
    (c.outcome, m')

unfoldable pub enqueue_device : Command → Device → Outcome × Device
enqueue_device command d =
    if not d.online || is_negative d.fd
    then (offline, d)
    else if leb queue_capacity d.command_count
    then (queue_full, d)
    else (
      ok,
      record d {
        command_queue = set d.command_queue d.command_tail command;
        command_tail = (d.command_tail + 1) % queue_capacity;
        command_count = d.command_count + 1;
      },
    )

unfoldable pub device_manager_enqueue_command :
    DeviceManager → Text → Command → Outcome × DeviceManager
unfolding enqueue_device
device_manager_enqueue_command m node_id command =
    if length node_id == 0
    then (invalid, m)
    else if length command.target_node == 0 || not (text_eq command.target_node node_id)
    then (invalid, m)
    else at_index m (find_index m.devices node_id) not_found (enqueue_device command)

-- The command is `some` exactly where the code writes `*out_command`.
unfoldable pub dequeue_device : ℕ → Device → (Outcome × Option Command) × Device
dequeue_device thread_id d =
    if not d.online || is_negative d.fd || not (d.thread_id == thread_id)
    then ((conflict, none), d)
    else if d.command_count == 0
    then ((queue_empty, none), d)
    else (
      (ok, some (get_or d.command_queue d.command_head no_command)),
      record d {
        command_head = (d.command_head + 1) % queue_capacity;
        command_count = d.command_count - 1;
      },
    )

unfoldable pub device_manager_try_dequeue_command :
    DeviceManager → Text → ℤ → ℕ → (Outcome × Option Command) × DeviceManager
unfolding dequeue_device
device_manager_try_dequeue_command m node_id fd thread_id =
    if length node_id == 0 || is_negative fd
    then ((invalid, none), m)
    else at_index m (find_index m.devices node_id) (not_found, none) (dequeue_device thread_id)

-- The connection is bound to a node that is known.
unfoldable pub rebind_device : Transport → ℤ → ℕ → Bool → ℕ → ℤ → Device → Collected × Device
rebind_device transport fd thread_id given capacity now d =
    if not (same_transport d.transport transport)
    then (refused conflict (some 0), d)
    else if d.online && owns fd thread_id d
    then (refused ok (some 0), record d { last_seen = now })
    else if given && ltb capacity d.command_count
    then (refused buffer_too_small (some 0), d)
    else (
      collected given d,
      record (emptied d) { fd = fd; online = true; thread_id = thread_id; last_seen = now },
    )

unfoldable pub bind_new : DeviceManager → Device → Collected × DeviceManager
bind_new m d =
    if leb max_devices (length m.devices)
    then (refused full (some 0), m)
    else (refused ok (some 0), record { devices = m.devices ++ d ∷ [] })

unfoldable pub bind_at :
    DeviceManager → Option ℕ → Device → (Device → Collected × Device) → Collected × DeviceManager
unfolding bind_new
bind_at m none d f = bind_new m d
bind_at m (some i) d f = at_index m (some i) (refused not_found none) f

unfoldable pub device_manager_bind_connection_collect_commands :
    DeviceManager → Text → Transport → ℤ → ℕ → Bool → ℕ → ℤ → Collected × DeviceManager
unfolding bind_at rebind_device
device_manager_bind_connection_collect_commands m node_id transport fd thread_id given capacity
      now =
    if length node_id == 0 || is_negative fd
    then (refused invalid none, m)
    else if leb 32 (length node_id)
    then (refused invalid none, m)
    else if not given && not (capacity == 0)
    then (refused invalid none, m)
    else bind_at m (find_index m.devices node_id)
        (new_device node_id transport fd true thread_id now)
        (rebind_device transport fd thread_id given capacity now)

unfoldable pub device_manager_bind_connection :
    DeviceManager → Text → Transport → ℤ → ℕ → ℤ → Outcome × DeviceManager
device_manager_bind_connection m node_id transport fd thread_id now =
    let (c, m') =
      device_manager_bind_connection_collect_commands m node_id transport fd thread_id false 0
        now in
    (c.outcome, m')
