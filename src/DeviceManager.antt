-- ===== src/DeviceManager.antt =====
-- gateway/device_manager.h and gateway/device_manager.c: the registry of the devices, the
-- ownership of their connections, and their queues of commands.
--
-- Every operation holds the mutex from its first access to its last, so an interleaving of threads
-- is a sequence of operations. `devices` holds the first `count` entries of the array, in order; an
-- entry behind them is overwritten whole before it is read. `pthread_t` is a number, compared by
-- `pthread_equal`; `time (NULL)` is the argument `now`. NULL tests of pointers have no
-- counterpart, except for the array of commands: `given` tells whether it is there.
pub mod Queues
mod Lookup
pub mod Registry
mod Devices
pub mod History
pub mod Delivery
mod Conservation
pub mod Lifetime
pub mod Ownership
pub mod Removal
mod Tests
use smart_gateway.Prelude.{
  ℕ, zero, suc, ◌+◌, ◌-◌, ◌%◌, ltb, leb, ◌==◌, if◌then◌else◌, Bool, true, false, ◌&&◌, ◌||◌, not,
  List, [], ◌∷◌, ◌++◌, Option, none, some, length, get_or, set, take, replicate,
}
use smart_gateway.Prelude.Text.{Text, text_eq}
use smart_gateway.Prelude.Int.{ℤ, pos, negsuc, is_negative, is_positive, eq_ℤ}
use smart_gateway.Prelude.Ring.{items_from}
use smart_gateway.Frame.Kinds.{Kv}

-- `device_transport_t`
pub data Transport : Type 0 where
  bluetooth wifi : Transport

abbrev pub same_transport : Transport → Transport → Bool
same_transport bluetooth bluetooth = true
same_transport bluetooth wifi = false
same_transport wifi bluetooth = false
same_transport wifi wifi = true

-- `frame_command_t`
pub record Command : Type 0 where
  pub target_node : Text
  pub sender : Text
  pub sequence : ℕ
  pub fields : List Kv

-- `device_t`
pub record Device : Type 0 where
  pub node_id : Text
  pub transport : Transport
  pub fd : ℤ
  pub online : Bool
  pub thread_id : ℕ
  pub last_seen : ℤ
  pub command_queue : List Command
  pub command_head : ℕ
  pub command_tail : ℕ
  pub command_count : ℕ

pub record DeviceManager : Type 0 where
  pub devices : List Device

-- `DEVICE_MANAGER_OK` and the other results.
pub data Outcome : Type 0 where
  queue_empty ok invalid not_found exists full conflict offline queue_full buffer_too_small :
      Outcome

abbrev pub max_devices : ℕ
max_devices = 16

abbrev pub queue_capacity : ℕ
queue_capacity = 8

abbrev pub no_command : Command
no_command = record { target_node = []; sender = []; sequence = 0; fields = [] }

-- An entry after `memset`.
abbrev pub no_device : Device
no_device = record {
  node_id = [];
  transport = bluetooth;
  fd = pos 0;
  online = false;
  thread_id = 0;
  last_seen = pos 0;
  command_queue = replicate queue_capacity no_command;
  command_head = 0;
  command_tail = 0;
  command_count = 0;
}

unfoldable pub device_manager_init : DeviceManager
device_manager_init = record { devices = [] }

-- `device_manager_find_index_locked`; `none` is -1.
unfoldable pub find_index : List Device → Text → Option ℕ
find_index [] node_id = none
find_index (d ∷ ds) node_id =
    if text_eq d.node_id node_id
    then some 0
    else elim (find_index ds node_id) [ none ↦ none | some i ↦ some (suc i) ]

device_at : List Device → Option ℕ → Outcome × Option Device
device_at ds none = (not_found, none)
device_at ds (some i) = (ok, some (get_or ds i no_device))

-- The result, and the copy of the device.
unfoldable pub device_manager_find : DeviceManager → Text → Outcome × Option Device
unfolding device_at
device_manager_find m node_id =
    if length node_id == 0
    then (invalid, none)
    else device_at m.devices (find_index m.devices node_id)

-- Most operations work on the one device that the search found; a device that they leave alone is
-- written back as it was.
abbrev pub at_index {ℓ} :
    {A : Type ℓ} → DeviceManager → Option ℕ → A → (Device → A × Device) → A × DeviceManager
at_index m none missing f = (missing, m)
at_index m (some i) missing f =
    let (a, d) = f (get_or m.devices i no_device) in (a, record { devices = set m.devices i d })

abbrev new_device : Text → Transport → ℤ → Bool → ℕ → ℤ → Device
new_device node_id transport fd online thread_id now = record {
  node_id = node_id;
  transport = transport;
  fd = fd;
  online = online;
  thread_id = thread_id;
  last_seen = now;
  command_queue = replicate queue_capacity no_command;
  command_head = 0;
  command_tail = 0;
  command_count = 0;
}

-- The search of `device_manager_register` is over.
register_at : DeviceManager → Option ℕ → Device → Outcome × DeviceManager
register_at m (some i) d = (exists, m)
register_at m none d =
    if length m.devices == max_devices
    then (full, m)
    else (ok, record { devices = m.devices ++ d ∷ [] })

pub device_manager_register : DeviceManager → Text → Transport → ℤ → ℕ → ℤ → Outcome × DeviceManager
unfolding register_at
device_manager_register m node_id transport fd thread_id now =
    if length node_id == 0
    then (invalid, m)
    else if leb 32 (length node_id)
    then (invalid, m)
    else if eq_ℤ now (negsuc 0)
    then (invalid, m)
    else register_at m (find_index m.devices node_id)
        (new_device node_id transport fd (is_positive fd) thread_id now)

-- The loop that moves the devices behind index `i` forward, with `n` rounds left.
close_gap : ℕ → ℕ → List Device → List Device
close_gap zero i ds = ds
close_gap (suc n) i ds = close_gap n (i + 1) (set ds i (get_or ds (i + 1) no_device))

unregister_at : DeviceManager → Option ℕ → Outcome × DeviceManager
unregister_at m none = (not_found, m)
unregister_at m (some i) =
    let last = length m.devices - 1 in
    (ok, record { devices = take last (close_gap (last - i) i m.devices) })

unfoldable pub device_manager_unregister : DeviceManager → Text → Outcome × DeviceManager
unfolding unregister_at close_gap
device_manager_unregister m node_id =
    if length node_id == 0 then (invalid, m) else unregister_at m (find_index m.devices node_id)

set_flag : ℤ → Device → Outcome × Device
set_flag fd d = (ok, record d { online = true; fd = fd })

clear_flag : Device → Outcome × Device
clear_flag d = (ok, record d { online = false; fd = negsuc 0 })

-- `online` is an `int` that must be 0 or 1.
pub device_manager_set_online : DeviceManager → Text → ℤ → ℤ → Outcome × DeviceManager
unfolding set_flag clear_flag
device_manager_set_online m node_id online fd =
    let i = find_index m.devices node_id in
    let on = eq_ℤ online (pos 1) in
    if length node_id == 0 || not (eq_ℤ online (pos 0)) && not on
    then (invalid, m)
    else if on && is_negative fd
    then (invalid, m)
    else if on
    then at_index m i not_found (set_flag fd)
    else at_index m i not_found clear_flag

touch : ℤ → Device → Outcome × Device
touch now d = (ok, record d { last_seen = now })

unfoldable pub device_manager_update_last_seen : DeviceManager → Text → ℤ → Outcome × DeviceManager
unfolding touch
device_manager_update_last_seen m node_id now =
    if length node_id == 0
    then (invalid, m)
    else if eq_ℤ now (negsuc 0)
    then (invalid, m)
    else at_index m (find_index m.devices node_id) not_found (touch now)
