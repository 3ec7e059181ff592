-- ===== src/DeviceManager/Registry.antt =====
-- What a registry in order is, and that the writes of the operations keep it in order.
use smart_gateway.Prelude.{
  ℕ, [], ◌∷◌, ◌++◌, ◌+◌, ◌%◌, ◌≤◌, ◌<◌, ◌≡◌, arith, true, false, Option, none, some, length, get_or,
  length-set, length-append, All-append, All,
}
use smart_gateway.Prelude.Text.{Text}
use smart_gateway.Prelude.Int.{is_negative}
use smart_gateway.DeviceManager.{Device, DeviceManager, no_device, find_index, at_index}
use smart_gateway.DeviceManager.Lookup.{
  IsDistinct, IsDistinct-append, find_index-none, find_index-some, All-get_or, All-set,
  IsDistinct-set,
}

-- A device in order: its id fits its array, its queue is a ring, and it has a file descriptor
-- while it is online.
pub record IsDevice (d : Device) : Type 0 where
  pub named : 1 ≤ length d.node_id
  pub fits : length d.node_id < 32
  pub connected : d.online ≡ true → is_negative d.fd ≡ false
  pub queue_size : length d.command_queue ≡ 8
  pub head_inside : d.command_head < 8
  pub tail_behind : d.command_tail ≡ (d.command_head + d.command_count) % 8
  pub few_commands : d.command_count ≤ 8

pub record IsRegistry (m : DeviceManager) : Type 0 where
  pub few_devices : length m.devices ≤ 16
  pub in_order : All IsDevice m.devices
  pub distinct : IsDistinct m.devices

-- The operations on one device keep the registry in order if they keep the device in order.
pub at_index-IsRegistry {ℓ} :
    {A : Type ℓ} (m : DeviceManager) (o : Option ℕ) (node_id : Text) (missing : A)
    (f : Device → A × Device)
    → find_index m.devices node_id ≡ o
    → ((d : Device) → (f d).1.node_id ≡ d.node_id)
    → ((d : Device) → IsDevice d → IsDevice (f d).1)
    → IsRegistry m
    → IsRegistry (at_index m o missing f).1
at_index-IsRegistry m none node_id missing f e same kept v = v
at_index-IsRegistry m (some i) node_id missing f e same kept v =
    let lt = (find_index-some m.devices node_id i e).1 in
    let d = get_or m.devices i no_device in
    record {
      few_devices = omega (arith, length-set m.devices i (f d).1, v.few_devices);
      in_order =
          All-set IsDevice m.devices i (f d).1 v.in_order
            (kept d (All-get_or IsDevice m.devices i v.in_order lt));
      distinct = IsDistinct-set m.devices i (f d).1 (same d) lt v.distinct;
    }

-- So does a new device with a new id, while there is room.
pub append-IsRegistry :
    (m : DeviceManager) (d : Device)
    → find_index m.devices d.node_id ≡ none
    → length m.devices < 16
    → IsDevice d
    → IsRegistry m
    → IsRegistry (record { devices = m.devices ++ d ∷ [] })
append-IsRegistry m d e room k v = record {
  few_devices = omega (arith, length-append m.devices (d ∷ []), room);
  in_order = All-append IsDevice m.devices (d ∷ []) v.in_order (k, tt);
  distinct = IsDistinct-append m.devices d v.distinct (find_index-none m.devices d.node_id e);
}
