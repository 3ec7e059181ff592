-- ===== src/DeviceManager/Lifetime.antt =====
-- The commands of a node from their acceptance to their delivery, over a sequence of operations.
use smart_gateway.Prelude.{true, ◌≡◌, sym, ap, ◌∙◌, List, [], ◌∷◌, ◌++◌, append-nil, append_assoc}
use smart_gateway.Prelude.Text.{Text}
use smart_gateway.DeviceManager.{Command, DeviceManager}
use smart_gateway.DeviceManager.Queues.{
  device_manager_enqueue_command, device_manager_try_dequeue_command,
  device_manager_disconnect_collect_commands, device_manager_bind_connection_collect_commands,
}
use smart_gateway.DeviceManager.Registry.{IsRegistry}
use smart_gateway.DeviceManager.Delivery.{if_ok, option_list, pending_of, only, Flow}
use smart_gateway.DeviceManager.Conservation.{
  register-Flow, set_online-Flow, update-Flow, enqueue-Flow, dequeue-Flow, disconnect-Flow,
  bind-Flow,
}
use smart_gateway.DeviceManager.History.{
  Op, register, set_online, update_last_seen, bind, disconnect, enqueue, try_dequeue, step, run,
  step-IsRegistry,
}

target : Op → Text
target (register id tr fd t now) = id
target (set_online id online fd) = id
target (update_last_seen id now) = id
target (bind id tr fd t n now) = id
target (disconnect id fd t n) = id
target (enqueue id c) = id
target (try_dequeue id fd t) = id

-- The command that an operation accepts.
accepted : DeviceManager → Op → List Command
accepted m (enqueue id c) = if_ok (device_manager_enqueue_command m id c).0 (c ∷ [])
accepted m other = []

-- The commands that an operation hands to its caller.
handed : DeviceManager → Op → List Command
handed m (bind id tr fd t n now) =
    (device_manager_bind_connection_collect_commands m id tr fd t true n now).0.commands
handed m (disconnect id fd t n) =
    (device_manager_disconnect_collect_commands m id fd t true n).0.commands
handed m (try_dequeue id fd t) = option_list (device_manager_try_dequeue_command m id fd t).0.1
handed m other = []

step-Flow :
    (m : DeviceManager) (op : Op) (q : Text)
    → IsRegistry m
    → Flow m q (only (target op) q (accepted m op)) (only (target op) q (handed m op)) (step m op)
unfolding step target accepted handed
step-Flow m (register id tr fd t now) q v = register-Flow m v id q tr fd t now
step-Flow m (set_online id online fd) q v = set_online-Flow m v id q online fd
step-Flow m (update_last_seen id now) q v = update-Flow m v id q now
step-Flow m (bind id tr fd t n now) q v = bind-Flow m v id q tr fd t n now
step-Flow m (disconnect id fd t n) q v = disconnect-Flow m v id q fd t n
step-Flow m (enqueue id c) q v = enqueue-Flow m v id q c
step-Flow m (try_dequeue id fd t) q v = dequeue-Flow m v id q fd t

-- The commands accepted for a node in the course of a history, in order.
pub all_accepted : DeviceManager → List Op → Text → List Command
all_accepted m [] q = []
all_accepted m (op ∷ ops) q = only (target op) q (accepted m op) ++ all_accepted (step m op) ops q

-- The commands handed out for a node in the course of a history, in order.
pub all_handed : DeviceManager → List Op → Text → List Command
all_handed m [] q = []
all_handed m (op ∷ ops) q = only (target op) q (handed m op) ++ all_handed (step m op) ops q

-- Over every sequence of operations on a registry in order, `unregister` apart and with arrays for
-- the collected commands, the commands that waited for a node, followed by those accepted for it,
-- are the commands handed out for it, followed by those that still wait: none is lost, doubled,
-- reordered or given out for another node.
pub run-conserves :
    (m : DeviceManager) (ops : List Op) (q : Text)
    → IsRegistry m
    → pending_of m q ++ all_accepted m ops q ≡ all_handed m ops q ++ pending_of (run m ops) q
unfolding run all_accepted all_handed
run-conserves m [] q v = append-nil (pending_of m q)
run-conserves m (op ∷ ops) q v =
    sym (append_assoc (pending_of m q) (only (target op) q (accepted m op)) _)
    ∙ ap (λ t. t ++ all_accepted (step m op) ops q) (step-Flow m op q v)
    ∙ append_assoc (only (target op) q (handed m op)) (pending_of (step m op) q) _
    ∙ ap (λ t. only (target op) q (handed m op) ++ t)
        (run-conserves (step m op) ops q (step-IsRegistry m op v))
    ∙ sym (append_assoc (only (target op) q (handed m op)) (all_handed (step m op) ops q) _)
