-- ===== src/Workers/Accounts.antt =====
-- No command is dropped without an answer.
use smart_gateway.Prelude.{
  take, ap, ◌∙◌, ◌≤◌, ◌<◌, ◌≡◌, refl, arith, true, false, ◌==◌, [], ◌∷◌, ◌++◌, Option, none, some,
  length, All, map,
}
use smart_gateway.Prelude.Text.{Text, codes}
use smart_gateway.Prelude.Int.{ℤ, negsuc, is_negative}
use smart_gateway.DeviceManager.{Command, ok, queue_capacity}
use smart_gateway.DeviceManager.Queues.{
  device_manager_try_dequeue_command, device_manager_disconnect_collect_commands,
}
use smart_gateway.MessageJson.Format.{nack_line, line_of}
use smart_gateway.GatewayApp.Upstream.{Upstream, Now, message_of, gateway_app_enqueue_nack}
use smart_gateway.GatewayApp.Upstream.Pushed.{
  nack_of, IsTarget, enqueue_nack-push, nack_all-pushed, taken, left, with_pushed,
  push_message-taken,
}
use smart_gateway.SendAll.{Write, all_written, failed_after}
use smart_gateway.Workers.{
  Encoder, Sent, no_command, sent, lost, write_command, try_send_command, close_connection,
}

-- A NACK with the node of the connection, the sequence of the command and the reason is given to the queue,
-- which takes it unless it has been shut down.
abbrev pub nacked : Text → Command → Upstream → Upstream
nacked reason c u =
    with_pushed
      (message_of (
          line_of (
            nack_line
              (record { node_id = u.bound_node_id; sequence = c.sequence; error = reason })))
        ∷ [])
      u

-- What is due to a command, by its encoding and by what the write does.
abbrev pub accounted : Command → Option Text → Write → Upstream → Sent
accounted c none write u = (no_command, [], nacked (codes "cmd_encode_failed") c u)
accounted c (some text) all_written u = (sent, text, u)
accounted c (some text) (failed_after n) u =
    (lost, take n text, nacked (codes "transport_send_failed") c u)

enqueue_nack-nacked :
    (reason : Text) (c : Command) (u : Upstream)
    → 1 ≤ length reason
    → length reason < 32
    → 1 ≤ length u.bound_node_id
    → length u.bound_node_id < 32
    → gateway_app_enqueue_nack u.bound_node_id c.sequence reason u ≡ nacked reason c u
enqueue_nack-nacked reason c u given fits named short =
    enqueue_nack-push reason given fits (record c { target_node = u.bound_node_id }) u
      (named, short)
    ∙ push_message-taken _ u

write_command-accounted :
    (write : Write) (c : Command) (x : Option Text) (u : Upstream)
    → 1 ≤ length u.bound_node_id
    → length u.bound_node_id < 32
    → write_command write c x u ≡ accounted c x write u
write_command-accounted write c none u named short =
    ap (λ v. (no_command, [], v))
      (enqueue_nack-nacked (codes "cmd_encode_failed") c u (omega arith) (omega arith) named short)
write_command-accounted all_written c (some text) u named short = refl
write_command-accounted (failed_after n) c (some text) u named short =
    ap (λ v. (lost, take n text, v))
      (enqueue_nack-nacked (codes "transport_send_failed") c u (omega arith) (omega arith) named
        short)

not_empty : (s : Text) → 1 ≤ length s → (length s == 0) ≡ false
not_empty s h = ground arith

-- Where a worker whose connection is bound takes a command from the queue: if the encoder fails, nothing is
-- written and a NACK `cmd_encode_failed` is given to the upstream queue; if all of the encoding is written,
-- the command counts as sent and nothing is given to the queue; if the write fails, after however many
-- bytes, the connection counts as lost and a NACK `transport_send_failed` is given to the queue. The NACK has
-- the node's id and the command's sequence, and the queue takes it unless it has been shut down.
pub try_send-accounted :
    (encode : Encoder) (write : Write) (now : Now) (fd : ℤ) (u : Upstream) (c : Command)
    → let (r, m) =
        device_manager_try_dequeue_command u.device_manager u.bound_node_id fd now.thread in
      r ≡ (ok, some c)
      → is_negative fd ≡ false
      → 1 ≤ length u.bound_node_id
      → length u.bound_node_id < 32
      → try_send_command encode write now fd u
        ≡ accounted c (encode c) write (record u { device_manager = m })
unfolding try_send_command
try_send-accounted encode write now fd u c taken_one valid named short =
    let m = (device_manager_try_dequeue_command u.device_manager u.bound_node_id fd now.thread).1 in
    rw (valid, taken_one, not_empty u.bound_node_id named)
      (write_command-accounted write c (encode c) (record u { device_manager = m }) named short)

-- At the end of a connection that its worker still owns, a NACK with its node and sequence is given to the
-- upstream queue for every command that waits, in the order of their queue, if the commands name their nodes
-- by ids that fit: the queue takes all of them, or, where another thread shuts it down, those before the
-- shutdown. The connection forgets its node and its descriptor.
pub close-answered :
    (now : Now) (fd : ℤ) (u : Upstream)
    → let (c, m) =
        device_manager_disconnect_collect_commands u.device_manager u.bound_node_id fd now.thread
          true queue_capacity in
      let nacks =
        map (λ k. message_of (line_of (nack_of (codes "transport_disconnected") k))) c.commands in
      c.outcome ≡ ok
      → 1 ≤ length u.bound_node_id
      → All IsTarget c.commands
      → close_connection now fd u ≡ record u {
        device_manager = m;
        bound_node_id = [];
        device_fd = negsuc 0;
        pushed = u.pushed ++ taken u.pushes_left nacks;
        pushes_left = left u.pushes_left (length nacks);
      }
unfolding close_connection
close-answered now fd u done named targets =
    let (c, m) =
      device_manager_disconnect_collect_commands u.device_manager u.bound_node_id fd now.thread true
        queue_capacity in
    rw
      (
        not_empty u.bound_node_id named,
        done,
        nack_all-pushed (codes "transport_disconnected") (omega arith) (omega arith) c.commands
            (record u { device_manager = m }) targets,
      )
      refl
