-- ===== src/ServerLink.antt =====
-- gateway/server_link.c: the thread that owns the connection to the server.
--
-- One round of its loop is `link_round`, with what the system calls of the round return as
-- arguments. Other threads push to the queue between the rounds; the round touches the queue once.
pub mod Delivery
mod Tests
use smart_gateway.Prelude.{
  ℕ, ◌+◌, ltb, if◌then◌else◌, inc64, Bool, true, false, ◌&&◌, not, List, [], ◌∷◌, ◌++◌, Option,
  none, some, length, take,
}
use smart_gateway.Prelude.Text.{Text}
use smart_gateway.Prelude.Int.{ℤ, negsuc, is_negative, eq_ℤ, next_ℤ}
use smart_gateway.DeviceManager.{DeviceManager}
use smart_gateway.MessageQueue.{
  Message, MessageQueue, Attempt, waits, ok, shutdown, empty, invalid, message_queue_try_pop,
}
use smart_gateway.LineParser.{line_parser_feed}
use smart_gateway.GatewayApp.{GatewayContext, gateway_app_try_tcp_connect}
use smart_gateway.GatewayApp.Downlink.{Downlink, gateway_app_on_tcp_line}

-- The variables of `server_link_worker`, and what its pointers lead to. `pending_message` is there
-- if `have_pending_message` is set; `tcp_buffer` holds its first `tcp_length` bytes.
pub record Link : Type 0 where
  pub context : GatewayContext
  pub device_manager : DeviceManager
  pub queue : MessageQueue
  pub pending_message : Option Message
  pub tcp_buffer : List ℕ

-- What `poll` and `recv` return.
pub data Arrived : Type 0 where
  poll_interrupted poll_failed timed_out no_input : Arrived
  received : List ℕ → Arrived
  closed_by_server would_block recv_interrupted recv_failed : Arrived

-- What the calls of one round return: `time` and `tcp_client_connect` in the attempt to connect,
-- `tcp_client_send_all` for the message, `time` when the connection is given up, `poll` with
-- `recv`, whether `revents` tells of an error, and the results of sending NACK lines.
pub record Calls : Type 0 where
  pub connect_time : ℤ
  pub connected_fd : ℤ
  pub message_sent : Bool
  pub disconnect_time : ℤ
  pub arrived : Arrived
  pub hung_up : Bool
  pub nacks_sent : List Bool

unfoldable pub server_link_disconnect : ℤ → Link → Link
server_link_disconnect now link =
    let retry = if eq_ℤ now (negsuc 0) then link.context.next_tcp_retry else next_ℤ now in
    record link {
      context = record (link.context) { tcp_fd = negsuc 0; next_tcp_retry = retry };
      tcp_buffer = [];
    }

abbrev pub first_or_false : List Bool → Bool
first_or_false [] = false
first_or_false (b ∷ bs) = b

abbrev pub others : List Bool → List Bool
others [] = []
others (b ∷ bs) = bs

-- The callback on each line; what it gives to the socket.
unfoldable pub on_tcp_lines : List Bool → List Text → Downlink → List Text × Downlink
on_tcp_lines sends [] d = ([], d)
on_tcp_lines sends (line ∷ lines) d =
    let (text, d') = gateway_app_on_tcp_line (first_or_false sends) line d in
    let (texts, d'') = on_tcp_lines (others sends) lines d' in
    (elim text [ none ↦ texts | some t ↦ t ∷ texts ], d'')

-- `char tcp_buffer[1024]`
abbrev pub buffer_size : ℕ
buffer_size = 1024

-- Bytes from the server. Those that the buffer has no room for empty it.
unfoldable pub receive : List Bool → List ℕ → Link → Link
receive sends bytes link =
    let (count, lines, rest) = line_parser_feed (link.tcp_buffer ++ bytes) buffer_size in
    let (texts, d) =
      on_tcp_lines sends lines
        (record { gateway_context = link.context; device_manager = link.device_manager }) in
    if ltb buffer_size (length link.tcp_buffer + length bytes)
    then record link { tcp_buffer = [] }
    else record link {
      context = d.gateway_context;
      device_manager = d.device_manager;
      tcp_buffer = rest;
    }

abbrev pub check_hung_up : Calls → Link → Link
check_hung_up c link =
    if not (is_negative link.context.tcp_fd) && c.hung_up
    then server_link_disconnect c.disconnect_time link
    else link

-- Step 4 of the round: what the server sent.
unfoldable pub listen : Calls → Arrived → Link → Link
listen c poll_interrupted link = link
listen c poll_failed link = server_link_disconnect c.disconnect_time link
listen c timed_out link = link
listen c no_input link = check_hung_up c link
listen c (received bytes) link = check_hung_up c (receive c.nacks_sent bytes link)
listen c closed_by_server link = server_link_disconnect c.disconnect_time link
listen c would_block link = link
listen c recv_interrupted link = check_hung_up c link
listen c recv_failed link = server_link_disconnect c.disconnect_time link

-- The sending of a message.
abbrev pub send_message : Calls → Option Message → Link → List Message × Bool × Link
send_message c none link = ([], true, link)
send_message c (some m) link =
    if c.message_sent
    then (
      m ∷ [],
      true,
      record link {
        context = record (link.context) { tcp_send = inc64 link.context.tcp_send };
        pending_message = none;
      },
    )
    else (
      [],
      false,
      server_link_disconnect c.disconnect_time (record link {
        context = record (link.context) { tcp_send_error = inc64 link.context.tcp_send_error };
      }),
    )

-- Step 3: a message is forgotten only when all of it was sent. The messages sent, and whether the
-- round goes on.
unfoldable pub send_pending : Calls → Link → List Message × Bool × Link
send_pending c link = send_message c link.pending_message link

-- Step 2: without a connection one is tried, and the round ends if there is none.
unfoldable pub ensure_connected : Calls → Link → Bool × Link
ensure_connected c link =
    let context = gateway_app_try_tcp_connect c.connect_time c.connected_fd link.context in
    if is_negative link.context.tcp_fd
    then if is_negative context.tcp_fd
      then (false, record link { context = context })
      else (true, record link { context = context; tcp_buffer = [] })
    else (true, link)

abbrev pub fetched : (Attempt × Option Message) × MessageQueue → Link → Bool × Link
fetched ((ok, m), q) link = (true, record link { queue = q; pending_message = m })
fetched ((empty, m), q) link = (true, record link { queue = q })
fetched ((shutdown, m), q) link = (false, record link { queue = q })
fetched ((waits, m), q) link = (false, record link { queue = q })
fetched ((invalid, m), q) link = (false, record link { queue = q })

abbrev pub fetch_unless : Option Message → Link → Bool × Link
fetch_unless (some m) link = (true, link)
fetch_unless none link = fetched (message_queue_try_pop link.queue) link

-- Step 1: the next message, if none is left from before; `false` ends the loop.
unfoldable pub fetch_pending : Link → Bool × Link
fetch_pending link = fetch_unless link.pending_message link

abbrev pub after_sending : Calls → List Message × Bool × Link → List Message × Link
after_sending c (sent, goes_on, link) = (sent, if goes_on then listen c c.arrived link else link)

abbrev pub after_connecting : Calls → Bool × Link → List Message × Link
after_connecting c (connected, link) =
    if connected then after_sending c (send_pending c link) else ([], link)

-- One round: the messages sent, whether the loop goes on, and the state.
unfoldable pub link_round : Calls → Link → List Message × Bool × Link
link_round c link =
    let (goes_on, fetched_link) = fetch_pending link in
    let (sent, done) = after_connecting c (ensure_connected c fetched_link) in
    if goes_on then (sent, true, done) else ([], false, fetched_link)

-- The end of the thread.
unfoldable pub close_link : Link → Link
close_link link =
    if is_negative link.context.tcp_fd
    then link
    else record link { context = record (link.context) { tcp_fd = negsuc 0 } }
