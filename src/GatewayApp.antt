-- ===== src/GatewayApp.antt =====
-- gateway/gateway_app.c, and `gateway_context_t` of common/frame_parser.h: the gateway's own steps
-- between the nodes, the registry of devices, the queue and the server.
--
-- `Arguments` has the command line, `Upstream` what comes from the nodes, and `Downlink` what comes
-- from the server. What the system calls return is an argument: the time, the thread, the descriptor
-- of a connection, whether all bytes were sent. Printing and NULL tests have no counterpart.
pub mod Arguments
pub mod Upstream
pub mod Downlink
pub mod Tests
use smart_gateway.Prelude.{ℕ, inc64, if◌then◌else◌, not, ◌||◌}
use smart_gateway.Prelude.Text.{Text}
use smart_gateway.Prelude.Int.{ℤ, pos, negsuc, is_negative, eq_ℤ, ltb_ℤ, next_ℤ}

-- `gateway_context_t`
pub record GatewayContext : Type 0 where
  pub tcp_fd : ℤ
  pub serial_fd : ℤ
  pub next_tcp_retry : ℤ
  pub next_serial_retry : ℤ
  pub tcp_send : ℕ
  pub tcp_send_error : ℕ
  pub tcp_dropped : ℕ
  pub tcp_connections : ℕ
  pub tcp_connect_error : ℕ
  pub server_ip : Text
  pub server_port : ℕ
  pub decode_errors : ℕ
  pub serial_connections : ℕ

unfoldable pub gateway_app_init : Text → ℕ → GatewayContext
gateway_app_init server_ip server_port = record {
  tcp_fd = negsuc 0;
  serial_fd = negsuc 0;
  next_tcp_retry = pos 0;
  next_serial_retry = pos 0;
  tcp_send = 0;
  tcp_send_error = 0;
  tcp_dropped = 0;
  tcp_connections = 0;
  tcp_connect_error = 0;
  server_ip = server_ip;
  server_port = server_port;
  decode_errors = 0;
  serial_connections = 0;
}

-- `now` is what `time` returns, and `fd` what `tcp_client_connect` would return.
unfoldable pub gateway_app_try_tcp_connect : ℤ → ℤ → GatewayContext → GatewayContext
gateway_app_try_tcp_connect now fd context =
    if not (is_negative context.tcp_fd)
    then context
    else if eq_ℤ now (negsuc 0)
    then context
    else if ltb_ℤ now context.next_tcp_retry
    then context
    else if is_negative fd
    then record context {
      tcp_fd = fd;
      tcp_connect_error = inc64 context.tcp_connect_error;
      next_tcp_retry = next_ℤ now;
    }
    else record context { tcp_fd = fd; tcp_connections = inc64 context.tcp_connections }

unfoldable pub gateway_app_close : GatewayContext → GatewayContext
gateway_app_close context =
    if is_negative context.tcp_fd then context else record context { tcp_fd = negsuc 0 }

-- A line or a frame that could not be decoded.
abbrev pub count_decode_error : GatewayContext → GatewayContext
count_decode_error context = record context { decode_errors = inc64 context.decode_errors }
