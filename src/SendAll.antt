-- ===== src/SendAll.antt =====
-- The loops that write a whole text to a descriptor: serial_port_write_all of gateway/serial_port.c,
-- wifi_client_send_all of gateway/wifi_client.c and tcp_client_send_all of gateway/tcp_client.c.
--
-- What `poll` and `write` or `send` do in a turn of the loop is an argument. The loop may wait for ever, so
-- a list of turns may end before it does.
pub mod Whole
mod Tests
use smart_gateway.Prelude.{
  ℕ, ◌+◌, ltb, if◌then◌else◌, Bool, true, false, ◌||◌, List, [], ◌∷◌, ◌++◌, Option, none, some,
  length, take, drop,
}
use smart_gateway.Prelude.Text.{Text}
use smart_gateway.Prelude.Int.{ℤ, pos, negsuc, is_negative}

-- A turn, once `poll` has not been interrupted: `poll` failed, timed out, or reported an error or a hang
-- up; the descriptor is not writable after all; so many bytes were accepted; the call was interrupted or
-- would have blocked; it failed or accepted nothing.
pub data Turn : Type 0 where
  poll_failed poll_timed_out hung_up not_writable : Turn
  accepted : ℕ → Turn
  try_again write_failed : Turn

-- The function returns 0, or -1 after so many bytes.
pub data Write : Type 0 where
  all_written : Write
  failed_after : ℕ → Write

-- The loop, with the bytes that went out before and those that are left. The result is `none` where the
-- loop goes on after these turns.
unfoldable pub write_rest : List Turn → Text → Text → Option Write × Text
write_rest turns out [] = (some all_written, out)
write_rest [] out (c ∷ rest) = (none, out)
write_rest (poll_failed ∷ turns) out (c ∷ rest) = (some (failed_after (length out)), out)
write_rest (poll_timed_out ∷ turns) out (c ∷ rest) = (some (failed_after (length out)), out)
write_rest (hung_up ∷ turns) out (c ∷ rest) = (some (failed_after (length out)), out)
write_rest (not_writable ∷ turns) out (c ∷ rest) = write_rest turns out (c ∷ rest)
write_rest (accepted n ∷ turns) out (c ∷ rest) =
    write_rest turns (out ++ take n (c ∷ rest)) (drop n (c ∷ rest))
write_rest (try_again ∷ turns) out (c ∷ rest) = write_rest turns out (c ∷ rest)
write_rest (write_failed ∷ turns) out (c ∷ rest) = (some (failed_after (length out)), out)

-- `fd < 0`
abbrev write_open : Bool → List Turn → Text → Option Write × Text
write_open invalid turns text =
    if invalid then (some (failed_after 0), []) else write_rest turns [] text

-- `timeout_ms < -1`
abbrev below_forever : ℤ → Bool
below_forever (pos n) = false
below_forever (negsuc n) = ltb 0 n

unfoldable pub serial_port_write_all : ℤ → ℤ → List Turn → Text → Option Write × Text
serial_port_write_all fd timeout_ms turns text =
    write_open (is_negative fd || below_forever timeout_ms) turns text

unfoldable pub wifi_client_send_all : ℤ → List Turn → Text → Option Write × Text
wifi_client_send_all fd turns text = write_open (is_negative fd) turns text

unfoldable pub tcp_client_send_all : ℤ → List Turn → Text → Option Write × Text
tcp_client_send_all fd turns text = write_open (is_negative fd) turns text
