-- ===== src/SendAll/Tests.antt =====
-- Writing a text, at concrete inputs.
use smart_gateway.Prelude.{◌≡◌, refl, [], ◌∷◌, some, List}
use smart_gateway.Prelude.Text.{codes}
use smart_gateway.Prelude.Int.{pos}
use smart_gateway.SendAll.{
  Turn, accepted, not_writable, try_again, poll_timed_out, failed_after, write_rest,
  serial_port_write_all, wifi_client_send_all, tcp_client_send_all,
}
use smart_gateway.SendAll.Whole.{IsOut, send_all-IsOut}

abbrev slow : List Turn
slow = accepted 2 ∷ try_again ∷ accepted 1 ∷ poll_timed_out ∷ []

cut_off :
    serial_port_write_all (pos 5) (pos 1000) slow (codes "abcd")
    ≡ (some (failed_after 3), codes "abc")
unfolding serial_port_write_all write_rest
cut_off = refl

send_all-IsOut_example :
    IsOut (codes "abcd") (serial_port_write_all (pos 5) (pos 1000) slow (codes "abcd"))
    × IsOut (codes "abcd") (wifi_client_send_all (pos 5) slow (codes "abcd"))
    × IsOut (codes "abcd") (tcp_client_send_all (pos 5) slow (codes "abcd"))
send_all-IsOut_example = send_all-IsOut (pos 5) 1000 slow (codes "abcd") refl

abbrev in_parts : List Turn
in_parts = accepted 2 ∷ try_again ∷ accepted 1 ∷ not_writable ∷ accepted 1 ∷ []
