-- ===== src/SendAll/Whole.antt =====
-- What the loops leave behind.
use smart_gateway.Prelude.{
  ℕ, ◌+◌, ◌<◌, ◌≡◌, refl, sym, subst, ap, ◌∙◌, arith, false, List, [], ◌∷◌, ◌++◌, Option, none,
  some, length, take, drop, take-drop, take-length_append, append_assoc, append-nil, length-append,
}
use smart_gateway.Prelude.Text.{Text}
use smart_gateway.Prelude.Int.{ℤ, pos, is_negative}
use smart_gateway.SendAll.{
  Turn, poll_failed, poll_timed_out, hung_up, not_writable, accepted, try_again, write_failed,
  Write, all_written, failed_after, write_rest, serial_port_write_all, wifi_client_send_all,
  tcp_client_send_all,
}

-- The bytes that are out, by the result: the whole text after success; after a failure, as many of its first
-- bytes as it says, and not all; a beginning of it while the loop goes on.
abbrev pub IsOut : Text → Option Write × Text → Type 0
IsOut text (some all_written, out) = out ≡ text
IsOut text (some (failed_after n), out) = (out ≡ take n text) × (n < length text)
IsOut text (none, out) = (rest : Text) × (out ++ rest ≡ text)

failed-IsOut :
    (c : ℕ) (out rest : Text) → IsOut (out ++ c ∷ rest) (some (failed_after (length out)), out)
failed-IsOut c out rest =
    (sym (take-length_append out (c ∷ rest)), omega (arith, length-append out (c ∷ rest)))

write_rest-IsOut :
    (turns : List Turn) (out rest : Text) → IsOut (out ++ rest) (write_rest turns out rest)
unfolding write_rest
write_rest-IsOut turns out [] = sym (append-nil out)
write_rest-IsOut [] out (c ∷ rest) = (c ∷ rest, refl)
write_rest-IsOut (poll_failed ∷ turns) out (c ∷ rest) = failed-IsOut c out rest
write_rest-IsOut (poll_timed_out ∷ turns) out (c ∷ rest) = failed-IsOut c out rest
write_rest-IsOut (hung_up ∷ turns) out (c ∷ rest) = failed-IsOut c out rest
write_rest-IsOut (not_writable ∷ turns) out (c ∷ rest) = write_rest-IsOut turns out (c ∷ rest)
write_rest-IsOut (accepted n ∷ turns) out (c ∷ rest) =
    let whole : (out ++ take n (c ∷ rest)) ++ drop n (c ∷ rest) ≡ out ++ c ∷ rest =
      append_assoc out (take n (c ∷ rest)) (drop n (c ∷ rest))
      ∙ ap (λ t. out ++ t) (take-drop n (c ∷ rest)) in
    subst (λ t. IsOut t (write_rest turns (out ++ take n (c ∷ rest)) (drop n (c ∷ rest)))) whole
      (write_rest-IsOut turns (out ++ take n (c ∷ rest)) (drop n (c ∷ rest)))
write_rest-IsOut (try_again ∷ turns) out (c ∷ rest) = write_rest-IsOut turns out (c ∷ rest)
write_rest-IsOut (write_failed ∷ turns) out (c ∷ rest) = failed-IsOut c out rest

-- Whatever the system calls do, on a descriptor and with a timeout that are not negative, each of the three functions has put out
-- the whole text when it returns success; when it fails, it has put out as many of the first bytes of the text
-- as its result says, and not all; and while it still waits, a beginning of the text.
pub send_all-IsOut :
    (fd : ℤ) (timeout : ℕ) (turns : List Turn) (text : Text)
    → is_negative fd ≡ false
    → IsOut text (serial_port_write_all fd (pos timeout) turns text)
      × IsOut text (wifi_client_send_all fd turns text)
      × IsOut text (tcp_client_send_all fd turns text)
unfolding serial_port_write_all wifi_client_send_all tcp_client_send_all
send_all-IsOut fd timeout turns text valid =
    let whole = write_rest-IsOut turns [] text in rw valid (whole, whole, whole)

-- A turn in which nothing fails, and the bytes that it gets accepted.
abbrev pub HoldsUp : Turn → Type 0
HoldsUp not_writable = Unit
HoldsUp (accepted n) = Unit
HoldsUp try_again = Unit
HoldsUp other = ⊥

abbrev pub progress : List Turn → ℕ
progress [] = 0
progress (accepted n ∷ turns) = n + progress turns
progress (other ∷ turns) = progress turns
