-- ===== src/GatewayApp/Arguments/Valid.antt =====
-- What the command line can set.
use smart_gateway.Prelude.{
  ℕ, ◌≤◌, ◌≡◌, refl, arith, Bool, true, false, ◌==◌, ltb, not, ◌||◌, List, [], ◌∷◌, Option, none,
  some, Bool-cases, inl, inr,
}
use smart_gateway.Prelude.Text.{Text, codes, text_eq}
use smart_gateway.GatewayApp.{GatewayContext}
use smart_gateway.GatewayApp.Arguments.{
  Settings, parse_long, parse_port, parse_baud_rate, baud_is_supported, parse_option, parse_options,
  gateway_app_parse_args, checked, with_port, with_baud,
}

-- Settings that the gateway can run with.
pub record IsUsable (a : Settings) : Type 0 where
  pub baud : baud_is_supported a.baud_rate ≡ true
  pub port_low : 1 ≤ a.context.server_port
  pub port_high : a.context.server_port ≤ 65535

with_port-IsUsable :
    (x : Option ℕ) (a b : Settings)
    → IsUsable a
    → with_port a (checked (λ n. not (ltb n 1 || ltb 65535 n)) x) ≡ some b
    → IsUsable b
with_port-IsUsable none a b h e = absurd (cc e)
with_port-IsUsable (some n) a b h e = record {
  baud = ground (arith, h.baud, e);
  port_low = ground (arith, h.port_low, e);
  port_high = ground (arith, h.port_high, e);
}

with_baud-IsUsable :
    (x : Option ℕ) (a b : Settings)
    → IsUsable a
    → with_baud a (checked (λ n. not (n == 0 || ltb 1000000 n || not (baud_is_supported n))) x)
      ≡ some b
    → IsUsable b
with_baud-IsUsable none a b h e = absurd (cc e)
with_baud-IsUsable (some n) a b h e = record {
  baud = ground (arith, h.baud, e);
  port_low = ground (arith, h.port_low, e);
  port_high = ground (arith, h.port_high, e);
}

parse_option-IsUsable :
    (flag value : Text) (a : Settings) {b : Settings}
    → IsUsable a
    → parse_option flag value a ≡ some b
    → IsUsable b
unfolding parse_option parse_port parse_baud_rate
parse_option-IsUsable flag value a {b} h e =
    let port = with_port-IsUsable (parse_long value) a b h in
    let baud = with_baud-IsUsable (parse_long value) a b h in
    elim (Bool-cases (text_eq flag (codes "--serial"))) [
      | inl serial ↦ record {
        baud = ground (arith, h.baud, serial, e);
        port_low = ground (arith, h.port_low, serial, e);
        port_high = ground (arith, h.port_high, serial, e);
      }
      | inr no_serial ↦ elim (Bool-cases (text_eq flag (codes "--baud"))) [
        | inl is_baud ↦ baud (ground (arith, no_serial, is_baud, e))
        | inr no_baud ↦ elim (Bool-cases (text_eq flag (codes "--server"))) [
          | inl server ↦ record {
            baud = ground (arith, h.baud, no_serial, no_baud, server, e);
            port_low = ground (arith, h.port_low, no_serial, no_baud, server, e);
            port_high = ground (arith, h.port_high, no_serial, no_baud, server, e);
          }
          | inr no_server ↦ elim (Bool-cases (text_eq flag (codes "--port"))) [
            | inl is_port ↦ port (ground (arith, no_serial, no_baud, no_server, is_port, e))
            | inr no_port ↦ absurd (ground (arith, no_serial, no_baud, no_server, no_port, e))
          ]
        ]
      ]
    ]

parse_options-IsUsable :
    (argv : List Text) (a : Settings)
    → IsUsable a
    → let (done, b) = parse_options argv a in IsUsable b
unfolding parse_options
parse_options-IsUsable [] a h = h
parse_options-IsUsable (flag ∷ []) a h = h
parse_options-IsUsable (flag ∷ value ∷ rest) a h =
    next (parse_option flag value a) (λ b. parse_option-IsUsable flag value a h)
      (λ b. parse_options-IsUsable rest b)
  where
    next :
        (x : Option Settings)
        → ((b : Settings) → x ≡ some b → IsUsable b)
        → ((b : Settings) → IsUsable b → IsUsable (parse_options rest b).1)
        → IsUsable
            (elim x as (λ y. Bool × Settings) [
              | none ↦ (false, a)
              | some b ↦ parse_options rest b
            ]).1
    next none f g = h
    next (some b) f g = g b (f b refl)

-- From a context whose port is not 0, any arguments, accepted or not, leave a baud rate that the serial
-- port supports, and a port from 1 to 65535.
pub parse_args-IsUsable :
    (argv : List Text) (context : GatewayContext)
    → 1 ≤ context.server_port
    → context.server_port ≤ 65535
    → IsUsable (gateway_app_parse_args argv context).1
unfolding gateway_app_parse_args baud_is_supported
parse_args-IsUsable argv context low high =
    parse_options-IsUsable argv _ (record { baud = refl; port_low = low; port_high = high })
