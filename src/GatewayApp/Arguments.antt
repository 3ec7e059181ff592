-- ===== src/GatewayApp/Arguments.antt =====
-- The command line of the gateway: `gateway_app_parse_args`.
pub mod Valid
use smart_gateway.Prelude.{
  ℕ, ltb, leb, ◌==◌, if◌then◌else◌, Bool, true, false, ◌||◌, not, List, [], ◌∷◌, Option, none, some,
  length,
}
use smart_gateway.Prelude.Text.{Text, codes, text_eq}
use smart_gateway.FrameParser.Decode.{skip_space, read_sign, read_digits, is_space, is_digit}
use smart_gateway.MessageJson.Scan.{starts_with_digit}
use smart_gateway.GatewayApp.{GatewayContext}

-- `strtol` of a whole text, where a number without a minus sign is wanted. One that a `long` does
-- not hold sets `errno`; it is above every bound that the callers test.
unfoldable pub parse_long : Text → Option ℕ
unfolding skip_space read_sign read_digits is_space is_digit
parse_long text =
    let (minus, s) = read_sign (skip_space text) in
    let (n, rest) = read_digits 0 s in
    if not (starts_with_digit s) || not (length rest == 0) || minus then none else some n

unfoldable pub baud_is_supported : ℕ → Bool
baud_is_supported rate =
    rate == 1200
    || rate == 2400
    || rate == 4800
    || rate == 9600
    || rate == 19200
    || rate == 38400
    || rate == 57600
    || rate == 115200

abbrev checked : (ℕ → Bool) → Option ℕ → Option ℕ
checked valid none = none
checked valid (some n) = if valid n then some n else none

-- A negative number is below 1.
unfoldable pub parse_port : Text → Option ℕ
parse_port text = checked (λ n. not (ltb n 1 || ltb 65535 n)) (parse_long text)

unfoldable pub parse_baud_rate : Text → Option ℕ
parse_baud_rate text =
    checked (λ n. not (n == 0 || ltb 1000000 n || not (baud_is_supported n))) (parse_long text)

-- What the function writes.
pub record Settings : Type 0 where
  pub serial_device : Option Text
  pub baud_rate : ℕ
  pub context : GatewayContext

abbrev with_baud : Settings → Option ℕ → Option Settings
with_baud a none = none
with_baud a (some n) = some (record a { baud_rate = n })

abbrev with_port : Settings → Option ℕ → Option Settings
with_port a none = none
with_port a (some n) = some (record a { context = record (a.context) { server_port = n } })

-- A flag and the text behind it.
unfoldable pub parse_option : Text → Text → Settings → Option Settings
parse_option flag value a =
    if text_eq flag (codes "--serial")
    then some (record a { serial_device = some value })
    else if text_eq flag (codes "--baud")
    then with_baud a (parse_baud_rate value)
    else if text_eq flag (codes "--server")
    then some (record a { context = record (a.context) { server_ip = value } })
    else if text_eq flag (codes "--port")
    then with_port a (parse_port value)
    else none

-- The loop. A last argument alone is a flag without its value, a call for help, or unknown; all of
-- them end it with 1.
unfoldable pub parse_options : List Text → Settings → Bool × Settings
parse_options [] a = (true, a)
parse_options (flag ∷ []) a = (false, a)
parse_options (flag ∷ value ∷ rest) a = elim (parse_option flag value a) [
  | none ↦ (false, a)
  | some b ↦ parse_options rest b
]

-- The arguments behind the program's name; `true` is the result 0.
unfoldable pub gateway_app_parse_args : List Text → GatewayContext → Bool × Settings
gateway_app_parse_args argv context =
    parse_options argv (record { serial_device = none; baud_rate = 9600; context = context })
