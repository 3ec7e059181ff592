-- ===== src/MessageJson/Totality.antt =====
-- Both parsers of common/message_json.c end on every line.
use smart_gateway.Prelude.{
  ℕ, suc, ◌+◌, ◌-◌, ◌*◌, ◌/◌, ◌≤◌, ◌<◌, arith, ltb, [], ◌∷◌, Option, none, some, length, drop, not,
}
use smart_gateway.Prelude.Text.{Text, codes, text_eq}
use smart_gateway.Frame.{print_int}
use smart_gateway.FrameParser.Decode.{is_digit}
use smart_gateway.MessageJson.Scan.{starts_with, starts_with_digit, skip_digits, skip_minus}
use smart_gateway.MessageJson.Object.{kv_array_add, read_object}
use smart_gateway.MessageJson.Decode.{
  JsonObject, empty_object, object_handler, object_number, object_value,
}
use smart_gateway.MessageJson.Data.{
  DataState, empty_state, data_handler, data_number, data_sequence, x10_field, json_parse_x10,
  read_int_part, tenths,
}
use smart_gateway.MessageJson.Consumption.{
  Holds, IsRestWithin, Holds-bind, Holds-if, Holds-mono, length-skip_minus, length-drop_one,
  length-skip_digits, length-skip_decimals, read_value-Holds,
}
use smart_gateway.MessageJson.Termination.{Ends, read_object-Ends}

Holds-any : {A : Type 0} (x : Option A) → Holds (λ a. Unit) x
Holds-any none = tt
Holds-any (some a) = tt

object_number-Holds :
    (key s : Text) (o : JsonObject) → Holds (IsRestWithin (length s)) (object_number key s o)
unfolding object_number
object_number-Holds key s o =
    let Q = IsRestWithin {A = JsonObject} (length s) in
    let digits = skip_minus s in
    Holds-if Q (starts_with_digit digits) _ none
      (Holds-bind (IsRestWithin (length digits)) Q _ _ (read_value-Holds 0 digits) (λ p h.
        Holds-bind (λ a. Unit) Q _ _ (Holds-any (object_value key (starts_with b'-' s) p.0 o))
          (λ o' u. omega (arith, length-skip_minus s, length-skip_decimals p.1))))
      tt

read_int_part-Holds : (acc : ℕ) (s : Text) → Holds (IsRestWithin (length s)) (read_int_part acc s)
unfolding read_int_part
read_int_part-Holds acc [] = omega arith
read_int_part-Holds acc (c ∷ s) =
    let n = suc (length s) in
    let next = acc * 10 + (c - b'0') in
    Holds-if (IsRestWithin n) (not (is_digit c)) _ _ (omega arith) (
      Holds-if (IsRestWithin n) (ltb ((0x7FFFFFFF - 9) / 10) acc) none (read_int_part next s) tt (
        Holds-mono (IsRestWithin (length s)) (IsRestWithin n) _ (read_int_part-Holds next s)
          (λ p h. omega arith)))

length-tenths : (s : Text) → length (tenths s).1 ≤ length s
unfolding tenths
length-tenths s = ground (arith, length-skip_digits (drop 1 s), length-drop_one s)

json_parse_x10-Holds : (s : Text) → Holds (IsRestWithin (length s)) (json_parse_x10 s)
unfolding json_parse_x10
json_parse_x10-Holds s =
    let Q = IsRestWithin (length s) in
    let digits = skip_minus s in
    Holds-if Q (starts_with_digit digits) _ none
      (Holds-bind (IsRestWithin (length digits)) Q _ _ (read_int_part-Holds 0 digits)
        (λ p h. omega (arith, length-skip_minus s, length-tenths p.1)))
      tt

x10_field-Holds :
    (key s : Text) (d : DataState) → Holds (IsRestWithin (length s)) (x10_field key s d)
unfolding x10_field
x10_field-Holds key s d =
    let Q = IsRestWithin {A = DataState} (length s) in
    Holds-bind (IsRestWithin (length s)) Q _ _ (json_parse_x10-Holds s) (λ p h.
      Holds-bind (λ a. Unit) Q (kv_array_add d.fields key (print_int p.0)) _
        (Holds-any (kv_array_add d.fields key (print_int p.0))) (λ fields u. h))

data_sequence-Holds :
    (s : Text) (d : DataState) → Holds (IsRestWithin (length s)) (data_sequence s d)
unfolding data_sequence
data_sequence-Holds s d =
    let Q = IsRestWithin {A = DataState} (length s) in
    Holds-if Q (starts_with b'-' s) none _ tt (
      Holds-bind (IsRestWithin (length s)) Q _ _ (read_value-Holds 0 s)
        (λ p h. omega (arith, length-skip_decimals p.1)))

data_number-Holds :
    (key s : Text) (d : DataState) → Holds (IsRestWithin (length s)) (data_number key s d)
unfolding data_number
data_number-Holds key s d =
    let Q = IsRestWithin {A = DataState} (length s) in
    let digits = skip_minus s in
    let skipped = skip_digits digits in
    Holds-if Q (text_eq key (codes "temperature")) _ _ (x10_field-Holds (codes "T") s d) (
      Holds-if Q (text_eq key (codes "humidity")) _ _ (x10_field-Holds (codes "H") s d) (
        Holds-if Q (text_eq key (codes "seq")) _ _ (data_sequence-Holds s d) (
          omega
            (arith, length-skip_minus s, length-skip_digits digits, length-skip_decimals skipped))))

-- Both parsers reach an end on every line: the fuel of one more than the line's length is enough, and where
-- they succeed, they have consumed at least one byte, and leave no more than the rest of the line.
pub parsers_end :
    (line : Text)
    → Ends (λ p. length p.1 < length line) (read_object object_handler empty_object line)
      × Ends (λ p. length p.1 < length line) (read_object data_handler empty_state line)
parsers_end line = (
  read_object-Ends object_handler object_number-Holds empty_object line,
  read_object-Ends data_handler data_number-Holds empty_state line,
)
