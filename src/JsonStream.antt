-- ===== src/JsonStream.antt =====
-- From common/message_json.c through a stream to common/line_parser.c and back: the lines of several
-- messages, received in pieces.
mod Tests
use smart_gateway.Prelude.{
  ℕ, zero, suc, ◌+◌, ◌-◌, ◌/◌, ◌%◌, ◌^◌, ◌≤◌, ◌<◌, ◌≡◌, ◌≢◌, refl, sym, ap, ◌∙◌, arith, Bool, true,
  false, ◌==◌, ltb, if◌then◌else◌, List, [], ◌∷◌, ◌++◌, Option, none, some, length, map, All,
  All-append, append-nil, append_assoc, Bool-cases, inl, inr, length-map,
}
use smart_gateway.Prelude.Text.{Text, codes}
use smart_gateway.Frame.{decimal, digit_char}
use smart_gateway.Frame.Kinds.{Kv}
use smart_gateway.LineParser.{line_parser_feed}
use smart_gateway.LineParser.Feeds.{IsOneLine, sent, feed-sent, line_parser_feed-append}
use smart_gateway.MessageJson.Build.{print_uint, kv_json, separator}
use smart_gateway.MessageJson.Fields.{kvs_json}
use smart_gateway.MessageJson.Format.{
  LineMessage, data_line, ack_line, command_line, nack_line, line_of,
}
use smart_gateway.MessageJson.Prefix.{numbered, from_node, from_sender}
use smart_gateway.MessageJson.Parsed.{fields_end, error_end}
use smart_gateway.MessageJson.RoundTrip.{
  IsJsonMessage, object_then, line_of-append, decode_as, decode-object_then,
}

-- The line of a message without its newline.
unfoldable pub object_text : LineMessage → Text
object_text m = object_then m []

-- Keys and values without ends of lines.
abbrev pub IsOneLineField : Kv → Type 0
IsOneLineField f = IsOneLine f.key × IsOneLine f.value

-- A message whose texts contain no ends of lines.
unfoldable pub HasNoLineEnd : LineMessage → Type 0
HasNoLineEnd (data_line d) = IsOneLine d.node_id × All IsOneLineField d.fields
HasNoLineEnd (ack_line a) = IsOneLine a.node_id × All IsOneLineField a.fields
HasNoLineEnd (command_line c) =
    IsOneLine c.target_node × IsOneLine c.sender × All IsOneLineField c.fields
HasNoLineEnd (nack_line n) = IsOneLine n.node_id × IsOneLine n.error

-- A text in the middle of others.
before : (a b : Text) → IsOneLine a → IsOneLine b → IsOneLine (a ++ b)
before = All-append _

decimal-IsOneLine : (k n : ℕ) → IsOneLine (decimal k n)
unfolding decimal
decimal-IsOneLine zero n = tt
decimal-IsOneLine (suc k) n = elim (Bool-cases (ltb n 10)) [
  | inl e ↦ rw e (((ground arith, ground arith), tt))
  | inr e ↦ rw e (
      before (decimal k (n / 10)) _ (decimal-IsOneLine k (n / 10)) ((omega arith, omega arith), tt))
]

kv_json-IsOneLine : (f : Kv) → IsOneLineField f → IsOneLine (kv_json f)
unfolding kv_json
kv_json-IsOneLine f h = (
  omega arith,
  before f.key _ h.0
      (omega arith, (omega arith, (omega arith, before f.value _ h.1 (omega arith)))),
)

kvs_json-IsOneLine :
    (first : Bool) (fs : List Kv) → All IsOneLineField fs → IsOneLine (kvs_json first fs)
unfolding kvs_json
kvs_json-IsOneLine first [] h = tt
kvs_json-IsOneLine true (f ∷ fs) h =
    before (kv_json f) _ (kv_json-IsOneLine f h.0) (kvs_json-IsOneLine false fs h.1)
kvs_json-IsOneLine false (f ∷ fs) h =
    (omega arith, before (kv_json f) _ (kv_json-IsOneLine f h.0) (kvs_json-IsOneLine false fs h.1))

numbered-IsOneLine :
    (n : ℕ) (type inner : Text)
    → IsOneLine type
    → IsOneLine inner
    → IsOneLine (numbered n type inner)
unfolding numbered print_uint
numbered-IsOneLine n type inner ht h = before (codes "\"seq\":") _ (omega arith) (
    before (decimal 10 n) _ (decimal-IsOneLine 10 n) (
      before (codes ",\"type\":\"") _ (omega arith)
        (before type _ ht (before (codes "\",") inner (omega arith) h))))

from_node-IsOneLine : (id t : Text) → IsOneLine id → IsOneLine t → IsOneLine (from_node id t)
unfolding from_node
from_node-IsOneLine id t hi h =
    before (codes "{\"node\":\"") _ (omega arith)
      (before id _ hi (before (codes "\",") t (omega arith) h))

fields_end-IsOneLine : (fs : List Kv) → All IsOneLineField fs → IsOneLine (fields_end fs [])
unfolding fields_end
fields_end-IsOneLine fs h =
    before (codes "\"fields\":{") _ (omega arith)
      (before (kvs_json true fs) (codes "}}") (kvs_json-IsOneLine true fs h) (omega arith))

object_text-IsOneLine : (m : LineMessage) → HasNoLineEnd m → IsOneLine (object_text m)
unfolding object_text object_then HasNoLineEnd from_sender error_end
object_text-IsOneLine (data_line d) h =
    from_node-IsOneLine d.node_id _ h.0
      (numbered-IsOneLine d.sequence _ _ (omega arith) (fields_end-IsOneLine d.fields h.1))
object_text-IsOneLine (ack_line a) h =
    from_node-IsOneLine a.node_id _ h.0
      (numbered-IsOneLine a.sequence _ _ (omega arith) (fields_end-IsOneLine a.fields h.1))
object_text-IsOneLine (command_line c) h = from_node-IsOneLine c.target_node _ h.0 (
    before (codes "\"sender\":\"") _ (omega arith) (
      before c.sender _ h.1 (
        before (codes "\",") _ (omega arith)
          (numbered-IsOneLine c.sequence _ _ (omega arith) (fields_end-IsOneLine c.fields h.2)))))
object_text-IsOneLine (nack_line n) h = from_node-IsOneLine n.node_id _ h.0 (
    numbered-IsOneLine n.sequence _ _ (omega arith) (
      before (codes "\"error\":\"") _ (omega arith)
        (before n.error (codes "\"}") h.1 (omega arith))))

object_text-append : (m : LineMessage) (t : Text) → object_text m ++ t ≡ object_then m t
unfolding object_text object_then from_node from_sender numbered fields_end error_end
object_text-append (data_line d) t = simp append_assoc
object_text-append (ack_line a) t = simp append_assoc
object_text-append (command_line c) t = simp append_assoc
object_text-append (nack_line n) t = simp append_assoc

-- The printed lines of messages, one behind the other.
abbrev pub printed_lines : List LineMessage → Text
printed_lines [] = []
printed_lines (m ∷ ms) = line_of m ++ printed_lines ms

printed_lines-sent : (ms : List LineMessage) → printed_lines ms ≡ sent (map object_text ms)
printed_lines-sent [] = refl
printed_lines-sent (m ∷ ms) =
    line_of-append m (printed_lines ms)
    ∙ sym (object_text-append m (b'\n' ∷ printed_lines ms))
    ∙ ap (λ t. object_text m ++ b'\n' ∷ t) (printed_lines-sent ms)

-- Each line decodes to the message at its place, and all of the line is consumed.
abbrev pub AreDecoded : List LineMessage → List Text → Type 0
AreDecoded [] [] = Unit
AreDecoded (m ∷ ms) (line ∷ lines) =
    (decode_as m line ≡ some (length line, m)) × AreDecoded ms lines
AreDecoded ms lines = ⊥

sub_zero : (n : ℕ) → n - 0 ≡ n
sub_zero n = omega arith

objects-AreDecoded :
    (ms : List LineMessage) → All IsJsonMessage ms → AreDecoded ms (map object_text ms)
unfolding object_text
objects-AreDecoded [] h = tt
objects-AreDecoded (m ∷ ms) h = (
  decode-object_then m [] h.0 ∙ ap (λ n. some (n, m)) (sub_zero (length (object_then m []))),
  objects-AreDecoded ms h.1,
)

objects-IsOneLine :
    (ms : List LineMessage) → All HasNoLineEnd ms → All IsOneLine (map object_text ms)
objects-IsOneLine [] h = tt
objects-IsOneLine (m ∷ ms) h = (object_text-IsOneLine m h.0, objects-IsOneLine ms h.1)

pub feed-printed_lines :
    (ms : List LineMessage) (capacity : ℕ)
    → 1 ≤ capacity
    → All HasNoLineEnd ms
    → line_parser_feed (printed_lines ms) capacity ≡ (length ms, map object_text ms, [])
feed-printed_lines ms capacity h plain =
    ap (λ t. line_parser_feed t capacity)
      (printed_lines-sent ms ∙ sym (append-nil (sent (map object_text ms))))
    ∙ feed-sent (map object_text ms) [] capacity h (objects-IsOneLine ms plain) tt
    ∙ ap (λ n. (n, map object_text ms, [])) (length-map object_text ms)

-- The lines of messages with at most 16 fields each, whose sequences are below 2 ^ 32, whose texts fit their arrays and have no quotation marks,
-- backslashes or ends of lines, and whose keys, values and errors are not empty, received in two pieces: the
-- parser reports as many lines as there are messages, leaves nothing in its buffer, and each line, given to
-- the decoder of its message, is that message and is consumed to its end.
pub stream_roundtrip :
    (ms : List LineMessage) (a b : Text) (capacity : ℕ)
    → 1 ≤ capacity
    → All IsJsonMessage ms
    → All HasNoLineEnd ms
    → a ++ b ≡ printed_lines ms
    → let (m, lines, rest) = line_parser_feed a capacity in
      let (n, more, last) = line_parser_feed (rest ++ b) capacity in
      (m + n ≡ length ms) × (last ≡ []) × AreDecoded ms (lines ++ more)
stream_roundtrip ms a b capacity h good plain whole =
    let (m, lines, rest) = line_parser_feed a capacity in
    let (n, more, last) = line_parser_feed (rest ++ b) capacity in
    let same : (m + n, lines ++ more, last) ≡ (length ms, map object_text ms, []) =
      sym (line_parser_feed-append a b capacity h)
      ∙ ap (λ t. line_parser_feed t capacity) whole
      ∙ feed-printed_lines ms capacity h plain in
    (ap (λ p. p.0) same, ap (λ p. p.2) same, rw (ap (λ p. p.1) same) (objects-AreDecoded ms good))
