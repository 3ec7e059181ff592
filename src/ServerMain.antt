-- ===== src/ServerMain.antt =====
-- server/main.c: what the server does with a line from the gateway. Printing has no counterpart.
mod Tests
use smart_gateway.Prelude.{
  ℕ, ◌+◌, ◌-◌, ◌≡◌, refl, ap, ◌∙◌, arith, Bool, true, false, ◌||◌, ◌&&◌, ◌==◌, if◌then◌else◌, List,
  [], ◌∷◌, ◌++◌, Option, none, some, length, append_assoc,
}
use smart_gateway.Prelude.Text.{Text, codes, text_eq}
use smart_gateway.FrameParser.Decode.{KvMessage, NackMessage}
use smart_gateway.CommandManager.{Manager, command_manager_on_ack, command_manager_on_nack}
use smart_gateway.NodeStore.{NodeStore, node_store_update}
use smart_gateway.MessageJson.Build.{print_uint}
use smart_gateway.Frame.{decimal}
use smart_gateway.MessageJson.Decode.{message_json_decode_ack, message_json_decode_nack}
use smart_gateway.MessageJson.Data.{message_json_decode_data}
use smart_gateway.MessageJson.Format.{LineMessage, data_line, ack_line, command_line, nack_line}
use smart_gateway.MessageJson.Prefix.{numbered, from_node}
use smart_gateway.MessageJson.Parsed.{fields_end}
use smart_gateway.MessageJson.RoundTrip.{IsJsonMessage, decode-object_then, object_then, decode_as}
use smart_gateway.MessageJson.Scan.{◌>>=◌}
use smart_gateway.JsonStream.{object_text}

-- `server_context_t`
pub record ServerContext : Type 0 where
  pub store : NodeStore
  pub manager : Manager

-- The bytes of the pattern are there, and `memcmp` finds them.
unfoldable pub bytes_at : Text → Text → Bool
bytes_at [] line = true
bytes_at (p ∷ pattern) [] = false
bytes_at (p ∷ pattern) (c ∷ line) = c == p && bytes_at pattern line

-- Whether the pattern starts at one of the bytes of the line.
unfoldable pub line_has : Text → Text → Bool
line_has [] pattern = bytes_at pattern []
line_has (c ∷ line) pattern = bytes_at pattern (c ∷ line) || line_has line pattern

-- A decoded ACK, NACK or DATA; a line that is not decoded changes nothing.
abbrev pub on_ack : Option (ℕ × KvMessage) → ServerContext → ServerContext
on_ack none ctx = ctx
on_ack (some (n, ack)) ctx = record ctx { manager = (command_manager_on_ack ctx.manager ack).1 }

abbrev pub on_nack : Option (ℕ × NackMessage) → ServerContext → ServerContext
on_nack none ctx = ctx
on_nack (some (n, nack)) ctx = record ctx { manager = (command_manager_on_nack ctx.manager nack).1 }

abbrev pub on_data : Option ℕ → Option (ℕ × KvMessage) → ServerContext → ServerContext
on_data now none ctx = ctx
on_data now (some (n, d)) ctx = record ctx { store = (node_store_update now d ctx.store).1 }

-- `now` is what the clock of the store returns.
unfoldable pub on_line : Option ℕ → Text → ServerContext → ServerContext
on_line now line ctx =
    if line_has line (codes "\"type\":\"ACK\"")
    then on_ack (message_json_decode_ack line) ctx
    else if line_has line (codes "\"type\":\"NACK\"")
    then on_nack (message_json_decode_nack line) ctx
    else on_data now (message_json_decode_data line) ctx

line_has-append :
    (a t pattern : Text) → line_has t pattern ≡ true → line_has (a ++ t) pattern ≡ true
unfolding line_has
line_has-append [] t pattern h = h
line_has-append (c ∷ a) t pattern h = ground (arith, line_has-append a t pattern h)

ack_text-line_has :
    (a : KvMessage) → line_has (object_text (ack_line a)) (codes "\"type\":\"ACK\"") ≡ true
unfolding object_text object_then from_node numbered fields_end line_has bytes_at
ack_text-line_has a =
    let pattern = codes "\"type\":\"ACK\"" in
    let last = codes "\"type\":\"ACK\"," ++ fields_end a.fields [] in
    let number = print_uint a.sequence ++ b',' ∷ last in
    let middle = codes "\",\"seq\":" ++ number in
    line_has-append (codes "{\"node\":\"") (a.node_id ++ middle) pattern (
      line_has-append a.node_id middle pattern (
        line_has-append (codes "\",\"seq\":") number pattern
          (line_has-append (print_uint a.sequence) (b',' ∷ last) pattern refl)))

abbrev ack_or : KvMessage → LineMessage → KvMessage
ack_or d (data_line e) = d
ack_or d (ack_line a) = a
ack_or d (command_line c) = d
ack_or d (nack_line n) = d

-- The result of `decode_as` for an ACK.
abbrev as_ack : ℕ × KvMessage → Option (ℕ × LineMessage)
as_ack (n, a) = some (n, ack_line a)

ack_of :
    (x : Option (ℕ × KvMessage)) (n : ℕ) (a : KvMessage)
    → (x >>= as_ack) ≡ some (n, ack_line a)
    → x ≡ some (n, a)
ack_of none n a h = absurd (cc h)
ack_of (some (k, e)) n a h =
    ap (λ x. elim x [ none ↦ some (n, a) | some r ↦ some (r.0, ack_or a r.1) ]) h

-- The result of `decode_as` for data.
abbrev as_line : ℕ × KvMessage → Option (ℕ × LineMessage)
as_line (n, d) = some (n, data_line d)

abbrev data_or : KvMessage → LineMessage → KvMessage
data_or d (data_line e) = e
data_or d (ack_line e) = d
data_or d (command_line c) = d
data_or d (nack_line n) = d

data_of :
    (x : Option (ℕ × KvMessage)) (n : ℕ) (d : KvMessage)
    → (x >>= as_line) ≡ some (n, data_line d)
    → x ≡ some (n, d)
data_of none n d h = absurd (cc h)
data_of (some (k, e)) n d h =
    ap (λ x. elim x [ none ↦ some (n, d) | some r ↦ some (r.0, data_or d r.1) ]) h

-- The line of an ACK with a sequence below 2 ^ 32 and at most 16 fields, whose texts fit their arrays and have no quotation marks or
-- backslashes, and whose keys and values are not empty: the server hands the ACK with its node, sequence and
-- fields to the command manager, and the node store stays as it is.
pub on_line-ack :
    (now : Option ℕ) (a : KvMessage) (ctx : ServerContext)
    → IsJsonMessage (ack_line a)
    → on_line now (object_text (ack_line a)) ctx
      ≡ record ctx { manager = (command_manager_on_ack ctx.manager a).1 }
unfolding on_line object_text decode_as
on_line-ack now a ctx good =
    rw
      (
        ack_text-line_has a,
        ack_of (message_json_decode_ack (object_text (ack_line a))) _ a
            (decode-object_then (ack_line a) [] good),
      )
      refl

-- The line of DATA, for which the server looks in vain for the types of an ACK and a NACK.
pub on_line-data :
    (now : Option ℕ) (d : KvMessage) (ctx : ServerContext)
    → IsJsonMessage (data_line d)
    → line_has (object_text (data_line d)) (codes "\"type\":\"ACK\"") ≡ false
    → line_has (object_text (data_line d)) (codes "\"type\":\"NACK\"") ≡ false
    → on_line now (object_text (data_line d)) ctx
      ≡ record ctx { store = (node_store_update now d ctx.store).1 }
unfolding on_line object_text decode_as
on_line-data now d ctx good no_ack no_nack =
    rw
      (
        no_ack,
        no_nack,
        data_of (message_json_decode_data (object_text (data_line d))) _ d
            (decode-object_then (data_line d) [] good),
      )
      refl
