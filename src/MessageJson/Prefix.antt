-- ===== src/MessageJson/Prefix.antt =====
-- The members before the fields, as the builders print them.
use smart_gateway.Prelude.{
  ℕ, suc, ◌≡◌, refl, sym, ap, ◌∙◌, arith, true, false, ◌∷◌, ◌++◌, some, append_assoc,
}
use smart_gateway.Prelude.Text.{Text, codes, text_eq}
use smart_gateway.Frame.{digit_char}
use smart_gateway.FrameParser.Decode.{is_digit}
use smart_gateway.MessageJson.Scan.{starts_with, starts_with_digit}
use smart_gateway.MessageJson.Object.{Handler, read_members}
use smart_gateway.MessageJson.Build.{print_uint, node_prefix, command_prefix, nack_json}
use smart_gateway.DeviceManager.{Command}
use smart_gateway.FrameParser.Decode.{NackMessage}
use smart_gateway.MessageJson.Printed.{IsQuotable, print_uint_start}
use smart_gateway.MessageJson.Members.{read_members-string, read_members-number}

-- A printed number begins with a digit.
pub uint_digit :
    (n : ℕ) (t : Text)
    → (starts_with_digit (print_uint n ++ t) ≡ true)
      × (starts_with b'-' (print_uint n ++ t) ≡ false)
unfolding is_digit
uint_digit n t = let (d, s, lt, shape) = print_uint_start n in rw shape (ground arith, ground arith)

module _ (h : Handler) (k : ℕ) (o : h.State) where
  -- The member `"seq"`.
  pub read_members-sequence :
      (n : ℕ) (rest : Text) {o' : h.State}
      → h.on_number (codes "seq") (print_uint n ++ b',' ∷ rest) o ≡ some (o', b',' ∷ rest)
      → read_members h (suc k) o (codes "\"seq\":" ++ (print_uint n ++ b',' ∷ rest))
        ≡ read_members h k o' rest
  unfolding text_eq
  read_members-sequence n rest e =
      let (d, s, lt, shape) = print_uint_start n in
      rw shape (
        read_members-number h k o (codes "seq") (omega arith) refl (digit_char d) (s ++ b',' ∷ rest)
          rest (ground arith) (ground arith)
          (ap (λ t. h.on_number (codes "seq") (t ++ b',' ∷ rest) o) (sym shape) ∙ e))

-- The members `"seq"` and `"type"`, and what follows them.
unfoldable pub numbered : ℕ → Text → Text → Text
numbered n type inner =
    codes "\"seq\":"
    ++ (print_uint n ++ b',' ∷ (codes "\"type\":\"" ++ (type ++ b'"' ∷ b',' ∷ inner)))

-- A line that begins with the member `"node"`.
unfoldable pub from_node : Text → Text → Text
from_node id t = codes "{\"node\":\"" ++ (id ++ b'"' ∷ b',' ∷ t)

-- A line that begins with `"node"` and `"sender"`.
unfoldable pub from_sender : Text → Text → Text → Text
from_sender id sender t = from_node id (codes "\"sender\":\"" ++ (sender ++ b'"' ∷ b',' ∷ t))

pub node_prefix-append :
    (id : Text) (n : ℕ) (type t : Text)
    → node_prefix id n type ++ t ≡ from_node id (numbered n type (codes "\"fields\":{" ++ t))
unfolding node_prefix numbered from_node
node_prefix-append id n type t =
    let last = type ++ codes "\",\"fields\":{" in
    let more = codes ",\"type\":\"" ++ last in
    rw (
      append_assoc id (codes "\",\"seq\":" ++ (print_uint n ++ more)) t,
      append_assoc (print_uint n) more t,
      append_assoc type (codes "\",\"fields\":{") t,
    )

pub command_prefix-append :
    (c : Command) (t : Text)
    → command_prefix c ++ t
      ≡ from_sender c.target_node c.sender
          (numbered c.sequence (codes "CMD") (codes "\"fields\":{" ++ t))
unfolding command_prefix numbered from_node from_sender
command_prefix-append c t =
    let more = codes ",\"type\":\"CMD\",\"fields\":{" in
    let last = codes "\",\"seq\":" ++ (print_uint c.sequence ++ more) in
    rw (
      append_assoc c.target_node (codes "\",\"sender\":\"" ++ (c.sender ++ last)) t,
      append_assoc c.sender last t,
      append_assoc (print_uint c.sequence) more t,
    )

pub nack_json-append :
    (m : NackMessage) (t : Text)
    → nack_json m ++ t
      ≡ from_node m.node_id (
          numbered m.sequence
            (codes "NACK")
            (codes "\"error\":\"" ++ (m.error ++ b'"' ∷ b'}' ∷ b'\n' ∷ t)))
unfolding nack_json numbered from_node
nack_json-append m t =
    let last = m.error ++ codes "\"}\n" in
    let more = codes ",\"type\":\"NACK\",\"error\":\"" ++ last in
    rw (
      append_assoc m.node_id (codes "\",\"seq\":" ++ (print_uint m.sequence ++ more)) t,
      append_assoc (print_uint m.sequence) more t,
      append_assoc m.error (codes "\"}\n") t,
    )

-- The members up to `"type"`, for a handler that takes them.
module _ (h : Handler) (n : ℕ) (type : Text) (plain_type : IsQuotable type)
    {o o1 o2 : h.State} where
  pub read_members-numbered :
      (k : ℕ) (inner : Text)
      → ((t : Text) → h.on_number (codes "seq") (print_uint n ++ b',' ∷ t) o ≡ some (o1, b',' ∷ t))
      → h.on_string (codes "type") type o1 ≡ some o2
      → read_members h (suc (suc k)) o (numbered n type inner) ≡ read_members h k o2 inner
  unfolding numbered text_eq
  read_members-numbered k inner e1 e2 =
      read_members-sequence h (suc k) o n _ (e1 _)
      ∙ read_members-string h k o1 (codes "type") (omega arith) refl type inner plain_type e2
