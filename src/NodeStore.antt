-- ===== src/NodeStore.antt =====
-- server/node_store.h and server/node_store.c: the latest data of each node.
--
-- `entries` is the whole array, of which the first `count` are in use. What `time` returns is an
-- argument. NULL tests, the failures of `malloc` and `calloc`, and destroy have no counterpart.
pub mod Slots
pub mod Updates
pub mod Oldest
pub mod Queries
mod Tests
use smart_gateway.Prelude.{
  ℕ, zero, suc, ◌+◌, ltb, ◌==◌, if◌then◌else◌, Bool, true, false, ◌&&◌, not, List, [], ◌∷◌, Option,
  none, some, length, get_or, set, take, drop, replicate,
}
use smart_gateway.Prelude.Text.{Text, codes, text_eq}
use smart_gateway.Prelude.Int.{ℤ, pos, negsuc}
use smart_gateway.Frame.Kinds.{DeviceType, frame_device_type_from_text}
use smart_gateway.FrameParser.Decode.{KvMessage, frame_data_find_field}
use smart_gateway.MessageJson.Scan.{◌>>=◌}

-- `node_entry_t`
pub record NodeEntry : Type 0 where
  pub used : Bool
  pub last_update : ℕ
  pub message : KvMessage

pub record NodeStore : Type 0 where
  pub entries : List NodeEntry
  pub capacity : ℕ
  pub count : ℕ

abbrev pub no_data : KvMessage
no_data = record { node_id = []; sequence = 0; fields = [] }

-- An entry after `calloc`.
abbrev pub no_entry : NodeEntry
no_entry = record { used = false; last_update = 0; message = no_data }

-- A time is not negative, but for the error -1.
unfoldable pub node_store_now : Option ℕ → ℕ
node_store_now none = 0
node_store_now (some now) = now

unfoldable pub node_store_create : ℕ → Option NodeStore
node_store_create max_nodes =
    if max_nodes == 0
    then none
    else some (record { entries = replicate max_nodes no_entry; capacity = max_nodes; count = 0 })

-- The loop of the searches, over the entries in use: the index of the entry.
unfoldable pub find_entry : List NodeEntry → Text → Option ℕ
find_entry [] node_id = none
find_entry (e ∷ es) node_id =
    if e.used && text_eq e.message.node_id node_id
    then some 0
    else elim (find_entry es node_id) [ none ↦ none | some i ↦ some (suc i) ]

unfoldable pub node_store_find : NodeStore → Text → Option ℕ
node_store_find store node_id = find_entry (take store.count store.entries) node_id

-- The loop that looks for the oldest entry: `rest` holds the entries from index `i` on.
unfoldable pub oldest_from : List NodeEntry → List NodeEntry → ℕ → ℕ → ℕ
oldest_from entries [] i oldest = oldest
oldest_from entries (e ∷ rest) i oldest =
    oldest_from entries rest (i + 1)
      (if ltb e.last_update (get_or entries oldest no_entry).last_update then i else oldest)

unfoldable pub oldest_entry : NodeStore → ℕ
oldest_entry store = oldest_from store.entries (drop 1 (take store.count store.entries)) 1 0

-- An entry with these data.
abbrev pub entry_of : ℕ → KvMessage → NodeEntry
entry_of now message = record { used = true; last_update = now; message = message }

abbrev pub put : NodeStore → ℕ → ℕ → NodeEntry → NodeStore
put store count i e = record store { entries = set store.entries i e; count = count }

-- The slot of a node that is new: a free one, or the oldest.
abbrev pub add_entry : NodeEntry → NodeStore → NodeStore
add_entry e store =
    if ltb store.count store.capacity
    then put store (store.count + 1) store.count e
    else put store store.count (oldest_entry store) e

-- A node that is known keeps its slot.
abbrev pub write_entry : NodeEntry → Option ℕ → NodeStore → NodeStore
write_entry e none store = add_entry e store
write_entry e (some i) store =
    put store store.count i (record e { used = (get_or store.entries i no_entry).used })

-- `false` is the result -1.
unfoldable pub node_store_update : Option ℕ → KvMessage → NodeStore → Bool × NodeStore
node_store_update time message store = if length message.node_id == 0 then (false, store) else (
  true,
  write_entry (entry_of (node_store_now time) message) (node_store_find store message.node_id)
      store,
)

abbrev pub entry_at : NodeStore → Option ℕ → Option NodeEntry
entry_at store none = none
entry_at store (some i) = some (get_or store.entries i no_entry)

-- The entry that a query with this id works on.
unfoldable pub find_or_none : NodeStore → Text → Option NodeEntry
find_or_none store node_id =
    if length node_id == 0 then none else entry_at store (node_store_find store node_id)

unfoldable pub node_store_query : NodeStore → Text → Option KvMessage
node_store_query store node_id = do e ← find_or_none store node_id; some e.message

unfoldable pub node_store_query_device_type : NodeStore → Text → Option DeviceType
node_store_query_device_type store node_id = do
  e ← find_or_none store node_id
  some (frame_device_type_from_text (frame_data_find_field e.message (codes "DEV")))

-- `now - last_update < timeout_sec`, where the difference may be negative.
unfoldable pub node_store_is_online : NodeStore → Text → Option ℕ → ℤ → Option Bool
node_store_is_online store node_id time (negsuc t) = none
node_store_is_online store node_id time (pos timeout_sec) = do
  e ← find_or_none store node_id
  some (ltb (node_store_now time) (e.last_update + timeout_sec))

-- The entries that the callback sees, up to the one where it returns something else than 0; `stops`
-- tells which one that is.
unfoldable pub visit : (NodeEntry → Bool) → List NodeEntry → List NodeEntry
visit stops [] = []
visit stops (e ∷ es) =
    let rest = visit stops es in if not e.used then rest else if stops e then e ∷ [] else e ∷ rest

unfoldable pub node_store_foreach : (NodeEntry → Bool) → NodeStore → List NodeEntry
node_store_foreach stops store = visit stops (take store.count store.entries)
