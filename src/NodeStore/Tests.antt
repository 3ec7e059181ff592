-- ===== src/NodeStore/Tests.antt =====
-- The store at concrete inputs.
use smart_gateway.Prelude.{
  ◌≡◌, ◌≤◌, ◌<◌, refl, arith, true, [], ◌∷◌, some, none, length, if◌then◌else◌, get_or, All,
}
use smart_gateway.Prelude.Text.{Text, codes, text_eq}
use smart_gateway.Prelude.Int.{pos}
use smart_gateway.FrameParser.Decode.{KvMessage}
use smart_gateway.NodeStore.{
  NodeStore, no_entry, entry_of, find_entry, oldest_from, oldest_entry, node_store_find,
  node_store_now, node_store_update, node_store_query, node_store_is_online, find_or_none,
}
use smart_gateway.NodeStore.Updates.{active, IsStore}
use smart_gateway.NodeStore.Oldest.{oldest-least}
use smart_gateway.NodeStore.Queries.{evicts, update-query}

abbrev message_from : Text → KvMessage
message_from id = record { node_id = id; sequence = 1; fields = [] }

-- Two nodes fill the store.
abbrev full_store : NodeStore
full_store = record {
  entries = entry_of 20 (message_from (codes "A")) ∷ entry_of 10 (message_from (codes "B")) ∷ [];
  capacity = 2;
  count = 2;
}

oldest_is_replaced :
    (node_store_update (some 30) (message_from (codes "C")) full_store).1.entries
    ≡ entry_of 20 (message_from (codes "A")) ∷ entry_of 30 (message_from (codes "C")) ∷ []
unfolding node_store_update node_store_now node_store_find find_entry oldest_entry oldest_from
    text_eq
oldest_is_replaced = refl

-- A clock that went back leaves the node online.
back_in_time : node_store_is_online full_store (codes "A") (some 5) (pos 1) ≡ some true
unfolding node_store_is_online find_or_none node_store_find find_entry text_eq node_store_now
back_in_time = refl

full_store-IsStore : IsStore full_store
unfolding text_eq
full_store-IsStore = record {
  size = refl;
  within = omega arith;
  room = omega arith;
  used = ((refl, omega arith), ((refl, omega arith), tt));
  distinct = ((refl, tt), (tt, tt));
}

update-query_example :
    let t = (node_store_update (some 30) (message_from (codes "C")) full_store).1 in
    IsStore t
    × ((q : Text)
        → 1 ≤ length q
        → node_store_query t q ≡ (
            if text_eq (codes "C") q
            then some (message_from (codes "C"))
            else if evicts full_store (codes "C") q
            then none
            else node_store_query full_store q))
update-query_example =
    update-query (some 30) (message_from (codes "C")) full_store full_store-IsStore (omega arith)

oldest-least_example :
    (oldest_entry full_store < 2)
    × All
        (λ e.
          (get_or full_store.entries (oldest_entry full_store) no_entry).last_update
          ≤ e.last_update)
        (active full_store)
oldest-least_example = oldest-least full_store full_store-IsStore (omega arith)
