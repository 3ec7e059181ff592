-- ===== src/NodeStore/Queries.antt =====
-- What the queries say after an update.
use native.Mathlib.Numerals.{add-one}
use smart_gateway.Prelude.{
  ℕ, ◌≤◌, ◌<◌, ◌≡◌, refl, sym, ap, ◌∙◌, arith, Bool, true, false, ltb, ◌&&◌, not, if◌then◌else◌, [],
  ◌∷◌, Option, none, some, length, get_or, Bool-cases, inl, inr, length-set, All-append,
}
use smart_gateway.Prelude.Text.{Text, text_eq}
use smart_gateway.FrameParser.Decode.{KvMessage}
use smart_gateway.MessageJson.Scan.{◌>>=◌}
use smart_gateway.NodeStore.{
  NodeEntry, NodeStore, no_entry, oldest_entry, entry_of, write_entry, node_store_find,
  node_store_now, node_store_update, node_store_query,
}
use smart_gateway.NodeStore.Slots.{
  look, find_entry-bound, IsUsed, look-set_found, look-append, look-set_new, All-get_or, All-set,
  find_entry-id, find_entry-none, IsDistinct-set, IsDistinct-append,
}
use smart_gateway.NodeStore.Updates.{
  active, IsStore, take-set, take-set_end, length-take, get_or-take, find_or_none-look,
}
use smart_gateway.NodeStore.Oldest.{oldest-least}

-- Whether a node loses its slot to a new one.
unfoldable pub evicts : NodeStore → Text → Text → Bool
evicts s new q = elim (node_store_find s new) [
  | some i ↦ false
  | none ↦
      not (ltb s.count s.capacity)
      && text_eq (get_or s.entries (oldest_entry s) no_entry).message.node_id q
]

evicts-known :
    (s : NodeStore) (new q : Text) (i : ℕ) → node_store_find s new ≡ some i → evicts s new q ≡ false
unfolding evicts
evicts-known s new q i e = rw (e, evicts) refl

evicts-new :
    (s : NodeStore) (new q : Text)
    → node_store_find s new ≡ none
    → evicts s new q ≡ (
        not (ltb s.count s.capacity)
        && text_eq (get_or s.entries (oldest_entry s) no_entry).message.node_id q)
unfolding evicts
evicts-new s new q e = rw (e, evicts) refl

message_of : Option NodeEntry → Option KvMessage
message_of none = none
message_of (some e) = some e.message

query-look :
    (s : NodeStore) (q : Text)
    → IsStore s
    → 1 ≤ length q
    → node_store_query s q ≡ message_of (look (active s) q)
unfolding node_store_query message_of
query-look s q v h = rw (find_or_none-look s q v h) (read (look (active s) q))
  where
    read : (x : Option NodeEntry) → (x >>= (λ e. some e.message)) ≡ message_of x
    read none = refl
    read (some e) = refl

message_of-if :
    (b : Bool) (e : NodeEntry) (x : Option NodeEntry)
    → message_of (if b then some e else x) ≡ (if b then some e.message else message_of x)
unfolding message_of
message_of-if true e x = refl
message_of-if false e x = refl

message_of-if_none :
    (b : Bool) (x : Option NodeEntry)
    → message_of (if b then none else x) ≡ (if b then none else message_of x)
unfolding message_of
message_of-if_none true x = refl
message_of-if_none false x = refl

-- What an update of a store in order makes of it: a store in order, and the lookups that follow.
record IsUpdated (s : NodeStore) (m : KvMessage) (t : NodeStore) : Type 0 where
  in_order : IsStore t
  lookup :
      (q : Text)
      → message_of (look (active t) q) ≡ (
          if text_eq m.node_id q
          then some m
          else if evicts s m.node_id q
          then none
          else message_of (look (active s) q))

module _ (s : NodeStore) (m : KvMessage) (now : ℕ) (v : IsStore s)
    (named : 1 ≤ length m.node_id) where
  abbrev entry : NodeEntry
  entry = entry_of now m

  length-active : length (active s) ≡ s.count
  length-active = length-take s.count s.entries (omega (arith, v.size, v.within))

  known-IsUpdated :
      (i : ℕ) → node_store_find s m.node_id ≡ some i → IsUpdated s m (write_entry entry (some i) s)
  unfolding node_store_find message_of
  known-IsUpdated i e =
      let lt : i < s.count =
        omega (arith, find_entry-bound (active s) m.node_id i e, length-active) in
      let was_used : (get_or s.entries i no_entry).used ≡ true =
        ap (λ d. d.used) (sym (get_or-take s.count i s.entries lt))
        ∙ (All-get_or IsUsed (active s) i v.used (omega (arith, length-active))).0 in
      let new = record entry { used = (get_or s.entries i no_entry).used } in
      let shape = take-set s.count i s.entries new lt in
      record {
        in_order = record {
          size = length-set s.entries i new ∙ v.size;
          within = v.within;
          room = v.room;
          used = rw shape (All-set IsUsed (active s) i new v.used (was_used, named));
          distinct = rw shape (
              IsDistinct-set (active s) i new v.distinct
                (inr (sym (find_entry-id (active s) m.node_id i e)))
                (omega (arith, length-active)));
        };
        lookup = λ q.
            ap (λ es. message_of (look es q)) shape
            ∙ ap message_of (look-set_found (active s) i new q v.used was_used e)
            ∙ rw (evicts-known s m.node_id q i e)
                (message_of-if (text_eq m.node_id q) new (look (active s) q));
      }

  new_IsUpdated : node_store_find s m.node_id ≡ none → IsUpdated s m (write_entry entry none s)
  unfolding node_store_find
  new_IsUpdated e =
      let apart_from = find_entry-none (active s) m.node_id v.used e in
      elim (Bool-cases (ltb s.count s.capacity)) [
        | inl room ↦
            let lt : s.count < length s.entries = ground (arith, room, v.size) in
            let shape = take-set_end s.count s.entries entry lt in
            rw (room, add-one)
              (record {
                in_order = record {
                  size = length-set s.entries s.count entry ∙ v.size;
                  within = omega (arith, lt, v.size);
                  room = v.room;
                  used =
                      rw shape
                        (All-append IsUsed (active s) (entry ∷ []) v.used ((refl, named), tt));
                  distinct = rw shape (IsDistinct-append (active s) entry v.distinct apart_from);
                };
                lookup = λ q.
                    ap (λ es. message_of (look es q)) shape
                    ∙ ap message_of (look-append (active s) entry q v.used refl e)
                    ∙ rw (evicts-new s m.node_id q e, room)
                        (message_of-if (text_eq m.node_id q) entry (look (active s) q));
              })
        | inr full ↦
            let some_entry : 1 ≤ s.count = ground (arith, full, v.room) in
            let o = oldest_entry s in
            let lt = (oldest-least s v some_entry).0 in
            let shape = take-set s.count o s.entries entry lt in
            rw full (record {
              in_order = record {
                size = length-set s.entries o entry ∙ v.size;
                within = v.within;
                room = v.room;
                used = rw shape (All-set IsUsed (active s) o entry v.used (refl, named));
                distinct = rw shape (
                    IsDistinct-set (active s) o entry v.distinct (inl apart_from)
                      (omega (arith, length-active, lt)));
              };
              lookup = λ q.
                  ap (λ es. message_of (look es q)) shape
                  ∙ ap message_of (
                      look-set_new (active s) o entry q v.used v.distinct
                        (omega (arith, length-active, lt)) refl e)
                  ∙ rw (evicts-new s m.node_id q e, full)
                      (message_of-if (text_eq m.node_id q) entry _
                        ∙ ap (λ x. if text_eq m.node_id q then some m else x)
                            (message_of-if_none _ (look (active s) q)
                              ∙ ap
                                  (λ d.
                                    if text_eq d.message.node_id q
                                    then none
                                    else message_of (look (active s) q))
                                  (get_or-take s.count o s.entries lt)));
            })
      ]

written-IsUpdated :
    (s : NodeStore) (m : KvMessage) (now : ℕ) (x : Option ℕ)
    → IsStore s
    → 1 ≤ length m.node_id
    → node_store_find s m.node_id ≡ x
    → IsUpdated s m (write_entry (entry_of now m) x s)
written-IsUpdated s m now (some i) v named e = known-IsUpdated s m now v named i e
written-IsUpdated s m now none v named e = new_IsUpdated s m now v named e

update-eq :
    (time : Option ℕ) (m : KvMessage) (s : NodeStore)
    → 1 ≤ length m.node_id
    → (node_store_update time m s).1
      ≡ write_entry (entry_of (node_store_now time) m) (node_store_find s m.node_id) s
unfolding node_store_update
update-eq time m s named = ground (arith, named)

-- An update with a node id keeps a store in order: its capacity, at most that many entries, all in use and
-- with different ids. A query for that node then gives the new data; a query for the node that had to make
-- room, if the store was full and the node is new, finds nothing; and any other query is answered as before.
pub update-query :
    (time : Option ℕ) (m : KvMessage) (s : NodeStore)
    → IsStore s
    → 1 ≤ length m.node_id
    → let t = (node_store_update time m s).1 in
      IsStore t
      × ((q : Text)
          → 1 ≤ length q
          → node_store_query t q ≡ (
              if text_eq m.node_id q
              then some m
              else if evicts s m.node_id q
              then none
              else node_store_query s q))
update-query time m s v named =
    let u =
      written-IsUpdated s m (node_store_now time) (node_store_find s m.node_id) v named refl in
    rw (update-eq time m s named)
      (u.in_order, λ q h. query-look _ q u.in_order h ∙ u.lookup q ∙ rw (query-look s q v h) refl)
