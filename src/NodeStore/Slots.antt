-- ===== src/NodeStore/Slots.antt =====
-- The searches as a lookup in the list of the entries in use.
use smart_gateway.Prelude.{
  ℕ, zero, suc, ◌≤◌, ◌<◌, ◌≡◌, refl, sym, ap, ◌∙◌, arith, true, false, ◌&&◌, if◌then◌else◌, List,
  [], ◌∷◌, ◌++◌, Option, none, some, length, get_or, set, Bool-cases, inl, inr, All, All-append,
  ◌⊎◌,
}
use smart_gateway.Prelude.Text.{Text, text_eq, eq_of_text_eq, text_eq_refl}
use smart_gateway.NodeStore.{NodeEntry, no_entry, find_entry}

-- The first entry with an id.
unfoldable pub look : List NodeEntry → Text → Option NodeEntry
look [] q = none
look (e ∷ es) q = if e.used && text_eq e.message.node_id q then some e else look es q

abbrev pub entry_or_none : List NodeEntry → Option ℕ → Option NodeEntry
entry_or_none es none = none
entry_or_none es (some i) = some (get_or es i no_entry)

pub look-find_entry :
    (es : List NodeEntry) (q : Text) → entry_or_none es (find_entry es q) ≡ look es q
unfolding look find_entry
look-find_entry [] q = refl
look-find_entry (e ∷ es) q = ground (arith, look-find_entry es q)

pub find_entry-bound :
    (es : List NodeEntry) (q : Text) (i : ℕ) → find_entry es q ≡ some i → i < length es
unfolding find_entry
find_entry-bound [] q i h = absurd (cc h)
find_entry-bound (e ∷ es) q zero h = omega arith
find_entry-bound (e ∷ es) q (suc i) h = ground (arith, find_entry-bound es q i, h)

-- Every entry is in use.
abbrev pub IsUsed : NodeEntry → Type 0
IsUsed e = (e.used ≡ true) × (1 ≤ length e.message.node_id)

-- Different ids are not both sought.
pub apart : (a b q : Text) → text_eq a b ≡ false → text_eq a q ≡ true → text_eq b q ≡ false
apart a b q differ e = elim (Bool-cases (text_eq b q)) [
  | inr other ↦ other
  | inl found ↦
      let same : a ≡ b = eq_of_text_eq a q e ∙ sym (eq_of_text_eq b q found) in
      absurd (cc (differ, text_eq_refl b, ap (λ x. text_eq x b) same))
]

found_head :
    (d : NodeEntry) (es : List NodeEntry) (q : Text)
    → find_entry (d ∷ es) q ≡ some 0
    → d.message.node_id ≡ q
unfolding find_entry
found_head d es q h = eq_of_text_eq d.message.node_id q (ground (arith, h))

-- A head that has another id.
passed_head :
    (d : NodeEntry) (es : List NodeEntry) (q : Text) (i : ℕ)
    → d.used ≡ true
    → find_entry (d ∷ es) q ≡ some (suc i)
    → (text_eq d.message.node_id q ≡ false) × (find_entry es q ≡ some i)
unfolding find_entry
passed_head d es q i u h = ground (arith, u, h)

pub no_head :
    (d : NodeEntry) (es : List NodeEntry) (q : Text)
    → d.used ≡ true
    → find_entry (d ∷ es) q ≡ none
    → (text_eq d.message.node_id q ≡ false) × (find_entry es q ≡ none)
unfolding find_entry
no_head d es q u h = ground (arith, u, h)

-- An entry in place of the one with its id.
pub look-set_found :
    (es : List NodeEntry) (i : ℕ) (e : NodeEntry) (q : Text)
    → All IsUsed es
    → e.used ≡ true
    → find_entry es e.message.node_id ≡ some i
    → look (set es i e) q ≡ (if text_eq e.message.node_id q then some e else look es q)
unfolding look
look-set_found [] i e q us u h = absurd (unfold find_entry in cc h)
look-set_found (d ∷ es) zero e q us u h =
    rw (u, us.0.0, found_head d es e.message.node_id h) (ground arith)
look-set_found (d ∷ es) (suc i) e q us u h =
    let (other, next) = passed_head d es e.message.node_id i us.0.0 h in
    let rest = look-set_found es i e q us.1 u next in
    rw (rest, us.0.0) (ground (arith, apart d.message.node_id e.message.node_id q other))

-- An entry with a new id behind the others.
pub look-append :
    (es : List NodeEntry) (e : NodeEntry) (q : Text)
    → All IsUsed es
    → e.used ≡ true
    → find_entry es e.message.node_id ≡ none
    → look (es ++ e ∷ []) q ≡ (if text_eq e.message.node_id q then some e else look es q)
unfolding look
look-append [] e q us u h = rw u refl
look-append (d ∷ es) e q us u h =
    let (other, next) = no_head d es e.message.node_id us.0.0 h in
    let rest = look-append es e q us.1 u next in
    rw (rest, us.0.0) (ground (arith, apart d.message.node_id e.message.node_id q other))

pub All-get_or :
    (P : NodeEntry → Type 0) (es : List NodeEntry) (i : ℕ)
    → All P es
    → i < length es
    → P (get_or es i no_entry)
All-get_or P [] i h lt = absurd (omega arith)
All-get_or P (d ∷ es) zero h lt = h.0
All-get_or P (d ∷ es) (suc i) h lt = All-get_or P es i h.1 (omega arith)

-- The ids are different.
abbrev pub IsDistinct : List NodeEntry → Type 0
IsDistinct [] = Unit
IsDistinct (d ∷ es) =
    All (λ e. text_eq d.message.node_id e.message.node_id ≡ false) es × IsDistinct es

look-none :
    (d : Text) (es : List NodeEntry) (q : Text)
    → All (λ e. text_eq d e.message.node_id ≡ false) es
    → text_eq d q ≡ true
    → look es q ≡ none
unfolding look
look-none d [] q h e = refl
look-none d (c ∷ es) q h e =
    rw (apart d c.message.node_id q h.0 e, look-none d es q h.1 e) (ground arith)

-- An entry with a new id in place of another, whose id is not found any more.
pub look-set_new :
    (es : List NodeEntry) (i : ℕ) (e : NodeEntry) (q : Text)
    → All IsUsed es
    → IsDistinct es
    → i < length es
    → e.used ≡ true
    → find_entry es e.message.node_id ≡ none
    → look (set es i e) q ≡ (
        if text_eq e.message.node_id q
        then some e
        else if text_eq (get_or es i no_entry).message.node_id q
        then none
        else look es q)
unfolding look
look-set_new [] i e q us ds lt u h = absurd (omega arith)
look-set_new (d ∷ es) zero e q us ds lt u h =
    let gone = look-none d.message.node_id es q ds.0 in rw (u, us.0.0) (ground (arith, gone))
look-set_new (d ∷ es) (suc i) e q us ds lt u h =
    let (other, next) = no_head d es e.message.node_id us.0.0 h in
    let rest = look-set_new es i e q us.1 ds.1 (omega arith) u next in
    let there =
      All-get_or (λ c. text_eq d.message.node_id c.message.node_id ≡ false) es i ds.0
        (omega arith) in
    rw (rest, us.0.0)
      (ground (
        arith,
        apart d.message.node_id e.message.node_id q other,
        apart d.message.node_id (get_or es i no_entry).message.node_id q there,
      ))

pub All-set :
    (P : NodeEntry → Type 0) (es : List NodeEntry) (i : ℕ) (e : NodeEntry)
    → All P es
    → P e
    → All P (set es i e)
All-set P [] i e h p = tt
All-set P (d ∷ es) zero e h p = (p, h.1)
All-set P (d ∷ es) (suc i) e h p = (h.0, All-set P es i e h.1 p)

-- The entry that a search finds has the id.
pub find_entry-id :
    (es : List NodeEntry) (q : Text) (i : ℕ)
    → find_entry es q ≡ some i
    → (get_or es i no_entry).message.node_id ≡ q
find_entry-id [] q i h = absurd (unfold find_entry in cc h)
find_entry-id (d ∷ es) q zero h = found_head d es q h
find_entry-id (d ∷ es) q (suc i) h = find_entry-id es q i (unfold find_entry in ground (arith, h))

-- An id that no search finds differs from all.
pub find_entry-none :
    (es : List NodeEntry) (q : Text)
    → All IsUsed es
    → find_entry es q ≡ none
    → All (λ e. text_eq e.message.node_id q ≡ false) es
find_entry-none [] q us h = tt
find_entry-none (d ∷ es) q us h =
    let (other, next) = no_head d es q us.0.0 h in (other, find_entry-none es q us.1 next)

text_eq-flip : (a b : Text) → text_eq a b ≡ false → text_eq b a ≡ false
text_eq-flip a b h = apart a b a h (text_eq_refl a)

pub IsDistinct-set :
    (es : List NodeEntry) (i : ℕ) (e : NodeEntry)
    → IsDistinct es
    → All (λ d. text_eq d.message.node_id e.message.node_id ≡ false) es
      ⊎ (e.message.node_id ≡ (get_or es i no_entry).message.node_id)
    → i < length es
    → IsDistinct (set es i e)
IsDistinct-set [] i e ds new lt = tt
IsDistinct-set (d ∷ es) zero e ds (inl new) lt = (All-flip es new.1, ds.1)
  where
    All-flip :
        (cs : List NodeEntry)
        → All (λ c. text_eq c.message.node_id e.message.node_id ≡ false) cs
        → All (λ c. text_eq e.message.node_id c.message.node_id ≡ false) cs
    All-flip [] h = tt
    All-flip (c ∷ cs) h = (text_eq-flip c.message.node_id e.message.node_id h.0, All-flip cs h.1)
IsDistinct-set (d ∷ es) zero e ds (inr same) lt = rw same ds
IsDistinct-set (d ∷ es) (suc i) e ds (inl new) lt = (
  All-set (λ c. text_eq d.message.node_id c.message.node_id ≡ false) es i e ds.0 new.0,
  IsDistinct-set es i e ds.1 (inl new.1) (omega arith),
)
IsDistinct-set (d ∷ es) (suc i) e ds (inr same) lt = (
  All-set (λ c. text_eq d.message.node_id c.message.node_id ≡ false) es i e ds.0
      (ap (text_eq d.message.node_id) same
        ∙ All-get_or (λ c. text_eq d.message.node_id c.message.node_id ≡ false) es i ds.0
            (omega arith)),
  IsDistinct-set es i e ds.1 (inr same) (omega arith),
)

pub IsDistinct-append :
    (es : List NodeEntry) (e : NodeEntry)
    → IsDistinct es
    → All (λ d. text_eq d.message.node_id e.message.node_id ≡ false) es
    → IsDistinct (es ++ e ∷ [])
IsDistinct-append [] e ds new = (tt, tt)
IsDistinct-append (d ∷ es) e ds new = (
  All-append (λ c. text_eq d.message.node_id c.message.node_id ≡ false) es (e ∷ []) ds.0
      (new.0, tt),
  IsDistinct-append es e ds.1 new.1,
)
