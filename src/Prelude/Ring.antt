-- ===== src/Prelude/Ring.antt =====
-- The items of a ring buffer: an array of `cap` items read from an index on, going round.
use Prim.Native.Nat.{ℕ, zero, suc, ◌+◌, ◌%◌, ◌<◌}
use mathlib.Core.Path.{◌≡◌, refl, sym, ap, ◌∙◌}
use mathlib.Core.Logic.{◌≢◌}
use mathlib.Core.List.{List, [], ◌∷◌, ◌++◌}
use native.Mathlib.Omega.{arith}
use native.Mathlib.Nat.{mod-add-mod, mod-mod}
use smart_gateway.Prelude.Lists.{get_or, set, length, get_or-set_self, get_or-set_ne}

module _ {ℓ} {A : Type ℓ} (d : A) (cap : ℕ) where
  -- `buf[(head + 0) % cap], …, buf[(head + n - 1) % cap]`
  abbrev pub items_from : List A → ℕ → ℕ → List A
  items_from buf h zero = []
  items_from buf h (suc n) = get_or buf (h % cap) d ∷ items_from buf (h + 1) n

  pub length-items_from : (buf : List A) (h n : ℕ) → length (items_from buf h n) ≡ n
  length-items_from buf h zero = refl
  length-items_from buf h (suc n) = ap suc (length-items_from buf (h + 1) n)

  -- The start may be reduced.
  pub items_from-wrap : (buf : List A) (h n : ℕ) → items_from buf (h % cap) n ≡ items_from buf h n
  items_from-wrap buf h zero = refl
  items_from-wrap buf h (suc n) = rw (mod-mod h cap) (
      ap (λ t. get_or buf (h % cap) d ∷ t)
        (sym (items_from-wrap buf (h % cap + 1) n)
          ∙ ap (λ k. items_from buf k n) (mod-add-mod h cap 1)
          ∙ items_from-wrap buf (h + 1) n))

  -- The last item.
  items_from-last :
      (buf : List A) (h n : ℕ)
      → items_from buf h (suc n) ≡ items_from buf h n ++ get_or buf ((h + n) % cap) d ∷ []
  items_from-last buf h zero = ap (λ k. get_or buf (k % cap) d ∷ []) (omega arith)
  items_from-last buf h (suc n) =
      let e : h + 1 + n ≡ h + suc n = omega arith in
      ap (λ t. get_or buf (h % cap) d ∷ t)
        (items_from-last buf (h + 1) n
          ∙ ap (λ k. items_from buf (h + 1) n ++ get_or buf (k % cap) d ∷ []) e)

  -- A write behind the items does not change them.
  items_from-set :
      (buf : List A) (h n t : ℕ) (x : A)
      → ((k : ℕ) → k < n → t ≢ (h + k) % cap)
      → items_from (set buf t x) h n ≡ items_from buf h n
  items_from-set buf h zero t x apart = refl
  items_from-set buf h (suc n) t x apart = rw (
    get_or-set_ne buf t (h % cap) x d
        (λ e. apart 0 (omega arith) (e ∙ ap (λ k. k % cap) (omega arith))),
    items_from-set buf (h + 1) n t x
        (λ k lt e. apart (suc k) (omega arith) (e ∙ ap (λ k. k % cap) (omega arith))),
  )

  -- A write at the tail of a ring that is not full appends, where `cap` separates close indices.
  pub items_from-push :
      (buf : List A) (h n : ℕ) (x : A)
      → ((k : ℕ) → k < n → (h + n) % cap ≢ (h + k) % cap)
      → (h + n) % cap < length buf
      → items_from (set buf ((h + n) % cap) x) h (suc n) ≡ items_from buf h n ++ x ∷ []
  items_from-push buf h n x apart inside =
      items_from-last (set buf ((h + n) % cap) x) h n
      ∙ rw (
        items_from-set buf h n ((h + n) % cap) x apart,
        get_or-set_self buf ((h + n) % cap) x d inside,
      )
