-- ===== src/Malloc3/BestFit.antt =====
-- virtual_memory/malloc_3.cpp: the search of `smalloc` finds the smallest block that is large enough.
use operating_system_related.Prelude.{
  ℕ, zero, suc, ◌≤◌, ◌<◌, ◌≡◌, ◌≢◌, refl, sym, ap, ◌∙◌, Bool, true, false, ◌&&◌, inl, inr, Option,
  none, some, List, [], ◌∷◌, if◌then◌else◌, ◌==◌, leb, arith, length, Bool-cases,
}
use mathlib.Core.Path.{subst}
use operating_system_related.Malloc.{Ptr}
use operating_system_related.Malloc.Layout.{IsIn}
use operating_system_related.Malloc3.{MallocMetadata, Memory, ended, Run, result}
use operating_system_related.Malloc3.Allocate.{search_free}
use operating_system_related.Malloc3.Links.{IsChain, AreValid, load-then}
use operating_system_related.Malloc3.Steps.{if_true, if_false, validate-then}
use operating_system_related.Malloc3.Sorted.{AreSorted}

-- The block is free and large enough.
abbrev pub fits : (c : Ptr → MallocMetadata) (size : ℕ) (p : Ptr) → Bool
fits c size p = (c p).is_free && leb size (c p).size

-- A block that fits, and is as small as any that does; or none, where none fits.
abbrev pub IsBestFit : (c : Ptr → MallocMetadata) (size : ℕ) → List Ptr → Option Ptr → Type 0
IsBestFit c size blocks none = (x : Ptr) → IsIn x blocks → fits c size x ≡ false
IsBestFit c size blocks (some p) =
    IsIn p blocks
    × (fits c size p ≡ true)
    × ((x : Ptr) → IsIn x blocks → fits c size x ≡ true → (c p).size ≤ (c x).size)

not_both : (b : Bool) → b ≡ true → b ≡ false → ⊥
not_both b t f = cc

AreSorted-le :
    (c : Ptr → MallocMetadata) (least : ℕ) (blocks : List Ptr) (x : Ptr)
    → AreSorted c least blocks
    → IsIn x blocks
    → least ≤ (c x).size
AreSorted-le c least [] x h i = absurd i
AreSorted-le c least (q ∷ blocks) x (le, h) (inl e) = subst (λ k. least ≤ (c k).size) (sym e) le
AreSorted-le c least (q ∷ blocks) x (le, h) (inr i) =
    omega (arith, le, AreSorted-le c (c q).size blocks x h i)

-- The block at the front does not fit: what is found behind it is the best.
skip-IsBestFit :
    (c : Ptr → MallocMetadata) (size : ℕ) (q : Ptr) (blocks : List Ptr) (r : Option Ptr)
    → fits c size q ≡ false
    → IsBestFit c size blocks r
    → IsBestFit c size (q ∷ blocks) r
skip-IsBestFit c size q blocks none f h = nothing
  where
    nothing : (x : Ptr) → IsIn x (q ∷ blocks) → fits c size x ≡ false
    nothing x (inl e) = subst (λ k. fits c size k ≡ false) (sym e) f
    nothing x (inr i) = h x i
skip-IsBestFit c size q blocks (some p) f (i, ok, best) = (inr i, ok, smallest)
  where
    smallest : (x : Ptr) → IsIn x (q ∷ blocks) → fits c size x ≡ true → (c p).size ≤ (c x).size
    smallest x (inl e) t =
        absurd (not_both (fits c size q) (subst (λ k. fits c size k ≡ true) e t) f)
    smallest x (inr j) t = best x j t

here-IsBestFit :
    (c : Ptr → MallocMetadata) (size q : ℕ) (blocks : List Ptr)
    → fits c size q ≡ true
    → AreSorted c (c q).size blocks
    → IsBestFit c size (q ∷ blocks) (some q)
here-IsBestFit c size q blocks t h = (inl refl, t, smallest)
  where
    smallest : (x : Ptr) → IsIn x (q ∷ blocks) → fits c size x ≡ true → (c q).size ≤ (c x).size
    smallest x (inl e) k = subst (λ y. (c q).size ≤ (c y).size) (sym e) (omega arith)
    smallest x (inr j) k = AreSorted-le c (c q).size blocks x h j

module _ {S : Type 0} (size : ℕ) where
  module _ (p : Ptr) (m : Memory S) (n : p ≢ 0) (v : (m.headers p).cookie ≡ m.main_cookie)
      (fuel : ℕ) where
    -- The search at `p`, after its header was read.
    abbrev at_header : Run S (Option Ptr)
    at_header =
        if fits m.headers size p
        then result (some p)
        else if (m.headers p).next == 0
        then result none
        else search_free fuel (m.headers p).next size

    read_lem : search_free (suc fuel) p size m ≡ at_header m
    unfolding search_free
    read_lem = validate-then p _ m v ∙ load-then p _ m n

    search_found : fits m.headers size p ≡ true → search_free (suc fuel) p size m ≡ ended (some p) m
    search_found t =
        read_lem ∙ ap (λ (r : Run S (Option Ptr)). r m) (if_true (fits m.headers size p) _ _ t)

    search_last :
        fits m.headers size p ≡ false
        → (m.headers p).next ≡ 0
        → search_free (suc fuel) p size m ≡ ended none m
    search_last f e =
        read_lem
        ∙ (ap (λ (r : Run S (Option Ptr)). r m) (if_false (fits m.headers size p) _ _ f)
            ∙ ap (λ (r : Run S (Option Ptr)). r m)
                (if_true ((m.headers p).next == 0) (result none) _ (ground (arith, e))))

    search_next :
        fits m.headers size p ≡ false
        → (m.headers p).next ≢ 0
        → search_free (suc fuel) p size m ≡ search_free fuel (m.headers p).next size m
    search_next f ne =
        read_lem
        ∙ (ap (λ (r : Run S (Option Ptr)). r m) (if_false (fits m.headers size p) _ _ f)
            ∙ ap (λ (r : Run S (Option Ptr)). r m)
                (if_false ((m.headers p).next == 0) (result none) _ (ground (arith, ne))))

  -- The list is linked and sorted by size, its cookies are right, and the rounds are as many as the
  -- blocks. Then the search of `smalloc` ends and changes nothing. It finds a free block of the size or
  -- more, and no such block of the list is smaller; or none, and then the list has no such block.
  pub search_free-IsBestFit :
      (qs : List Ptr) (fuel least : ℕ) (before q p : Ptr) (m : Memory S)
      → length qs < fuel
      → IsChain m.headers before p (q ∷ qs)
      → AreValid m.main_cookie m.headers (q ∷ qs)
      → AreSorted m.headers least (q ∷ qs)
      → (r : Option Ptr) × (search_free fuel q size m ≡ ended r m)
        × IsBestFit m.headers size (q ∷ qs) r
  search_free-IsBestFit [] zero least before q p m few c vs s = absurd (omega (arith, few))
  search_free-IsBestFit (r ∷ rs) zero least before q p m few c vs s = absurd (omega (arith, few))
  search_free-IsBestFit [] (suc fuel) least before q p m few (e, nq, pq, f) (v, vs) (le, s) =
      elim (Bool-cases (fits m.headers size q)) [
        | inl t ↦ (some q, search_found q m nq v fuel t, here-IsBestFit m.headers size q [] t s)
        | inr g ↦ (
          none,
          search_last q m nq v fuel g f,
          skip-IsBestFit m.headers size q [] none g (λ x i. absurd i),
        )
      ]
  search_free-IsBestFit (r ∷ rs) (suc fuel) least before q p m few (e, nq, pq, (f, nr, pr, h))
        (v, vs) (le, s) =
      let (a, x, y) =
        search_free-IsBestFit rs fuel (m.headers q).size q r r m (omega (arith, few))
          (refl, nr, pr, h) vs s in
      elim (Bool-cases (fits m.headers size q)) [
        | inl t ↦
            (some q, search_found q m nq v fuel t, here-IsBestFit m.headers size q (r ∷ rs) t s)
        | inr g ↦ (
          a,
          search_next q m nq v fuel g (λ z. nr (sym f ∙ z))
              ∙ (ap (λ k. search_free fuel k size m) f ∙ x),
          skip-IsBestFit m.headers size q (r ∷ rs) a g y,
        )
      ]
