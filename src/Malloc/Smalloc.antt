-- ===== src/Malloc/Smalloc.antt =====
-- virtual_memory/malloc_2.cpp: `smalloc` keeps the list and the statistics, and what it gives.
use operating_system_related.Prelude.{
  ℕ, zero, suc, ◌+◌, ◌≤◌, ◌<◌, ◌≡◌, refl, sym, ap, true, Option, none, some, List, [], ◌∷◌, ◌++◌,
  arith, length, length-append, if◌then◌else◌, ◌==◌, ◌⊎◌, inl, inr, ltb, ◌||◌, Bool-cases,
}
use mathlib.Core.Path.{subst}
use operating_system_related.Malloc.{
  Ptr, Break, Memory, size_limit, size_meta_data, put, new_block, Search, found, exhausted,
  out_of_fuel, search, after_first_sbrk, first_allocation, after_sbrk, after_search, smalloc,
}
use operating_system_related.Malloc.Layout.{
  Blocks, put_self, IsIn, IsIn-within, Blocks-low, is_null, not_null,
}
use operating_system_related.Malloc.Additions.{
  last_block, Finds, search-Finds, with_block, with_block-Blocks,
}
use operating_system_related.Malloc.Invariant.{IsHeap, Gives, take_block-Gives, more-Totals}

last-IsIn : (blocks : List Ptr) (p : Ptr) → IsIn p (blocks ++ p ∷ [])
last-IsIn [] p = inl refl
last-IsIn (a ∷ rest) p = inr (last-IsIn rest p)

front-IsIn : (x : Ptr) (blocks more : List Ptr) → IsIn x blocks → IsIn x (blocks ++ more)
front-IsIn x [] more i = absurd i
front-IsIn x (a ∷ rest) more (inl here) = inl here
front-IsIn x (a ∷ rest) more (inr there) = inr (front-IsIn x rest more there)

module _ (break : Break) where
  open break use {State, sbrk, top, top_lt, sbrk_some, sbrk_none}

  higher_break :
      (m : Memory break) (blocks : List Ptr) (s : State)
      → IsHeap break m blocks
      → top m.breaks ≤ top s
      → IsHeap break (record m { breaks = s }) blocks
  higher_break m blocks s h le = record {
    linked = Blocks-low m.headers 1 (top m.breaks) (top s) 0 m.heap.head blocks le h.linked;
    totals = h.totals;
  }

  after_sbrk-Gives :
      (m : Memory break) (a : Ptr) (rest : List Ptr) (size : ℕ)
      → IsHeap break m (a ∷ rest)
      → (r : Option Ptr) → (sbrk m.breaks (size + size_meta_data)).0 ≡ r
      → Gives break m (a ∷ rest) size (
          some (
            after_sbrk break m
              (last_block a rest)
              size
              r
              (sbrk m.breaks (size + size_meta_data)).1))
  unfolding after_sbrk
  after_sbrk-Gives m a rest size h none e = (
    a ∷ rest,
    higher_break m (a ∷ rest) _ h (sbrk_none m.breaks (size + size_meta_data) e),
    inl (refl, inr (inr e), refl, refl),
  )
  after_sbrk-Gives m a rest size h (some p) e =
      let s = (sbrk m.breaks (size + size_meta_data)).1 in
      let (pos, above, fits) = sbrk_some m.breaks (size + size_meta_data) p e in
      let (b, x, y, z, n, same) =
        with_block-Blocks m.headers 1 (top m.breaks) 0 m.heap.head a rest p size (top s) h.linked
          above fits in
      (
        (a ∷ rest) ++ p ∷ [],
        record {
          linked = b;
          totals =
              more-Totals break m.heap m.heap m.headers
                (with_block m.headers p size (last_block a rest)) (a ∷ rest) ((a ∷ rest) ++ p ∷ [])
                size 1 (top s) m.heap.head 0 h.totals b (top_lt s)
                (length-append (a ∷ rest) (p ∷ [])) x y z;
        },
        inr (record {
          block = p;
          address = refl;
          inside = last-IsIn (a ∷ rest) p;
          unused = λ i. absurd (too_high i above);
          used = ap (λ k. k.is_free) n;
          fits = omega (arith, ap (λ k. k.size) n);
          kept = λ x i. (front-IsIn x (a ∷ rest) (p ∷ []) i, (same x i).0, λ ne. (same x i).1);
          contents = refl;
        }),
      )
    where
      too_high : IsIn p (a ∷ rest) → top m.breaks ≤ p → ⊥
      too_high i above =
          let (low, high) =
            IsIn-within m.headers 1 (top m.breaks) 0 m.heap.head p (a ∷ rest) h.linked i in
          omega (arith, high, above)

  after_search-Gives :
      (m : Memory break) (a : Ptr) (rest : List Ptr) (size : ℕ)
      → IsHeap break m (a ∷ rest)
      → (r : Search) → Finds m.headers size a rest r
      → Gives break m (a ∷ rest) size (after_search break m size r)
  unfolding after_search
  after_search-Gives m a rest size h (found q) (i, free, fits) =
      take_block-Gives break m (a ∷ rest) size q h i free fits
  after_search-Gives m a rest size h (exhausted q) (e, small) =
      rw e (after_sbrk-Gives m a rest size h (sbrk m.breaks (size + size_meta_data)).0 refl)
  after_search-Gives m a rest size h out_of_fuel never = absurd never

  first-Gives :
      (m : Memory break) (size : ℕ)
      → IsHeap break m []
      → (r : Option Ptr) → (sbrk m.breaks (size + size_meta_data)).0 ≡ r
      → Gives break m [] size
          (some (after_first_sbrk break m size r (sbrk m.breaks (size + size_meta_data)).1))
  unfolding after_first_sbrk
  first-Gives m size h none e = (
    [],
    higher_break m [] _ h (sbrk_none m.breaks (size + size_meta_data) e),
    inl (refl, inr (inr e), refl, refl),
  )
  first-Gives m size h (some p) e =
      let s = (sbrk m.breaks (size + size_meta_data)).1 in
      let (pos, above, fits) = sbrk_some m.breaks (size + size_meta_data) p e in
      let d = put m.headers p (new_block size 0) in
      let n = put_self m.headers p (new_block size 0) in
      let b : Blocks d 1 (top s) 0 p (p ∷ []) = (
        refl,
        omega (arith, pos),
        ap (λ k. k.prev) n,
        (ap (λ k. k.next) n, omega (arith, ap (λ k. k.size) n, fits)),
      ) in
      (
        p ∷ [],
        record {
          linked = b;
          totals =
              more-Totals break m.heap (record m.heap { head = p }) m.headers d [] (p ∷ []) size 1
                (top s) p 0 h.totals b (top_lt s) refl (rw n refl) (rw n refl) (rw n (omega arith));
        },
        inr (record {
          block = p;
          address = refl;
          inside = inl refl;
          unused = λ i. absurd i;
          used = ap (λ k. k.is_free) n;
          fits = omega (arith, ap (λ k. k.size) n);
          kept = λ x i. absurd i;
          contents = refl;
        }),
      )

  list-Gives :
      (fuel : ℕ) (m : Memory break) (blocks : List Ptr) (size : ℕ)
      → IsHeap break m blocks
      → length blocks ≤ fuel
      → Gives break m blocks size (
          if m.heap.head == 0
          then some (first_allocation break m size)
          else after_search break m size (search fuel m.headers m.heap.head size))
  unfolding first_allocation
  list-Gives fuel m [] size h less =
      rw (is_null m.heap.head h.linked.0)
        (first-Gives m size h (sbrk m.breaks (size + size_meta_data)).0 refl)
  list-Gives fuel m (a ∷ rest) size h less =
      let (e, pos, back, more) = h.linked in
      rw (not_null m.heap.head (λ z. omega (arith, z, pos, e))) (
        after_search-Gives m a rest size h (search fuel m.headers m.heap.head size) (
          subst (λ p. Finds m.headers size a rest (search fuel m.headers p size)) (sym e)
            (search-Finds fuel m.headers size 1 (top m.breaks) 0 m.heap.head a rest h.linked less)))

  -- With fuel for the blocks `smalloc` ends, keeps the list of the blocks and the statistics, and
  -- returns NULL only for a size of 0 or above the limit or if `sbrk` fails; otherwise it returns the
  -- space behind the header of a block of the list that is at least of that size, was not in use
  -- before, and is in use now.
  pub smalloc-Gives :
      (fuel : ℕ) (m : Memory break) (blocks : List Ptr) (size : ℕ)
      → IsHeap break m blocks
      → length blocks ≤ fuel
      → Gives break m blocks size (smalloc break fuel m size)
  unfolding smalloc
  smalloc-Gives fuel m blocks size h less = elim (Bool-cases ((size == 0) || ltb size_limit size)) [
    | inl t ↦ rw t (blocks, h, inl (refl, refused size t, refl, refl))
    | inr f ↦ rw f (list-Gives fuel m blocks size h less)
  ]
    where
      refused :
          (size : ℕ)
          → ((size == 0) || ltb size_limit size) ≡ true
          → (size ≡ 0) ⊎ (size_limit < size) ⊎ ((sbrk m.breaks (size + size_meta_data)).0 ≡ none)
      refused zero t = inl refl
      refused (suc n) t = inr (inl (ground arith))
