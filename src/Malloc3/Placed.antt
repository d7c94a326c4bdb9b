-- ===== src/Malloc3/Placed.antt =====
-- virtual_memory/malloc_3.cpp: the loop of `HeapListInsert`, from a block that stays before the new one.
use operating_system_related.Prelude.{
  ℕ, zero, suc, ◌<◌, ◌≤◌, ◌≡◌, ◌≢◌, refl, sym, ap, ◌∙◌, true, false, ◌&&◌, inl, inr, List, [], ◌∷◌,
  if◌then◌else◌, leb, ltb, arith, length, Bool-cases,
}
use mathlib.Core.Path.{subst}
use operating_system_related.Malloc.{Ptr}
use operating_system_related.Malloc3.{MallocMetadata, Memory}
use operating_system_related.Malloc3.Lists.{insert_from}
use operating_system_related.Malloc3.Links.{IsChain, IsOutside, AreDistinct, AreValid}
use operating_system_related.Malloc3.Steps.{
  between_after, last_append, from_last, from_here, from_next,
}
use operating_system_related.Malloc3.Insert.{
  is_tie_in, ends_here, insert_sorted, Rebuilt, insert_after-Rebuilt, append_block-Rebuilt,
  extend-Rebuilt,
}
use operating_system_related.Malloc3.Ties.{in_front_lem, before-Rebuilt}

-- The place of `new` is not before `q`, which is not larger.
abbrev pub IsPast : (c : Ptr → MallocMetadata) (new q : Ptr) (qs : List Ptr) → Type 0
IsPast c new q qs =
    ((c q).size ≤ (c new).size) × ((is_tie_in c new q && ends_here c new qs) ≡ false)

module _ {S : Type 0} (new : Ptr) (n : new ≢ 0) where
  -- The place is right behind `q`: before a larger block.
  here-Rebuilt :
      (fuel : ℕ) (before q r : Ptr) (rs : List Ptr) (m : Memory S)
      → IsChain m.headers before q (q ∷ r ∷ rs)
      → AreDistinct (q ∷ r ∷ rs)
      → IsOutside new (q ∷ r ∷ rs)
      → (m.headers new).cookie ≡ m.main_cookie
      → IsPast m.headers new q (r ∷ rs)
      → ltb (m.headers new).size (m.headers r).size ≡ true
      → Rebuilt m new before q (q ∷ r ∷ rs) (q ∷ new ∷ r ∷ rs) (insert_from (suc fuel) new q m)
  here-Rebuilt fuel before q r rs m (e, nq, pq, (f, nr, pr, h)) ds out v (le, past) t =
      subst (Rebuilt m new before q (q ∷ r ∷ rs) (q ∷ new ∷ r ∷ rs))
        (sym (
          from_here new q m n nq fuel (λ z. nr (sym f ∙ z)) v le
            (subst (λ k. (m.headers new).size < (m.headers k).size) (sym f) (ground (arith, t)))
          ∙ between_after new q m n nq (ground (arith, past, t))))
        (insert_after-Rebuilt new n before q r rs m (e, nq, pq, (f, nr, pr, h)) ds out)

  -- The place is behind `q`, and no block up to `r` is larger.
  next-Rebuilt :
      (fuel : ℕ) (before q r : Ptr) (rs : List Ptr) (m : Memory S)
      → IsChain m.headers before q (q ∷ r ∷ rs)
      → AreDistinct (q ∷ r ∷ rs)
      → IsOutside new (q ∷ r ∷ rs)
      → m.heap.head ≢ r
      → (m.headers new).cookie ≡ m.main_cookie
      → length rs < fuel
      → ((is_tie_in m.headers new r && ends_here m.headers new rs) ≡ false
          → Rebuilt m new q r
              (r ∷ rs)
              (r ∷ insert_sorted m.headers new rs)
              (insert_from fuel new r m))
      → Rebuilt m new before q
          (q ∷ r ∷ rs)
          (q
            ∷ (if is_tie_in m.headers new r && ends_here m.headers new rs
                then new ∷ r ∷ rs
                else r ∷ insert_sorted m.headers new rs))
          (insert_from fuel new r m)
  next-Rebuilt zero before q r rs m c ds out hr v few rest = absurd (omega (arith, few))
  next-Rebuilt (suc fuel) before q r rs m (e, nq, pq, (f, nr, pr, h)) (ds, d) (out, outs) hr v few
        rest =
      elim (Bool-cases (is_tie_in m.headers new r && ends_here m.headers new rs)) [
        | inl t ↦ rw t (
            subst (Rebuilt m new before q (q ∷ r ∷ rs) (q ∷ new ∷ r ∷ rs))
              (sym (
                in_front_lem new n fuel q r rs m (refl, nr, pr, h) v (ground (arith, t))
                  (ground (arith, t))))
              (before-Rebuilt new n before q r rs m (e, nq, pq, (f, nr, pr, h)) (ds, d) (out, outs)
                hr))
        | inr k ↦ rw k (
            extend-Rebuilt new n before q r rs (insert_sorted m.headers new rs) m
              (insert_from (suc fuel) new r m) nq pq f (λ z. out (sym z)) ds (rest k))
      ]

  pub insert_from-Rebuilt :
      (qs : List Ptr) (fuel : ℕ) (before q : Ptr) (m : Memory S)
      → length qs < fuel
      → IsPast m.headers new q qs
      → IsChain m.headers before q (q ∷ qs)
      → AreDistinct (q ∷ qs)
      → IsOutside new (q ∷ qs)
      → IsOutside m.heap.head qs
      → (m.headers new).cookie ≡ m.main_cookie
      → AreValid m.main_cookie m.headers qs
      → Rebuilt m new before q
          (q ∷ qs)
          (q ∷ insert_sorted m.headers new qs)
          (insert_from fuel new q m)
  unfolding insert_sorted
  insert_from-Rebuilt [] zero before q m few past c d out ho v vs = absurd (omega (arith, few))
  insert_from-Rebuilt (r ∷ rs) zero before q m few past c d out ho v vs =
      absurd (omega (arith, few))
  insert_from-Rebuilt [] (suc fuel) before q m few (le, past) (e, nq, pq, f) d (out, outs) ho v vs =
      subst (Rebuilt m new before q (q ∷ []) (q ∷ new ∷ []))
        (sym (from_last new q m n nq fuel f ∙ last_append new q m n nq le (ground (arith, past))))
        (append_block-Rebuilt new n before q m (e, nq, pq, f) (λ k. out (sym k)))
  insert_from-Rebuilt (r ∷ rs) (suc fuel) before q m few past (e, nq, pq, (f, nr, pr, h)) (ds, d)
        (out, outs) (hr, ho) v (vr, vs) =
      elim (Bool-cases (ltb (m.headers new).size (m.headers r).size)) [
        | inl t ↦ rw t (
            here-Rebuilt fuel before q r rs m (e, nq, pq, (f, nr, pr, h)) (ds, d) (out, outs) v past
              t)
        | inr g ↦ rw g (
            subst
              (λ o.
                Rebuilt m new before q (q ∷ r ∷ rs)
                  (q
                    ∷ (if is_tie_in m.headers new r && ends_here m.headers new rs
                        then new ∷ r ∷ rs
                        else r ∷ insert_sorted m.headers new rs))
                  o)
              (sym (
                from_next new q m n nq fuel (λ z. nr (sym f ∙ z)) v
                  (ap (λ k. (m.headers k).cookie) f ∙ vr)
                  (subst
                    (λ k.
                      (leb (m.headers q).size (m.headers new).size
                        && ltb (m.headers new).size (m.headers k).size)
                      ≡ false)
                    (sym f) (ground (arith, g)))
                ∙ ap (λ k. insert_from fuel new k m) f))
              (next-Rebuilt fuel before q r rs m (e, nq, pq, (f, nr, pr, h)) (ds, d) (out, outs) hr
                v (omega (arith, few))
                (λ k.
                  insert_from-Rebuilt rs fuel q r m (omega (arith, few)) (ground (arith, g), k)
                    (refl, nr, pr, h) d outs ho v vs)))
      ]
