-- ===== src/Malloc3/Removed.antt =====
-- virtual_memory/malloc_3.cpp: `HeapListRemove` leaves the list without the block.
use operating_system_related.Prelude.{
  ◌≡◌, ◌≢◌, refl, sym, ap, ◌∙◌, List, [], ◌∷◌, ◌++◌, ◌==◌, arith,
}
use mathlib.Core.Path.{subst}
use operating_system_related.Malloc.{Ptr}
use operating_system_related.Malloc3.{Memory, Outcome, ended, Run}
use operating_system_related.Malloc3.Lists.{heap_list_remove, remove_head, remove_inner}
use operating_system_related.Malloc3.Links.{
  IsChain, IsOutside, AreDistinct, AreValid, KeepsBlocks, test_false, test_true, modified,
  with_next, with_prev,
}
use operating_system_related.Malloc3.Steps.{if_true, if_false}
use operating_system_related.Malloc3.Insert.{keeps_trans, next-keeps, prev-keeps}
use operating_system_related.Malloc3.LostBlocks.{last_block}
use operating_system_related.Malloc3.Insert.{Agree-outside}
use operating_system_related.Malloc3.Remove.{
  with_prev-IsChain, IsOutside-behind, distinct-behind, valid-behind, valid-last, IsChain-behind,
  relink-IsChain, remove_last, remove_between, remove_head_alone, remove_head_first, remove_lem,
}

last-IsOutside :
    (y : Ptr) (ys rest : List Ptr) → AreDistinct (y ∷ ys ++ rest) → IsOutside (last_block y ys) rest
unfolding last_block
last-IsOutside y [] rest (n, h) = n
last-IsOutside y (z ∷ ys) rest (n, h) = last-IsOutside z ys rest h

module _ {S : Type 0} where
  -- The list has these blocks, nothing else of the heap has changed, and of a header only the links.
  abbrev pub Relinked : (m : Memory S) (blocks : List Ptr) → Outcome S (Unit {0}) → Type 0
  Relinked m blocks o =
      (t : Memory S) × (o ≡ ended tt t)
      × IsChain t.headers 0 t.heap.head blocks
      × (t.heap ≡ record m.heap { head = t.heap.head })
      × KeepsBlocks m.headers t.headers

  head-Relinked :
      (q : Ptr) (back : List Ptr) (m : Memory S)
      → q ≢ 0
      → IsChain m.headers q (m.headers q).next back
      → AreDistinct back
      → Relinked m back (remove_head q m)
  unfolding modified
  head-Relinked q [] m nq e ds = (
    record m { heap = record m.heap { head = (m.headers q).next } },
    remove_head_alone q m nq e,
    e,
    refl,
    λ x. (refl, refl, refl),
  )
  head-Relinked q (r ∷ rs) m nq (f, nr, pr, h) (out, ds) =
      let m1 : Memory S = record m { heap = record m.heap { head = (m.headers q).next } } in
      let t = modified r (with_prev 0) m1 in
      (
        t,
        subst (λ k. remove_head q m ≡ ended tt (modified k (with_prev 0) m1)) f
            (remove_head_first q m nq (λ z. nr (sym f ∙ z))),
        with_prev-IsChain m.headers t.headers q 0 (m.headers q).next r rs (rw (test_true r) refl)
            (Agree-outside m.headers t.headers r r r rs (λ x u v w. rw (test_false x r u) refl) out
              out out)
            (f, nr, pr, h),
        refl,
        prev-keeps r 0 m1,
      )

  inner-Relinked :
      (y : Ptr) (ys : List Ptr) (q : Ptr) (back : List Ptr) (m : Memory S)
      → IsChain m.headers 0 m.heap.head (y ∷ ys ++ q ∷ back)
      → AreDistinct (y ∷ ys ++ q ∷ back)
      → AreValid m.main_cookie m.headers (y ∷ ys ++ q ∷ back)
      → Relinked m (y ∷ ys ++ back) (remove_inner q m)
  unfolding modified
  inner-Relinked y ys q [] m c ds vs =
      let p = last_block y ys in
      let (np, (f, nq, pq, e)) = IsChain-behind m.headers 0 m.heap.head y ys (q ∷ []) c in
      let n = (m.headers q).next in
      let t = modified p (with_next n) m in
      (
        t,
        subst (λ k. remove_inner q m ≡ ended tt (modified k (with_next n) m)) pq
            (remove_last q m nq e (λ z. np (sym pq ∙ z))
              (ap (λ k. (m.headers k).cookie) pq
                ∙ valid-last m.main_cookie m.headers y ys (q ∷ []) vs)),
        relink-IsChain m.headers t.headers 0 m.heap.head n y ys (q ∷ []) [] c ds
            (λ x u o. rw (test_false x p u) refl) (rw (test_true p) refl) e,
        refl,
        next-keeps p n m,
      )
  inner-Relinked y ys q (r ∷ rs) m c ds vs =
      let p = last_block y ys in
      let (np, (f, nq, pq, (g, nr, pr, h))) =
        IsChain-behind m.headers 0 m.heap.head y ys (q ∷ r ∷ rs) c in
      let (pn, (pr2, p_out)) = last-IsOutside y ys (q ∷ r ∷ rs) ds in
      let (q_out, (r_out, rs_ds)) = distinct-behind (y ∷ ys) (q ∷ r ∷ rs) ds in
      let (vq, (vr, vrs)) = valid-behind m.main_cookie m.headers (y ∷ ys) (q ∷ r ∷ rs) vs in
      let n = (m.headers q).next in
      let m1 = modified r (with_prev p) m in
      let t = modified p (with_next n) m1 in
      let rp = test_false r p (λ z. pr2 (sym z)) in
      (
        t,
        subst
            (λ k.
              remove_inner q m ≡ ended tt (modified p (with_next n) (modified k (with_prev p) m)))
            g
            (subst
              (λ k.
                remove_inner q m ≡ ended tt (modified k (with_next n) (modified n (with_prev k) m)))
              pq
              (remove_between q m nq (λ z. nr (sym g ∙ z)) (λ z. np (sym pq ∙ z))
                (ap (λ k. (m.headers k).cookie) g ∙ vr)
                (ap (λ k. (m.headers k).cookie) pq
                  ∙ valid-last m.main_cookie m.headers y ys (q ∷ r ∷ rs) vs))),
        relink-IsChain m.headers t.headers 0 m.heap.head n y ys (q ∷ r ∷ rs) (r ∷ rs) c ds
            (λ x u o. rw (test_false x p u, test_false x r o.1.0) refl)
            (rw (test_true p, test_false p r pr2) refl)
            (with_prev-IsChain m.headers t.headers q p n r rs (rw (rp, test_true r) refl)
              (Agree-outside m.headers t.headers p r r rs
                (λ x u v w. rw (test_false x p u, test_false x r v) refl) p_out r_out r_out)
              (g, nr, pr, h)),
        refl,
        keeps_trans m.headers m1.headers t.headers (prev-keeps r p m) (next-keeps p n m1),
      )

  -- A list that is linked in both directions, without a block twice and with right cookies, has the block
  -- in any place. Then `HeapListRemove` of the block ends, and the list that starts with the head has the
  -- other blocks, in their order, and is linked in both directions. The other fields of the heap are as
  -- they were, and no header has changed in more than its links.
  pub heap_list_remove-Relinked :
      (front : List Ptr) (q : Ptr) (back : List Ptr) (m : Memory S)
      → IsChain m.headers 0 m.heap.head (front ++ q ∷ back)
      → AreDistinct (front ++ q ∷ back)
      → AreValid m.main_cookie m.headers (front ++ q ∷ back)
      → Relinked m (front ++ back) (heap_list_remove q m)
  heap_list_remove-Relinked [] q back m (e, nq, pq, h) (out, ds) (v, vs) =
      subst (Relinked m back)
        (sym (
          remove_lem q m v (ap (λ k. (m.headers k).cookie) e ∙ v)
          ∙ ap (λ (r : Run S (Unit {0})). r m)
              (if_true (q == m.heap.head) (remove_head q) (remove_inner q) (ground (arith, e)))))
        (head-Relinked q back m nq h ds)
  heap_list_remove-Relinked (y ∷ ys) q back m (e, ny, by, h) (out, ds) (v, vs) =
      let ne = IsOutside-behind y ys (q ∷ back) out in
      let (vq, vb) = valid-behind m.main_cookie m.headers ys (q ∷ back) vs in
      subst (Relinked m (y ∷ ys ++ back))
        (sym (
          remove_lem q m vq (ap (λ k. (m.headers k).cookie) e ∙ v)
          ∙ ap (λ (r : Run S (Unit {0})). r m)
              (if_false (q == m.heap.head) (remove_head q) (remove_inner q)
                (test_false q m.heap.head (λ z. ne.0 (sym (z ∙ e)))))))
        (inner-Relinked y ys q back m (e, ny, by, h) (out, ds) (v, vs))
