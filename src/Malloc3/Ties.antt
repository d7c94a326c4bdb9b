-- ===== src/Malloc3/Ties.antt =====
-- virtual_memory/malloc_3.cpp: `HeapListInsert` before a block of the same size, and its loop.
use operating_system_related.Prelude.{
  ℕ, suc, ◌<◌, ◌≡◌, ◌≢◌, refl, sym, ap, ◌∙◌, true, false, inl, inr, List, [], ◌∷◌, ◌==◌, arith,
  Bool-cases,
}
use mathlib.Core.Path.{subst}
use operating_system_related.Malloc.{Ptr}
use operating_system_related.Malloc3.{Memory, ended, Run, ◌>>◌, set_next, set_prev}
use operating_system_related.Malloc3.Lists.{
  insert_from, insert_before, insert_as_head, insert_in_front,
}
use operating_system_related.Malloc3.Links.{
  IsChain, IsOutside, AreDistinct, KeepsBlocks, test_false, test_true, modified, modify-modified,
  modify-then, load-then, with_next, with_prev, after_links, after_links-other,
}
use operating_system_related.Malloc3.Steps.{
  if_true, if_false, between_front, last_front, from_last, from_here,
}
use operating_system_related.Malloc3.Insert.{
  is_tie_in, ends_here, keeps_trans, Agree, IsChain-same, Agree-outside, next-keeps, prev-keeps,
  Rebuilt, after_links-IsChain,
}

module _ {S : Type 0} where
  abbrev before_links : (new before ptr : Ptr) (m : Memory S) → Memory S
  before_links new before ptr m = modified before (with_next new) (
      modified ptr (with_prev new)
        (modified new (with_prev before) (modified new (with_next ptr) m)))

  insert_before-before_links :
      (new before ptr : Ptr) (m : Memory S)
      → new ≢ 0
      → ptr ≢ 0
      → before ≢ 0
      → (m.headers ptr).prev ≡ before
      → insert_before new ptr m ≡ ended tt (before_links new before ptr m)
  unfolding insert_before
  insert_before-before_links new before ptr m n p b e =
      let k3 : Run S (Unit {0}) = set_next before new in
      let k2 : Run S (Unit {0}) = set_prev ptr new >> k3 in
      let k1 : Run S (Unit {0}) = set_prev new before >> k2 in
      let m1 = modified new (with_next ptr) m in
      let m2 = modified new (with_prev before) m1 in
      let m3 = modified ptr (with_prev new) m2 in
      load-then ptr
        (λ h.
          set_next new ptr >> (set_prev new h.prev >> (set_prev ptr new >> set_next h.prev new)))
        m p
      ∙ (ap (λ k. (set_next new ptr >> (set_prev new k >> (set_prev ptr new >> set_next k new))) m)
            e
          ∙ (modify-then new (with_next ptr) k1 m n
              ∙ (modify-then new (with_prev before) k2 m1 n
                  ∙ (modify-then ptr (with_prev new) k3 m2 p
                      ∙ modify-modified before (with_next new) m3 b))))

  -- The same headers as by the insertion after the block before.
  before_links-after_links :
      (new q r x : Ptr) (m : Memory S)
      → q ≢ r
      → (before_links new q r m).headers x ≡ (after_links new q r m).headers x
  unfolding modified
  before_links-after_links new q r x m ne =
      let qr = test_false q r ne in
      let rq = test_false r q (λ e. ne (sym e)) in
      elim (Bool-cases (x == q)) [
        | inl t ↦ let xr : (x == r) ≡ false = ground (arith, t, qr) in rw (qr, rq, t, xr) refl
        | inr f ↦ rw (qr, rq, f) refl
      ]

  before_links-keeps :
      (new q r : Ptr) (m : Memory S) → KeepsBlocks m.headers (before_links new q r m).headers
  before_links-keeps new q r m =
      let m1 = modified new (with_next r) m in
      let m2 = modified new (with_prev q) m1 in
      let m3 = modified r (with_prev new) m2 in
      keeps_trans m.headers m3.headers (before_links new q r m).headers
        (keeps_trans m.headers m2.headers m3.headers
          (keeps_trans m.headers m1.headers m2.headers (next-keeps new r m) (prev-keeps new q m1))
          (prev-keeps r new m2))
        (next-keeps q new m3)

  abbrev front_links : (new ptr : Ptr) (m : Memory S) → Memory S
  front_links new ptr m = modified ptr (with_prev new) (
      modified new (with_prev 0)
        (modified new (with_next ptr) (record m { heap = record m.heap { head = new } })))

  insert_as_head-front_links :
      (new ptr : Ptr) (m : Memory S)
      → new ≢ 0
      → ptr ≢ 0
      → insert_as_head new ptr m ≡ ended tt (front_links new ptr m)
  unfolding insert_as_head
  insert_as_head-front_links new ptr m n p =
      let m0 = record m { heap = record m.heap { head = new } } in
      let k2 : Run S (Unit {0}) = set_prev ptr new in
      let k1 : Run S (Unit {0}) = set_prev new 0 >> k2 in
      let m1 = modified new (with_next ptr) m0 in
      let m2 = modified new (with_prev 0) m1 in
      modify-then new (with_next ptr) k1 m0 n
      ∙ (modify-then new (with_prev 0) k2 m1 n ∙ modify-modified ptr (with_prev new) m2 p)

  front_links-keeps :
      (new q : Ptr) (m : Memory S) → KeepsBlocks m.headers (front_links new q m).headers
  front_links-keeps new q m =
      let m0 = record m { heap = record m.heap { head = new } } in
      let m1 = modified new (with_next q) m0 in
      let m2 = modified new (with_prev 0) m1 in
      keeps_trans m.headers m2.headers (front_links new q m).headers
        (keeps_trans m.headers m1.headers m2.headers (next-keeps new q m0) (prev-keeps new 0 m1))
        (prev-keeps q new m2)

  module _ (new : Ptr) (n : new ≢ 0) where
    -- Where the sizes tie, the insertion is in front.
    pub in_front_lem :
        (fuel : ℕ) (before q : Ptr) (qs : List Ptr) (m : Memory S)
        → IsChain m.headers before q (q ∷ qs)
        → (m.headers new).cookie ≡ m.main_cookie
        → is_tie_in m.headers new q ≡ true
        → ends_here m.headers new qs ≡ true
        → insert_from (suc fuel) new q m ≡ insert_in_front new q m
    in_front_lem fuel before q [] m (e, nq, pq, f) v t here =
        from_last new q m n nq fuel f ∙ last_front new q m n nq t
    in_front_lem fuel before q (r ∷ rs) m (e, nq, pq, (f, nr, pr, h)) v t here =
        from_here new q m n nq fuel (λ z. nr (sym f ∙ z)) v (ground (arith, t))
          (subst (λ k. (m.headers new).size < (m.headers k).size) (sym f) (ground (arith, here)))
        ∙ between_front new q m n nq t

    -- Before a block that is not the head.
    pub before-Rebuilt :
        (before q r : Ptr) (rs : List Ptr) (m : Memory S)
        → IsChain m.headers before q (q ∷ r ∷ rs)
        → AreDistinct (q ∷ r ∷ rs)
        → IsOutside new (q ∷ r ∷ rs)
        → m.heap.head ≢ r
        → Rebuilt m new before q (q ∷ r ∷ rs) (q ∷ new ∷ r ∷ rs) (insert_in_front new r m)
    unfolding insert_in_front modified
    before-Rebuilt before q r rs m (e, nq, pq, (f, nr, pr, h)) ((qr, qs), ds) out apart =
        let t = before_links new q r m in
        let c =
          after_links-IsChain new n before q r rs m (e, nq, pq, (f, nr, pr, h)) ((qr, qs), ds)
            out in
        (
          t,
          ap (λ (k : Run S (Unit {0})). k m)
                (if_false (r == m.heap.head) (insert_as_head new r) (insert_before new r)
                  (test_false r m.heap.head (λ k. apart (sym k))))
              ∙ insert_before-before_links new q r m n nr nq pr,
          refl,
          IsChain-same (after_links new q r m).headers t.headers before q (q ∷ new ∷ r ∷ rs)
              (agree (q ∷ new ∷ r ∷ rs)) c,
          (λ x u o.
              before_links-after_links new q r x m qr ∙ after_links-other new q r x m u o.0 o.1.0),
          before_links-keeps new q r m,
        )
      where
        agree :
            (blocks : List Ptr)
            → Agree (after_links new q r m).headers (before_links new q r m).headers blocks
        agree [] = tt
        agree (x ∷ blocks) = (before_links-after_links new q r x m qr, agree blocks)

    -- Before the head.
    pub front-Rebuilt :
        (q : Ptr) (qs : List Ptr) (m : Memory S)
        → IsChain m.headers 0 q (q ∷ qs)
        → AreDistinct (q ∷ qs)
        → IsOutside new (q ∷ qs)
        → m.heap.head ≡ q
        → (t : Memory S) × (insert_in_front new q m ≡ ended tt t)
          × (t.heap ≡ record m.heap { head = new })
          × IsChain t.headers 0 new (new ∷ q ∷ qs)
          × ((x : Ptr) → x ≢ new → IsOutside x (q ∷ qs) → t.headers x ≡ m.headers x)
          × KeepsBlocks m.headers t.headers
    unfolding insert_in_front modified
    front-Rebuilt q qs m (e, nq, pq, h) (q_out, ds) (nq2, out) head =
        let t = front_links new q m in
        let qn = test_false q new (λ k. nq2 (sym k)) in
        let nq3 = test_false new q nq2 in
        let other : (x : Ptr) → x ≢ new → x ≢ q → t.headers x ≡ m.headers x =
          λ x u v. rw (test_false x new u, test_false x q v) refl in
        (
          t,
          ap (λ (k : Run S (Unit {0})). k m)
                (if_true (q == m.heap.head) (insert_as_head new q) (insert_before new q)
                  (same q m.heap.head (sym head)))
              ∙ insert_as_head-front_links new q m n nq,
          refl,
          (
            refl,
            n,
            rw (nq3, test_true new) refl,
            (
              rw (nq3, test_true new) refl,
              nq,
              rw (test_true q) refl,
              subst (λ k. IsChain t.headers q k qs) (sym (next_lem qn))
                  (IsChain-same m.headers t.headers q (m.headers q).next qs
                    (Agree-outside m.headers t.headers new q q qs (λ x u v w. other x u v) out q_out
                      q_out)
                    h),
            ),
          ),
          (λ x u o. other x u o.0),
          front_links-keeps new q m,
        )
      where
        same : (a b : ℕ) → a ≡ b → (a == b) ≡ true
        same a b e = ground (arith, e)

        next_lem : (q == new) ≡ false → ((front_links new q m).headers q).next ≡ (m.headers q).next
        next_lem qn = rw (qn, test_true q) refl
