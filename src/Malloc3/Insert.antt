-- ===== src/Malloc3/Insert.antt =====
-- virtual_memory/malloc_3.cpp: the place where `HeapListInsert` puts a block, and what its insertions
-- make of a list.
use operating_system_related.Prelude.{
  ◌≡◌, ◌≢◌, refl, sym, ap, ◌∙◌, true, Bool, ◌&&◌, ◌||◌, inl, inr, List, [], ◌∷◌, if◌then◌else◌,
  ◌==◌, leb, ltb, Bool-cases, ==_iff,
}
use mathlib.Core.Path.{subst}
use operating_system_related.Malloc.{Ptr}
use operating_system_related.Malloc3.{MallocMetadata, Memory, Outcome, ended}
use operating_system_related.Malloc3.Lists.{insert_after, append_block}
use operating_system_related.Malloc3.Links.{
  IsChain, IsOutside, AreDistinct, KeepsBlocks, test_false, test_true, modified, with_next,
  with_prev, after_links, append_links, insert_after-after_links, append_block-append_links,
  after_links-new, after_links-ptr, after_links-after, after_links-other,
}

-- The new block has the size of `q`, and not a greater address.
abbrev pub is_tie_in : (c : Ptr → MallocMetadata) (new q : Ptr) → Bool
is_tie_in c new q = ((c new).size == (c q).size) && leb new q

-- Every block from here on is larger, if the list is sorted.
abbrev pub ends_here : (c : Ptr → MallocMetadata) (new : Ptr) → List Ptr → Bool
ends_here c new [] = true
ends_here c new (q ∷ blocks) = ltb (c new).size (c q).size

-- The list with `new` before the first larger block; but if the block before that has the size of `new`
-- and not a lower address, with `new` before this one.
unfoldable pub insert_sorted : (c : Ptr → MallocMetadata) (new : Ptr) → List Ptr → List Ptr
insert_sorted c new [] = new ∷ []
insert_sorted c new (q ∷ blocks) =
    let rest = insert_sorted c new blocks in
    if ltb (c new).size (c q).size || (is_tie_in c new q && ends_here c new blocks)
    then new ∷ q ∷ blocks
    else q ∷ rest

pub keeps_trans :
    (c d e : Ptr → MallocMetadata) → KeepsBlocks c d → KeepsBlocks d e → KeepsBlocks c e
keeps_trans c d e h k x =
    let (a1, a2, a3) = h x in let (b1, b2, b3) = k x in (b1 ∙ a1, b2 ∙ a2, b3 ∙ a3)

abbrev pub Agree : (c d : Ptr → MallocMetadata) → List Ptr → Type 0
Agree c d [] = Unit
Agree c d (q ∷ blocks) = (d q ≡ c q) × Agree c d blocks

pub IsChain-same :
    (c d : Ptr → MallocMetadata) (before p : Ptr) (blocks : List Ptr)
    → Agree c d blocks
    → IsChain c before p blocks
    → IsChain d before p blocks
IsChain-same c d before p [] a h = h
IsChain-same c d before p (q ∷ blocks) (e, a) (x, y, z, h) = (
  x,
  y,
  ap (λ k. k.prev) e ∙ z,
  subst (λ n. IsChain d q n blocks) (sym (ap (λ k. k.next) e))
      (IsChain-same c d q (c q).next blocks a h),
)

pub Agree-outside :
    (c d : Ptr → MallocMetadata) (u v w : Ptr) (blocks : List Ptr)
    → ((x : Ptr) → x ≢ u → x ≢ v → x ≢ w → d x ≡ c x)
    → IsOutside u blocks
    → IsOutside v blocks
    → IsOutside w blocks
    → Agree c d blocks
Agree-outside c d u v w [] h a b e = tt
Agree-outside c d u v w (q ∷ blocks) h (a, xs) (b, ys) (e, zs) = (
  h q (λ k. a (sym k)) (λ k. b (sym k)) (λ k. e (sym k)),
  Agree-outside c d u v w blocks h xs ys zs,
)

module _ {S : Type 0} where
  modified-keeps :
      (p : Ptr) (f : MallocMetadata → MallocMetadata) (m : Memory S)
      → ((h : MallocMetadata)
          → ((f h).size ≡ h.size) × ((f h).is_free ≡ h.is_free) × ((f h).cookie ≡ h.cookie))
      → KeepsBlocks m.headers (modified p f m).headers
  unfolding modified
  modified-keeps p f m k x = elim (Bool-cases (x == p)) [
    | inl t ↦ rw t (
        subst
          (λ (y : Ptr).
            ((f (m.headers p)).size ≡ (m.headers y).size)
            × ((f (m.headers p)).is_free ≡ (m.headers y).is_free)
            × ((f (m.headers p)).cookie ≡ (m.headers y).cookie))
          (sym ((==_iff x p).0 t)) (k (m.headers p)))
    | inr e ↦ rw e (refl, refl, refl)
  ]

  pub next-keeps :
      (p q : Ptr) (m : Memory S) → KeepsBlocks m.headers (modified p (with_next q) m).headers
  next-keeps p q m = modified-keeps p (with_next q) m (λ h. (refl, refl, refl))

  pub prev-keeps :
      (p q : Ptr) (m : Memory S) → KeepsBlocks m.headers (modified p (with_prev q) m).headers
  prev-keeps p q m = modified-keeps p (with_prev q) m (λ h. (refl, refl, refl))

  after_links-keeps :
      (new ptr after : Ptr) (m : Memory S)
      → KeepsBlocks m.headers (after_links new ptr after m).headers
  after_links-keeps new ptr after m =
      let m1 = modified new (with_next after) m in
      let m2 = modified new (with_prev ptr) m1 in
      let m3 = modified ptr (with_next new) m2 in
      keeps_trans m.headers m3.headers (after_links new ptr after m).headers
        (keeps_trans m.headers m2.headers m3.headers
          (keeps_trans m.headers m1.headers m2.headers (next-keeps new after m)
            (prev-keeps new ptr m1))
          (next-keeps ptr new m2))
        (prev-keeps after new m3)

  append_links-keeps :
      (new ptr : Ptr) (m : Memory S) → KeepsBlocks m.headers (append_links new ptr m).headers
  append_links-keeps new ptr m =
      let m1 = modified ptr (with_next new) m in
      let m2 = modified new (with_prev ptr) m1 in
      keeps_trans m.headers m2.headers (append_links new ptr m).headers
        (keeps_trans m.headers m1.headers m2.headers (next-keeps ptr new m) (prev-keeps new ptr m1))
        (next-keeps new 0 m2)

  -- The list from `q` on has these blocks, no other header and nothing of the heap has changed, and of
  -- a header only the links.
  abbrev pub Rebuilt :
      (m : Memory S) (new before q : Ptr) (old blocks : List Ptr) → Outcome S (Unit {0}) → Type 0
  Rebuilt m new before q old blocks o =
      (t : Memory S) × (o ≡ ended tt t)
      × (t.heap ≡ m.heap)
      × IsChain t.headers before q blocks
      × ((x : Ptr) → x ≢ new → IsOutside x old → t.headers x ≡ m.headers x)
      × KeepsBlocks m.headers t.headers

  module _ (new : Ptr) (n : new ≢ 0) where
    pub after_links-IsChain :
        (before q r : Ptr) (rs : List Ptr) (m : Memory S)
        → IsChain m.headers before q (q ∷ r ∷ rs)
        → AreDistinct (q ∷ r ∷ rs)
        → IsOutside new (q ∷ r ∷ rs)
        → IsChain (after_links new q r m).headers before q (q ∷ new ∷ r ∷ rs)
    after_links-IsChain before q r rs m (e, nq, pq, (f, nr, pr, h)) ((qr, qs), (rs_out, ds))
          (a, (b, out)) =
        let t = after_links new q r m in
        let eq = after_links-ptr new q r m a qr in
        let en = after_links-new new q r m a b in
        let er = after_links-after new q r m b qr in
        (
          refl,
          nq,
          ap (λ k. k.prev) eq ∙ pq,
          (
            ap (λ k. k.next) eq,
            n,
            ap (λ k. k.prev) en,
            (
              ap (λ k. k.next) en,
              nr,
              ap (λ k. k.prev) er,
              subst (λ k. IsChain t.headers r k rs) (sym (ap (λ k. k.next) er))
                  (IsChain-same m.headers t.headers r (m.headers r).next rs
                    (Agree-outside m.headers t.headers new q r rs
                      (λ x u v w. after_links-other new q r x m u v w) out qs rs_out)
                    h),
            ),
          ),
        )

    pub insert_after-Rebuilt :
        (before q r : Ptr) (rs : List Ptr) (m : Memory S)
        → IsChain m.headers before q (q ∷ r ∷ rs)
        → AreDistinct (q ∷ r ∷ rs)
        → IsOutside new (q ∷ r ∷ rs)
        → Rebuilt m new before q (q ∷ r ∷ rs) (q ∷ new ∷ r ∷ rs) (insert_after new q m)
    unfolding modified
    insert_after-Rebuilt before q r rs m (e, nq, pq, (f, nr, pr, h)) distinct out = (
      after_links new q r m,
      subst (λ k. insert_after new q m ≡ ended tt (after_links new q k m)) f
          (insert_after-after_links new q m n nq (λ z. nr (sym f ∙ z))),
      refl,
      after_links-IsChain before q r rs m (e, nq, pq, (f, nr, pr, h)) distinct out,
      (λ x u o. after_links-other new q r x m u o.0 o.1.0),
      after_links-keeps new q r m,
    )

    -- Behind the last block.
    pub append_block-Rebuilt :
        (before q : Ptr) (m : Memory S)
        → IsChain m.headers before q (q ∷ [])
        → q ≢ new
        → Rebuilt m new before q (q ∷ []) (q ∷ new ∷ []) (append_block new q m)
    unfolding modified
    append_block-Rebuilt before q m (e, nq, pq, f) ne =
        let qn = test_false q new ne in
        let nq2 = test_false new q (λ k. ne (sym k)) in
        (
          append_links new q m,
          append_block-append_links new q m n nq,
          refl,
          (
            refl,
            nq,
            rw (qn, test_true q) pq,
            (rw (qn, test_true q) refl, n, rw (test_true new) refl, rw (test_true new) refl),
          ),
          (λ x u o. rw (test_false x new u, test_false x q o.0) refl),
          append_links-keeps new q m,
        )

    -- The rest of the list, from `r` on, was rebuilt; `q` before it was not touched.
    pub extend-Rebuilt :
        (before q r : Ptr) (rs blocks : List Ptr) (m : Memory S) (o : Outcome S (Unit {0}))
        → q ≢ 0
        → (m.headers q).prev ≡ before
        → (m.headers q).next ≡ r
        → q ≢ new
        → IsOutside q (r ∷ rs)
        → Rebuilt m new q r (r ∷ rs) (r ∷ blocks) o
        → Rebuilt m new before q (q ∷ r ∷ rs) (q ∷ r ∷ blocks) o
    extend-Rebuilt before q r rs blocks m o nq pq f qn out (t, e, h, c, frame, keeps) =
        let eq = frame q qn out in
        (
          t,
          e,
          h,
          (
            refl,
            nq,
            ap (λ k. k.prev) eq ∙ pq,
            subst (λ k. IsChain t.headers q k (r ∷ blocks)) (sym (ap (λ k. k.next) eq ∙ f)) c,
          ),
          (λ x u o. frame x u o.1),
          keeps,
        )
