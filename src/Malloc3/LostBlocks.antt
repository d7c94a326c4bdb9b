-- ===== src/Malloc3/LostBlocks.antt =====
-- virtual_memory/malloc_3.cpp: what `HeapListInsert` makes of a list whose blocks are all larger than
-- the new one.
use operating_system_related.Prelude.{
  ℕ, zero, suc, ◌<◌, ◌≡◌, ◌≢◌, refl, sym, ap, ◌∙◌, List, [], ◌∷◌, arith, length,
}
use operating_system_related.Malloc.{Ptr}
use operating_system_related.Malloc3.{MallocMetadata, Memory, ended}
use operating_system_related.Malloc3.Lists.{insert_from, heap_list_insert}
use operating_system_related.Malloc3.Links.{
  IsChain, IsOutside, AreValid, test_false, test_true, modified,
}
use operating_system_related.Malloc3.Steps.{from_last, from_next}
use operating_system_related.Malloc3.Lists.{insert_small}
use operating_system_related.Malloc3.Links.{head_links, insert_small-head_links}
use operating_system_related.Malloc3.Steps.{last_small}
use operating_system_related.Malloc3.Sorted.{start_lem}

abbrev pub AreLarger : (c : Ptr → MallocMetadata) (new : Ptr) → List Ptr → Type 0
AreLarger c new [] = Unit
AreLarger c new (q ∷ blocks) = ((c new).size < (c q).size) × AreLarger c new blocks

-- The last block.
unfoldable pub last_block : (q : Ptr) → List Ptr → Ptr
last_block q [] = q
last_block q (r ∷ blocks) = last_block r blocks

-- What is known of the last block, and of the way to it.
last-facts :
    (c : Ptr → MallocMetadata) (new before p q : Ptr) (blocks : List Ptr)
    → IsChain c before p (q ∷ blocks)
    → IsOutside new (q ∷ blocks)
    → AreLarger c new (q ∷ blocks)
    → (last_block q blocks ≢ 0)
      × ((c (last_block q blocks)).next ≡ 0)
      × (new ≢ last_block q blocks)
      × ((c new).size < (c (last_block q blocks)).size)
unfolding last_block
last-facts c new before p q [] (e, nq, pq, f) (out, outs) (lt, ls) = (nq, f, out, lt)
last-facts c new before p q (r ∷ blocks) (e, nq, pq, h) (out, outs) (lt, ls) =
    last-facts c new q (c q).next r blocks h outs ls

module _ {S : Type 0} (new : Ptr) (n : new ≢ 0) where
  -- The loop goes to the last block.
  walk_lem :
      (qs : List Ptr) (fuel : ℕ) (before p q : Ptr) (m : Memory S)
      → length qs < fuel
      → IsChain m.headers before p (q ∷ qs)
      → (m.headers new).cookie ≡ m.main_cookie
      → AreValid m.main_cookie m.headers (q ∷ qs)
      → AreLarger m.headers new (q ∷ qs)
      → insert_from fuel new q m ≡ insert_small new (last_block q qs) m
  unfolding last_block
  walk_lem [] zero before p q m few c v vs ls = absurd (omega (arith, few))
  walk_lem (r ∷ rs) zero before p q m few c v vs ls = absurd (omega (arith, few))
  walk_lem [] (suc fuel) before p q m few (e, nq, pq, f) v vs (lt, ls) =
      from_last new q m n nq fuel f ∙ last_small new q m n nq lt
  walk_lem (r ∷ rs) (suc fuel) before p q m few (e, nq, pq, (f, nr, pr, h)) v (vq, (vr, vs))
        (lt, ls) =
      from_next new q m n nq fuel (λ z. nr (sym f ∙ z)) v (ap (λ k. (m.headers k).cookie) f ∙ vr)
        (ground (arith, lt))
      ∙ (ap (λ k. insert_from fuel new k m) f
          ∙ walk_lem rs fuel q r r m (omega (arith, few)) (refl, nr, pr, h) v (vr, vs) ls)

  -- The new block is smaller than all blocks of the list, which is linked, with right cookies, and as
  -- many rounds as blocks. Then `HeapListInsert` ends with a list of two blocks: the new one, and the
  -- last one of the old list. All blocks between these have left the list; only of a list with one block
  -- none is lost.
  pub heap_list_insert-two :
      (q : Ptr) (qs : List Ptr) (fuel : ℕ) (m : Memory S)
      → IsChain m.headers 0 m.heap.head (q ∷ qs)
      → AreValid m.main_cookie m.headers (q ∷ qs)
      → IsOutside new (q ∷ qs)
      → (m.headers new).cookie ≡ m.main_cookie
      → AreLarger m.headers new (q ∷ qs)
      → length qs < fuel
      → (t : Memory S) × (heap_list_insert fuel new m ≡ ended tt t)
        × (t.heap.head ≡ new)
        × IsChain t.headers 0 new (new ∷ last_block q qs ∷ [])
  unfolding modified
  heap_list_insert-two q qs fuel m (e, nq, pq, h) (v, vs) out vn ls few =
      let (nl, end, ne, lt) = last-facts m.headers new 0 m.heap.head q qs (e, nq, pq, h) out ls in
      let z = last_block q qs in
      let zn = test_false z new (λ k. ne (sym k)) in
      (
        head_links new z m,
        start_lem new n fuel q m e nq v
            ∙ (walk_lem qs fuel 0 m.heap.head q m few (e, nq, pq, h) vn (v, vs) ls
                ∙ insert_small-head_links new z m n nl),
        refl,
        (
          refl,
          n,
          rw (test_true new) refl,
          (rw (test_true new) refl, nl, rw (zn, test_true z) refl, rw (zn, test_true z) end),
        ),
      )
