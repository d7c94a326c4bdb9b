-- ===== src/Malloc3/Sorted.antt =====
-- virtual_memory/malloc_3.cpp: `HeapListInsert` as the insertion into a sorted list.
use operating_system_related.Prelude.{
  ℕ, zero, suc, ◌&&◌, ◌||◌, ◌≤◌, ◌<◌, ◌≡◌, ◌≢◌, refl, sym, ap, ◌∙◌, false, inl, inr, List, [], ◌∷◌,
  ◌==◌, ltb, arith, length, Bool-cases,
}
use mathlib.Core.Path.{subst}
use operating_system_related.Malloc.{Ptr}
use operating_system_related.Malloc3.{MallocMetadata, Memory, Outcome, ended, Run}
use operating_system_related.Malloc3.Lists.{insert_from, heap_list_insert}
use operating_system_related.Malloc3.Links.{
  IsChain, IsOutside, AreDistinct, AreValid, KeepsBlocks, test_false,
}
use operating_system_related.Malloc3.Steps.{if_false, validate-then}
use operating_system_related.Malloc3.Insert.{is_tie_in, ends_here, insert_sorted}
use operating_system_related.Malloc3.Ties.{in_front_lem, front-Rebuilt}
use operating_system_related.Malloc3.Placed.{insert_from-Rebuilt}

-- The sizes ascend, from `least` on.
abbrev pub AreSorted : (c : Ptr → MallocMetadata) (least : ℕ) → List Ptr → Type 0
AreSorted c least [] = Unit
AreSorted c least (q ∷ blocks) = (least ≤ (c q).size) × AreSorted c (c q).size blocks

insert_sorted-AreSorted :
    (c : Ptr → MallocMetadata) (new : Ptr) (least : ℕ) (blocks : List Ptr)
    → least ≤ (c new).size
    → AreSorted c least blocks
    → AreSorted c least (insert_sorted c new blocks)
unfolding insert_sorted
insert_sorted-AreSorted c new least [] le h = (le, tt)
insert_sorted-AreSorted c new least (q ∷ blocks) le (lq, h) =
    elim (Bool-cases
      (ltb (c new).size (c q).size || (is_tie_in c new q && ends_here c new blocks))) [
        | inl t ↦ rw t (le, (ground (arith, t), h))
        | inr f ↦ rw f (lq, insert_sorted-AreSorted c new (c q).size blocks (ground (arith, f)) h)
      ]

keeps-AreSorted :
    (c d : Ptr → MallocMetadata) (least : ℕ) (blocks : List Ptr)
    → KeepsBlocks c d
    → AreSorted c least blocks
    → AreSorted d least blocks
keeps-AreSorted c d least [] k h = tt
keeps-AreSorted c d least (q ∷ blocks) k (le, h) = (
  subst (λ n. least ≤ n) (sym (k q).0) le,
  subst (λ n. AreSorted d n blocks) (sym (k q).0) (keeps-AreSorted c d (c q).size blocks k h),
)

module _ {S : Type 0} (new : Ptr) (n : new ≢ 0) where
  -- The list is not empty: it is checked, and then walked.
  pub start_lem :
      (fuel : ℕ) (q : Ptr) (m : Memory S)
      → m.heap.head ≡ q
      → q ≢ 0
      → (m.headers q).cookie ≡ m.main_cookie
      → heap_list_insert fuel new m ≡ insert_from fuel new q m
  unfolding heap_list_insert
  start_lem fuel q m e nq v =
      ap (λ (r : Run S (Unit {0})). r m)
        (if_false (m.heap.head == 0) _ _ (test_false m.heap.head 0 (λ z. nq (sym e ∙ z))))
      ∙ (validate-then m.heap.head (insert_from fuel new m.heap.head) m
            (ap (λ k. (m.headers k).cookie) e ∙ v)
          ∙ ap (λ k. insert_from fuel new k m) e)

  -- What the insertion makes of the list `old`: the list from the head is `blocks`, linked in both
  -- directions, no other header and nothing else of the heap has changed, and of a header only the links.
  abbrev pub IsRebuilt : (m : Memory S) (old blocks : List Ptr) → Outcome S (Unit {0}) → Type 0
  IsRebuilt m old blocks o =
      (t : Memory S) × (o ≡ ended tt t)
      × (t.heap ≡ record m.heap { head = t.heap.head })
      × IsChain t.headers 0 t.heap.head blocks
      × AreSorted t.headers 0 blocks
      × ((x : Ptr) → x ≢ new → IsOutside x old → t.headers x ≡ m.headers x)
      × KeepsBlocks m.headers t.headers

  placed-IsRebuilt :
      (q : Ptr) (qs : List Ptr) (fuel : ℕ) (m : Memory S)
      → IsChain m.headers 0 m.heap.head (q ∷ qs)
      → AreDistinct (q ∷ qs)
      → AreValid m.main_cookie m.headers qs
      → IsOutside new (q ∷ qs)
      → (m.headers new).cookie ≡ m.main_cookie
      → (m.headers q).size ≤ (m.headers new).size
      → length qs < fuel
      → AreSorted m.headers 0 (insert_sorted m.headers new (q ∷ qs))
      → IsRebuilt m (q ∷ qs) (insert_sorted m.headers new (q ∷ qs)) (insert_from fuel new q m)
  unfolding insert_sorted
  placed-IsRebuilt q qs zero m c ds vs out vn le few sorted = absurd (omega (arith, few))
  placed-IsRebuilt q qs (suc fuel) m (e, nq, pq, h) (q_out, ds) vs out vn le few sorted =
      let larger : ltb (m.headers new).size (m.headers q).size ≡ false = ground (arith, le) in
      elim (Bool-cases (is_tie_in m.headers new q && ends_here m.headers new qs)) [
        | inl t ↦
            let (u, x, y, c, frame, keeps) =
              front-Rebuilt new n q qs m (refl, nq, pq, h) (q_out, ds) out e in
            (
              u,
              in_front_lem new n fuel 0 q qs m (refl, nq, pq, h) vn (ground (arith, t))
                    (ground (arith, t))
                  ∙ x,
              y ∙ ap (λ k. record m.heap { head = k }) (sym (ap (λ k. k.head) y)),
              rw (larger, t)
                  (subst (λ k. IsChain u.headers 0 k (new ∷ q ∷ qs)) (sym (ap (λ k. k.head) y)) c),
              keeps-AreSorted m.headers u.headers 0 (insert_sorted m.headers new (q ∷ qs)) keeps
                  sorted,
              frame,
              keeps,
            )
        | inr k ↦
            let (u, x, y, (z, c1, c2, c3), frame, keeps) =
              insert_from-Rebuilt new n qs (suc fuel) 0 q m few (le, k) (refl, nq, pq, h)
                (q_out, ds) out (subst (λ b. IsOutside b qs) (sym e) q_out) vn vs in
            (
              u,
              x,
              y ∙ ap (λ k. record m.heap { head = k }) (sym (ap (λ k. k.head) y)),
              rw (larger, k) (ap (λ k. k.head) y ∙ e, c1, c2, c3),
              keeps-AreSorted m.headers u.headers 0 (insert_sorted m.headers new (q ∷ qs)) keeps
                  sorted,
              frame,
              keeps,
            )
      ]

  -- The list is linked in both directions, without a block twice, with right cookies, and sorted by
  -- size. The new block is not in it and is not smaller than its head, and the rounds are as many as the
  -- blocks. Then `HeapListInsert` ends. The list that starts with the head is linked in both directions
  -- again and sorted by size. The new block is in it before the first larger one; or, if the block
  -- before that has the same size and not a lower address, before this one, as the head if that was the
  -- head. The heap's other fields and the headers that are not in this list are as they were, and no
  -- header has changed in more than its links.
  pub heap_list_insert-Sorted :
      (q : Ptr) (qs : List Ptr) (fuel : ℕ) (m : Memory S)
      → IsChain m.headers 0 m.heap.head (q ∷ qs)
      → AreDistinct (q ∷ qs)
      → AreValid m.main_cookie m.headers (q ∷ qs)
      → AreSorted m.headers 0 (q ∷ qs)
      → IsOutside new (q ∷ qs)
      → (m.headers new).cookie ≡ m.main_cookie
      → (m.headers q).size ≤ (m.headers new).size
      → length qs < fuel
      → IsRebuilt m (q ∷ qs) (insert_sorted m.headers new (q ∷ qs)) (heap_list_insert fuel new m)
  heap_list_insert-Sorted q qs fuel m (e, nq, pq, h) ds (v, vs) sorted out vn le few =
      subst (IsRebuilt m (q ∷ qs) (insert_sorted m.headers new (q ∷ qs)))
        (sym (start_lem fuel q m e nq v))
        (placed-IsRebuilt q qs fuel m (e, nq, pq, h) ds vs out vn le few
          (insert_sorted-AreSorted m.headers new 0 (q ∷ qs) (omega arith) sorted))
