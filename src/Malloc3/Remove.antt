-- ===== src/Malloc3/Remove.antt =====
-- virtual_memory/malloc_3.cpp: `HeapListRemove` takes a block out of the list.
use operating_system_related.Prelude.{
  ℕ, ◌≡◌, ◌≢◌, sym, ap, ◌∙◌, List, [], ◌∷◌, ◌++◌, if◌then◌else◌, ◌==◌, arith,
}
use mathlib.Core.Path.{subst}
use operating_system_related.Malloc.{Ptr}
use operating_system_related.Malloc3.{
  MallocMetadata, Memory, ended, Run, ◌>>◌, done, set_prev, set_next, validate_cookie, then_run,
}
use operating_system_related.Malloc3.Lists.{heap_list_remove, remove_head, remove_inner}
use operating_system_related.Malloc3.Links.{
  IsChain, IsOutside, AreDistinct, AreValid, modified, modify-then, modify-modified, load-then,
  with_next, with_prev,
}
use operating_system_related.Malloc3.Steps.{if_true, if_false, validate-then}
use operating_system_related.Malloc3.Insert.{Agree, IsChain-same, prev-keeps}
use operating_system_related.Malloc3.LostBlocks.{last_block}

-- The link back of the first block is set to `x`.
pub with_prev-IsChain :
    (c d : Ptr → MallocMetadata) (before x p r : Ptr) (rs : List Ptr)
    → d r ≡ with_prev x (c r)
    → Agree c d rs
    → IsChain c before p (r ∷ rs)
    → IsChain d x p (r ∷ rs)
with_prev-IsChain c d before x p r rs e a (f, nr, pr, h) = (
  f,
  nr,
  ap (λ k. k.prev) e,
  subst (λ k. IsChain d r k rs) (sym (ap (λ k. k.next) e)) (IsChain-same c d r (c r).next rs a h),
)

IsOutside-last :
    (x y : Ptr) (ys rest : List Ptr) → IsOutside x (y ∷ ys ++ rest) → x ≢ last_block y ys
unfolding last_block
IsOutside-last x y [] rest (n, h) = n
IsOutside-last x y (z ∷ ys) rest (n, h) = IsOutside-last x z ys rest h

pub IsOutside-behind : (x : Ptr) (ys rest : List Ptr) → IsOutside x (ys ++ rest) → IsOutside x rest
IsOutside-behind x [] rest h = h
IsOutside-behind x (y ∷ ys) rest (n, h) = IsOutside-behind x ys rest h

pub distinct-behind : (ys rest : List Ptr) → AreDistinct (ys ++ rest) → AreDistinct rest
distinct-behind [] rest h = h
distinct-behind (y ∷ ys) rest (n, h) = distinct-behind ys rest h

pub valid-behind :
    (cookie : ℕ) (c : Ptr → MallocMetadata) (ys rest : List Ptr)
    → AreValid cookie c (ys ++ rest)
    → AreValid cookie c rest
valid-behind cookie c [] rest h = h
valid-behind cookie c (y ∷ ys) rest (v, h) = valid-behind cookie c ys rest h

pub valid-last :
    (cookie : ℕ) (c : Ptr → MallocMetadata) (y : Ptr) (ys rest : List Ptr)
    → AreValid cookie c (y ∷ ys ++ rest)
    → (c (last_block y ys)).cookie ≡ cookie
unfolding last_block
valid-last cookie c y [] rest (v, h) = v
valid-last cookie c y (z ∷ ys) rest (v, h) = valid-last cookie c z ys rest h

-- What follows the front of a chain: it leads back to the last block of the front.
pub IsChain-behind :
    (c : Ptr → MallocMetadata) (before p y : Ptr) (ys rest : List Ptr)
    → IsChain c before p (y ∷ ys ++ rest)
    → (last_block y ys ≢ 0) × IsChain c (last_block y ys) (c (last_block y ys)).next rest
unfolding last_block
IsChain-behind c before p y [] rest (e, n, b, h) = (n, h)
IsChain-behind c before p y (z ∷ ys) rest (e, n, b, h) = IsChain-behind c y (c y).next z ys rest h

-- The front is kept up to its last block, which now leads to another chain.
pub relink-IsChain :
    (c d : Ptr → MallocMetadata) (before p n y : Ptr) (ys rest back : List Ptr)
    → IsChain c before p (y ∷ ys ++ rest)
    → AreDistinct (y ∷ ys ++ rest)
    → ((x : Ptr) → x ≢ last_block y ys → IsOutside x rest → d x ≡ c x)
    → d (last_block y ys) ≡ with_next n (c (last_block y ys))
    → IsChain d (last_block y ys) n back
    → IsChain d before p (y ∷ ys ++ back)
unfolding last_block
relink-IsChain c d before p n y [] rest back (e, ny, b, h) ds frame at_last new = (
  e,
  ny,
  ap (λ k. k.prev) at_last ∙ b,
  subst (λ k. IsChain d y k back) (sym (ap (λ k. k.next) at_last)) new,
)
relink-IsChain c d before p n y (z ∷ ys) rest back (e, ny, b, h) (out, ds) frame at_last new =
    let same = frame y (IsOutside-last y z ys rest out) (IsOutside-behind y (z ∷ ys) rest out) in
    (
      e,
      ny,
      ap (λ k. k.prev) same ∙ b,
      relink-IsChain c d y (d y).next n z ys rest back
          (subst (λ k. IsChain c y k (z ∷ ys ++ rest)) (sym (ap (λ k. k.next) same)) h) ds frame
          at_last new,
    )

module _ {S : Type 0} where
  -- The rest of the removal, once the block after it leads back to the one before.
  close_lem :
      (before next : Ptr) (m : Memory S)
      → before ≢ 0
      → (m.headers before).cookie ≡ m.main_cookie
      → (validate_cookie before >> set_next before next) m
        ≡ ended tt (modified before (with_next next) m)
  close_lem before next m n v =
      validate-then before (set_next before next) m v ∙ modify-modified before (with_next next) m n

  -- The removal of the last block, and of a block with others on both sides.
  pub remove_last :
      (q : Ptr) (m : Memory S)
      → q ≢ 0
      → (m.headers q).next ≡ 0
      → (m.headers q).prev ≢ 0
      → (m.headers (m.headers q).prev).cookie ≡ m.main_cookie
      → remove_inner q m ≡ ended tt (modified (m.headers q).prev (with_next (m.headers q).next) m)
  unfolding remove_inner
  remove_last q m nq e np vp =
      let b = m.headers q in
      let close : Run S (Unit {0}) = validate_cookie b.prev >> set_next b.prev b.next in
      load-then q _ m nq
      ∙ (ap (λ (r : Run S (Unit {0})). (r >> close) m)
            (if_true (b.next == 0) done (set_prev b.next b.prev >> validate_cookie b.next)
              (ground (arith, e)))
          ∙ close_lem b.prev b.next m np vp)

  pub remove_between :
      (q : Ptr) (m : Memory S)
      → q ≢ 0
      → (m.headers q).next ≢ 0
      → (m.headers q).prev ≢ 0
      → (m.headers (m.headers q).next).cookie ≡ m.main_cookie
      → (m.headers (m.headers q).prev).cookie ≡ m.main_cookie
      → remove_inner q m
        ≡ ended tt (
            modified
              (m.headers q).prev
              (with_next (m.headers q).next)
              (modified (m.headers q).next (with_prev (m.headers q).prev) m))
  unfolding remove_inner modified
  remove_between q m nq nn np vn vp =
      let b = m.headers q in
      let close : Run S (Unit {0}) = validate_cookie b.prev >> set_next b.prev b.next in
      let check : Run S (Unit {0}) = validate_cookie b.next in
      let m1 = modified b.next (with_prev b.prev) m in
      let keeps = prev-keeps b.next b.prev m in
      let (k1, k2, k3) = keeps b.next in
      let (l1, l2, l3) = keeps b.prev in
      load-then q _ m nq
      ∙ (ap (λ (r : Run S (Unit {0})). (r >> close) m)
            (if_false (b.next == 0) done (set_prev b.next b.prev >> check) (ground (arith, nn)))
          ∙ (ap (λ o. then_run o (λ _. close)) (modify-then b.next (with_prev b.prev) check m nn)
              ∙ (validate-then b.next close m1 (k3 ∙ vn)
                  ∙ close_lem b.prev b.next m1 np (l3 ∙ vp))))

  -- The removal of the head.
  pub remove_head_alone :
      (q : Ptr) (m : Memory S)
      → q ≢ 0
      → (m.headers q).next ≡ 0
      → remove_head q m ≡ ended tt (record m { heap = record m.heap { head = (m.headers q).next } })
  unfolding remove_head
  remove_head_alone q m nq e =
      load-then q _ m nq
      ∙ ap
          (λ (r : Run S (Unit {0})).
            r (record m { heap = record m.heap { head = (m.headers q).next } }))
          (if_true ((m.headers q).next == 0) done (set_prev (m.headers q).next 0)
            (ground (arith, e)))

  pub remove_head_first :
      (q : Ptr) (m : Memory S)
      → q ≢ 0
      → (m.headers q).next ≢ 0
      → remove_head q m
        ≡ ended tt (
            modified
              (m.headers q).next
              (with_prev 0)
              (record m { heap = record m.heap { head = (m.headers q).next } }))
  unfolding remove_head
  remove_head_first q m nq ne =
      let m1 : Memory S = record m { heap = record m.heap { head = (m.headers q).next } } in
      load-then q _ m nq
      ∙ (ap (λ (r : Run S (Unit {0})). r m1)
            (if_false ((m.headers q).next == 0) done (set_prev (m.headers q).next 0)
              (ground (arith, ne)))
          ∙ modify-modified (m.headers q).next (with_prev 0) m1 ne)

  -- Both cookies are right.
  pub remove_lem :
      (q : Ptr) (m : Memory S)
      → (m.headers q).cookie ≡ m.main_cookie
      → (m.headers m.heap.head).cookie ≡ m.main_cookie
      → heap_list_remove q m ≡ (if q == m.heap.head then remove_head q else remove_inner q) m
  unfolding heap_list_remove
  remove_lem q m v w = validate-then q _ m v ∙ validate-then m.heap.head _ m w
