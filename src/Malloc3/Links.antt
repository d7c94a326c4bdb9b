-- ===== src/Malloc3/Links.antt =====
-- virtual_memory/malloc_3.cpp: the list of blocks as a chain of headers, and what one insertion writes.
use operating_system_related.Prelude.{
  ℕ, ◌≡◌, ◌≢◌, refl, sym, ap, ◌∙◌, true, false, List, [], ◌∷◌, if◌then◌else◌, ◌==◌, arith,
}
use operating_system_related.Malloc.{Ptr}
use operating_system_related.Malloc3.{
  MallocMetadata, Memory, Outcome, ended, crashed, Run, then_run, ◌>>=◌, ◌>>◌, write, stored, load,
  modify, set_next, set_prev, set_head,
}
use operating_system_related.Malloc3.Lists.{insert_after, append_block, insert_small}

-- The list from `p` on has these blocks, and each leads back to the one before it, the first to
-- `before`.
abbrev pub IsChain : (c : Ptr → MallocMetadata) (before p : Ptr) (blocks : List Ptr) → Type 0
IsChain c before p [] = p ≡ 0
IsChain c before p (q ∷ blocks) =
    (p ≡ q) × (q ≢ 0) × ((c q).prev ≡ before) × IsChain c q (c q).next blocks

abbrev pub IsOutside : Ptr → List Ptr → Type 0
IsOutside x [] = Unit
IsOutside x (q ∷ blocks) = (x ≢ q) × IsOutside x blocks

-- No block stands in the list twice.
abbrev pub AreDistinct : List Ptr → Type 0
AreDistinct [] = Unit
AreDistinct (q ∷ blocks) = IsOutside q blocks × AreDistinct blocks

-- The cookie of each block is right.
abbrev pub AreValid : (cookie : ℕ) (c : Ptr → MallocMetadata) → List Ptr → Type 0
AreValid cookie c [] = Unit
AreValid cookie c (q ∷ blocks) = ((c q).cookie ≡ cookie) × AreValid cookie c blocks

-- A change of links keeps what else a header holds.
abbrev pub KeepsBlocks : (c d : Ptr → MallocMetadata) → Type 0
KeepsBlocks c d =
    (x : Ptr)
    → ((d x).size ≡ (c x).size) × ((d x).is_free ≡ (c x).is_free) × ((d x).cookie ≡ (c x).cookie)

pub test_false : (a b : ℕ) → a ≢ b → (a == b) ≡ false
test_false a b ne = ground (arith, ne)

pub test_true : (a : ℕ) → (a == a) ≡ true
test_true a = ground arith

pub then_ended :
    {S A B : Type 0} {o : Outcome S A} {a : A} {m : Memory S} (k : A → Run S B)
    → o ≡ ended a m
    → then_run o k ≡ k a m
then_ended k e = ap (λ o. then_run o k) e

-- The memory with another header at `p`.
unfoldable pub modified :
    {S : Type 0} → Ptr → (MallocMetadata → MallocMetadata) → Memory S → Memory S
unfolding stored
modified p f m = record m {
  headers = write m.headers p (f (m.headers p));
  bytes = stored (m.encode (f (m.headers p))) p m.bytes;
}

abbrev pub with_next : Ptr → MallocMetadata → MallocMetadata
with_next q h = record h { next = q }

abbrev pub with_prev : Ptr → MallocMetadata → MallocMetadata
with_prev q h = record h { prev = q }

module _ {S : Type 0} where
  pub modify-modified :
      (p : Ptr) (f : MallocMetadata → MallocMetadata) (m : Memory S)
      → p ≢ 0
      → modify p f m ≡ ended tt (modified p f m)
  unfolding modify modified
  modify-modified p f m ne = rw (test_false p 0 ne) refl

  pub modify-then :
      {B : Type 0} (p : Ptr) (f : MallocMetadata → MallocMetadata) (k : Run S B) (m : Memory S)
      → p ≢ 0
      → (modify p f >> k) m ≡ k (modified p f m)
  modify-then p f k m ne = ap (λ o. then_run o (λ _. k)) (modify-modified p f m ne)

  pub load-then :
      {B : Type 0} (p : Ptr) (f : MallocMetadata → Run S B) (m : Memory S)
      → p ≢ 0
      → (load p >>= f) m ≡ f (m.headers p) m
  unfolding load
  load-then p f m ne =
      ap (λ (o : Outcome S MallocMetadata). then_run o f)
        (ap (λ b. if b then crashed else ended (m.headers p) m) (test_false p 0 ne))

  abbrev pub after_links : (new ptr after : Ptr) (m : Memory S) → Memory S
  after_links new ptr after m = modified after (with_prev new) (
      modified ptr (with_next new)
        (modified new (with_prev ptr) (modified new (with_next after) m)))

  pub insert_after-after_links :
      (new ptr : Ptr) (m : Memory S)
      → new ≢ 0
      → ptr ≢ 0
      → (m.headers ptr).next ≢ 0
      → insert_after new ptr m ≡ ended tt (after_links new ptr (m.headers ptr).next m)
  unfolding insert_after
  insert_after-after_links new ptr m n p a =
      let after = (m.headers ptr).next in
      let k3 : Run S (Unit {0}) = set_prev after new in
      let k2 : Run S (Unit {0}) = set_next ptr new >> k3 in
      let k1 : Run S (Unit {0}) = set_prev new ptr >> k2 in
      let m1 = modified new (with_next after) m in
      let m2 = modified new (with_prev ptr) m1 in
      let m3 = modified ptr (with_next new) m2 in
      load-then ptr
        (λ h.
          set_next new h.next >> (set_prev new ptr >> (set_next ptr new >> set_prev h.next new)))
        m p
      ∙ (modify-then new (with_next after) k1 m n
          ∙ (modify-then new (with_prev ptr) k2 m1 n
              ∙ (modify-then ptr (with_next new) k3 m2 p
                  ∙ modify-modified after (with_prev new) m3 a)))

  abbrev pub append_links : (new ptr : Ptr) (m : Memory S) → Memory S
  append_links new ptr m =
      modified new (with_next 0) (modified new (with_prev ptr) (modified ptr (with_next new) m))

  pub append_block-append_links :
      (new ptr : Ptr) (m : Memory S)
      → new ≢ 0
      → ptr ≢ 0
      → append_block new ptr m ≡ ended tt (append_links new ptr m)
  unfolding append_block
  append_block-append_links new ptr m n p =
      let k2 : Run S (Unit {0}) = set_next new 0 in
      let k1 : Run S (Unit {0}) = set_prev new ptr >> k2 in
      let m1 = modified ptr (with_next new) m in
      let m2 = modified new (with_prev ptr) m1 in
      modify-then ptr (with_next new) k1 m p
      ∙ (modify-then new (with_prev ptr) k2 m1 n ∙ modify-modified new (with_next 0) m2 n)

  abbrev pub head_links : (new ptr : Ptr) (m : Memory S) → Memory S
  head_links new ptr m =
      let n =
        modified new (with_prev 0)
          (modified new (with_next ptr) (modified ptr (with_prev new) m)) in
      record n { heap = record n.heap { head = new } }

  pub insert_small-head_links :
      (new ptr : Ptr) (m : Memory S)
      → new ≢ 0
      → ptr ≢ 0
      → insert_small new ptr m ≡ ended tt (head_links new ptr m)
  unfolding insert_small
  insert_small-head_links new ptr m n p =
      let k3 : Run S (Unit {0}) = set_head new in
      let k2 : Run S (Unit {0}) = set_prev new 0 >> k3 in
      let k1 : Run S (Unit {0}) = set_next new ptr >> k2 in
      let m1 = modified ptr (with_prev new) m in
      let m2 = modified new (with_next ptr) m1 in
      modify-then ptr (with_prev new) k1 m p
      ∙ (modify-then new (with_next ptr) k2 m1 n ∙ modify-then new (with_prev 0) k3 m2 n)

  -- The headers after each of the three insertions.
  pub after_links-new :
      (new ptr after : Ptr) (m : Memory S)
      → new ≢ ptr
      → new ≢ after
      → (after_links new ptr after m).headers new
        ≡ record (m.headers new) { next = after; prev = ptr }
  unfolding modified
  after_links-new new ptr after m p a =
      rw (test_false new after a, test_false new ptr p, test_true new) refl

  pub after_links-ptr :
      (new ptr after : Ptr) (m : Memory S)
      → new ≢ ptr
      → ptr ≢ after
      → (after_links new ptr after m).headers ptr ≡ with_next new (m.headers ptr)
  unfolding modified
  after_links-ptr new ptr after m p a =
      rw (test_false ptr after a, test_true ptr, test_false ptr new (λ e. p (sym e))) refl

  pub after_links-after :
      (new ptr after : Ptr) (m : Memory S)
      → new ≢ after
      → ptr ≢ after
      → (after_links new ptr after m).headers after ≡ with_prev new (m.headers after)
  unfolding modified
  after_links-after new ptr after m n a =
      rw
        (
          test_true after,
          test_false after ptr (λ e. a (sym e)),
          test_false after new (λ e. n (sym e)),
        )
        refl

  pub after_links-other :
      (new ptr after x : Ptr) (m : Memory S)
      → x ≢ new
      → x ≢ ptr
      → x ≢ after
      → (after_links new ptr after m).headers x ≡ m.headers x
  unfolding modified
  after_links-other new ptr after x m n p a =
      rw (test_false x after a, test_false x ptr p, test_false x new n) refl
