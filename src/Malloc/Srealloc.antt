-- ===== src/Malloc/Srealloc.antt =====
-- virtual_memory/malloc_2.cpp: `srealloc` and `scalloc`.
use operating_system_related.Prelude.{
  ℕ, ◌+◌, ◌-◌, ◌*◌, ◌%◌, ◌^◌, ◌≤◌, ◌<◌, ◌≡◌, ◌≢◌, refl, sym, ap, ◌∙◌, true, false, Option, none,
  some, List, arith, length, ◌⊎◌, inl, inr, leb, ltb, ◌&&◌,
}
use mathlib.Core.Path.{subst}
use operating_system_related.Malloc.{
  Ptr, Break, Memory, size_limit, size_meta_data, move, clear, after_realloc, srealloc,
  after_calloc, scalloc, sfree,
}
use operating_system_related.Malloc.Layout.{IsIn, is_null, not_null_behind, behind}
use operating_system_related.Malloc.Invariant.{IsHeap, IsGiven, Gives}
use operating_system_related.Malloc.Smalloc.{smalloc-Gives}
use operating_system_related.Malloc.Sfree.{sfree-Freed, if_cases}

module _ (break : Break) where
  open break use {State, sbrk}

  -- The block at `q` has become one at `new`, with the bytes of the old one, which is free now.
  pub record IsMoved (m m' : Memory break) (q : Ptr) (blocks' : List Ptr) (size : ℕ) (p : Ptr)
      : Type 0 where
    pub new : Ptr
    pub address : p ≡ new + size_meta_data
    pub inside : IsIn new blocks'
    pub apart : new ≢ q
    pub used : (m'.headers new).is_free ≡ false
    pub fits : size ≤ (m'.headers new).size
    pub room : (m.headers q).size ≤ (m'.headers new).size
    pub released : (m'.headers q).is_free ≡ true
    pub copied :
        (i : ℕ) → i < (m.headers q).size → m'.bytes (p + i) ≡ m.bytes ((q + size_meta_data) + i)

  -- The block at `q` is large enough and stays; or it is too small, and it stays with NULL returned since
  -- `smalloc` has a reason to fail, or it moves.
  abbrev pub Resizes : Memory break → Ptr → (size : ℕ) → Option (Ptr × Memory break) → Type 0
  Resizes m q size none = ⊥
  Resizes m q size (some (p, m')) =
      (blocks' : List Ptr) × IsHeap break m' blocks'
      × (((p ≡ q + size_meta_data) × (size ≤ (m.headers q).size) × (m' ≡ m))
          ⊎ (((p ≡ 0)
                × ((m.headers q).size < size)
                × ((size_limit < size) ⊎ ((sbrk m.breaks (size + size_meta_data)).0 ≡ none))
                × (m'.headers ≡ m.headers)
                × (m'.bytes ≡ m.bytes))
              ⊎ (((m.headers q).size < size) × IsMoved m m' q blocks' size p)))

  move-bytes :
      (m : Memory break) (to from n i : ℕ)
      → i < n
      → (move break m to from n).bytes (to + i) ≡ m.bytes (from + i)
  unfolding move
  move-bytes m to from n i h = rw (inside to n i h, offset to i) refl
    where
      inside : (to n i : ℕ) → i < n → (leb to (to + i) && ltb (to + i) (to + n)) ≡ true
      inside to n i h = ground arith

      offset : (to i : ℕ) → (to + i) - to ≡ i
      offset to i = omega arith

  IsMoved-memory :
      (m m1 : Memory break) (q : Ptr) (blocks blocks1 : List Ptr) (size : ℕ) (newp : Ptr)
      → IsHeap break m1 blocks1
      → IsIn q blocks
      → (m.headers q).is_free ≡ false
      → (m.headers q).size < size
      → IsGiven break m m1 blocks blocks1 size newp
      → let m2 = move break m1 newp (q + size_meta_data) (m1.headers q).size in
        let m' = sfree break m2 (q + size_meta_data) in
        IsHeap break m' blocks1 × IsMoved m m' q blocks1 size newp
  unfolding move
  IsMoved-memory m m1 q blocks blocks1 size newp h i used small g =
      let m2 = move break m1 newp (q + size_meta_data) (m1.headers q).size in
      let (inside, same_size, rest) = g.kept q i in
      let (heap, free, others, bytes) =
        sfree-Freed break m2 blocks1 q (record { linked = h.linked; totals = h.totals }) inside in
      let at_new = others g.block (apart_from g.unused) in
      (
        heap,
        record {
          new = g.block;
          address = g.address;
          inside = g.inside;
          apart = apart_from g.unused;
          used = ap (λ k. k.is_free) at_new ∙ g.used;
          fits = omega (arith, ap (λ k. k.size) at_new, g.fits);
          room = omega (arith, ap (λ k. k.size) at_new, g.fits, small);
          released = free;
          copied = λ j less.
              ap (λ b. b (newp + j)) bytes
              ∙ move-bytes m1 newp (q + size_meta_data) (m1.headers q).size j
                  (omega (arith, same_size, less))
              ∙ ap (λ b. b ((q + size_meta_data) + j)) g.contents;
        },
      )
    where
      apart_from : (IsIn g.block blocks → (m.headers g.block).is_free ≡ true) → g.block ≢ q
      apart_from unused e =
          both (unused (subst (λ x. IsIn x blocks) (sym e) i)) (ap (λ x. (m.headers x).is_free) e)
        where
          both :
              (m.headers g.block).is_free ≡ true
              → (m.headers g.block).is_free ≡ (m.headers q).is_free
              → ⊥
          both t s = cc

  not_zero :
      (m : Memory break) (q : Ptr) (size : ℕ)
      → (m.headers q).size < size
      → (size ≡ 0) ⊎ ((size_limit < size) ⊎ ((sbrk m.breaks (size + size_meta_data)).0 ≡ none))
      → (size_limit < size) ⊎ ((sbrk m.breaks (size + size_meta_data)).0 ≡ none)
  not_zero m q size small (inl z) = absurd (omega (arith, small, z))
  not_zero m q size small (inr why) = why

  after_realloc-Resizes :
      (m : Memory break) (q : Ptr) (blocks : List Ptr) (size : ℕ)
      → IsIn q blocks
      → (m.headers q).is_free ≡ false
      → (m.headers q).size < size
      → (r : Option (Ptr × Memory break)) → Gives break m blocks size r
      → Resizes m q size (after_realloc break (q + size_meta_data) r)
  unfolding after_realloc
  after_realloc-Resizes m q blocks size i used small none never = absurd never
  after_realloc-Resizes m q blocks size i used small (some (p, m1))
        (blocks1, h, inl (z, why, c, b)) =
      rw (is_null p z) (blocks1, h, inr (inl (refl, small, not_zero m q size small why, c, b)))
  after_realloc-Resizes m q blocks size i used small (some (p, m1)) (blocks1, h, inr g) =
      let (heap, moved) = IsMoved-memory m m1 q blocks blocks1 size p h i used small g in
      rw (not_null_behind p g.block g.address) (
        subst
          (λ k. Resizes m q size (
            some (
              p,
              sfree break (move break m1 p (q + size_meta_data) (m1.headers k).size)
                  (q + size_meta_data),
            )))
          (sym (behind q)) (blocks1, heap, inr (inr (small, moved))))

  -- `srealloc` of the space behind a block in use, with fuel for the blocks: it ends and keeps the list
  -- and the statistics. If the block is large enough, it returns the same space and nothing has changed.
  -- If it is too small, it returns NULL with every block and byte as it was, and then the size is over
  -- the limit or `sbrk` fails, or it returns the space of another block, now in use and large enough,
  -- that starts with the bytes of the old one, which is free now.
  pub srealloc-Resizes :
      (fuel : ℕ) (m : Memory break) (blocks : List Ptr) (q : Ptr) (size : ℕ)
      → IsHeap break m blocks
      → IsIn q blocks
      → (m.headers q).is_free ≡ false
      → length blocks ≤ fuel
      → Resizes m q size (srealloc break fuel m (q + size_meta_data) size)
  unfolding srealloc
  srealloc-Resizes fuel m blocks q size h i used less =
      rw (not_null_behind (q + size_meta_data) q refl, behind q)
        (if_cases (λ r. Resizes m q size r) (leb size (m.headers q).size)
          (some (q + size_meta_data, m)) _
          (λ t. (blocks, h, inl (refl, fits size (m.headers q).size t, refl)))
          (λ f.
            after_realloc-Resizes m q blocks size i used (misfit size (m.headers q).size f) _
              (smalloc-Gives break fuel m blocks size h less)))
    where
      fits : (a b : ℕ) → leb a b ≡ true → a ≤ b
      fits a b t = ground arith

      misfit : (a b : ℕ) → leb a b ≡ false → b < a
      misfit a b f = ground arith

  -- A block in use for `n` bytes, all 0.
  pub record IsCleared (m' : Memory break) (blocks' : List Ptr) (n : ℕ) (p : Ptr) : Type 0 where
    pub block : Ptr
    pub address : p ≡ block + size_meta_data
    pub inside : IsIn block blocks'
    pub used : (m'.headers block).is_free ≡ false
    pub fits : n ≤ (m'.headers block).size
    pub zeros : (i : ℕ) → i < n → m'.bytes (p + i) ≡ 0

  abbrev pub Clears : (n : ℕ) → Option (Ptr × Memory break) → Type 0
  Clears n none = ⊥
  Clears n (some (p, m')) =
      (blocks' : List Ptr) × IsHeap break m' blocks' × ((p ≡ 0) ⊎ IsCleared m' blocks' n p)

  clear-IsCleared :
      (m m' : Memory break) (blocks blocks' : List Ptr) (n : ℕ) (p : Ptr)
      → IsGiven break m m' blocks blocks' n p
      → IsCleared (clear break m' p n) blocks' n p
  unfolding clear
  clear-IsCleared m m' blocks blocks' n p g = record {
    block = g.block;
    address = g.address;
    inside = g.inside;
    used = g.used;
    fits = g.fits;
    zeros = λ i less. rw (inside_lem p n i less) refl;
  }
    where
      inside_lem : (p n i : ℕ) → i < n → (leb p (p + i) && ltb (p + i) (p + n)) ≡ true
      inside_lem p n i h = ground arith

  after_calloc-Clears :
      (m : Memory break) (blocks : List Ptr) (n : ℕ) (r : Option (Ptr × Memory break))
      → Gives break m blocks n r
      → Clears n (after_calloc break n r)
  unfolding after_calloc clear
  after_calloc-Clears m blocks n none never = absurd never
  after_calloc-Clears m blocks n (some (p, m')) (blocks', h, inl (z, why, c, b)) =
      rw (is_null p z) (blocks', h, inl refl)
  after_calloc-Clears m blocks n (some (p, m')) (blocks', h, inr g) =
      rw (not_null_behind p g.block g.address) (
        blocks',
        record { linked = h.linked; totals = h.totals },
        inr (clear-IsCleared m m' blocks blocks' n p g),
      )

  -- `scalloc`, with fuel for the blocks, ends and keeps the list and the statistics; unless it returns
  -- NULL it returns the space of a block in use with as many bytes, all 0, as the product of the
  -- arguments is modulo 2 ^ 64.
  pub scalloc-Clears :
      (fuel : ℕ) (m : Memory break) (blocks : List Ptr) (num size : ℕ)
      → IsHeap break m blocks
      → length blocks ≤ fuel
      → Clears ((num * size) % 2 ^ 64) (scalloc break fuel m num size)
  unfolding scalloc
  scalloc-Clears fuel m blocks num size h less =
      after_calloc-Clears m blocks ((num * size) % 2 ^ 64) _
        (smalloc-Gives break fuel m blocks ((num * size) % 2 ^ 64) h less)
