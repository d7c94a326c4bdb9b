-- ===== src/Malloc/Invariant.antt =====
-- virtual_memory/malloc_2.cpp: the list and the statistics through every operation.
use operating_system_related.Prelude.{
  ℕ, ◌+◌, ◌*◌, ◌^◌, ◌≤◌, ◌<◌, ◌≡◌, ◌≢◌, refl, sym, ap, ◌∙◌, true, false, Option, none, some, List,
  [], ◌∷◌, arith, length, ◌⊎◌, inr,
}
use operating_system_related.Malloc.{
  Ptr, MemoryList, Headers, Break, Memory, size_limit, size_meta_data, add_size, sub_size,
  new_alloc_adjustment, take_block,
}
use operating_system_related.Malloc.Layout.{
  Blocks, free_blocks, free_bytes, all_bytes, put_self, put_other, IsIn,
}
use operating_system_related.Malloc.Changes.{mark-Blocks, mark-Marked, mark-links, one_if, size_if}

pub bytes-le :
    (c : Headers) (low top : ℕ) (prev p : Ptr) (blocks : List Ptr)
    → Blocks c low top prev p blocks
    → (low + all_bytes c blocks + size_meta_data * length blocks ≤ top)
      × (free_blocks c blocks ≤ length blocks)
      × (free_bytes c blocks ≤ all_bytes c blocks)
bytes-le c low top prev p [] (z, le) = (omega (arith, le), omega arith, omega arith)
bytes-le c low top prev p (a ∷ rest) (e, le, back, more) =
    let (x, y, z) = bytes-le c (a + size_meta_data + (c a).size) top a (c a).next rest more in
    (omega (arith, x, le), ground (arith, y), ground (arith, z))

minus_lem :
    (n total new old : ℕ) → n ≡ total → new + old ≡ total → total < 2 ^ 64 → sub_size n old ≡ new
minus_lem n total new old h e less = omega (arith, h, e, less)

pub plus_lem :
    (n total new more : ℕ) → n ≡ total → new ≡ total + more → new < 2 ^ 64 → add_size n more ≡ new
plus_lem n total new more h e less = omega (arith, h, e, less)

-- The statistics are the totals of a list of blocks.
pub record Totals (h : MemoryList) (c : Headers) (blocks : List Ptr) : Type 0 where
  pub allocated_blocks : h.num_allocated_blocks ≡ length blocks
  pub allocated_bytes : h.num_allocated_bytes ≡ all_bytes c blocks
  pub meta_data_bytes : h.num_meta_data_bytes ≡ size_meta_data * length blocks
  pub frees : h.num_free_blocks ≡ free_blocks c blocks
  pub frees_bytes : h.num_free_bytes ≡ free_bytes c blocks

module _ (break : Break) where
  open break use {State, sbrk, top, top_lt, sbrk_some, sbrk_none}

  -- The blocks are linked in the order of their addresses, they do not overlap and end below the
  -- break, and the statistics are their totals.
  pub record IsHeap (m : Memory break) (blocks : List Ptr) : Type 0 where
    pub linked : Blocks m.headers 1 (top m.breaks) 0 m.heap.head blocks
    pub totals : Totals m.heap m.headers blocks

  -- A block at `p` for `size` bytes, that was not in use before; the other blocks are as they were.
  pub record IsGiven (m m' : Memory break) (blocks blocks' : List Ptr) (size : ℕ) (p : Ptr)
      : Type 0 where
    pub block : Ptr
    pub address : p ≡ block + size_meta_data
    pub inside : IsIn block blocks'
    pub unused : IsIn block blocks → (m.headers block).is_free ≡ true
    pub used : (m'.headers block).is_free ≡ false
    pub fits : size ≤ (m'.headers block).size
    pub kept :
        (x : Ptr)
        → IsIn x blocks
        → IsIn x blocks'
          × ((m'.headers x).size ≡ (m.headers x).size)
          × (x ≢ block → (m'.headers x).is_free ≡ (m.headers x).is_free)
    pub contents : m'.bytes ≡ m.bytes

  abbrev pub Gives : Memory break → List Ptr → (size : ℕ) → Option (Ptr × Memory break) → Type 0
  Gives m blocks size none = ⊥
  Gives m blocks size (some (p, m')) =
      (blocks' : List Ptr) × IsHeap m' blocks'
      × (((p ≡ 0)
            × ((size ≡ 0)
                ⊎ (size_limit < size)
                ⊎ ((sbrk m.breaks (size + size_meta_data)).0 ≡ none))
            × (m'.headers ≡ m.headers)
            × (m'.bytes ≡ m.bytes))
          ⊎ IsGiven m m' blocks blocks' size p)

  pub take_block-Gives :
      (m : Memory break) (blocks : List Ptr) (size : ℕ) (q : Ptr)
      → IsHeap m blocks
      → IsIn q blocks
      → (m.headers q).is_free ≡ true
      → size ≤ (m.headers q).size
      → Gives m blocks size (some (take_block break m q))
  unfolding take_block
  take_block-Gives m blocks size q h i free fits =
      let (x, y, z) =
        mark-Marked m.headers q false 1 (top m.breaks) 0 m.heap.head blocks h.linked i in
      let (all, few, part) = bytes-le m.headers 1 (top m.breaks) 0 m.heap.head blocks h.linked in
      let self = put_self m.headers q (record (m.headers q) { is_free = false }) in
      (
        blocks,
        record {
          linked = mark-Blocks m.headers q false 1 (top m.breaks) 0 m.heap.head blocks h.linked;
          totals = record {
            allocated_blocks = h.totals.allocated_blocks;
            allocated_bytes = h.totals.allocated_bytes ∙ sym z;
            meta_data_bytes = h.totals.meta_data_bytes;
            frees =
                minus_lem m.heap.num_free_blocks _ _ 1 h.totals.frees
                  (omega (arith, x, ap one_if free)) (omega (arith, few, all, top_lt m.breaks));
            frees_bytes =
                minus_lem m.heap.num_free_bytes _ _ (m.headers q).size h.totals.frees_bytes
                  (omega (arith, y, ap (λ b. size_if b (m.headers q).size) free))
                  (omega (arith, part, all, top_lt m.breaks));
          };
        },
        inr (record {
          block = q;
          address = refl;
          inside = i;
          unused = λ j. free;
          used = ap (λ n. n.is_free) self;
          fits = omega (arith, ap (λ n. n.size) self, fits);
          kept = λ x i. (
            i,
            (mark-links m.headers q false x).0,
            λ ne. ap (λ n. n.is_free) (put_other m.headers q _ x ne),
          );
          contents = refl;
        }),
      )

  -- The statistics of a list with one block more, that is not free.
  pub more-Totals :
      (h h' : MemoryList) (c d : Headers) (blocks blocks' : List Ptr) (size low top' : ℕ)
      (p q : Ptr)
      → Totals h c blocks
      → Blocks d low top' q p blocks'
      → top' < 2 ^ 64
      → length blocks' ≡ length blocks + 1
      → free_blocks d blocks' ≡ free_blocks c blocks
      → free_bytes d blocks' ≡ free_bytes c blocks
      → all_bytes d blocks' ≡ all_bytes c blocks + size
      → Totals (new_alloc_adjustment (record h { head = h'.head }) size) d blocks'
  unfolding new_alloc_adjustment
  more-Totals h h' c d blocks blocks' size low top' p q t b less longer x y z =
      let (all, few, part) = bytes-le d low top' q p blocks' b in
      record {
        allocated_blocks =
            plus_lem h.num_allocated_blocks _ _ 1 t.allocated_blocks longer
              (omega (arith, all, less));
        allocated_bytes =
            plus_lem h.num_allocated_bytes _ _ size t.allocated_bytes z (omega (arith, all, less));
        meta_data_bytes =
            plus_lem h.num_meta_data_bytes _ _ size_meta_data t.meta_data_bytes
              (omega (arith, longer)) (omega (arith, all, less));
        frees = t.frees ∙ sym x;
        frees_bytes = t.frees_bytes ∙ sym y;
      }
