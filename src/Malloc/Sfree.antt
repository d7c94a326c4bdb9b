-- ===== src/Malloc/Sfree.antt =====
-- virtual_memory/malloc_2.cpp: `sfree` keeps the list and the statistics.
use operating_system_related.Prelude.{
  ◌+◌, ◌%◌, ◌^◌, ◌≡◌, ◌≢◌, refl, sym, ap, ◌∙◌, Bool, true, false, List, arith, if◌then◌else◌,
}
use operating_system_related.Malloc.{Ptr, Break, Memory, size_meta_data, put, free_block, sfree}
use operating_system_related.Malloc.Layout.{put_self, put_other, IsIn, not_null_behind, behind}
use operating_system_related.Malloc.Changes.{mark, mark-Blocks, mark-Marked, one_if, size_if}
use operating_system_related.Malloc.Invariant.{IsHeap, bytes-le, plus_lem}

pub if_cases :
    {A : Type 0} (P : A → Type 0) (b : Bool) (x y : A)
    → (b ≡ true → P x)
    → (b ≡ false → P y)
    → P (if b then x else y)
if_cases P true x y t f = t refl
if_cases P false x y t f = f refl

module _ (break : Break) where
  open break use {State, top, top_lt}

  mark_used-IsHeap :
      (m : Memory break) (blocks : List Ptr) (q : Ptr)
      → IsHeap break m blocks
      → IsIn q blocks
      → (m.headers q).is_free ≡ false
      → IsHeap break
          (record m {
            heap = record m.heap {
              num_free_blocks = (m.heap.num_free_blocks + 1) % 2 ^ 64;
              num_free_bytes = (m.heap.num_free_bytes + (m.headers q).size) % 2 ^ 64;
            };
            headers = put m.headers q (record (m.headers q) { is_free = true });
          })
          blocks
  mark_used-IsHeap m blocks q h i used =
      let b = mark-Blocks m.headers q true 1 (top m.breaks) 0 m.heap.head blocks h.linked in
      let (x, y, z) =
        mark-Marked m.headers q true 1 (top m.breaks) 0 m.heap.head blocks h.linked i in
      let (all, few, part) =
        bytes-le (mark m.headers q true) 1 (top m.breaks) 0 m.heap.head blocks b in
      record {
        linked = b;
        totals = record {
          allocated_blocks = h.totals.allocated_blocks;
          allocated_bytes = h.totals.allocated_bytes ∙ sym z;
          meta_data_bytes = h.totals.meta_data_bytes;
          frees =
              plus_lem m.heap.num_free_blocks _ _ 1 h.totals.frees
                (omega (arith, x, ap one_if used)) (omega (arith, few, all, top_lt m.breaks));
          frees_bytes =
              plus_lem m.heap.num_free_bytes _ _ (m.headers q).size h.totals.frees_bytes
                (omega (arith, y, ap (λ b. size_if b (m.headers q).size) used))
                (omega (arith, part, all, top_lt m.breaks));
        };
      }

  -- The block is free, and no other block and no byte changes.
  abbrev pub Freed : (m m' : Memory break) → Ptr → List Ptr → Type 0
  Freed m m' q blocks =
      IsHeap break m' blocks
      × ((m'.headers q).is_free ≡ true)
      × ((x : Ptr) → x ≢ q → m'.headers x ≡ m.headers x)
      × (m'.bytes ≡ m.bytes)

  free_block-Freed :
      (m : Memory break) (blocks : List Ptr) (q : Ptr)
      → IsHeap break m blocks
      → IsIn q blocks
      → Freed m (free_block break m q) q blocks
  unfolding free_block
  free_block-Freed m blocks q h i =
      if_cases (λ m'. Freed m m' q blocks) (m.headers q).is_free m _
        (λ t. (h, t, λ x ne. refl, refl))
        (λ f. (
          mark_used-IsHeap m blocks q h i f,
          ap (λ k. k.is_free) (put_self m.headers q _),
          λ x ne. put_other m.headers q _ x ne,
          refl,
        ))

  -- The space behind a block of the list is given back: the list and the statistics are kept, the
  -- block is free after it, also if it was free before, and no other block and no byte changes.
  pub sfree-Freed :
      (m : Memory break) (blocks : List Ptr) (q : Ptr)
      → IsHeap break m blocks
      → IsIn q blocks
      → Freed m (sfree break m (q + size_meta_data)) q blocks
  unfolding sfree
  sfree-Freed m blocks q h i =
      rw (not_null_behind (q + size_meta_data) q refl, behind q) (free_block-Freed m blocks q h i)
