-- ===== src/Malloc3/Realloc.antt =====
-- virtual_memory/malloc_3.cpp: `mmapsrealloc` and `srealloc`, whose cases a to h are those of the
-- comments in the source.
use operating_system_related.Prelude.{
  ℕ, zero, suc, ◌+◌, ◌-◌, ◌*◌, Bool, false, ◌&&◌, ◌||◌, Option, none, some, if◌then◌else◌, ◌==◌,
  leb, ltb,
}
use operating_system_related.Malloc.{Ptr, add_size, sub_size}
use operating_system_related.Malloc3.{
  Kernel, Run, ◌>>=◌, ◌>>◌, result, done, fail_out_of_fuel, size_limit, mmap_threshold,
  size_meta_data, load, modify, set_size, set_is_free, get_heap, set_heap, validate_cookie,
  call_sbrk, call_memmove,
}
use operating_system_related.Malloc3.Lists.{heap_list_insert, heap_list_remove}
use operating_system_related.Malloc3.Merge.{block_end, split, merge}
use operating_system_related.Malloc3.Allocate.{smalloc, sfree, mark_free}

-- The size of blocks that are merged.
abbrev pub size_of_two : ℕ → ℕ → ℕ
size_of_two a b = add_size (add_size a b) size_meta_data

abbrev pub size_of_three : ℕ → ℕ → ℕ → ℕ
size_of_three a b c = add_size (add_size (add_size a b) c) (2 * size_meta_data)

module _ {S : Type 0} where
  -- `is_free` of a neighbour, if there is one, set to `b`; what it was is the result.
  unfoldable pub swap_is_free : (p : Ptr) (b : Bool) → Run S Bool
  unfolding load modify
  swap_is_free p b =
      if p == 0 then result false else (do h ← load p; set_is_free p b; result h.is_free)

  unfoldable pub restore_is_free : (p : Ptr) (b : Bool) → Run S (Unit {0})
  unfolding modify
  restore_is_free p b = if p == 0 then done else set_is_free p b

  -- The statistics and the flag of a block that is taken without `split`.
  unfoldable pub mark_used : (block : Ptr) → Run S (Unit {0})
  unfolding load modify
  mark_used block = do
    set_is_free block false
    b ← load block
    set_heap (λ h. record h {
      num_free_blocks = sub_size h.num_free_blocks 1;
      num_free_bytes = sub_size h.num_free_bytes b.size;
    })

  -- The size of the old block is read from its header, also where that lies inside another block.
  unfoldable pub copy_old : (to oldp : Ptr) → Run S (Unit {0})
  unfolding load call_memmove
  copy_old to oldp = do h ← load (oldp - size_meta_data); call_memmove to oldp h.size

  unfoldable pub find_before : (fuel : ℕ) (prev block : Ptr) → Run S Ptr
  unfolding load
  find_before zero prev block = fail_out_of_fuel
  find_before (suc fuel) prev block = do
    h ← load prev
    let rest = find_before fuel (block_end prev h.size) block
    if block_end prev h.size == block then result prev else rest

  -- `is_free` of a neighbour that may be missing.
  unfoldable pub is_free_at : (p : Ptr) → Run S Bool
  unfolding load
  is_free_at p = if p == 0 then result false else (do h ← load p; result h.is_free)

  -- `size` of a neighbour that may be missing.
  unfoldable pub size_at : (p : Ptr) → Run S ℕ
  unfolding load
  size_at p = if p == 0 then result 0 else (do h ← load p; result h.size)

  -- The block after it in memory, 0 if it is the last.
  unfoldable pub block_after : (block : Ptr) → Run S Ptr
  unfolding load validate_cookie
  block_after block = do
    h ← get_heap
    b ← load block
    let next = block_end block b.size
    if block == h.wilderness then result 0 else (validate_cookie next >> result next)

  module _ (k : Kernel S) (fuel : ℕ) where
    -- After the `sbrk` that makes the last block longer; `first` is done before its header changes.
    unfoldable pub after_grow :
        (address : Ptr) (needed : ℕ) (first : Run S (Unit {0})) → Option Ptr → Run S (Option Ptr)
    unfolding load modify heap_list_remove heap_list_insert
    after_grow address needed first none = result none
    after_grow address needed first (some bonus) = do
      first
      h ← get_heap
      let wild = h.wilderness
      heap_list_remove wild
      w ← load wild
      set_size wild (add_size w.size needed)
      heap_list_insert fuel wild
      set_heap (λ g. record g { num_allocated_bytes = add_size g.num_allocated_bytes needed })
      result (some address)

    unfoldable pub grow_wilderness :
        (address : Ptr) (size : ℕ) (first : Run S (Unit {0})) → Run S (Option Ptr)
    unfolding load call_sbrk after_grow
    grow_wilderness address size first = do
      h ← get_heap
      w ← load h.wilderness
      let needed = sub_size size w.size
      bonus ← call_sbrk k needed
      after_grow address needed first bonus

    -- Case b, where the block before it and the block together are large enough.
    unfoldable pub merge_with_prev : (oldp prev next : Ptr) (size : ℕ) → Run S (Option Ptr)
    unfolding mark_free swap_is_free merge restore_is_free split copy_old
    merge_with_prev oldp prev next size = do
      mark_free (oldp - size_meta_data)
      state ← swap_is_free next false
      merge fuel k
      restore_is_free next state
      split fuel prev size
      merge fuel k
      copy_old (prev + size_meta_data) oldp
      result (some (prev + size_meta_data))

    -- Case b, for the last block.
    unfoldable pub merge_and_grow : (oldp prev : Ptr) (size : ℕ) → Run S (Option Ptr)
    unfolding mark_free merge split grow_wilderness copy_old
    merge_and_grow oldp prev size = do
      mark_free (oldp - size_meta_data)
      merge fuel k
      split fuel prev size
      grow_wilderness (prev + size_meta_data) size (copy_old (prev + size_meta_data) oldp)

    -- Case d.
    unfoldable pub merge_with_next : (oldp prev next : Ptr) (size : ℕ) → Run S (Option Ptr)
    unfolding mark_free swap_is_free merge restore_is_free split
    merge_with_next oldp prev next size = do
      mark_free (oldp - size_meta_data)
      state ← swap_is_free prev false
      merge fuel k
      restore_is_free prev state
      split fuel (oldp - size_meta_data) size
      result (some oldp)

    -- Case e.
    unfoldable pub merge_three : (oldp prev : Ptr) (size : ℕ) → Run S (Option Ptr)
    unfolding mark_free merge split copy_old
    merge_three oldp prev size = do
      mark_free (oldp - size_meta_data)
      merge fuel k
      split fuel prev size
      copy_old (prev + size_meta_data) oldp
      result (some (prev + size_meta_data))

    -- Case f, i.
    unfoldable pub merge_three_and_grow : (oldp prev : Ptr) (size : ℕ) → Run S (Option Ptr)
    unfolding mark_free merge mark_used copy_old grow_wilderness
    merge_three_and_grow oldp prev size = do
      mark_free (oldp - size_meta_data)
      merge fuel k
      mark_used prev
      copy_old (prev + size_meta_data) oldp
      grow_wilderness (prev + size_meta_data) size done

    -- Case f, ii.
    unfoldable pub merge_next_and_grow : (oldp : Ptr) (size : ℕ) → Run S (Option Ptr)
    unfolding mark_free merge mark_used grow_wilderness
    merge_next_and_grow oldp size = do
      mark_free (oldp - size_meta_data)
      merge fuel k
      mark_used (oldp - size_meta_data)
      grow_wilderness oldp size done

    unfoldable pub after_new_block : (oldp : Ptr) → Option Ptr → Run S (Option Ptr)
    unfolding copy_old sfree
    after_new_block oldp none = result none
    after_new_block oldp (some newp) = do copy_old newp oldp; sfree k fuel oldp; result (some newp)

    -- Cases g and h.
    unfoldable pub move_to_new : (oldp : Ptr) (size : ℕ) → Run S (Option Ptr)
    unfolding smalloc after_new_block
    move_to_new oldp size = do newp ← smalloc k fuel size; after_new_block oldp newp

    -- Cases c to h, where `prev` and `next` are 0 if the block is the first or the last.
    unfoldable pub later_cases : (oldp prev next : Ptr) (size : ℕ) → Run S (Option Ptr)
    unfolding load grow_wilderness merge_with_next merge_three merge_three_and_grow
        merge_next_and_grow move_to_new is_free_at size_at
    later_cases oldp prev next size = do
      old ← load (oldp - size_meta_data)
      heap ← get_heap
      next_free ← is_free_at next
      next_size ← size_at next
      prev_free ← is_free_at prev
      prev_size ← size_at prev
      if next == 0
          then grow_wilderness (heap.wilderness + size_meta_data) size done
          else if next_free && leb size (size_of_two old.size next_size)
          then merge_with_next oldp prev next size
          else if next_free && prev_free && leb size (size_of_three prev_size old.size next_size)
          then merge_three oldp prev size
          else if next_free && (next == heap.wilderness)
          then (if prev_free
              then merge_three_and_grow oldp prev size
              else merge_next_and_grow oldp size)
          else move_to_new oldp size

    -- Case b, and else the cases after it.
    unfoldable pub neighbour_cases : (oldp prev next : Ptr) (size : ℕ) → Run S (Option Ptr)
    unfolding load merge_with_prev merge_and_grow later_cases is_free_at size_at
    neighbour_cases oldp prev next size = do
      old ← load (oldp - size_meta_data)
      prev_free ← is_free_at prev
      prev_size ← size_at prev
      if prev_free && leb size (size_of_two old.size prev_size)
          then merge_with_prev oldp prev next size
          else if prev_free && (next == 0)
          then merge_and_grow oldp prev size
          else later_cases oldp prev next size

    -- The block before it in memory, 0 if it is the first.
    unfoldable pub block_before : (block : Ptr) → Run S Ptr
    unfolding find_before validate_cookie
    block_before block = do
      h ← get_heap
      if block == h.firsthead
          then result 0
          else (do prev ← find_before fuel h.firsthead block; validate_cookie prev; result prev)

    unfoldable pub after_mapped : (oldp : Ptr) (old_size size : ℕ) → Option Ptr → Run S (Option Ptr)
    unfolding call_memmove sfree
    after_mapped oldp old_size size none = result none
    after_mapped oldp old_size size (some address) = do
      call_memmove address oldp (if ltb old_size size then old_size else size)
      sfree k fuel oldp
      result (some address)

    -- `mmapsrealloc`
    unfoldable pub mmap_srealloc : (oldp : Ptr) (size : ℕ) → Run S (Option Ptr)
    unfolding load validate_cookie smalloc after_mapped
    mmap_srealloc oldp size = do
      validate_cookie (oldp - size_meta_data)
      old ← load (oldp - size_meta_data)
      if old.size == size
          then result (some oldp)
          else (do address ← smalloc k fuel size; after_mapped oldp old.size size address)

    -- Case a, and else the others.
    unfoldable pub realloc_block : (oldp : Ptr) (size : ℕ) → Run S (Option Ptr)
    unfolding load validate_cookie mmap_srealloc split block_after block_before neighbour_cases
    realloc_block oldp size = do
      validate_cookie (oldp - size_meta_data)
      old ← load (oldp - size_meta_data)
      if leb mmap_threshold old.size
          then mmap_srealloc oldp size
          else if leb size old.size
          then (split fuel (oldp - size_meta_data) size >> result (some oldp))
          else (do
            next ← block_after (oldp - size_meta_data)
            prev ← block_before (oldp - size_meta_data)
            neighbour_cases oldp prev next size)

    unfoldable pub srealloc : (oldp : Ptr) (size : ℕ) → Run S (Option Ptr)
    unfolding smalloc realloc_block
    srealloc oldp size =
        if oldp == 0
        then smalloc k fuel size
        else if (size == 0) || ltb size_limit size
        then result none
        else realloc_block oldp size
