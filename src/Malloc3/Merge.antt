-- ===== src/Malloc3/Merge.antt =====
-- virtual_memory/malloc_3.cpp: `split`, `smerge` and `merge`.
use operating_system_related.Prelude.{
  ℕ, zero, suc, ◌+◌, Bool, true, false, not, Option, none, some, if◌then◌else◌, ◌==◌, ◌||◌,
}
use operating_system_related.Prelude.Int.{pos, ◌-ℤ◌, ltb_ℤ, to_int}
use operating_system_related.Malloc.{Ptr, add_size, sub_size}
use operating_system_related.Malloc3.{
  MemoryList, Kernel, Run, ◌>>=◌, ◌>>◌, done, fail_out_of_fuel, size_meta_data, split_threshold,
  load, modify, set_size, set_is_free, get_heap, set_heap, validate_cookie, call_sbrk,
}
use operating_system_related.Malloc3.Lists.{get_cookie, heap_list_insert, heap_list_remove}

-- The test of `split`: enough is left for another block.
unfoldable pub can_split : (size new_size : ℕ) → Bool
can_split size new_size =
    not (ltb_ℤ (to_int size -ℤ to_int new_size -ℤ to_int size_meta_data) (pos split_threshold))

-- The address behind a block of this size.
abbrev pub block_end : (p : Ptr) (size : ℕ) → Ptr
block_end p size = p + size + size_meta_data

-- The statistics of the free blocks when `request`, free or not, is split.
abbrev pub split_free : (is_free : Bool) (new_size left : ℕ) → MemoryList → MemoryList
split_free false new_size left h = record h {
  num_free_blocks = add_size h.num_free_blocks 1;
  num_free_bytes = add_size h.num_free_bytes left;
}
split_free true new_size left h = record h {
  num_free_bytes = sub_size h.num_free_bytes (new_size + size_meta_data);
}

abbrev pub split_allocated : MemoryList → MemoryList
split_allocated h = record h {
  num_allocated_blocks = add_size h.num_allocated_blocks 1;
  num_allocated_bytes = sub_size h.num_allocated_bytes size_meta_data;
  num_meta_data_bytes = add_size h.num_meta_data_bytes size_meta_data;
}

abbrev pub merge_stats : MemoryList → MemoryList
merge_stats h = record h {
  num_free_blocks = sub_size h.num_free_blocks 1;
  num_free_bytes = add_size h.num_free_bytes size_meta_data;
  num_allocated_blocks = sub_size h.num_allocated_blocks 1;
  num_allocated_bytes = add_size h.num_allocated_bytes size_meta_data;
  num_meta_data_bytes = sub_size h.num_meta_data_bytes size_meta_data;
}

module _ {S : Type 0} where
  abbrev pub set_wilderness : Ptr → Run S (Unit {0})
  set_wilderness p = set_heap (λ h. record h { wilderness = p })

  -- The branch of `split` that makes a new block, up to the changes of the list.
  unfoldable pub split_headers : (request : Ptr) (new_size : ℕ) → Run S (Unit {0})
  unfolding load modify
  split_headers request new_size = do
    let new_block = block_end request new_size
    h ← get_heap
    if request == h.wilderness then set_wilderness new_block else done
    cookie ← get_cookie
    r ← load request
    let left = sub_size (sub_size r.size new_size) size_meta_data
    modify new_block (λ b. record b { cookie = cookie; is_free = true; size = left })
    set_heap (split_free r.is_free new_size left)
    set_is_free request false
    set_size request new_size
    set_heap split_allocated

  unfoldable pub split_list : (fuel : ℕ) (request new_block : Ptr) → Run S (Unit {0})
  unfolding heap_list_remove heap_list_insert
  split_list fuel request new_block = do
    heap_list_remove request
    heap_list_insert fuel request
    heap_list_insert fuel new_block

  -- The other branch: the block is taken as a whole.
  unfoldable pub take_whole : (request : Ptr) → Run S (Unit {0})
  unfolding load modify
  take_whole request = do
    r ← load request
    if r.is_free
        then (do
          set_is_free request false
          set_heap (λ h. record h {
            num_free_blocks = sub_size h.num_free_blocks 1;
            num_free_bytes = sub_size h.num_free_bytes r.size;
          }))
        else done

  unfoldable pub split : (fuel : ℕ) (request : Ptr) (new_size : ℕ) → Run S (Unit {0})
  unfolding validate_cookie load can_split split_headers split_list take_whole
  split fuel request new_size = do
    validate_cookie request
    r ← load request
    if can_split r.size new_size
        then (do
          split_headers request new_size
          split_list fuel request (block_end request new_size))
        else take_whole request

  -- `next`, which is free and adjacent, becomes a part of `ptr`.
  unfoldable pub merge_next : (fuel : ℕ) (ptr next : Ptr) → Run S (Unit {0})
  unfolding load modify heap_list_remove heap_list_insert
  merge_next fuel ptr next = do
    n ← load next
    modify ptr (λ p. record p { size = add_size p.size (n.size + size_meta_data) })
    set_heap merge_stats
    heap_list_remove ptr
    heap_list_remove next
    heap_list_insert fuel ptr

  -- `fuel` bounds the rounds of `smerge` and of each insertion.
  unfoldable pub smerge : (fuel : ℕ) (limit ptr : Ptr) → Run S (Unit {0})
  unfolding load validate_cookie merge_next
  smerge zero limit ptr = fail_out_of_fuel
  smerge (suc fuel) limit ptr = do
    let go_on = smerge fuel limit
    if ptr == limit then done else (do
      validate_cookie ptr
      p ← load ptr
      let next = block_end ptr p.size
      if next == limit then done else (do
        validate_cookie next
        n ← load next
        if not p.is_free || not n.is_free then go_on next else (do
          merge_next (suc fuel) ptr next
          h ← get_heap
          if next == h.wilderness then set_wilderness ptr else go_on ptr)))

  unfoldable pub smerge_from : (fuel : ℕ) → Option Ptr → Run S (Unit {0})
  unfolding smerge
  smerge_from fuel none = done
  smerge_from fuel (some limit) = do
    h ← get_heap
    if h.firsthead == 0 then done else smerge fuel limit h.firsthead

  unfoldable pub merge : (fuel : ℕ) → Kernel S → Run S (Unit {0})
  unfolding call_sbrk smerge_from
  merge fuel k = do limit ← call_sbrk k 0; smerge_from fuel limit
