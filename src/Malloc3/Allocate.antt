-- ===== src/Malloc3/Allocate.antt =====
-- virtual_memory/malloc_3.cpp: `smalloc`, `scalloc` and `sfree`.
use operating_system_related.Prelude.{
  ℕ, zero, suc, ◌+◌, ◌-◌, ◌*◌, ◌%◌, ◌^◌, true, false, ◌&&◌, ◌||◌, Option, none, some, if◌then◌else◌,
  ◌==◌, leb, ltb,
}
use operating_system_related.Malloc.{Ptr, add_size, sub_size}
use operating_system_related.Malloc3.{
  Kernel, Run, ◌>>=◌, ◌>>◌, result, done, fail_out_of_fuel, size_limit, mmap_threshold,
  size_meta_data, load, modify, set_next, set_prev, set_size, set_is_free, get_heap, set_heap,
  validate_cookie, call_sbrk, call_mmap, call_munmap, call_memset, new_alloc_adjustment,
}
use operating_system_related.Malloc3.Lists.{
  get_cookie, init_block, first_allocation, heap_list_insert, heap_list_remove,
}
use operating_system_related.Malloc3.Merge.{set_wilderness, split, merge}

module _ {S : Type 0} where
  abbrev pub set_mmhead : Ptr → Run S (Unit {0})
  set_mmhead p = set_heap (λ h. record h { mmhead = p })

  -- The last block of the list of mapped blocks.
  unfoldable pub last_mapped : (fuel : ℕ) (ptr : Ptr) → Run S Ptr
  unfolding load validate_cookie
  last_mapped zero ptr = fail_out_of_fuel
  last_mapped (suc fuel) ptr = do
    h ← load ptr
    let rest = validate_cookie ptr >> last_mapped fuel h.next
    if h.next == 0 then result ptr else rest

  unfoldable pub link_mapped : (fuel : ℕ) (new_alloc : Ptr) → Run S (Unit {0})
  unfolding modify validate_cookie last_mapped
  link_mapped fuel new_alloc = do
    h ← get_heap
    if h.mmhead == 0
        then (set_mmhead new_alloc >> validate_cookie new_alloc)
        else (do last ← last_mapped fuel h.mmhead; set_next last new_alloc; set_prev new_alloc last)

  unfoldable pub after_mmap : (fuel : ℕ) (size : ℕ) → Option Ptr → Run S (Option Ptr)
  unfolding init_block new_alloc_adjustment link_mapped
  after_mmap fuel size none = result none
  after_mmap fuel size (some p) = do
    init_block p size
    new_alloc_adjustment size
    link_mapped fuel p
    result (some (p + size_meta_data))

  -- The first block of the list that is free and large enough.
  unfoldable pub search_free : (fuel : ℕ) (ptr : Ptr) (size : ℕ) → Run S (Option Ptr)
  unfolding load validate_cookie
  search_free zero ptr size = fail_out_of_fuel
  search_free (suc fuel) ptr size = do
    validate_cookie ptr
    h ← load ptr
    let rest = search_free fuel h.next size
    if h.is_free && leb size h.size
        then result (some ptr)
        else if h.next == 0
        then result none
        else rest

  -- The last block, which is free and too small, grows by what is missing.
  unfoldable pub after_extend :
      (fuel : ℕ) (wild : Ptr) (used needed : ℕ) → Option Ptr → Run S (Option Ptr)
  unfolding load modify heap_list_remove heap_list_insert
  after_extend fuel wild used needed none = result none
  after_extend fuel wild used needed (some bonus) = do
    heap_list_remove wild
    set_is_free wild false
    w ← load wild
    set_size wild (add_size w.size needed)
    heap_list_insert fuel wild
    set_heap (λ h. record h {
      num_free_blocks = sub_size h.num_free_blocks 1;
      num_free_bytes = sub_size h.num_free_bytes used;
      num_allocated_bytes = add_size h.num_allocated_bytes needed;
    })
    result (some (wild + size_meta_data))

  -- A block behind the last one; its links are set by the insertion.
  unfoldable pub after_new : (fuel : ℕ) (size : ℕ) → Option Ptr → Run S (Option Ptr)
  unfolding modify new_alloc_adjustment heap_list_insert
  after_new fuel size none = result none
  after_new fuel size (some p) = do
    set_wilderness p
    cookie ← get_cookie
    modify p (λ h. record h { cookie = cookie; is_free = false; size = size })
    new_alloc_adjustment size
    heap_list_insert fuel p
    result (some (p + size_meta_data))

  unfoldable pub after_smalloc : (n : ℕ) → Option Ptr → Run S (Option Ptr)
  unfolding call_memset
  after_smalloc n none = result none
  after_smalloc n (some p) = do call_memset p n; result (some p)

  -- A mapped block leaves its list and is unmapped.
  unfoldable pub unlink_mapped : (block : Ptr) → Run S (Unit {0})
  unfolding load modify validate_cookie
  unlink_mapped block = do
    b ← load block
    h ← get_heap
    if block == h.mmhead
        then (do
          set_mmhead b.next
          if b.next == 0 then done else (validate_cookie b.next >> set_prev b.next 0))
        else (do
          set_next b.prev b.next
          validate_cookie b.prev
          if b.next == 0 then done else set_prev b.next b.prev)

  -- The block is free from now on.
  unfoldable pub mark_free : (block : Ptr) → Run S (Unit {0})
  unfolding load modify
  mark_free block = do
    set_is_free block true
    b ← load block
    set_heap (λ h. record h {
      num_free_blocks = add_size h.num_free_blocks 1;
      num_free_bytes = add_size h.num_free_bytes b.size;
    })

  module _ (k : Kernel S) where
    -- No block of the list is free and large enough.
    unfoldable pub grow_heap : (fuel : ℕ) (size : ℕ) → Run S (Option Ptr)
    unfolding load validate_cookie call_sbrk after_extend after_new
    grow_heap fuel size = do
      h ← get_heap
      validate_cookie h.wilderness
      w ← load h.wilderness
      if w.is_free
          then (do
            let needed = sub_size size w.size
            bonus ← call_sbrk k needed
            after_extend fuel h.wilderness w.size needed bonus)
          else (do p ← call_sbrk k (size + size_meta_data); after_new fuel size p)

    unfoldable pub after_search : (fuel : ℕ) (size : ℕ) → Option Ptr → Run S (Option Ptr)
    unfolding split grow_heap
    after_search fuel size none = grow_heap fuel size
    after_search fuel size (some ptr) = do split fuel ptr size; result (some (ptr + size_meta_data))

    unfoldable pub smalloc_mapped : (fuel : ℕ) (size : ℕ) → Run S (Option Ptr)
    unfolding call_mmap after_mmap
    smalloc_mapped fuel size = do p ← call_mmap k (size + size_meta_data); after_mmap fuel size p

    -- `none` is NULL.
    unfoldable pub smalloc : (fuel : ℕ) (size : ℕ) → Run S (Option Ptr)
    unfolding smalloc_mapped first_allocation search_free after_search
    smalloc fuel size = do
      heap ← get_heap
      if (size == 0) || ltb size_limit size
          then result none
          else if leb mmap_threshold size
          then smalloc_mapped fuel size
          else if heap.head == 0
          then first_allocation k size
          else (do found ← search_free fuel heap.head size; after_search fuel size found)

    unfoldable pub scalloc : (fuel : ℕ) (num size : ℕ) → Run S (Option Ptr)
    unfolding smalloc after_smalloc
    scalloc fuel num size = do let n = (num * size) % 2 ^ 64; p ← smalloc fuel n; after_smalloc n p

    unfoldable pub free_mapped : (block : Ptr) → Run S (Unit {0})
    unfolding load unlink_mapped call_munmap
    free_mapped block = do
      unlink_mapped block
      b ← load block
      set_heap (λ h. record h {
        num_allocated_blocks = sub_size h.num_allocated_blocks 1;
        num_allocated_bytes = sub_size h.num_allocated_bytes b.size;
        num_meta_data_bytes = sub_size h.num_meta_data_bytes size_meta_data;
      })
      call_munmap k block (b.size + size_meta_data)

    unfoldable pub free_block : (fuel : ℕ) (block : Ptr) → Run S (Unit {0})
    unfolding load validate_cookie free_mapped mark_free merge
    free_block fuel block = do
      validate_cookie block
      b ← load block
      if leb mmap_threshold b.size
          then free_mapped block
          else if b.is_free
          then done
          else (mark_free block >> merge fuel k)

    unfoldable pub sfree : (fuel : ℕ) (p : Ptr) → Run S (Unit {0})
    unfolding free_block
    sfree fuel p = if p == 0 then done else free_block fuel (p - size_meta_data)
