-- ===== src/Malloc3/Lists.antt =====
-- virtual_memory/malloc_3.cpp: `firstAllocation`, `HeapListInsert` and `HeapListRemove`.
use operating_system_related.Prelude.{
  ℕ, zero, suc, ◌+◌, false, ◌&&◌, Option, none, some, if◌then◌else◌, ◌==◌, leb, ltb,
}
use operating_system_related.Malloc.{Ptr}
use operating_system_related.Malloc3.{
  Kernel, Outcome, Run, ◌>>=◌, ◌>>◌, result, done, fail_out_of_fuel, size_meta_data, load, modify,
  set_next, set_prev, get_heap, set_heap, set_head, validate_cookie, call_sbrk,
  new_alloc_adjustment,
}

-- `main_cookie` of the memory.
abbrev pub get_cookie : {S : Type 0} → Run S ℕ
get_cookie m = Outcome.ended m.main_cookie m

-- The header of a new block that is in use and in no list.
unfoldable pub init_block : {S : Type 0} → (p : Ptr) (size : ℕ) → Run S (Unit {0})
unfolding modify
init_block p size = do
  cookie ← get_cookie
  modify p (λ h. record { cookie = cookie; size = size; is_free = false; next = 0; prev = 0 })

module _ {S : Type 0} where
  -- `new_alloc` between `ptr` and the block after it.
  unfoldable pub insert_after : (new_alloc ptr : Ptr) → Run S (Unit {0})
  unfolding load modify
  insert_after new_alloc ptr = do
    h ← load ptr
    set_next new_alloc h.next
    set_prev new_alloc ptr
    set_next ptr new_alloc
    set_prev h.next new_alloc

  -- `new_alloc` between the block before `ptr` and `ptr`, which is not the head.
  unfoldable pub insert_before : (new_alloc ptr : Ptr) → Run S (Unit {0})
  unfolding load modify
  insert_before new_alloc ptr = do
    h ← load ptr
    set_next new_alloc ptr
    set_prev new_alloc h.prev
    set_prev ptr new_alloc
    set_next h.prev new_alloc

  -- `new_alloc` as the head before `ptr`.
  unfoldable pub insert_as_head : (new_alloc ptr : Ptr) → Run S (Unit {0})
  unfolding modify
  insert_as_head new_alloc ptr = do
    set_head new_alloc
    set_next new_alloc ptr
    set_prev new_alloc 0
    set_prev ptr new_alloc

  -- `new_alloc` behind `ptr`, the last block.
  unfoldable pub append_block : (new_alloc ptr : Ptr) → Run S (Unit {0})
  unfolding modify
  append_block new_alloc ptr = do
    set_next ptr new_alloc
    set_prev new_alloc ptr
    set_next new_alloc 0

  -- `new_alloc` is smaller than the last block: it becomes the head, with the last block after it.
  unfoldable pub insert_small : (new_alloc ptr : Ptr) → Run S (Unit {0})
  unfolding modify
  insert_small new_alloc ptr = do
    set_prev ptr new_alloc
    set_next new_alloc ptr
    set_prev new_alloc 0
    set_head new_alloc

  -- Before `ptr`, whether or not it is the head.
  unfoldable pub insert_in_front : (new_alloc ptr : Ptr) → Run S (Unit {0})
  unfolding insert_as_head insert_before
  insert_in_front new_alloc ptr = do
    heap ← get_heap
    if ptr == heap.head then insert_as_head new_alloc ptr else insert_before new_alloc ptr

  -- The insertion inside of the loop, where the size falls between `ptr` and the block after it.
  unfoldable pub insert_between : (new_alloc ptr : Ptr) → Run S (Unit {0})
  unfolding load insert_after insert_in_front
  insert_between new_alloc ptr = do
    n ← load new_alloc
    h ← load ptr
    if (n.size == h.size) && leb new_alloc ptr
        then insert_in_front new_alloc ptr
        else insert_after new_alloc ptr

  -- The insertion after the loop, where `ptr` is the last block.
  unfoldable pub insert_last : (new_alloc ptr : Ptr) → Run S (Unit {0})
  unfolding load insert_in_front append_block insert_small
  insert_last new_alloc ptr = do
    n ← load new_alloc
    h ← load ptr
    if leb h.size n.size
        then (if (h.size == n.size) && leb new_alloc ptr
            then insert_in_front new_alloc ptr
            else append_block new_alloc ptr)
        else insert_small new_alloc ptr

  unfoldable pub insert_from : (fuel : ℕ) (new_alloc ptr : Ptr) → Run S (Unit {0})
  unfolding load validate_cookie insert_between insert_last
  insert_from zero new_alloc ptr = fail_out_of_fuel
  insert_from (suc fuel) new_alloc ptr = do
    h ← load ptr
    if h.next == 0 then insert_last new_alloc ptr else do
      validate_cookie new_alloc
      n ← load new_alloc
      after ← load h.next
      let rest = validate_cookie h.next >> insert_from fuel new_alloc h.next
      if leb h.size n.size && ltb n.size after.size then insert_between new_alloc ptr else rest

  unfoldable pub heap_list_insert : (fuel : ℕ) (new_alloc : Ptr) → Run S (Unit {0})
  unfolding modify validate_cookie insert_from
  heap_list_insert fuel new_alloc = do
    heap ← get_heap
    if heap.head == 0
        then (do set_head new_alloc; set_next new_alloc 0; set_prev new_alloc 0)
        else (do validate_cookie heap.head; insert_from fuel new_alloc heap.head)

  -- The head is taken off.
  unfoldable pub remove_head : (block : Ptr) → Run S (Unit {0})
  unfolding load modify
  remove_head block = do
    b ← load block
    set_head b.next
    if b.next == 0 then done else set_prev b.next 0

  -- Another block is taken off.
  unfoldable pub remove_inner : (block : Ptr) → Run S (Unit {0})
  unfolding load modify validate_cookie
  remove_inner block = do
    b ← load block
    if b.next == 0 then done else (set_prev b.next b.prev >> validate_cookie b.next)
    validate_cookie b.prev
    set_next b.prev b.next

  unfoldable pub heap_list_remove : (block : Ptr) → Run S (Unit {0})
  unfolding validate_cookie remove_head remove_inner
  heap_list_remove block = do
    validate_cookie block
    heap ← get_heap
    validate_cookie heap.head
    if block == heap.head then remove_head block else remove_inner block

-- The list starts with its first block.
unfoldable pub first_block : {S : Type 0} → (p : Ptr) (size : ℕ) → Run S (Option Ptr)
unfolding init_block new_alloc_adjustment
first_block p size = do
  init_block p size
  set_heap (λ h. record h { head = p; wilderness = p; firsthead = p })
  new_alloc_adjustment size
  result (some (p + size_meta_data))

unfoldable pub after_first_sbrk : {S : Type 0} → (size : ℕ) → Option Ptr → Run S (Option Ptr)
unfolding first_block
after_first_sbrk size none = result none
after_first_sbrk size (some p) = first_block p size

unfoldable pub first_allocation : {S : Type 0} → Kernel S → (size : ℕ) → Run S (Option Ptr)
unfolding call_sbrk after_first_sbrk
first_allocation k size = do p ← call_sbrk k (size + size_meta_data); after_first_sbrk size p
