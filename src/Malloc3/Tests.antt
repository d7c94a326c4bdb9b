-- ===== src/Malloc3/Tests.antt =====
-- Runs of the allocator with a sorted list, on concrete headers.
use operating_system_related.Prelude.{
  ℕ, Option, some, ◌≡◌, refl, true, [], ◌∷◌, if◌then◌else◌, ◌==◌, arith,
}
use operating_system_related.Malloc.{Ptr}
use operating_system_related.Malloc3.{MallocMetadata, Memory, ended}
use operating_system_related.Malloc3.Lists.{heap_list_insert, heap_list_remove}
use operating_system_related.Malloc3.Links.{IsChain}
use operating_system_related.Malloc3.Insert.{insert_sorted}
use operating_system_related.Malloc3.Sorted.{IsRebuilt, heap_list_insert-Sorted}
use operating_system_related.Malloc3.Allocate.{search_free}
use operating_system_related.Malloc3.BestFit.{IsBestFit, search_free-IsBestFit}
use operating_system_related.Malloc3.Removed.{Relinked, heap_list_remove-Relinked}
use operating_system_related.Malloc3.LostBlocks.{last_block, heap_list_insert-two}

abbrev header : (size next prev : ℕ) → MallocMetadata
header size next prev = record { cookie = 7; size = size; is_free = true; next = next; prev = prev }

-- Blocks of 10, 30 and 40 bytes in a list, and blocks of 20, 30, 10 and 5 bytes in none.
abbrev headers : Ptr → MallocMetadata
headers p =
    if p == 100
    then header 10 200 0
    else if p == 200
    then header 30 300 100
    else if p == 300
    then header 40 0 200
    else if p == 400
    then header 20 0 0
    else if p == 150
    then header 30 0 0
    else if p == 50
    then header 10 0 0
    else header 5 0 0

abbrev memory : Memory (Unit {0})
memory = record {
  main_cookie = 7;
  heap = record {
    head = 100;
    firsthead = 100;
    wilderness = 400;
    mmhead = 0;
    num_free_blocks = 3;
    num_free_bytes = 80;
    num_allocated_blocks = 4;
    num_allocated_bytes = 100;
    num_meta_data_bytes = 160;
  };
  headers = headers;
  bytes = λ p. 0;
  encode = λ h i. 0;
  kernel = tt;
}

-- A block of 30 bytes below the one in the list.
heap_list_insert-Sorted_example :
    IsRebuilt 150
      (omega arith)
      memory
      (100 ∷ 200 ∷ 300 ∷ [])
      (insert_sorted headers 150 (100 ∷ 200 ∷ 300 ∷ []))
      (heap_list_insert 3 150 memory)
heap_list_insert-Sorted_example =
    heap_list_insert-Sorted 150 (omega arith) 100 (200 ∷ 300 ∷ []) 3 memory
      (refl, omega arith, refl, (refl, omega arith, refl, (refl, omega arith, refl, refl)))
      ((omega arith, (omega arith, tt)), ((omega arith, tt), (tt, tt))) (refl, (refl, (refl, tt)))
      (omega arith, (omega arith, (omega arith, tt)))
      (omega arith, (omega arith, (omega arith, tt))) refl (omega arith) (omega arith)

insert_sorted_run : insert_sorted headers 400 (100 ∷ 200 ∷ 300 ∷ []) ≡ 100 ∷ 400 ∷ 200 ∷ 300 ∷ []
unfolding insert_sorted
insert_sorted_run = refl

insert_sorted_tie : insert_sorted headers 150 (100 ∷ 200 ∷ 300 ∷ []) ≡ 100 ∷ 150 ∷ 200 ∷ 300 ∷ []
unfolding insert_sorted
insert_sorted_tie = refl

insert_sorted_head : insert_sorted headers 50 (100 ∷ 200 ∷ 300 ∷ []) ≡ 50 ∷ 100 ∷ 200 ∷ 300 ∷ []
unfolding insert_sorted
insert_sorted_head = refl

-- The block of 5 bytes takes the place of the first two.
heap_list_insert-two_example :
    (t : Memory (Unit {0})) × (heap_list_insert 3 500 memory ≡ ended tt t)
    × (t.heap.head ≡ 500)
    × IsChain t.headers 0 500 (500 ∷ last_block 100 (200 ∷ 300 ∷ []) ∷ [])
heap_list_insert-two_example =
    heap_list_insert-two 500 (omega arith) 100 (200 ∷ 300 ∷ []) 3 memory
      (refl, omega arith, refl, (refl, omega arith, refl, (refl, omega arith, refl, refl)))
      (refl, (refl, (refl, tt))) (omega arith, (omega arith, (omega arith, tt))) refl
      (omega arith, (omega arith, (omega arith, tt))) (omega arith)

last_block_run : last_block 100 (200 ∷ 300 ∷ []) ≡ 300
unfolding last_block
last_block_run = refl

search_free-IsBestFit_example :
    (r : Option Ptr) × (search_free 3 100 25 memory ≡ ended r memory)
    × IsBestFit headers 25 (100 ∷ 200 ∷ 300 ∷ []) r
search_free-IsBestFit_example =
    search_free-IsBestFit 25 (200 ∷ 300 ∷ []) 3 0 0 100 100 memory (omega arith)
      (refl, omega arith, refl, (refl, omega arith, refl, (refl, omega arith, refl, refl)))
      (refl, (refl, (refl, tt))) (omega arith, (omega arith, (omega arith, tt)))

search_free_run : search_free 3 100 25 memory ≡ ended (some 200) memory
unfolding search_free
search_free_run = refl

-- The block in the middle leaves the list.
heap_list_remove-Relinked_example : Relinked memory (100 ∷ 300 ∷ []) (heap_list_remove 200 memory)
heap_list_remove-Relinked_example =
    heap_list_remove-Relinked (100 ∷ []) 200 (300 ∷ []) memory
      (refl, omega arith, refl, (refl, omega arith, refl, (refl, omega arith, refl, refl)))
      ((omega arith, (omega arith, tt)), ((omega arith, tt), (tt, tt))) (refl, (refl, (refl, tt)))
