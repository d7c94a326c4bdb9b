-- ===== src/Malloc.antt =====
-- virtual_memory/malloc_2.cpp: the allocator that keeps its blocks in one list, in a store of their
-- headers at addresses. NULL is 0, `size_t` wraps at 64 bits, and `sizeof(MallocMetadata)` is 32.
--
-- `sbrk` is a system call: it is the parameter `Break`, a state with what the call does to it and what
-- its documentation says. The contents of the blocks are a store of bytes beside the headers.
pub mod Layout
pub mod Changes
pub mod Additions
pub mod Invariant
pub mod Smalloc
pub mod Sfree
pub mod Srealloc
mod Tests
use operating_system_related.Prelude.{
  ℕ, zero, suc, ◌+◌, ◌-◌, ◌*◌, ◌%◌, ◌^◌, ◌≤◌, ◌<◌, ◌≡◌, Bool, true, false, not, ◌&&◌, ◌||◌, Option,
  none, some, if◌then◌else◌, ◌==◌, ltb, leb,
}

abbrev pub Ptr : Type 0
Ptr = ℕ

pub record MallocMetadata : Type 0 where
  pub size : ℕ
  pub is_free : Bool
  pub next : Ptr
  pub prev : Ptr

pub record MemoryList : Type 0 where
  pub head : Ptr
  pub num_free_blocks : ℕ
  pub num_free_bytes : ℕ
  pub num_allocated_blocks : ℕ
  pub num_allocated_bytes : ℕ
  pub num_meta_data_bytes : ℕ

abbrev pub Headers : Type 0
Headers = Ptr → MallocMetadata

-- The program break. `sbrk` gives the start of new memory, above all that it gave before, or fails.
pub record Break : Type 1 where
  pub State : Type 0
  pub sbrk : State → (increment : ℕ) → Option Ptr × State
  pub top : State → ℕ
  pub top_lt : (s : State) → top s < 2 ^ 64
  pub sbrk_some :
      (s : State) (n : ℕ) (p : Ptr)
      → (sbrk s n).0 ≡ some p
      → (0 < p) × (top s ≤ p) × (p + n ≤ top (sbrk s n).1)
  pub sbrk_none : (s : State) (n : ℕ) → (sbrk s n).0 ≡ none → top s ≤ top (sbrk s n).1

abbrev pub size_limit : ℕ
size_limit = 100000000

-- `_size_meta_data`
abbrev pub size_meta_data : ℕ
size_meta_data = 32

-- Sums and differences of `size_t`.
abbrev pub add_size : ℕ → ℕ → ℕ
add_size a b = (a + b) % 2 ^ 64

abbrev pub sub_size : ℕ → ℕ → ℕ
sub_size a b = (a + (2 ^ 64 - b)) % 2 ^ 64

unfoldable pub put : Headers → Ptr → MallocMetadata → Headers
put c p m q = if q == p then m else c q

unfoldable pub new_alloc_adjustment : MemoryList → (size : ℕ) → MemoryList
new_alloc_adjustment h size = record h {
  num_allocated_blocks = add_size h.num_allocated_blocks 1;
  num_allocated_bytes = add_size h.num_allocated_bytes size;
  num_meta_data_bytes = add_size h.num_meta_data_bytes size_meta_data;
}

-- The header of a block that has just been given by `sbrk`.
abbrev pub new_block : (size : ℕ) (prev : Ptr) → MallocMetadata
new_block size prev = record { size = size; is_free = false; next = 0; prev = prev }

-- How the search of `smalloc` ends: at a free block that is large enough, or at the last block.
pub data Search : Type 0 where
  found : Ptr → Search
  exhausted : (prev : Ptr) → Search
  out_of_fuel : Search

unfoldable pub search : (fuel : ℕ) → Headers → (ptr : Ptr) → (size : ℕ) → Search
search zero c ptr size = out_of_fuel
search (suc fuel) c ptr size =
    let rest = search fuel c (c ptr).next size in
    if (c ptr).is_free && leb size (c ptr).size
    then found ptr
    else if (c ptr).next == 0
    then exhausted ptr
    else rest

module _ (break : Break) where
  open break use {State, sbrk}

  -- `Heap`, the headers, the bytes of the blocks, and the break.
  pub record Memory : Type 0 where
    pub heap : MemoryList
    pub headers : Headers
    pub bytes : Ptr → ℕ
    pub breaks : State

  -- After the `sbrk` of `firstAllocation`.
  unfoldable pub after_first_sbrk : Memory → (size : ℕ) → Option Ptr → State → Ptr × Memory
  unfolding put new_alloc_adjustment
  after_first_sbrk m size none breaks = (0, record m { breaks = breaks })
  after_first_sbrk m size (some p) breaks = (
    p + size_meta_data,
    record m {
      heap = new_alloc_adjustment (record m.heap { head = p }) size;
      headers = put m.headers p (new_block size 0);
      breaks = breaks;
    },
  )

  unfoldable pub first_allocation : Memory → (size : ℕ) → Ptr × Memory
  unfolding after_first_sbrk
  first_allocation m size =
      let (p, breaks) = sbrk m.breaks (size + size_meta_data) in after_first_sbrk m size p breaks

  -- After the `sbrk` of `smalloc`, behind the last block `prev`.
  unfoldable pub after_sbrk : Memory → (prev : Ptr) (size : ℕ) → Option Ptr → State → Ptr × Memory
  unfolding put new_alloc_adjustment
  after_sbrk m prev size none breaks = (0, record m { breaks = breaks })
  after_sbrk m prev size (some p) breaks =
      let headers = put m.headers p (new_block size prev) in
      (
        p + size_meta_data,
        record m {
          heap = new_alloc_adjustment m.heap size;
          headers = put headers prev (record (headers prev) { next = p });
          breaks = breaks;
        },
      )

  -- A free block is taken as a whole, whatever is asked of it.
  unfoldable pub take_block : Memory → (ptr : Ptr) → Ptr × Memory
  unfolding put
  take_block m ptr = (
    ptr + size_meta_data,
    record m {
      heap = record m.heap {
        num_free_blocks = sub_size m.heap.num_free_blocks 1;
        num_free_bytes = sub_size m.heap.num_free_bytes (m.headers ptr).size;
      };
      headers = put m.headers ptr (record (m.headers ptr) { is_free = false });
    },
  )

  unfoldable pub after_search : Memory → (size : ℕ) → Search → Option (Ptr × Memory)
  unfolding take_block after_sbrk
  after_search m size (found ptr) = some (take_block m ptr)
  after_search m size (exhausted prev) =
      let (p, breaks) = sbrk m.breaks (size + size_meta_data) in
      some (after_sbrk m prev size p breaks)
  after_search m size out_of_fuel = none

  -- The address it returns; `none` if the search runs out of fuel.
  unfoldable pub smalloc : (fuel : ℕ) → Memory → (size : ℕ) → Option (Ptr × Memory)
  unfolding search first_allocation after_search
  smalloc fuel m size =
      if (size == 0) || ltb size_limit size
      then some (0, m)
      else if m.heap.head == 0
      then some (first_allocation m size)
      else after_search m size (search fuel m.headers m.heap.head size)

  -- `sfree` of the space behind the header `block`.
  unfoldable pub free_block : Memory → (block : Ptr) → Memory
  unfolding put
  free_block m block = if (m.headers block).is_free then m else record m {
    heap = record m.heap {
      num_free_blocks = add_size m.heap.num_free_blocks 1;
      num_free_bytes = add_size m.heap.num_free_bytes (m.headers block).size;
    };
    headers = put m.headers block (record (m.headers block) { is_free = true });
  }

  unfoldable pub sfree : Memory → (p : Ptr) → Memory
  unfolding free_block
  sfree m p = if p == 0 then m else free_block m (p - size_meta_data)

  -- `memset` to 0 and `memmove`, of `n` bytes.
  unfoldable pub clear : Memory → (p n : ℕ) → Memory
  clear m p n = record m { bytes = λ q. if leb p q && ltb q (p + n) then 0 else m.bytes q }

  unfoldable pub move : Memory → (to from n : ℕ) → Memory
  move m to from n = record m {
    bytes = λ q. if leb to q && ltb q (to + n) then m.bytes (from + (q - to)) else m.bytes q;
  }

  -- After the `smalloc` of `scalloc`.
  unfoldable pub after_calloc : (n : ℕ) → Option (Ptr × Memory) → Option (Ptr × Memory)
  unfolding clear
  after_calloc n none = none
  after_calloc n (some (p, m)) = if p == 0 then some (0, m) else some (p, clear m p n)

  unfoldable pub scalloc : (fuel : ℕ) → Memory → (num size : ℕ) → Option (Ptr × Memory)
  unfolding smalloc after_calloc
  scalloc fuel m num size = let n = (num * size) % 2 ^ 64 in after_calloc n (smalloc fuel m n)

  -- After the `smalloc` of `srealloc`.
  unfoldable pub after_realloc : (oldp : Ptr) → Option (Ptr × Memory) → Option (Ptr × Memory)
  unfolding move sfree
  after_realloc oldp none = none
  after_realloc oldp (some (newp, m)) =
      if newp == 0
      then some (0, m)
      else some (newp, sfree (move m newp oldp (m.headers (oldp - size_meta_data)).size) oldp)

  unfoldable pub srealloc : (fuel : ℕ) → Memory → (oldp : Ptr) → (size : ℕ) → Option (Ptr × Memory)
  unfolding smalloc after_realloc
  srealloc fuel m oldp size =
      let new = smalloc fuel m size in
      if oldp == 0
      then new
      else if leb size (m.headers (oldp - size_meta_data)).size
      then some (oldp, m)
      else after_realloc oldp new
