-- ===== src/Malloc3.antt =====
-- virtual_memory/malloc_3.cpp: the allocator with a list sorted by size, splitting and merging.
--
-- The headers of the blocks are a store at addresses, and the bytes of the memory another, in which a
-- header that is written takes its place. A header is read from the first store, so what bytes that
-- are moved over a header do to it is not modelled. NULL is 0 and `sizeof(MallocMetadata)` is 40.
-- A function is a run on this memory: it may end with a value, exit in `validateCookie`, or crash on a
-- member of NULL. Loops are on fuel.
pub mod Lists
pub mod Merge
pub mod Allocate
pub mod Realloc
pub mod Links
pub mod Steps
pub mod Insert
pub mod Ties
pub mod Placed
pub mod Sorted
pub mod LostBlocks
pub mod BestFit
pub mod Remove
pub mod Removed
mod Tests
use operating_system_related.Prelude.{
  ℕ, ◌+◌, ◌-◌, Bool, true, false, ◌&&◌, ◌||◌, Option, none, some, if◌then◌else◌, ◌==◌, leb, ltb,
}
use operating_system_related.Malloc.{Ptr, add_size, sub_size}

pub record MallocMetadata : Type 0 where
  pub cookie : ℕ
  pub size : ℕ
  pub is_free : Bool
  pub next : Ptr
  pub prev : Ptr

pub record MemoryList : Type 0 where
  pub head : Ptr
  pub firsthead : Ptr
  pub wilderness : Ptr
  pub mmhead : Ptr
  pub num_free_blocks : ℕ
  pub num_free_bytes : ℕ
  pub num_allocated_blocks : ℕ
  pub num_allocated_bytes : ℕ
  pub num_meta_data_bytes : ℕ

-- What the allocator asks of the system: `sbrk` of an `intptr_t`, given as the `size_t` that the code
-- passes, `mmap` of so many bytes, and `munmap`. `none` is a failure.
pub record Kernel (S : Type 0) : Type 0 where
  pub sbrk : S → ℕ → Option Ptr × S
  pub mmap : S → ℕ → Option Ptr × S
  pub munmap : S → Ptr → ℕ → S

-- `MAIN_COOKIE`, `Heap`, the headers, the bytes of the memory, the bytes that a header is stored as,
-- and the state of the system.
pub record Memory (S : Type 0) : Type 0 where
  pub main_cookie : ℕ
  pub heap : MemoryList
  pub headers : Ptr → MallocMetadata
  pub bytes : Ptr → ℕ
  pub encode : MallocMetadata → (i : ℕ) → ℕ
  pub kernel : S

pub data Outcome (S A : Type 0) : Type 0 where
  ended : A → Memory S → Outcome S A
  exited : Outcome S A
  crashed : Outcome S A
  out_of_fuel : Outcome S A

abbrev pub Run : Type 0 → Type 0 → Type 0
Run S A = Memory S → Outcome S A

abbrev pub then_run : {S A B : Type 0} → Outcome S A → (A → Run S B) → Outcome S B
then_run (ended a m) f = f a m
then_run exited f = exited
then_run crashed f = crashed
then_run out_of_fuel f = out_of_fuel

infixl 5 ◌>>=◌ ◌>>◌
abbrev pub ◌>>=◌ : {S A B : Type 0} → Run S A → (A → Run S B) → Run S B
◌>>=◌ r f m = then_run (r m) f

abbrev pub ◌>>◌ : {S B : Type 0} → Run S (Unit {0}) → Run S B → Run S B
r >> k = r >>= λ _. k

abbrev pub result : {S A : Type 0} → A → Run S A
result a m = ended a m

abbrev pub done : {S : Type 0} → Run S (Unit {0})
done m = ended tt m

abbrev pub fail_out_of_fuel : {S A : Type 0} → Run S A
fail_out_of_fuel m = out_of_fuel

abbrev pub size_limit : ℕ
size_limit = 100000000

abbrev pub split_threshold : ℕ
split_threshold = 128

abbrev pub mmap_threshold : ℕ
mmap_threshold = 131072

-- `_size_meta_data`
abbrev pub size_meta_data : ℕ
size_meta_data = 40

abbrev pub write : (Ptr → MallocMetadata) → Ptr → MallocMetadata → Ptr → MallocMetadata
write c p h q = if q == p then h else c q

-- The bytes with a header stored at `p`.
unfoldable pub stored : (h : ℕ → ℕ) (p : Ptr) → (Ptr → ℕ) → Ptr → ℕ
stored h p bytes q = if leb p q && ltb q (p + size_meta_data) then h (q - p) else bytes q

-- A member of a header is read or written through a pointer: of NULL, this crashes.
unfoldable pub load : {S : Type 0} → Ptr → Run S MallocMetadata
load p m = if p == 0 then crashed else ended (m.headers p) m

unfoldable pub modify : {S : Type 0} → Ptr → (MallocMetadata → MallocMetadata) → Run S (Unit {0})
unfolding stored
modify p f m =
    let h = f (m.headers p) in
    if p == 0
    then crashed
    else ended tt
        (record m { headers = write m.headers p h; bytes = stored (m.encode h) p m.bytes })

abbrev pub set_next : {S : Type 0} → Ptr → Ptr → Run S (Unit {0})
set_next p q = modify p (λ h. record h { next = q })

abbrev pub set_prev : {S : Type 0} → Ptr → Ptr → Run S (Unit {0})
set_prev p q = modify p (λ h. record h { prev = q })

abbrev pub set_size : {S : Type 0} → Ptr → ℕ → Run S (Unit {0})
set_size p n = modify p (λ h. record h { size = n })

abbrev pub set_is_free : {S : Type 0} → Ptr → Bool → Run S (Unit {0})
set_is_free p b = modify p (λ h. record h { is_free = b })

abbrev pub get_heap : {S : Type 0} → Run S MemoryList
get_heap m = ended m.heap m

abbrev pub set_heap : {S : Type 0} → (MemoryList → MemoryList) → Run S (Unit {0})
set_heap f m = ended tt (record m { heap = f m.heap })

abbrev pub set_head : {S : Type 0} → Ptr → Run S (Unit {0})
set_head p = set_heap (λ h. record h { head = p })

-- `validateCookie`
unfoldable pub validate_cookie : {S : Type 0} → Ptr → Run S (Unit {0})
validate_cookie p m =
    if (p == 0) || ((m.headers p).cookie == m.main_cookie) then ended tt m else exited

unfoldable pub call_sbrk : {S : Type 0} → Kernel S → ℕ → Run S (Option Ptr)
call_sbrk k n m = let (p, s) = k.sbrk m.kernel n in ended p (record m { kernel = s })

unfoldable pub call_mmap : {S : Type 0} → Kernel S → ℕ → Run S (Option Ptr)
call_mmap k n m = let (p, s) = k.mmap m.kernel n in ended p (record m { kernel = s })

unfoldable pub call_munmap : {S : Type 0} → Kernel S → Ptr → ℕ → Run S (Unit {0})
call_munmap k p n m = ended tt (record m { kernel = k.munmap m.kernel p n })

-- `memset` to 0 and `memmove`, of `n` bytes.
unfoldable pub call_memset : {S : Type 0} → (p n : ℕ) → Run S (Unit {0})
call_memset p n m =
    ended tt (record m { bytes = λ q. if leb p q && ltb q (p + n) then 0 else m.bytes q })

unfoldable pub call_memmove : {S : Type 0} → (to from n : ℕ) → Run S (Unit {0})
call_memmove to from n m = ended tt (record m {
  bytes = λ q. if leb to q && ltb q (to + n) then m.bytes (from + (q - to)) else m.bytes q;
})

unfoldable pub new_alloc_adjustment : {S : Type 0} → (size : ℕ) → Run S (Unit {0})
new_alloc_adjustment size = set_heap (λ h. record h {
  num_allocated_blocks = add_size h.num_allocated_blocks 1;
  num_allocated_bytes = add_size h.num_allocated_bytes size;
  num_meta_data_bytes = add_size h.num_meta_data_bytes size_meta_data;
})
