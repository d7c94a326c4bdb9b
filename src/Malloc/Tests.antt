-- ===== src/Malloc/Tests.antt =====
-- Runs of the allocator of virtual_memory/malloc_2.cpp on a program break with room for 2 ^ 32 bytes.
use operating_system_related.Prelude.{
  ℕ, ◌+◌, ◌^◌, ◌≤◌, ◌<◌, ◌≡◌, refl, true, false, Option, none, some, [], ◌∷◌, arith, if◌then◌else◌,
  ltb, inl,
}
use Prim.Native.Nat.{min}
use operating_system_related.Malloc.{Ptr, Break, Memory, size_meta_data, smalloc, sfree, srealloc}
use operating_system_related.Malloc.Invariant.{IsHeap, Gives}
use operating_system_related.Malloc.Smalloc.{smalloc-Gives}
use operating_system_related.Malloc.Sfree.{Freed, sfree-Freed, if_cases}
use operating_system_related.Malloc.Srealloc.{Resizes, srealloc-Resizes}

unfoldable grow : (s n : ℕ) → Option Ptr × ℕ
grow s n = if ltb (s + n + 1) (2 ^ 32) then (some (s + 1), s + n + 1) else (none, s)

some_eq : {x y : ℕ} → some x ≡ some y → x ≡ y
some_eq e = cc

grow-some :
    (s n : ℕ) (p : Ptr)
    → (grow s n).0 ≡ some p
    → (0 < p) × (min s (2 ^ 32) ≤ p) × (p + n ≤ min (grow s n).1 (2 ^ 32))
unfolding grow
grow-some s n p =
    if_cases
      (λ (r : Option Ptr × ℕ).
        r.0 ≡ some p → (0 < p) × (min s (2 ^ 32) ≤ p) × (p + n ≤ min r.1 (2 ^ 32)))
      (ltb (s + n + 1) (2 ^ 32)) (some (s + 1), s + n + 1) (none, s)
      (λ t e. small (some_eq e) (below t)) (λ f e. cc)
  where
    below : ltb (s + n + 1) (2 ^ 32) ≡ true → s + n + 1 < 2 ^ 32
    below t = ground arith

    small :
        s + 1 ≡ p
        → s + n + 1 < 2 ^ 32
        → (0 < p) × (min s (2 ^ 32) ≤ p) × (p + n ≤ min (s + n + 1) (2 ^ 32))
    small e h = (omega (arith, e), omega (arith, e), omega (arith, e, h))

grow-none : (s n : ℕ) → (grow s n).0 ≡ none → min s (2 ^ 32) ≤ min (grow s n).1 (2 ^ 32)
unfolding grow
grow-none s n =
    if_cases (λ (r : Option Ptr × ℕ). r.0 ≡ none → min s (2 ^ 32) ≤ min r.1 (2 ^ 32))
      (ltb (s + n + 1) (2 ^ 32)) (some (s + 1), s + n + 1) (none, s) (λ t e. omega arith)
      (λ f e. omega arith)

abbrev small_break : Break
small_break = record {
  State = ℕ;
  sbrk = grow;
  top = λ s. min s (2 ^ 32);
  top_lt = λ s. omega arith;
  sbrk_some = grow-some;
  sbrk_none = grow-none;
}

-- One block of 8 bytes, in use, at 4096.
abbrev one_block : Memory small_break
one_block = record {
  heap = record {
    head = 4096;
    num_free_blocks = 0;
    num_free_bytes = 0;
    num_allocated_blocks = 1;
    num_allocated_bytes = 8;
    num_meta_data_bytes = 32;
  };
  headers = λ q. record { size = 8; is_free = false; next = 0; prev = 0 };
  bytes = λ q. 7;
  breaks = 4136;
}

one_block-IsHeap : IsHeap small_break one_block (4096 ∷ [])
one_block-IsHeap = record {
  linked = (refl, omega arith, refl, (refl, omega arith));
  totals = record {
    allocated_blocks = refl;
    allocated_bytes = refl;
    meta_data_bytes = refl;
    frees = refl;
    frees_bytes = refl;
  };
}

smalloc-Gives_example :
    Gives small_break one_block (4096 ∷ []) 100 (smalloc small_break 1 one_block 100)
smalloc-Gives_example =
    smalloc-Gives small_break 1 one_block (4096 ∷ []) 100 one_block-IsHeap (omega arith)

sfree-Freed_example :
    Freed small_break one_block
      (sfree small_break one_block (4096 + size_meta_data))
      4096
      (4096 ∷ [])
sfree-Freed_example = sfree-Freed small_break one_block (4096 ∷ []) 4096 one_block-IsHeap (inl refl)

srealloc-Resizes_example :
    Resizes small_break one_block 4096 50
      (srealloc small_break 1 one_block (4096 + size_meta_data) 50)
srealloc-Resizes_example =
    srealloc-Resizes small_break 1 one_block (4096 ∷ []) 4096 50 one_block-IsHeap (inl refl) refl
      (omega arith)
