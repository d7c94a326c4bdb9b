-- ===== src/Malloc/Layout.antt =====
-- virtual_memory/malloc_2.cpp: the list of the blocks in the store, and its totals.
use operating_system_related.Prelude.{
  ℕ, ◌+◌, ◌-◌, ◌≤◌, ◌≡◌, ◌≢◌, refl, ◌∙◌, true, false, List, [], ◌∷◌, arith, if◌then◌else◌, ◌==◌,
  ◌⊎◌, inl, inr,
}
use operating_system_related.Malloc.{Ptr, MallocMetadata, Headers, size_meta_data, put}

-- From `p` on the list runs through the blocks at `rest`, each behind the one before it, in the order of
-- their addresses and without an overlap, from `low` to `top`.
abbrev pub Blocks : Headers → (low top : ℕ) (prev p : Ptr) → List Ptr → Type 0
Blocks c low top prev p [] = (p ≡ 0) × (low ≤ top)
Blocks c low top prev p (a ∷ rest) =
    (p ≡ a)
    × (low ≤ a)
    × ((c a).prev ≡ prev)
    × Blocks c (a + size_meta_data + (c a).size) top a (c a).next rest

abbrev pub free_blocks : Headers → List Ptr → ℕ
free_blocks c [] = 0
free_blocks c (a ∷ rest) = (if (c a).is_free then 1 else 0) + free_blocks c rest

abbrev pub free_bytes : Headers → List Ptr → ℕ
free_bytes c [] = 0
free_bytes c (a ∷ rest) = (if (c a).is_free then (c a).size else 0) + free_bytes c rest

abbrev pub all_bytes : Headers → List Ptr → ℕ
all_bytes c [] = 0
all_bytes c (a ∷ rest) = (c a).size + all_bytes c rest

pub put_self : (c : Headers) (p : Ptr) (m : MallocMetadata) → put c p m p ≡ m
unfolding put
put_self c p m = ground arith

pub put_other : (c : Headers) (p : Ptr) (m : MallocMetadata) (q : Ptr) → q ≢ p → put c p m q ≡ c q
unfolding put
put_other c p m q h = ground arith

-- Headers that agree from `low` on have the same list there.
pub Blocks-agree :
    (c d : Headers) (low top : ℕ) (prev p : Ptr) (rest : List Ptr)
    → ((q : Ptr) → low ≤ q → d q ≡ c q)
    → Blocks c low top prev p rest
    → Blocks d low top prev p rest
Blocks-agree c d low top prev p [] same h = h
Blocks-agree c d low top prev p (a ∷ rest) same (e, le, back, more) = (
  e,
  le,
  rw (same a le) back,
  rw (same a le) (
      Blocks-agree c d (a + size_meta_data + (c a).size) top a (c a).next rest
        (λ q h. same q (omega (arith, h, le))) more),
)

-- Headers with the same sizes and links have the same list.
pub Blocks-links :
    (c d : Headers) (low top : ℕ) (prev p : Ptr) (blocks : List Ptr)
    → ((q : Ptr)
        → ((d q).size ≡ (c q).size) × ((d q).next ≡ (c q).next) × ((d q).prev ≡ (c q).prev))
    → Blocks c low top prev p blocks
    → Blocks d low top prev p blocks
Blocks-links c d low top prev p [] same h = h
Blocks-links c d low top prev p (a ∷ rest) same (e, le, back, more) =
    let (size, next, prev_eq) = same a in
    (
      e,
      le,
      prev_eq ∙ back,
      rw (size, next)
          (Blocks-links c d (a + size_meta_data + (c a).size) top a (c a).next rest same more),
    )

abbrev pub IsIn : Ptr → List Ptr → Type 0
IsIn q [] = ⊥
IsIn q (a ∷ rest) = (q ≡ a) ⊎ IsIn q rest

-- A block of the list lies between its bounds.
pub IsIn-within :
    (c : Headers) (low top : ℕ) (prev p q : Ptr) (blocks : List Ptr)
    → Blocks c low top prev p blocks
    → IsIn q blocks
    → (low ≤ q) × (q + size_meta_data ≤ top)
IsIn-within c low top prev p q [] h i = absurd i
IsIn-within c low top prev p q (a ∷ rest) (e, le, back, more) (inl here) =
    let below = low-top c (a + size_meta_data + (c a).size) top a (c a).next rest more in
    (omega (arith, le, here), omega (arith, below, here))
  where
    low-top :
        (c : Headers) (low top : ℕ) (prev p : Ptr) (blocks : List Ptr)
        → Blocks c low top prev p blocks
        → low ≤ top
    low-top c low top prev p [] (z, le) = le
    low-top c low top prev p (a ∷ rest) (e, le, back, more) =
        let next = low-top c (a + size_meta_data + (c a).size) top a (c a).next rest more in
        omega (arith, le, next)
IsIn-within c low top prev p q (a ∷ rest) (e, le, back, more) (inr there) =
    let (l, t) =
      IsIn-within c (a + size_meta_data + (c a).size) top a (c a).next q rest more there in
    (omega (arith, l, le), t)

-- The totals read the headers of the list only.
pub totals-agree :
    (c d : Headers) (blocks : List Ptr)
    → ((q : Ptr) → IsIn q blocks → ((d q).size ≡ (c q).size) × ((d q).is_free ≡ (c q).is_free))
    → (free_blocks d blocks ≡ free_blocks c blocks)
      × (free_bytes d blocks ≡ free_bytes c blocks)
      × (all_bytes d blocks ≡ all_bytes c blocks)
totals-agree c d [] same = (refl, refl, refl)
totals-agree c d (a ∷ rest) same =
    let (size, free) = same a (inl refl) in
    let (x, y, z) = totals-agree c d rest (λ q i. same q (inr i)) in
    (rw (free, x) refl, rw (free, size, y) refl, rw (size, z) refl)

-- A list that ends below one bound ends below a higher one.
pub Blocks-low :
    (c : Headers) (low top top' : ℕ) (prev p : Ptr) (blocks : List Ptr)
    → top ≤ top'
    → Blocks c low top prev p blocks
    → Blocks c low top' prev p blocks
Blocks-low c low top top' prev p [] h (z, le) = (z, omega (arith, h, le))
Blocks-low c low top top' prev p (a ∷ rest) h (e, le, back, more) =
    (e, le, back, Blocks-low c (a + size_meta_data + (c a).size) top top' a (c a).next rest h more)

-- The tests on addresses.
pub is_null : (p : ℕ) → p ≡ 0 → (p == 0) ≡ true
is_null p e = ground arith

pub not_null : (p : ℕ) → p ≢ 0 → (p == 0) ≡ false
not_null p h = ground arith

pub not_null_behind : (p q : ℕ) → p ≡ q + size_meta_data → (p == 0) ≡ false
not_null_behind p q e = ground arith

pub behind : (q : ℕ) → (q + size_meta_data) - size_meta_data ≡ q
behind q = omega arith
