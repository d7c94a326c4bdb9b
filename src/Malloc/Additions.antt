-- ===== src/Malloc/Additions.antt =====
-- virtual_memory/malloc_2.cpp: where the search of `smalloc` ends, and what adding a block behind the
-- last one does to the list and to its totals.
use operating_system_related.Prelude.{
  ℕ, zero, suc, ◌+◌, ◌≤◌, ◌<◌, ◌≡◌, ◌≢◌, refl, sym, ap, ◌∙◌, Bool, true, false, List, [], ◌∷◌, ◌++◌,
  arith, length, if◌then◌else◌, ◌==◌, inl, inr, leb, ◌&&◌, Bool-cases,
}
use native.Mathlib.Decide.{ℕ_discrete}
use operating_system_related.Malloc.{
  Ptr, MallocMetadata, Headers, size_meta_data, put, new_block, Search, found, exhausted,
  out_of_fuel, search,
}
use operating_system_related.Malloc.Layout.{
  Blocks, free_blocks, free_bytes, all_bytes, put_self, put_other, IsIn, IsIn-within, totals-agree,
}

abbrev pub last_block : (a : Ptr) (rest : List Ptr) → Ptr
last_block a [] = a
last_block a (b ∷ rest) = last_block b rest

-- The search ends at a free block of the list that is large enough, or at the last block if there is
-- none.
abbrev pub Finds : Headers → (size : ℕ) → (a : Ptr) (rest : List Ptr) → Search → Type 0
Finds c size a rest (found q) = IsIn q (a ∷ rest) × ((c q).is_free ≡ true) × (size ≤ (c q).size)
Finds c size a rest (exhausted q) =
    (q ≡ last_block a rest)
    × ((x : Ptr) → IsIn x (a ∷ rest) → (c x).is_free ≡ true → (c x).size < size)
Finds c size a rest out_of_fuel = ⊥

fits_lem : (free : Bool) (m n : ℕ) → (free && leb m n) ≡ true → (free ≡ true) × (m ≤ n)
fits_lem true m n h = (refl, ground arith)
fits_lem false m n h = cc

misfit_lem : (free : Bool) (m n : ℕ) → (free && leb m n) ≡ false → free ≡ true → n < m
misfit_lem true m n h f = ground arith
misfit_lem false m n h f = cc

Finds-next :
    (c : Headers) (size a b : ℕ) (rest : List Ptr)
    → ((c a).is_free && leb size (c a).size) ≡ false
    → (r : Search) → Finds c size b rest r
    → Finds c size a (b ∷ rest) r
Finds-next c size a b rest f (found q) (i, free, fits) = (inr i, free, fits)
Finds-next c size a b rest f (exhausted q) (e, small) = (e, λ x i free. all_small x i free)
  where
    all_small : (x : Ptr) → IsIn x (a ∷ b ∷ rest) → (c x).is_free ≡ true → (c x).size < size
    all_small x (inl here) free =
        rw here (misfit_lem (c a).is_free size (c a).size f (rw (sym here) free))
    all_small x (inr there) free = small x there free
Finds-next c size a b rest f out_of_fuel never = never

search-step :
    (fuel : ℕ) (c : Headers) (size a b : ℕ) (rest : List Ptr)
    → (c a).next ≡ b
    → 0 < b
    → Finds c size b rest (search fuel c b size)
    → Finds c size a (b ∷ rest) (search (suc fuel) c a size)
unfolding search
search-step fuel c size a b rest e pos next =
    elim (Bool-cases ((c a).is_free && leb size (c a).size)) [
      | inl t ↦
          let (free, fits) = fits_lem (c a).is_free size (c a).size t in rw t (inl refl, free, fits)
      | inr f ↦ rw (f, e, not_null b pos) (Finds-next c size a b rest f (search fuel c b size) next)
    ]
  where
    not_null : (b : ℕ) → 0 < b → (b == 0) ≡ false
    not_null b h = ground arith

search-last :
    (fuel : ℕ) (c : Headers) (size a : ℕ)
    → (c a).next ≡ 0
    → Finds c size a [] (search (suc fuel) c a size)
unfolding search
search-last fuel c size a e = elim (Bool-cases ((c a).is_free && leb size (c a).size)) [
  | inl t ↦
      let (free, fits) = fits_lem (c a).is_free size (c a).size t in rw t (inl refl, free, fits)
  | inr f ↦ rw (f, e) (refl, λ x i free. small x i free f)
]
  where
    small :
        (x : Ptr)
        → IsIn x (a ∷ [])
        → (c x).is_free ≡ true
        → ((c a).is_free && leb size (c a).size) ≡ false
        → (c x).size < size
    small x (inl here) free f =
        rw here (misfit_lem (c a).is_free size (c a).size f (rw (sym here) free))
    small x (inr there) free f = absurd there

-- With fuel for the blocks the search ends.
pub search-Finds :
    (fuel : ℕ) (c : Headers) (size low top : ℕ) (prev p a : Ptr) (rest : List Ptr)
    → Blocks c low top prev p (a ∷ rest)
    → length (a ∷ rest) ≤ fuel
    → Finds c size a rest (search fuel c a size)
search-Finds zero c size low top prev p a rest h less = absurd (omega arith)
search-Finds (suc fuel) c size low top prev p a [] (e, le, back, (null, top_le)) less =
    search-last fuel c size a null
search-Finds (suc fuel) c size low top prev p a (b ∷ rest) (e, le, back, more) less =
    search-step fuel c size a b rest more.0 (omega (arith, more.1)) (
      search-Finds fuel c size (a + size_meta_data + (c a).size) top a (c a).next b rest more
        (omega arith))

-- The headers with a block at `new` behind the block `last`.
abbrev pub with_block : Headers → (new size : ℕ) (last : Ptr) → Headers
with_block c new size last =
    let d = put c new (new_block size last) in put d last (record (d last) { next = new })

pub last_block-IsIn : (a : Ptr) (rest : List Ptr) → IsIn (last_block a rest) (a ∷ rest)
last_block-IsIn a [] = inl refl
last_block-IsIn a (b ∷ rest) = inr (last_block-IsIn b rest)

-- What the headers are at the new block, at the last one, and elsewhere.
record Linked (c d : Headers) (new size : ℕ) (last : Ptr) : Type 0 where
  at_new : d new ≡ new_block size last
  at_last : d last ≡ record (c last) { next = new }
  elsewhere : (x : Ptr) → x ≢ new → x ≢ last → d x ≡ c x

with_block-Linked :
    (c : Headers) (new size : ℕ) (last : Ptr)
    → last ≢ new
    → Linked c (with_block c new size last) new size last
with_block-Linked c new size last ne =
    let d = put c new (new_block size last) in
    let m = record (d last) { next = new } in
    record {
      at_new = put_other d last m new (λ e. ne (sym e)) ∙ put_self c new (new_block size last);
      at_last =
          put_self d last m
          ∙ ap {A = MallocMetadata} (λ n. record n { next = new })
              (put_other c new (new_block size last) last ne);
      elsewhere = λ x h k. put_other d last m x k ∙ put_other c new (new_block size last) x h;
    }

Linked-Blocks :
    (c d : Headers) (low top : ℕ) (prev p a : Ptr) (rest : List Ptr) (new size top' : ℕ)
    → Blocks c low top prev p (a ∷ rest)
    → Linked c d new size (last_block a rest)
    → top ≤ new
    → new + (size + size_meta_data) ≤ top'
    → Blocks d low top' prev p ((a ∷ rest) ++ new ∷ [])
Linked-Blocks c d low top prev p a [] new size top' (e, le, back, (null, top_le)) h above fits =
    let l = h.at_last in
    let n = h.at_new in
    (
      e,
      le,
      ap (λ m. m.prev) l ∙ back,
      (
        ap (λ m. m.next) l,
        omega (arith, ap (λ m. m.size) l, top_le, above),
        ap (λ m. m.prev) n,
        (ap (λ m. m.next) n, omega (arith, ap (λ m. m.size) n, fits)),
      ),
    )
Linked-Blocks c d low top prev p a (b ∷ rest) new size top' (e, le, back, more) h above fits =
    let low' = a + size_meta_data + (c a).size in
    let last = last_block b rest in
    let (over, under) =
      IsIn-within c low' top a (c a).next last (b ∷ rest) more (last_block-IsIn b rest) in
    let same =
      h.elsewhere a (λ x. omega (arith, x, under, over, above)) (λ x. omega (arith, x, over)) in
    (
      e,
      le,
      ap (λ m. m.prev) same ∙ back,
      rw same (Linked-Blocks c d low' top a (c a).next b rest new size top' more h above fits),
    )

totals-snoc :
    (c : Headers) (blocks : List Ptr) (new : Ptr)
    → (free_blocks c (blocks ++ new ∷ [])
        ≡ free_blocks c blocks + (if (c new).is_free then 1 else 0))
      × (free_bytes c (blocks ++ new ∷ [])
          ≡ free_bytes c blocks + (if (c new).is_free then (c new).size else 0))
      × (all_bytes c (blocks ++ new ∷ []) ≡ all_bytes c blocks + (c new).size)
totals-snoc c [] new = (omega arith, omega arith, omega arith)
totals-snoc c (a ∷ rest) new =
    let (x, y, z) = totals-snoc c rest new in (omega (arith, x), omega (arith, y), omega (arith, z))

Linked-kept :
    (c d : Headers) (low top : ℕ) (prev p : Ptr) (blocks : List Ptr) (new size : ℕ) (last : Ptr)
    → Blocks c low top prev p blocks
    → Linked c d new size last
    → top ≤ new
    → (q : Ptr) → IsIn q blocks
    → ((d q).size ≡ (c q).size) × ((d q).is_free ≡ (c q).is_free)
Linked-kept c d low top prev p blocks new size last b h above q i = elim (ℕ_discrete q last) [
  | yes e ↦ rw e (ap (λ m. m.size) h.at_last, ap (λ m. m.is_free) h.at_last)
  | no ne ↦
      let (over, under) = IsIn-within c low top prev p q blocks b i in
      let same = h.elsewhere q (λ x. omega (arith, x, under, above)) ne in
      (ap (λ m. m.size) same, ap (λ m. m.is_free) same)
]

-- A block from `sbrk`, linked behind the last one, makes the list longer by one block that is not free.
pub with_block-Blocks :
    (c : Headers) (low top : ℕ) (prev p a : Ptr) (rest : List Ptr) (new size top' : ℕ)
    → Blocks c low top prev p (a ∷ rest)
    → top ≤ new
    → new + (size + size_meta_data) ≤ top'
    → let d = with_block c new size (last_block a rest) in
      Blocks d low top' prev p ((a ∷ rest) ++ new ∷ [])
      × (free_blocks d ((a ∷ rest) ++ new ∷ []) ≡ free_blocks c (a ∷ rest))
      × (free_bytes d ((a ∷ rest) ++ new ∷ []) ≡ free_bytes c (a ∷ rest))
      × (all_bytes d ((a ∷ rest) ++ new ∷ []) ≡ all_bytes c (a ∷ rest) + size)
      × (d new ≡ new_block size (last_block a rest))
      × ((q : Ptr)
          → IsIn q (a ∷ rest)
          → ((d q).size ≡ (c q).size) × ((d q).is_free ≡ (c q).is_free))
with_block-Blocks c low top prev p a rest new size top' b above fits =
    let last = last_block a rest in
    let d = with_block c new size last in
    let (over, under) = IsIn-within c low top prev p last (a ∷ rest) b (last_block-IsIn a rest) in
    let h = with_block-Linked c new size last (λ e. omega (arith, e, under, above)) in
    let kept = Linked-kept c d low top prev p (a ∷ rest) new size last b h above in
    let (x, y, z) = totals-agree c d (a ∷ rest) kept in
    let (x', y', z') = totals-snoc d (a ∷ rest) new in
    let n = h.at_new in
    (
      Linked-Blocks c d low top prev p a rest new size top' b h above fits,
      x' ∙ rw n (omega (arith, x)),
      y' ∙ rw n (omega (arith, y)),
      z' ∙ rw n (omega (arith, z)),
      n,
      kept,
    )
