-- ===== src/Malloc/Changes.antt =====
-- virtual_memory/malloc_2.cpp: what taking, giving back and adding a block does to the list and to its
-- totals, and where the search of `smalloc` ends.
use operating_system_related.Prelude.{
  ℕ, ◌+◌, ◌<◌, ◌≡◌, ◌≢◌, sym, ap, Bool, List, [], ◌∷◌, arith, if◌then◌else◌, inl, inr,
}
use native.Mathlib.Decide.{ℕ_discrete}
use operating_system_related.Malloc.{Ptr, MallocMetadata, Headers, size_meta_data, put}
use operating_system_related.Malloc.Layout.{
  Blocks, free_blocks, free_bytes, all_bytes, put_self, put_other, Blocks-links, IsIn, IsIn-within,
  totals-agree,
}

-- The headers with one block marked.
abbrev pub mark : Headers → Ptr → Bool → Headers
mark c q b = put c q (record (c q) { is_free = b })

abbrev pub SameLinks : MallocMetadata → MallocMetadata → Type 0
SameLinks m n = (m.size ≡ n.size) × (m.next ≡ n.next) × (m.prev ≡ n.prev)

pub mark-links : (c : Headers) (q : Ptr) (b : Bool) (x : Ptr) → SameLinks (mark c q b x) (c x)
mark-links c q b x = elim (ℕ_discrete x q) [
  | yes e ↦
      let m = put_self c q (record (c q) { is_free = b }) in
      rw e (ap (λ n. n.size) m, ap (λ n. n.next) m, ap (λ n. n.prev) m)
  | no ne ↦
      let m = put_other c q (record (c q) { is_free = b }) x ne in
      (ap (λ n. n.size) m, ap (λ n. n.next) m, ap (λ n. n.prev) m)
]

pub mark-Blocks :
    (c : Headers) (q : Ptr) (b : Bool) (low top : ℕ) (prev p : Ptr) (blocks : List Ptr)
    → Blocks c low top prev p blocks
    → Blocks (mark c q b) low top prev p blocks
mark-Blocks c q b low top prev p blocks h =
    Blocks-links c (mark c q b) low top prev p blocks (mark-links c q b) h

abbrev pub one_if : Bool → ℕ
one_if b = if b then 1 else 0

abbrev pub size_if : Bool → (size : ℕ) → ℕ
size_if b size = if b then size else 0

-- Marking a block of the list exchanges what it was in the totals of the free blocks for what it is.
abbrev pub Marked : Headers → Ptr → Bool → List Ptr → Type 0
Marked c q b blocks =
    (free_blocks (mark c q b) blocks + one_if (c q).is_free ≡ free_blocks c blocks + one_if b)
    × (free_bytes (mark c q b) blocks + size_if (c q).is_free (c q).size
        ≡ free_bytes c blocks + size_if b (c q).size)
    × (all_bytes (mark c q b) blocks ≡ all_bytes c blocks)

mark-here :
    (c : Headers) (q : Ptr) (b : Bool) (low top : ℕ) (prev p : Ptr) (rest : List Ptr)
    → Blocks c low top prev p rest
    → q < low
    → Marked c q b (q ∷ rest)
mark-here c q b low top prev p rest h less =
    let m = put_self c q (record (c q) { is_free = b }) in
    let (x, y, z) = totals-agree c (mark c q b) rest (λ r i. other r i) in
    (
      omega (arith, x, ap (λ n. one_if n.is_free) m),
      omega (arith, y, ap (λ n. size_if n.is_free n.size) m),
      omega (arith, z, ap (λ n. n.size) m),
    )
  where
    other :
        (r : Ptr)
        → IsIn r rest
        → ((mark c q b r).size ≡ (c r).size) × ((mark c q b r).is_free ≡ (c r).is_free)
    other r i =
        let (above, below) = IsIn-within c low top prev p r rest h i in
        let m =
          put_other c q (record (c q) { is_free = b }) r (λ e. omega (arith, e, above, less)) in
        (ap (λ n. n.size) m, ap (λ n. n.is_free) m)

mark-there :
    (c : Headers) (q : Ptr) (b : Bool) (a : Ptr) (rest : List Ptr)
    → a ≢ q
    → Marked c q b rest
    → Marked c q b (a ∷ rest)
mark-there c q b a rest ne (x, y, z) =
    let m = put_other c q (record (c q) { is_free = b }) a ne in
    (
      omega (arith, x, ap (λ n. one_if n.is_free) m),
      omega (arith, y, ap (λ n. size_if n.is_free n.size) m),
      omega (arith, z, ap (λ n. n.size) m),
    )

pub mark-Marked :
    (c : Headers) (q : Ptr) (b : Bool) (low top : ℕ) (prev p : Ptr) (blocks : List Ptr)
    → Blocks c low top prev p blocks
    → IsIn q blocks
    → Marked c q b blocks
mark-Marked c q b low top prev p [] h i = absurd i
mark-Marked c q b low top prev p (a ∷ rest) (e, le, back, more) (inl here) = rw (sym here) (
    mark-here c q b (a + size_meta_data + (c a).size) top a (c a).next rest more
      (omega (arith, here)))
mark-Marked c q b low top prev p (a ∷ rest) (e, le, back, more) (inr there) =
    let (above, below) =
      IsIn-within c (a + size_meta_data + (c a).size) top a (c a).next q rest more there in
    mark-there c q b a rest (λ same. omega (arith, same, above))
      (mark-Marked c q b (a + size_meta_data + (c a).size) top a (c a).next rest more there)
