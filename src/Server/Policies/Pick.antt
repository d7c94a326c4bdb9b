-- ===== src/Server/Policies/Pick.antt =====
-- web_server/server.c: the pick-and-swap loop of `drop_random` marks as many requests as it makes
-- rounds, whatever `rand()` returns.
use operating_system_related.Prelude.{
  ℕ, zero, suc, ◌+◌, ◌-◌, ◌/◌, ◌%◌, ◌≤◌, ◌<◌, ◌≡◌, refl, sym, ◌≢◌, ap, ◌∙◌, Bool, true, false, List,
  arith, length, get_or, set, replicate, if◌then◌else◌, ◌==◌, length-set, length-replicate,
  get_or-set_self, get_or-set_ne,
}
use mathlib.Core.Path.{subst}
use native.Mathlib.Nat.{mod-lt, zero-add}
use operating_system_related.Server.Policies.{init_indexes, pick, random_picks}
use operating_system_related.Server.Policies.Mask.{
  count_true, count_true-replicate, get_or-replicate, count_true-set,
}

-- Before the round in which `m` indexes are left to pick from: these are different places of the mask
-- that are not marked.
record Picking (n m : ℕ) (rand_indexes : List Bool) (indexes : List ℕ) : Type 0 where
  mask : length rand_indexes ≡ n
  stored : length indexes ≡ n
  below : m ≤ n
  distinct : (j k : ℕ) → j < m → k < m → get_or indexes j 0 ≡ get_or indexes k 0 → j ≡ k
  unmarked : (j : ℕ) → j < m → get_or rand_indexes (get_or indexes j 0) true ≡ false

-- Where the index at `j` comes from after the swap.
moved : (index last j : ℕ) → ℕ
moved index last j = if j == index then last else j

get_or-swap :
    (xs : List ℕ) (index last j : ℕ)
    → index ≤ last
    → last < length xs
    → j < last
    → get_or (set (set xs index (get_or xs last 0)) last (get_or xs index 0)) j 0
      ≡ get_or xs (moved index last j) 0
unfolding moved
get_or-swap xs index last j h k l = ground (
  arith,
  get_or-set_ne (set xs index (get_or xs last 0)) last j (get_or xs index 0) 0,
  get_or-set_self xs index (get_or xs last 0) 0,
  get_or-set_ne xs index j (get_or xs last 0) 0,
)

moved_bounds :
    (index last j : ℕ) → j < last → (moved index last j < suc last) × (moved index last j ≢ index)
unfolding moved
moved_bounds index last j h = ground arith

moved_injective :
    (index last j k : ℕ) → j < last → k < last → moved index last j ≡ moved index last k → j ≡ k
unfolding moved
moved_injective index last j k h l e = ground arith

module _ {n m : ℕ} {rand_indexes : List Bool} {indexes : List ℕ} where
  Picking-step :
      (index : ℕ)
      → Picking n (suc m) rand_indexes indexes
      → index < suc m
      → Picking n m
          (set rand_indexes (get_or indexes index 0) true)
          (set (set indexes index (get_or indexes m 0)) m (get_or indexes index 0))
  Picking-step index p h = record {
    mask = length-set rand_indexes (get_or indexes index 0) true ∙ p.mask;
    stored =
        length-set (set indexes index (get_or indexes m 0)) m (get_or indexes index 0)
        ∙ length-set indexes index (get_or indexes m 0)
        ∙ p.stored;
    below = omega arith;
    distinct = λ j k hj hk e. moved_injective index m j k hj hk (
        p.distinct (moved index m j) (moved index m k) (moved_bounds index m j hj).0
          (moved_bounds index m k hk).0 (sym (swapped j hj) ∙ e ∙ swapped k hk));
    unmarked = λ j hj.
        ap (λ a. get_or (set rand_indexes (get_or indexes index 0) true) a true) (swapped j hj)
        ∙ get_or-set_ne rand_indexes (get_or indexes index 0) (get_or indexes (moved index m j) 0)
            true true
            (λ e.
              (moved_bounds index m j hj).1
                (sym (p.distinct index (moved index m j) h (moved_bounds index m j hj).0 e)))
        ∙ p.unmarked (moved index m j) (moved_bounds index m j hj).0;
  }
    where
      swapped :
          (j : ℕ)
          → j < m
          → get_or (set (set indexes index (get_or indexes m 0)) m (get_or indexes index 0)) j 0
            ≡ get_or indexes (moved index m j) 0
      swapped j hj =
          get_or-swap indexes index m j (omega arith) (omega (arith, p.stored, p.below)) hj

module _ (rand : ℕ → ℕ) (n : ℕ) where
  -- Each round marks one more element, and none is lost.
  pick-count_true :
      (rounds i : ℕ) {rand_indexes : List Bool} {indexes : List ℕ}
      → Picking n (n - i) rand_indexes indexes
      → rounds ≤ n - i
      → (count_true (pick rand n rounds i rand_indexes indexes) ≡ rounds + count_true rand_indexes)
        × (length (pick rand n rounds i rand_indexes indexes) ≡ n)
  unfolding pick
  pick-count_true zero i p h = (omega arith, p.mask)
  pick-count_true (suc rounds) i {rand_indexes} {indexes} p h =
      let index = rand i % (n - i) in
      let left : n - i ≡ suc (n - (i + 1)) = omega arith in
      let last : n - i - 1 ≡ n - (i + 1) = omega arith in
      let small : index < n - i = mod-lt (rand i) (omega arith) in
      let marked = count_true-set rand_indexes (get_or indexes index 0) (p.unmarked index small) in
      let rest =
        pick-count_true rounds (i + 1)
          (Picking-step index (subst (λ k. Picking n k rand_indexes indexes) left p) (omega arith))
          (omega arith) in
      rw last (omega (arith, rest, marked))

get_or-init_indexes : (rounds i j : ℕ) → j < rounds → get_or (init_indexes rounds i) j 0 ≡ i + j
unfolding init_indexes
get_or-init_indexes zero i j h = absurd (omega arith)
get_or-init_indexes (suc k) i zero h = omega arith
get_or-init_indexes (suc k) i (suc j) h =
    omega (arith, get_or-init_indexes k (i + 1) j (omega arith))

length-init_indexes : (rounds i : ℕ) → length (init_indexes rounds i) ≡ rounds
unfolding init_indexes
length-init_indexes zero i = refl
length-init_indexes (suc k) i = ap suc (length-init_indexes k (i + 1))

Picking-init : (n : ℕ) → Picking n n (replicate n false) (init_indexes n 0)
Picking-init n = record {
  mask = length-replicate n false;
  stored = length-init_indexes n 0;
  below = omega arith;
  distinct =
      λ j k hj hk e. omega (arith, get_or-init_indexes n 0 j hj, get_or-init_indexes n 0 k hk);
  unmarked = λ j hj. rw (get_or-init_indexes n 0 j hj) (rw zero-add (get_or-replicate n j hj));
}

pub random_picks-count_true :
    (rand : ℕ → ℕ) (n : ℕ)
    → (count_true (random_picks rand n) ≡ n / 2) × (length (random_picks rand n) ≡ n)
unfolding random_picks
random_picks-count_true rand n =
    let all : n ≡ n - 0 = omega arith in
    let start =
      subst (λ k. Picking n k (replicate n false) (init_indexes n 0)) all (Picking-init n) in
    omega (arith, pick-count_true rand n (n / 2) 0 start (omega arith), count_true-replicate n)
