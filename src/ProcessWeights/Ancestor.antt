-- ===== src/ProcessWeights/Ancestor.antt =====
-- process_weights/kernel/hw2.c: `sys_get_heaviest_ancestor` along the chain of parents.
use operating_system_related.Prelude.{
  ℕ, zero, suc, ◌≤◌, ◌≡◌, refl, sym, ap, ◌≢◌, true, false, Option, some, List, [], ◌∷◌, ◌++◌, arith,
  ◌==◌, length, Bool-cases, inl, inr,
}
use mathlib.Core.Path.{ap₂, subst}
use operating_system_related.Prelude.Int.{ℤ, ◌≤ℤ◌, ◌<ℤ◌, ltb_ℤ, ltb_ℤ→lt, ltb_ℤ→le}
use operating_system_related.ProcessWeights.{Ptr, TaskStruct, Tasks, climb, get_heaviest_ancestor}

-- The tasks from an address up to the one with pid 0, each the parent of the one before it.
pub data Chain (tasks : Tasks) : Ptr → List TaskStruct → Type 0 where
  top : {p : Ptr} (t : TaskStruct) → tasks p ≡ some t → t.pid ≡ 0 → Chain tasks p (t ∷ [])
  up :
      {p : Ptr} {ts : List TaskStruct} (t : TaskStruct)
      → tasks p ≡ some t
      → t.pid ≢ 0
      → Chain tasks t.parent ts
      → Chain tasks p (t ∷ ts)

abbrev pub Lighter : ℤ → List TaskStruct → Type 0
Lighter w [] = Unit
Lighter w (t ∷ ts) = (t.weight <ℤ w) × Lighter w ts

abbrev pub NotHeavier : ℤ → List TaskStruct → Type 0
NotHeavier w [] = Unit
NotHeavier w (t ∷ ts) = (t.weight ≤ℤ w) × NotHeavier w ts

-- `t` is the first task of greatest weight.
pub record Heaviest (ts : List TaskStruct) (t : TaskStruct) : Type 0 where
  pub before : List TaskStruct
  pub after : List TaskStruct
  pub place : ts ≡ before ++ t ∷ after
  pub lighter : Lighter t.weight before
  pub not_heavier : NotHeavier t.weight after

-- The lists of a place, taken apart by what stands before it.
heaviest :
    {ts : List TaskStruct} {t : TaskStruct} (before after : List TaskStruct)
    → ts ≡ before ++ t ∷ after
    → Lighter t.weight before
    → NotHeavier t.weight after
    → Heaviest ts t
heaviest before after place l n = record {
  before = before;
  after = after;
  place = place;
  lighter = l;
  not_heavier = n;
}

head_eq : {a b : TaskStruct} {us vs : List TaskStruct} → a ∷ us ≡ b ∷ vs → a ≡ b
head_eq e = cc

tail_eq : {a b : TaskStruct} {us vs : List TaskStruct} → a ∷ us ≡ b ∷ vs → us ≡ vs
tail_eq e = cc

module _ {t found : TaskStruct} {ts : List TaskStruct} where
  first-le : Heaviest (t ∷ ts) found → t.weight ≤ℤ found.weight
  first-le h = go h.before h.place h.lighter
    where
      go :
          (before : List TaskStruct)
          → t ∷ ts ≡ before ++ found ∷ h.after
          → Lighter found.weight before
          → t.weight ≤ℤ found.weight
      go [] e l = subst (λ (u : TaskStruct). t.weight ≤ℤ u.weight) (head_eq e) (omega arith)
      go (b ∷ bs) e l =
          let less = subst (λ (u : TaskStruct). u.weight <ℤ found.weight) (sym (head_eq e)) l.0 in
          omega (arith, less)

  -- A heavier task takes the place of the best so far.
  Heaviest-heavy :
      {best : TaskStruct}
      → best.weight <ℤ t.weight
      → Heaviest (t ∷ ts) found
      → Heaviest (best ∷ t ∷ ts) found
  Heaviest-heavy {best} h v =
      heaviest (best ∷ v.before) v.after (ap (λ us. best ∷ us) v.place)
        ((omega (arith, first-le v, h)), v.lighter) v.not_heavier

  -- A task that is not heavier leaves it.
  Heaviest-light :
      {best : TaskStruct}
      → t.weight ≤ℤ best.weight
      → Heaviest (best ∷ ts) found
      → Heaviest (best ∷ t ∷ ts) found
  Heaviest-light {best} h v = go v.before v.place v.lighter
    where
      go :
          (before : List TaskStruct)
          → best ∷ ts ≡ before ++ found ∷ v.after
          → Lighter found.weight before
          → Heaviest (best ∷ t ∷ ts) found
      go [] e l =
          heaviest [] (t ∷ v.after) (ap₂ (λ u us. u ∷ t ∷ us) (head_eq e) (tail_eq e)) tt
            (subst (λ (u : TaskStruct). t.weight ≤ℤ u.weight) (head_eq e) h, v.not_heavier)
      go (b ∷ bs) e l =
          let less = subst (λ (u : TaskStruct). u.weight <ℤ found.weight) (sym (head_eq e)) l.0 in
          heaviest (best ∷ t ∷ bs) v.after (ap (λ us. best ∷ t ∷ us) (tail_eq e))
            (less, (omega (arith, less, h), l.1)) v.not_heavier

  Heaviest-twice : Heaviest (t ∷ t ∷ ts) found → Heaviest (t ∷ ts) found
  Heaviest-twice v = go v.before v.place v.lighter
    where
      go :
          (before : List TaskStruct)
          → t ∷ t ∷ ts ≡ before ++ found ∷ v.after
          → Lighter found.weight before
          → Heaviest (t ∷ ts) found
      go [] e l =
          heaviest [] ts (ap (λ u. u ∷ ts) (head_eq e)) tt
            (subst (NotHeavier found.weight) (sym (tail_eq e)) v.not_heavier).1
      go (b ∷ bs) e l = heaviest bs v.after (tail_eq e) l.1 v.not_heavier

-- What the loop returns, with the heaviest of `best` and the tasks that it passes.
record Climbed (best : TaskStruct) (ts : List TaskStruct) (result : Option ℕ) : Type 0 where
  found : TaskStruct
  is_pid : result ≡ some found.pid
  first : Heaviest (best ∷ ts) found

Climbed-none : (best : TaskStruct) → Climbed best [] (some best.pid)
Climbed-none best = record { found = best; is_pid = refl; first = heaviest [] [] refl tt tt }

module _ {best t : TaskStruct} {ts : List TaskStruct} {result : Option ℕ} where
  Climbed-heavy :
      ltb_ℤ best.weight t.weight ≡ true → Climbed t ts result → Climbed best (t ∷ ts) result
  Climbed-heavy h c = record {
    found = c.found;
    is_pid = c.is_pid;
    first = Heaviest-heavy (ltb_ℤ→lt best.weight t.weight h) c.first;
  }

  Climbed-light :
      ltb_ℤ best.weight t.weight ≡ false → Climbed best ts result → Climbed best (t ∷ ts) result
  Climbed-light h c = record {
    found = c.found;
    is_pid = c.is_pid;
    first = Heaviest-light (ltb_ℤ→le best.weight t.weight h) c.first;
  }

at_top : (n : ℕ) → n ≡ 0 → (n == 0) ≡ true
at_top n h = ground arith

below_top : (n : ℕ) → n ≢ 0 → (n == 0) ≡ false
below_top n h = ground arith

climb-Climbed :
    (tasks : Tasks) (fuel : ℕ) (best : TaskStruct) {p : Ptr} {ts : List TaskStruct}
    → Chain tasks p ts
    → length ts ≤ fuel
    → Climbed best ts (climb fuel tasks p best.weight best.pid)
unfolding climb
climb-Climbed tasks zero best (top t e z) h = absurd (omega arith)
climb-Climbed tasks zero best (up t e z c) h = absurd (omega arith)
climb-Climbed tasks (suc fuel) best (top t e z) h = elim (Bool-cases (ltb_ℤ best.weight t.weight)) [
  | inl heavy ↦ rw (e, climb, heavy, at_top t.pid z) (Climbed-heavy heavy (Climbed-none t))
  | inr light ↦ rw (e, climb, light, at_top t.pid z) (Climbed-light light (Climbed-none best))
]
climb-Climbed tasks (suc fuel) best (up t e z c) h =
    elim (Bool-cases (ltb_ℤ best.weight t.weight)) [
      | inl heavy ↦
          rw (e, climb, heavy, below_top t.pid z)
            (Climbed-heavy heavy (climb-Climbed tasks fuel t c (omega arith)))
      | inr light ↦
          rw (e, climb, light, below_top t.pid z)
            (Climbed-light light (climb-Climbed tasks fuel best c (omega arith)))
    ]

Chain-first :
    {tasks : Tasks} {p : Ptr} {t : TaskStruct} {ts : List TaskStruct}
    → Chain tasks p (t ∷ ts)
    → tasks p ≡ some t
Chain-first (top t e z) = e
Chain-first (up t e z c) = e

-- `sys_get_heaviest_ancestor` ends, and returns the pid of the first task of greatest weight among
-- the current one and its ancestors up to pid 0, given fuel for their number.
pub get_heaviest_ancestor-Heaviest :
    (tasks : Tasks) (fuel : ℕ) (current : Ptr) {t : TaskStruct} {ts : List TaskStruct}
    → Chain tasks current (t ∷ ts)
    → length (t ∷ ts) ≤ fuel
    → (found : TaskStruct) × (get_heaviest_ancestor fuel tasks current ≡ some found.pid)
      × Heaviest (t ∷ ts) found
unfolding get_heaviest_ancestor
get_heaviest_ancestor-Heaviest tasks fuel current {t} c h =
    let climbed = climb-Climbed tasks fuel t c h in
    (
      climbed.found,
      rw (Chain-first c, get_heaviest_ancestor) climbed.is_pid,
      Heaviest-twice climbed.first,
    )
