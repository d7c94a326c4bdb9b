-- ===== src/ProcessWeights/LeafSum.antt =====
-- process_weights/kernel/hw2.c: `sys_get_leaf_children_sum` against the tree of a task's descendants.
use Prim.Native.Nat.{max}
use operating_system_related.Prelude.{
  ℕ, zero, suc, ◌+◌, ◌^◌, ◌<◌, ◌≤◌, ◌≡◌, ap, ◌∙◌, ◌||◌, Bool, true, false, Option, some, List, [],
  ◌∷◌, arith, if◌then◌else◌,
}
use native.Mathlib.Nat.{add-zero, zero-add, add_assoc}
use mathlib.Core.Bool.{or-false, or-true}
use operating_system_related.Prelude.Int.{ℤ, pos}
use operating_system_related.ProcessWeights.{
  Ptr, TaskStruct, Tasks, ◌+int◌, sum_children, traverse_children_sum_weight, get_leaf_children_sum,
  minus_echild,
}

-- A process and its descendants, by their weights.
mutual
  pub data Tree : Type 0 where
    node : (weight : ℕ) → Forest → Tree

  pub data Forest : Type 0 where
    nil : Forest
    cons : Tree → Forest → Forest

-- The sum over the leaves: a process counts only if it has no children.
unfoldable mutual
  pub leaf_sum : Tree → ℕ
  leaf_sum (node w nil) = w
  leaf_sum (node w (cons t ts)) = leaf_sum t + leaf_sums ts

  pub leaf_sums : Forest → ℕ
  leaf_sums nil = 0
  leaf_sums (cons t ts) = leaf_sum t + leaf_sums ts

-- At an address the store holds the tree, and at a list of addresses the trees of the forest.
mutual
  pub data IsTree (tasks : Tasks) : Ptr → Tree → Type 0 where
    task :
        {p : Ptr} {w : ℕ} {ts : Forest} (t : TaskStruct)
        → tasks p ≡ some t
        → t.weight ≡ pos w
        → IsForest tasks t.children ts
        → IsTree tasks p (node w ts)

  pub data IsForest (tasks : Tasks) : List Ptr → Forest → Type 0 where
    none_left : IsForest tasks [] nil
    child :
        {p : Ptr} {ps : List Ptr} {t : Tree} {ts : Forest}
        → IsTree tasks p t
        → IsForest tasks ps ts
        → IsForest tasks (p ∷ ps) (cons t ts)

-- How deep the recursion goes.
unfoldable mutual
  pub depth : Tree → ℕ
  depth (node w ts) = suc (depths ts)

  pub depths : Forest → ℕ
  depths nil = 0
  depths (cons t ts) = max (depth t) (depths ts)

-- Sums below 2^31 do not wrap.
+int_small : (a b : ℕ) → a + b < 2 ^ 31 → pos a +int pos b ≡ pos (a + b)
unfolding ◌+int◌
+int_small a b h = ground arith

abbrev pub any : Forest → Bool
any nil = false
any (cons t ts) = true

-- The loop over the children adds the leaf sums of their trees, if each visit gives its tree's.
sum_children-leaf_sums :
    (tasks : Tasks) (fuel : ℕ) (visit : Ptr → Option ℤ)
    → ((p : Ptr) (t : Tree)
        → IsTree tasks p t
        → depth t ≤ fuel
        → leaf_sum t < 2 ^ 31
        → visit p ≡ some (pos (leaf_sum t)))
    → {ps : List Ptr} {ts : Forest} (acc : ℕ) (flag : Bool) → IsForest tasks ps ts
    → depths ts ≤ fuel
    → acc + leaf_sums ts < 2 ^ 31
    → sum_children visit ps (pos acc) flag ≡ some (pos (acc + leaf_sums ts), flag || any ts)
unfolding sum_children leaf_sum leaf_sums depth depths
sum_children-leaf_sums tasks fuel visit each acc flag none_left d small = rw (add-zero, or-false)
sum_children-leaf_sums tasks fuel visit each acc flag (child {p} {t} {ts} it its) d small =
    rw
      (
        each p t it (omega arith) (omega arith),
        sum_children,
        +int_small acc (leaf_sum t) (omega arith),
        ← add_assoc acc (leaf_sum t) (leaf_sums ts),
        or-true flag,
      )
      (sum_children-leaf_sums tasks fuel visit each (acc + leaf_sum t) true its (omega arith)
        (omega arith))

leaf_sums-le : (w : ℕ) (ts : Forest) → leaf_sums ts ≤ leaf_sum (node w ts)
unfolding leaf_sum leaf_sums
leaf_sums-le w nil = omega arith
leaf_sums-le w (cons t ts) = omega arith

-- What the loop leaves, and the `flag`, give the tree's sum.
leaf_result :
    (w : ℕ) (ts : Forest)
    → leaf_sum (node w ts) < 2 ^ 31
    → (if any ts then pos (0 + leaf_sums ts) else pos (0 + leaf_sums ts) +int pos w)
      ≡ pos (leaf_sum (node w ts))
unfolding leaf_sum leaf_sums
leaf_result w nil small = +int_small 0 w (omega arith) ∙ ap pos (omega arith)
leaf_result w (cons t ts) small = ap pos (omega arith)

pub traverse-leaf_sum :
    (tasks : Tasks) (fuel : ℕ) {p : Ptr} {t : Tree}
    → IsTree tasks p t
    → depth t ≤ fuel
    → leaf_sum t < 2 ^ 31
    → traverse_children_sum_weight fuel tasks p ≡ some (pos (leaf_sum t))
unfolding traverse_children_sum_weight depth depths
traverse-leaf_sum tasks zero (task {w} {ts} t e weight its) d small = absurd (omega arith)
traverse-leaf_sum tasks (suc fuel) (task {w} {ts} t e weight its) d small =
    let loop =
      sum_children-leaf_sums tasks fuel (traverse_children_sum_weight fuel tasks)
        (λ q u it d' s'. traverse-leaf_sum tasks fuel it d' s') 0 false its (omega arith)
        (omega (arith, leaf_sums-le w ts, small)) in
    rw (e, traverse_children_sum_weight, loop, weight) (ap some (leaf_result w ts small))

-- `sys_get_leaf_children_sum` returns the sum of the weights of the descendants of the current task
-- that have no children, or `-ECHILD` if it has none itself, given fuel for the depth of its tree and
-- a sum that an `int` holds.
pub get_leaf_children_sum-leaf_sums :
    (tasks : Tasks) (fuel : ℕ) (current : Ptr) {t : TaskStruct} {ts : Forest}
    → tasks current ≡ some t
    → IsForest tasks t.children ts
    → depths ts ≤ fuel
    → leaf_sums ts < 2 ^ 31
    → get_leaf_children_sum fuel tasks current
      ≡ some (if any ts then pos (leaf_sums ts) else minus_echild)
unfolding get_leaf_children_sum
get_leaf_children_sum-leaf_sums tasks fuel current {t} {ts} e its d small =
    let loop =
      sum_children-leaf_sums tasks fuel (traverse_children_sum_weight fuel tasks)
        (λ q u it d' s'. traverse-leaf_sum tasks fuel it d' s') 0 false its d
        (omega (arith, small)) in
    rw (e, get_leaf_children_sum, loop, zero-add (leaf_sums ts))
