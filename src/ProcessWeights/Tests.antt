-- ===== src/ProcessWeights/Tests.antt =====
-- process_weights/kernel/hw2.c: a small tree of processes, and the theorems at it.
use operating_system_related.Prelude.{
  ◌≡◌, refl, none, some, [], ◌∷◌, arith, Bool-cases, inl, inr, if◌then◌else◌, ◌==◌,
}
use operating_system_related.Prelude.Int.{pos}
use operating_system_related.ProcessWeights.{
  TaskStruct, Tasks, set_weight, get_leaf_children_sum, get_heaviest_ancestor, minus_echild, store,
  traverse_children_sum_weight, sum_children, climb, ◌+int◌,
}
use operating_system_related.ProcessWeights.SetWeight.{HasWeights, set_weight-HasWeights}
use operating_system_related.ProcessWeights.LeafSum.{
  node, Forest, nil, cons, task, IsForest, none_left, child, leaf_sums, leaf_sum, depth, depths,
  get_leaf_children_sum-leaf_sums,
}
use operating_system_related.ProcessWeights.Ancestor.{
  top, up, Heaviest, get_heaviest_ancestor-Heaviest,
}

-- Task 1 is the idle task; 2 is its child, and 3 and 4 are the children of 2.
abbrev idle : TaskStruct
idle = record { pid = 0; weight = pos 7; parent = 1; children = 2 ∷ [] }

abbrev shell : TaskStruct
shell = record { pid = 20; weight = pos 7; parent = 1; children = 3 ∷ 4 ∷ [] }

abbrev left : TaskStruct
left = record { pid = 30; weight = pos 5; parent = 2; children = [] }

abbrev right : TaskStruct
right = record { pid = 40; weight = pos 6; parent = 2; children = [] }

abbrev tasks : Tasks
tasks p =
    if p == 1
    then some idle
    else if p == 2
    then some shell
    else if p == 3
    then some left
    else if p == 4
    then some right
    else none

leaf_sum_of_idle : get_leaf_children_sum 2 tasks 1 ≡ some (pos 11)
unfolding get_leaf_children_sum traverse_children_sum_weight sum_children ◌+int◌
leaf_sum_of_idle = refl

no_children : get_leaf_children_sum 2 tasks 3 ≡ some minus_echild
unfolding get_leaf_children_sum
no_children = refl

-- Of two ancestors of the same weight the nearer one is returned.
heaviest_of_left : get_heaviest_ancestor 3 tasks 3 ≡ some 20
unfolding get_heaviest_ancestor climb
heaviest_of_left = refl

abbrev below_shell : Forest
below_shell = cons (node 5 nil) (cons (node 6 nil) nil)

abbrev below_idle : Forest
below_idle = cons (node 7 below_shell) nil

idle-IsForest : IsForest tasks (2 ∷ []) below_idle
idle-IsForest =
    child
      (task shell refl refl
        (child (task left refl refl none_left) (child (task right refl refl none_left) none_left)))
      none_left

get_leaf_children_sum-leaf_sums_example : get_leaf_children_sum 2 tasks 1 ≡ some (pos 11)
unfolding leaf_sum leaf_sums depth depths
get_leaf_children_sum-leaf_sums_example =
    get_leaf_children_sum-leaf_sums tasks 2 1 {t = idle} {ts = below_idle} refl idle-IsForest
      (omega arith) (omega arith)

get_heaviest_ancestor-Heaviest_example :
    (found : TaskStruct) × (get_heaviest_ancestor 3 tasks 3 ≡ some found.pid)
    × Heaviest (left ∷ shell ∷ idle ∷ []) found
get_heaviest_ancestor-Heaviest_example =
    get_heaviest_ancestor-Heaviest tasks 3 3
      (up left refl (omega arith) (up shell refl (omega arith) (top idle refl refl))) (omega arith)

abbrev one_task : Tasks
one_task p = if p == 1 then some idle else none

one_task-HasWeights : HasWeights one_task
one_task-HasWeights p = elim (Bool-cases (p == 1)) [ inl e ↦ rw e (omega arith) | inr e ↦ rw e tt ]

abbrev heavier_idle : Tasks
heavier_idle = store one_task 1 (record idle { weight = pos 9 })

set_weight-HasWeights_example : HasWeights heavier_idle
unfolding set_weight
set_weight-HasWeights_example =
    set_weight-HasWeights one_task 1 (pos 9) {result = pos 0} {tasks' = heavier_idle}
      one_task-HasWeights refl
