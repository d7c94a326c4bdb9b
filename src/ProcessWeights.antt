-- ===== src/ProcessWeights.antt =====
-- process_weights/kernel/hw2.c: the system calls over process weights, and the field that
-- include/linux/sched.h adds to `task_struct`. The kernel's tasks are a store of records at addresses;
-- `list_for_each` over `children` is a walk along the list of the children's addresses. An `int` is a
-- signed integer, and a sum of two wraps at 32 bits. A read of an address that holds no task, and a
-- walk that runs out of fuel, are `none`.
pub mod SetWeight
pub mod LeafSum
pub mod Ancestor
mod Tests
use operating_system_related.Prelude.{
  ℕ, zero, suc, ◌+◌, ◌-◌, ◌%◌, ◌^◌, Bool, true, false, Option, none, some, List, [], ◌∷◌,
  if◌then◌else◌, ◌==◌, ltb,
}
use operating_system_related.Prelude.Int.{ℤ, pos, negsuc, ◌+ℤ◌, ltb_ℤ}

abbrev pub Ptr : Type 0
Ptr = ℕ

-- The fields of `task_struct` that hw2.c reads or writes.
pub record TaskStruct : Type 0 where
  pub pid : ℕ
  pub weight : ℤ
  pub parent : Ptr
  pub children : List Ptr

abbrev pub Tasks : Type 0
Tasks = Ptr → Option TaskStruct

unfoldable pub store : Tasks → Ptr → TaskStruct → Tasks
store tasks p task q = if q == p then some task else tasks q

-- The bit pattern of an `int`, and the number that a pattern stands for.
abbrev pub to_bits : ℤ → ℕ
to_bits (pos n) = n % 2 ^ 32
to_bits (negsuc n) = 2 ^ 32 - 1 - n % 2 ^ 32

abbrev pub of_bits : ℕ → ℤ
of_bits n = if ltb n (2 ^ 31) then pos n else negsuc (2 ^ 32 - 1 - n)

infixl 65 ◌+int◌
unfoldable pub ◌+int◌ : ℤ → ℤ → ℤ
a +int b = of_bits (to_bits (a +ℤ b))

-- `-EINVAL` and `-ECHILD`.
abbrev pub minus_einval : ℤ
minus_einval = negsuc 21

abbrev pub minus_echild : ℤ
minus_echild = negsuc 9

unfoldable pub set_weight : Tasks → (current : Ptr) → (weight : ℤ) → Option (ℤ × Tasks)
set_weight tasks current weight =
    if ltb_ℤ weight (pos 0) then some (minus_einval, tasks) else elim (tasks current) [
      | none ↦ none
      | some task ↦ some (pos 0, store tasks current (record task { weight = weight }))
    ]

unfoldable pub get_weight : Tasks → (current : Ptr) → Option ℤ
get_weight tasks current = elim (tasks current) [ none ↦ none | some task ↦ some task.weight ]

-- The loop over the children, with the `flag` that says whether there were any.
unfoldable pub sum_children :
    (visit : Ptr → Option ℤ) → List Ptr → (sum : ℤ) (flag : Bool) → Option (ℤ × Bool)
sum_children visit [] sum flag = some (sum, flag)
sum_children visit (c ∷ cs) sum flag = elim (visit c) [
  | none ↦ none
  | some v ↦ sum_children visit cs (sum +int v) true
]

-- Fuel bounds the depth of the recursion.
unfoldable pub traverse_children_sum_weight : (fuel : ℕ) → Tasks → Ptr → Option ℤ
unfolding sum_children
traverse_children_sum_weight zero tasks root = none
traverse_children_sum_weight (suc fuel) tasks root = elim (tasks root) [
  | none ↦ none
  | some task ↦
      elim (sum_children (traverse_children_sum_weight fuel tasks) task.children (pos 0) false) [
        | none ↦ none
        | some (sum, flag) ↦ some (if flag then sum else sum +int task.weight)
      ]
]

unfoldable pub get_leaf_children_sum : (fuel : ℕ) → Tasks → (current : Ptr) → Option ℤ
unfolding sum_children
get_leaf_children_sum fuel tasks current = elim (tasks current) [
  | none ↦ none
  | some task ↦
      elim (sum_children (traverse_children_sum_weight fuel tasks) task.children (pos 0) false) [
        | none ↦ none
        | some (sum, parent) ↦ some (if parent then sum else minus_echild)
      ]
]

-- The `do` loop: it has read `task` when it goes to the parent, and ends behind the task of pid 0.
unfoldable pub climb : (fuel : ℕ) → Tasks → (task : Ptr) → (max : ℤ) (max_pid : ℕ) → Option ℕ
climb zero tasks task max max_pid = none
climb (suc fuel) tasks task max max_pid = elim (tasks task) [
  | none ↦ none
  | some t ↦
      let heavier = ltb_ℤ max t.weight in
      let max' = if heavier then t.weight else max in
      let max_pid' = if heavier then t.pid else max_pid in
      let above = climb fuel tasks t.parent max' max_pid' in
      if t.pid == 0 then some max_pid' else above
]

unfoldable pub get_heaviest_ancestor : (fuel : ℕ) → Tasks → (current : Ptr) → Option ℕ
unfolding climb
get_heaviest_ancestor fuel tasks current = elim (tasks current) [
  | none ↦ none
  | some task ↦ climb fuel tasks current task.weight task.pid
]
