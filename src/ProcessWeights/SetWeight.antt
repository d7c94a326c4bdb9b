-- ===== src/ProcessWeights/SetWeight.antt =====
-- process_weights/kernel/hw2.c: `sys_set_weight` and `sys_get_weight`.
use operating_system_related.Prelude.{
  ◌≡◌, refl, sym, ◌∙◌, true, false, Option, none, some, arith, ==_iff, Bool-cases, Option-cases,
  inl, inr, if◌then◌else◌, ◌==◌,
}
use mathlib.Core.Path.{subst}
use operating_system_related.Prelude.Int.{ℤ, pos, ◌≤ℤ◌, ◌<ℤ◌, ltb_ℤ}
use operating_system_related.ProcessWeights.{
  Ptr, TaskStruct, Tasks, store, set_weight, get_weight, minus_einval,
}

abbrev pub NotNegative : Option TaskStruct → Type 0
NotNegative none = Unit
NotNegative (some task) = pos 0 ≤ℤ task.weight

-- No task has a negative weight.
abbrev pub HasWeights : Tasks → Type 0
HasWeights tasks = (p : Ptr) → NotNegative (tasks p)

negative : (w : ℤ) → w <ℤ pos 0 → ltb_ℤ w (pos 0) ≡ true
negative w h = ground arith

not_negative : (w : ℤ) → pos 0 ≤ℤ w → ltb_ℤ w (pos 0) ≡ false
not_negative w h = ground arith

test_false : (w : ℤ) → ltb_ℤ w (pos 0) ≡ false → pos 0 ≤ℤ w
test_false w h = ground arith

test_true : (w : ℤ) → ltb_ℤ w (pos 0) ≡ true → w <ℤ pos 0
test_true w h = ground arith

same_tasks :
    {r r' : ℤ} {t t' : Tasks} → ◌≡◌ {A = Option (ℤ × Tasks)} (some (r, t)) (some (r', t')) → t ≡ t'
same_tasks h = cc

HasWeights-store :
    (tasks : Tasks) (p : Ptr) (task : TaskStruct)
    → HasWeights tasks
    → pos 0 ≤ℤ task.weight
    → HasWeights (store tasks p task)
unfolding store
HasWeights-store tasks p task v h q = elim (Bool-cases (q == p)) [
  | inl same ↦ rw same h
  | inr ne ↦ rw ne (v q)
]

module _ (tasks : Tasks) (current : Ptr) (weight : ℤ) where
  set_weight-stores :
      {task : TaskStruct}
      → pos 0 ≤ℤ weight
      → tasks current ≡ some task
      → set_weight tasks current weight
        ≡ some (pos 0, store tasks current (record task { weight = weight }))
  unfolding set_weight
  set_weight-stores h e = rw (not_negative weight h, e)

  set_weight-missing :
      ltb_ℤ weight (pos 0) ≡ false → tasks current ≡ none → set_weight tasks current weight ≡ none
  unfolding set_weight
  set_weight-missing ok e = rw (ok, e)

  -- A negative weight is refused with `-EINVAL`, and nothing is written.
  pub set_weight-refused :
      weight <ℤ pos 0 → set_weight tasks current weight ≡ some (minus_einval, tasks)
  unfolding set_weight
  set_weight-refused h = rw (negative weight h)

  -- Any other weight is stored in the current task: the result is 0, the weight is read back, and
  -- nothing but that field of the current task is changed.
  pub get_weight-set_weight :
      {task : TaskStruct}
      → pos 0 ≤ℤ weight
      → tasks current ≡ some task
      → (tasks' : Tasks) × (set_weight tasks current weight ≡ some (pos 0, tasks'))
        × (get_weight tasks' current ≡ some weight)
        × ((q : Ptr)
            → tasks' q ≡ (if q == current then some (record task { weight = weight }) else tasks q))
  unfolding get_weight store
  get_weight-set_weight {task} h e = (
    store tasks current (record task { weight = weight }),
    set_weight-stores h e,
    rw ((==_iff current current).1 refl, get_weight),
    λ q. refl,
  )

  -- The call keeps every weight from being negative, whatever it is given.
  pub set_weight-HasWeights :
      {result : ℤ} {tasks' : Tasks}
      → HasWeights tasks
      → set_weight tasks current weight ≡ some (result, tasks')
      → HasWeights tasks'
  set_weight-HasWeights {result} {tasks'} v e = elim (Bool-cases (ltb_ℤ weight (pos 0))) [
    | inl neg ↦
        subst HasWeights (same_tasks (sym (set_weight-refused (test_true weight neg)) ∙ e)) v
    | inr ok ↦ elim (Option-cases (tasks current)) [
      | inl gone ↦ cc (set_weight-missing ok gone)
      | inr (task, found) ↦
          subst HasWeights (same_tasks (sym (set_weight-stores (test_false weight ok) found) ∙ e)) (
            HasWeights-store tasks current (record task { weight = weight }) v
              (test_false weight ok))
    ]
  ]
