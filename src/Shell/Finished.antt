-- ===== src/Shell/Finished.antt =====
-- skeleton_smash/Commands.cpp: what `removeFinishedJobs` leaves in the list, and the job that `bg` takes.
use operating_system_related.Prelude.{
  ℕ, ◌≤◌, ◌<◌, ◌≡◌, refl, sym, ap, ◌∙◌, Bool, true, false, List, [], ◌∷◌, ◌++◌, inl, inr,
  if◌then◌else◌, ◌==◌, length, arith, Bool-cases,
}
use mathlib.Core.Path.{subst}
use mathlib.Core.List.{append_assoc}
use operating_system_related.Shell.State.{
  JobEntry, Job, null, Waited, wait_failed, not_yet, changed, System, Shell, Ending, ended, Act,
  then_act, ◌>>◌, skip,
}
use operating_system_related.Shell.Jobs.{erase_job, remove_job_by_id}
use operating_system_related.Shell.Processes.{after_no_hang, remove_finished, remove_finished_jobs}
use operating_system_related.Shell.Order.{IsAbove, IsOrdered, IsAbove-le}

-- The process has not finished.
abbrev pub is_running : Waited → Bool
is_running wait_failed = false
is_running not_yet = true
is_running (changed x) = false

-- `waitpid` is asked once for each job, in the order of the list, and each answer may change the system
-- for the next: the jobs whose process has not finished then, in their order.
unfoldable pub unfinished : {S : Type 0} → System S → S → List Job → List Job
unfinished system t [] = []
unfinished system t ((i, e) ∷ jobs) =
    let answer = system.wait_no_hang t e.pid in
    let rest = unfinished system answer.1 jobs in
    if is_running answer.0 then (i, e) ∷ rest else rest

-- The system after these questions.
unfoldable pub after_asking : {S : Type 0} → System S → S → List Job → S
after_asking system t [] = t
after_asking system t ((i, e) ∷ jobs) = after_asking system (system.wait_no_hang t e.pid).1 jobs

erase-none : (id n : ℕ) (jobs : List Job) → id ≤ n → IsAbove n jobs → erase_job id jobs ≡ jobs
unfolding erase_job
erase-none id n [] le h = refl
erase-none id n ((i, e) ∷ jobs) le (lt, h) =
    let ne : (i == id) ≡ false = ground (arith, le, lt) in
    rw ne (ap (λ js. (i, e) ∷ js) (erase-none id i jobs (omega (arith, le, lt)) h))

above-middle :
    (n : ℕ) (front : List Job) (id : ℕ) (e : JobEntry) (jobs : List Job)
    → IsAbove n (front ++ (id, e) ∷ jobs)
    → n < id
above-middle n [] id e jobs (lt, h) = lt
above-middle n ((i, x) ∷ front) id e jobs (lt, h) =
    omega (arith, lt, above-middle i front id e jobs h)

erase-middle :
    (n : ℕ) (front : List Job) (id : ℕ) (e : JobEntry) (jobs : List Job)
    → IsAbove n (front ++ (id, e) ∷ jobs)
    → erase_job id (front ++ (id, e) ∷ jobs) ≡ front ++ jobs
unfolding erase_job
erase-middle n [] id e jobs (lt, h) =
    let same : (id == id) ≡ true = ground arith in rw same (erase-none id id jobs (omega arith) h)
erase-middle n ((i, x) ∷ front) id e jobs (lt, h) =
    let ne : (i == id) ≡ false = ground (arith, above-middle i front id e jobs h) in
    rw ne (ap (λ js. (i, x) ∷ js) (erase-middle i front id e jobs h))

drop-middle :
    (n : ℕ) (front : List Job) (id : ℕ) (e : JobEntry) (jobs : List Job)
    → IsAbove n (front ++ (id, e) ∷ jobs)
    → IsAbove n (front ++ jobs)
drop-middle n [] id e [] (lt, h) = tt
drop-middle n [] id e ((j, y) ∷ jobs) (lt, (lt2, h)) = (omega (arith, lt, lt2), h)
drop-middle n ((i, x) ∷ front) id e jobs (lt, h) = (lt, drop-middle i front id e jobs h)

module _ {S : Type 0} (system : System S) where
  -- The run ends with this result, and leaves these jobs and this system.
  abbrev pub Leaves : {A : Type 0} → List Job → S → A → Ending S A → Type 0
  Leaves jobs u a o = (t : Shell S) × (o ≡ ended a t) × (t.jobs_list.jobs ≡ jobs) × (t.system ≡ u)

  -- The rest of the loop after the answer for one job.
  abbrev go_on : (id : ℕ) (jobs : List Job) → Bool → Act S (Unit {0})
  go_on id jobs b = (if b then remove_job_by_id id else skip) >> remove_finished system jobs

  -- What is to be shown of the loop, from any shell with these jobs.
  abbrev LoopLeaves : List Job → Type 0
  LoopLeaves todo =
      (front : List Job) (s : Shell S)
      → s.jobs_list.jobs ≡ front ++ todo
      → IsOrdered (front ++ todo)
      → Leaves (front ++ unfinished system s.system todo) (after_asking system s.system todo) tt
          (remove_finished system todo s)

  finished-Leaves :
      (id : ℕ) (e : JobEntry) (jobs : List Job)
      → LoopLeaves jobs
      → (front : List Job) (s : Shell S) → s.jobs_list.jobs ≡ front ++ (id, e) ∷ jobs
      → IsOrdered (front ++ (id, e) ∷ jobs)
      → Leaves
          (front ++ unfinished system s.system jobs)
          (after_asking system s.system jobs)
          tt
          (go_on id jobs true s)
  unfolding remove_job_by_id
  finished-Leaves id e jobs ih front s h o =
      ih front _ (ap (erase_job id) h ∙ erase-middle 0 front id e jobs o)
        (drop-middle 0 front id e jobs o)

  running-Leaves :
      (id : ℕ) (e : JobEntry) (jobs : List Job)
      → LoopLeaves jobs
      → (front : List Job) (s : Shell S) → s.jobs_list.jobs ≡ front ++ (id, e) ∷ jobs
      → IsOrdered (front ++ (id, e) ∷ jobs)
      → Leaves
          (front ++ (id, e) ∷ unfinished system s.system jobs)
          (after_asking system s.system jobs)
          tt
          (go_on id jobs false s)
  running-Leaves id e jobs ih front s h o =
      let (t, x, y, z) =
        ih (front ++ (id, e) ∷ []) s (h ∙ sym (append_assoc front ((id, e) ∷ []) jobs))
          (subst IsOrdered (sym (append_assoc front ((id, e) ∷ []) jobs)) o) in
      (t, x, y ∙ append_assoc front ((id, e) ∷ []) (unfinished system s.system jobs), z)

  answered-Leaves :
      (w : Waited) (id : ℕ) (e : JobEntry) (jobs : List Job)
      → LoopLeaves jobs
      → (front : List Job) (s : Shell S) → s.jobs_list.jobs ≡ front ++ (id, e) ∷ jobs
      → IsOrdered (front ++ (id, e) ∷ jobs)
      → let rest = unfinished system s.system jobs in
        Leaves
          (front ++ (if is_running w then (id, e) ∷ rest else rest))
          (after_asking system s.system jobs)
          tt
          (then_act (after_no_hang system w s) (go_on id jobs))
  unfolding after_no_hang
  answered-Leaves wait_failed id e jobs ih front s h o =
      finished-Leaves id e jobs ih front (record s { printed = s.printed ++ _ ∷ [] }) h o
  answered-Leaves not_yet id e jobs ih front s h o =
      running-Leaves id e jobs ih front
        (record s { jobs_list = record s.jobs_list { foreground_job = null } }) h o
  answered-Leaves (changed x) id e jobs ih front s h o =
      finished-Leaves id e jobs ih front
        (record s { jobs_list = record s.jobs_list { foreground_job = null } }) h o

  loop-Leaves : (todo : List Job) → LoopLeaves todo
  unfolding remove_finished unfinished after_asking
  loop-Leaves [] front s h o = (s, refl, h, refl)
  loop-Leaves ((id, e) ∷ jobs) front s h o =
      let answer = system.wait_no_hang s.system e.pid in
      answered-Leaves answer.0 id e jobs (loop-Leaves jobs) front (record s { system = answer.1 }) h
        o

  -- For every system `removeFinishedJobs` ends. It asks `waitpid` once for each job, in their order,
  -- and the answers may change the system. Of a list with its ids in order it keeps exactly the jobs
  -- whose process has not finished by these answers, in their order, and it returns how many these
  -- are. A process that `waitpid` fails for counts as finished.
  pub remove_finished_jobs-Leaves :
      (s : Shell S)
      → IsOrdered s.jobs_list.jobs
      → let jobs = unfinished system s.system s.jobs_list.jobs in
        Leaves jobs
          (after_asking system s.system s.jobs_list.jobs)
          (length jobs)
          (remove_finished_jobs system s)
  unfolding remove_finished_jobs
  remove_finished_jobs-Leaves s o =
      let (t, x, y, z) = loop-Leaves s.jobs_list.jobs [] s refl o in
      (
        t,
        ap (λ o. then_act o (λ _ r. ended (length r.jobs_list.jobs) r)) x
            ∙ ap (λ js. ended (length js) t) y,
        y,
        z,
      )

  -- What follows the removal, when it only looks at the list.
  pub look-Leaves :
      {A : Type 0} (f : List Job → A) (s : Shell S)
      → IsOrdered s.jobs_list.jobs
      → let jobs = unfinished system s.system s.jobs_list.jobs in
        Leaves jobs
          (after_asking system s.system s.jobs_list.jobs)
          (f jobs)
          (then_act (remove_finished_jobs system s) (λ _ t. ended (f t.jobs_list.jobs) t))
  look-Leaves f s o =
      let (t, x, y, z) = remove_finished_jobs-Leaves s o in
      (
        t,
        ap (λ o. then_act o (λ _ r. ended (f r.jobs_list.jobs) r)) x ∙ ap (λ js. ended (f js) t) y,
        y,
        z,
      )

  pub unfinished-IsAbove :
      (t : S) (n : ℕ) (jobs : List Job) → IsAbove n jobs → IsAbove n (unfinished system t jobs)
  unfolding unfinished
  unfinished-IsAbove t n [] h = tt
  unfinished-IsAbove t n ((i, e) ∷ jobs) (lt, h) =
      let answer = system.wait_no_hang t e.pid in
      elim (Bool-cases (is_running answer.0)) [
        | inl r ↦ rw r (lt, unfinished-IsAbove answer.1 i jobs h)
        | inr f ↦
            rw f (unfinished-IsAbove answer.1 n jobs (IsAbove-le n i jobs (omega (arith, lt)) h))
      ]
