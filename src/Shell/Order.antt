-- ===== src/Shell/Order.antt =====
-- skeleton_smash/Commands.cpp: the ids of the jobs are in order, in whatever way the functions on the
-- list end.
pub mod Jobs
pub mod Builtins
pub mod Pipes
pub mod Runs
use operating_system_related.Prelude.{
  ℕ, ◌+◌, ◌≤◌, ◌<◌, ◌≡◌, Bool, true, false, Option, none, some, List, [], ◌∷◌, ◌++◌, inl, inr,
  if◌then◌else◌, ◌==◌, length, arith, Bool-cases, refl, sym, ap, ltb,
}
use mathlib.Core.Path.{subst}
use operating_system_related.Prelude.Int.{ℤ, pos, negsuc}
use operating_system_related.Shell.State.{
  JobState, foreground, background, stopped, Command, JobEntry, Job, JobPointer, null, job_of,
  dangling, JobsList, Message, error_of, error_of_job, syscall_failed, command_pid, pid_command,
  job_line, sending_kills, signal_sent, text_line, shell_pid, prompt, got_ctrl_c, got_ctrl_z,
  process_killed, process_stopped, Waited, wait_failed, not_yet, changed, Killed, sent, no_process,
  kill_failed, Forked, fork_failed, child, parent, Signal, ctrl_z, ctrl_c, System, Shell, Ending,
  ended, exits, replaced, undefined, no_fuel, Act, then_act, ◌>>=◌, ◌>>◌, give, skip, fail, print,
  get_list, set_list, set_foreground, call_system, read_system,
}
use operating_system_related.Shell.Jobs.{
  is_foreground, is_stopped, find_job, erase_job, change_job, after_erase, remove_job_by_id,
  remove_at, map_insert, last_id, new_job_id, after_kill, set_state, insert_job, print_job,
  print_jobs, job_state, sig_kill,
}
use operating_system_related.Shell.Signals.{
  skill, job_at, found_at, stop_job, stop_sent, kill_job, kill_sent, ctrl_z_handler, ctrl_c_handler,
  handle, handle_all,
}
use operating_system_related.Shell.Processes.{
  after_no_hang, after_wait, swaitpid, remove_finished, remove_finished_jobs, add_job,
  print_jobs_list, erase_killed, kill_each, kill_all_jobs, get_job_by_id, get_last_job,
  get_last_stopped_job, after_fork, sfork,
}

-- The ids ascend, from above `n`.
abbrev pub IsAbove : ℕ → List Job → Type 0
IsAbove n [] = Unit
IsAbove n ((i, e) ∷ jobs) = (n < i) × IsAbove i jobs

-- The ids are distinct, in order, and from 1 on.
abbrev pub IsOrdered : List Job → Type 0
IsOrdered jobs = IsAbove 0 jobs

pub IsAbove-le : (m n : ℕ) (jobs : List Job) → m ≤ n → IsAbove n jobs → IsAbove m jobs
IsAbove-le m n [] le h = tt
IsAbove-le m n ((i, e) ∷ jobs) le (lt, h) = (omega (arith, le, lt), h)

pub erase_job-IsAbove :
    (id n : ℕ) (jobs : List Job) → IsAbove n jobs → IsAbove n (erase_job id jobs)
unfolding erase_job
erase_job-IsAbove id n [] h = tt
erase_job-IsAbove id n ((i, e) ∷ jobs) (lt, h) = elim (Bool-cases (i == id)) [
  | inl t ↦ rw t (erase_job-IsAbove id n jobs (IsAbove-le n i jobs (omega (arith, lt)) h))
  | inr f ↦ rw f (lt, erase_job-IsAbove id i jobs h)
]

pub change_job-IsAbove :
    (id n : ℕ) (f : JobEntry → JobEntry) (jobs : List Job)
    → IsAbove n jobs
    → IsAbove n (change_job id f jobs)
unfolding change_job
change_job-IsAbove id n f [] h = tt
change_job-IsAbove id n f ((i, e) ∷ jobs) (lt, h) = elim (Bool-cases (i == id)) [
  | inl t ↦ rw t (lt, change_job-IsAbove id i f jobs h)
  | inr e ↦ rw e (lt, change_job-IsAbove id i f jobs h)
]

-- A job behind the others, with a greater id.
append-IsAbove :
    (n i : ℕ) (e : JobEntry) (j : Job) (jobs : List Job)
    → IsAbove n (j ∷ jobs)
    → last_id (j ∷ jobs) < i
    → IsAbove n ((j ∷ jobs) ++ (i, e) ∷ [])
unfolding last_id
append-IsAbove n i e (k, x) [] (lt, h) last = (lt, (last, tt))
append-IsAbove n i e (k, x) (j ∷ jobs) (lt, h) last = (lt, append-IsAbove k i e j jobs h last)

pub append-IsOrdered :
    (e : JobEntry) (jobs : List Job)
    → IsOrdered jobs
    → IsOrdered (jobs ++ (new_job_id jobs, e) ∷ [])
unfolding new_job_id
append-IsOrdered e [] h = (omega arith, tt)
append-IsOrdered e (j ∷ jobs) h = append-IsAbove 0 _ e j jobs h (omega arith)

last-gt : (n : ℕ) (j : Job) (jobs : List Job) → IsAbove n (j ∷ jobs) → n < last_id (j ∷ jobs)
unfolding last_id
last-gt n (i, e) [] (lt, h) = lt
last-gt n (i, e) (j ∷ jobs) (lt, h) = omega (arith, lt, last-gt i j jobs h)

-- A key greater than the last is inserted behind the others.
map_insert-last :
    (n id : ℕ) (entry : JobEntry) (j : Job) (jobs : List Job)
    → IsAbove n (j ∷ jobs)
    → last_id (j ∷ jobs) < id
    → map_insert id entry (j ∷ jobs) ≡ (j ∷ jobs) ++ (id, entry) ∷ []
unfolding map_insert last_id
map_insert-last n id entry (i, e) [] (lt, h) last =
    let more : ltb id i ≡ false = ground (arith, last) in
    let ne : (i == id) ≡ false = ground (arith, last) in rw (more, ne) refl
map_insert-last n id entry (i, e) (j ∷ jobs) (lt, h) last =
    let gt = last-gt i j jobs h in
    let more : ltb id i ≡ false = ground (arith, last, gt) in
    let ne : (i == id) ≡ false = ground (arith, last, gt) in
    rw (more, ne) (ap (λ js. (i, e) ∷ js) (map_insert-last i id entry j jobs h last))

find-last :
    (n id : ℕ) (j : Job) (jobs : List Job)
    → IsAbove n (j ∷ jobs)
    → last_id (j ∷ jobs) < id
    → find_job id (j ∷ jobs) ≡ none
unfolding find_job last_id
find-last n id (i, e) [] (lt, h) last =
    let ne : (i == id) ≡ false = ground (arith, last) in rw ne refl
find-last n id (i, e) (j ∷ jobs) (lt, h) last =
    let gt = last-gt i j jobs h in
    let ne : (i == id) ≡ false = ground (arith, last, gt) in rw ne (find-last i id j jobs h last)

-- The new id is in no job of the list, and its job stands behind the others.
pub map_insert-new :
    (entry : JobEntry) (jobs : List Job)
    → IsOrdered jobs
    → (map_insert (new_job_id jobs) entry jobs ≡ jobs ++ (new_job_id jobs, entry) ∷ [])
      × (find_job (new_job_id jobs) jobs ≡ none)
unfolding map_insert find_job new_job_id
map_insert-new entry [] h = (refl, refl)
map_insert-new entry (j ∷ jobs) h =
    (map_insert-last 0 _ entry j jobs h (omega arith), find-last 0 _ j jobs h (omega arith))

module _ {S : Type 0} where
  abbrev pub HasOrder : Shell S → Type 0
  HasOrder s = IsOrdered s.jobs_list.jobs

  -- The order at the end of a run, which does not run out of fuel; nothing is said where the behaviour
  -- is undefined.
  abbrev pub EndsOrdered : {A : Type 0} → Ending S A → Type 0
  EndsOrdered (ended a s) = HasOrder s
  EndsOrdered (exits n s) = HasOrder s
  EndsOrdered (replaced p v s) = HasOrder s
  EndsOrdered undefined = Unit
  EndsOrdered no_fuel = ⊥

  abbrev pub KeepsOrder : {A : Type 0} → Act S A → Type 0
  KeepsOrder act = (s : Shell S) → HasOrder s → EndsOrdered (act s)

  then_lem :
      {A B : Type 0} (f : A → Act S B) (o : Ending S A)
      → EndsOrdered o
      → ((a : A) → KeepsOrder (f a))
      → EndsOrdered (then_act o f)
  then_lem f (ended a s) h k = k a s h
  then_lem f (exits n s) h k = h
  then_lem f (replaced p v s) h k = h
  then_lem f undefined h k = tt
  then_lem f no_fuel h k = absurd h

  pub bind-KeepsOrder :
      {A B : Type 0} (r : Act S A) (f : A → Act S B)
      → KeepsOrder r
      → ((a : A) → KeepsOrder (f a))
      → KeepsOrder (r >>= f)
  bind-KeepsOrder r f h k s o = then_lem f (r s) (h s o) k

  pub seq-KeepsOrder :
      {B : Type 0} (r : Act S (Unit {0})) (f : Act S B)
      → KeepsOrder r
      → KeepsOrder f
      → KeepsOrder (r >> f)
  seq-KeepsOrder r f h k s o = then_lem (λ _. f) (r s) (h s o) (λ _. k)

  pub if-KeepsOrder :
      {A : Type 0} (b : Bool) (x y : Act S A)
      → KeepsOrder x
      → KeepsOrder y
      → KeepsOrder (if b then x else y)
  if-KeepsOrder true x y h k = h
  if-KeepsOrder false x y h k = k

  pub print-KeepsOrder : (m : Message) → KeepsOrder {A = Unit} (print m)
  print-KeepsOrder m s o = o

  pub remove_job_by_id-KeepsOrder : (id : ℕ) → KeepsOrder (remove_job_by_id {S = S} id)
  unfolding remove_job_by_id
  remove_job_by_id-KeepsOrder id s o = erase_job-IsAbove id 0 s.jobs_list.jobs o

  pub remove_at-KeepsOrder : (p : JobPointer) → KeepsOrder (remove_at {S = S} p)
  unfolding remove_at
  remove_at-KeepsOrder null s o = tt
  remove_at-KeepsOrder (job_of id) s o = remove_job_by_id-KeepsOrder id s o
  remove_at-KeepsOrder dangling s o = tt

  pub set_state-KeepsOrder : (id : ℕ) (x : JobState) → KeepsOrder (set_state {S = S} id x)
  unfolding set_state
  set_state-KeepsOrder id x s o = change_job-IsAbove id 0 _ s.jobs_list.jobs o

  pub insert_job-KeepsOrder :
      (cmd : Command) (pid : ℕ) (x : JobState) (now : ℕ)
      → KeepsOrder (insert_job {S = S} cmd pid x now)
  unfolding insert_job
  insert_job-KeepsOrder cmd pid x now s o =
      subst IsOrdered (sym (map_insert-new _ s.jobs_list.jobs o).0)
        (append-IsOrdered _ s.jobs_list.jobs o)

  pub print_jobs-KeepsOrder : (now : ℕ) (jobs : List Job) → KeepsOrder (print_jobs {S = S} now jobs)
  unfolding print_jobs print_job
  print_jobs-KeepsOrder now [] = λ s o. o
  print_jobs-KeepsOrder now ((id, e) ∷ jobs) =
      seq-KeepsOrder (if is_foreground e.state then skip else print_job now (id, e)) _
        (if-KeepsOrder (is_foreground e.state) skip (print_job now (id, e)) (λ s o. o) (λ s o. o))
        (print_jobs-KeepsOrder now jobs)

  pub after_kill-KeepsOrder : (r : Killed) → KeepsOrder (after_kill {S = S} r)
  unfolding after_kill
  after_kill-KeepsOrder sent s o = o
  after_kill-KeepsOrder no_process s o = o
  after_kill-KeepsOrder kill_failed s o = o
