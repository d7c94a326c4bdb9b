-- ===== src/Shell/CtrlZ.antt =====
-- skeleton_smash/Commands.cpp and signals.cpp: a ctrl-Z while the shell waits for a job.
use operating_system_related.Prelude.{
  ℕ, ◌≡◌, ◌≢◌, refl, sym, ap, ◌∙◌, true, false, inl, inr, Option, some, List, [], ◌∷◌, ◌++◌,
  if◌then◌else◌, ◌==◌, arith, Bool-cases,
}
use operating_system_related.Shell.State.{
  JobState, stopped, JobEntry, Job, null, job_of, got_ctrl_z, process_stopped, changed, sent,
  ctrl_z, System, Shell, ended,
}
use operating_system_related.Shell.Jobs.{find_job, change_job, sig_stop}
use operating_system_related.Shell.Signals.{stop_sent, handle_all}
use operating_system_related.Shell.Processes.{swaitpid}

abbrev in_state : JobState → JobEntry → JobEntry
in_state x e = record e { state = x }

some_injective : (e x : JobEntry) → some e ≡ some x → e ≡ x
some_injective e x k = cc

find-change_self :
    (id : ℕ) (f : JobEntry → JobEntry) (e : JobEntry) (jobs : List Job)
    → find_job id jobs ≡ some e
    → find_job id (change_job id f jobs) ≡ some (f e)
unfolding find_job change_job
find-change_self id f e [] h = cc
find-change_self id f e ((i, x) ∷ jobs) h = elim (Bool-cases (i == id)) [
  | inl t ↦ rw t (rw t (ap (λ k. some (f k)) (some_injective x e (sym (rw t refl) ∙ h))))
  | inr n ↦ rw n (rw n (find-change_self id f e jobs (sym (rw n refl) ∙ h)))
]

find-change_other :
    (id j : ℕ) (f : JobEntry → JobEntry) (jobs : List Job)
    → j ≢ id
    → find_job j (change_job id f jobs) ≡ find_job j jobs
unfolding find_job change_job
find-change_other id j f [] ne = refl
find-change_other id j f ((i, x) ∷ jobs) ne = elim (Bool-cases (i == id)) [
  | inl t ↦
      let n : (i == j) ≡ false = ground (arith, t, ne) in
      rw t (rw n (find-change_other id j f jobs ne))
  | inr g ↦ rw g (
      ap (λ (r : Option JobEntry). if i == j then some x else r) (find-change_other id j f jobs ne))
]

-- The shell with these jobs, of which it waits for the one with this id.
abbrev pub waiting : {S : Type 0} (s : Shell S) (jobs : List Job) (id : ℕ) → Shell S
waiting s jobs id = record s { jobs_list = record { jobs = jobs; foreground_job = job_of id } }

module _ {S : Type 0} (system : System S) where
  -- The shell after that job was stopped.
  abbrev stopped_shell : (s : Shell S) (jobs : List Job) (id pid : ℕ) (t : S) → Shell S
  unfolding change_job
  stopped_shell s jobs id pid t = record s {
    jobs_list = record { jobs = change_job id (in_state stopped) jobs; foreground_job = null };
    printed = (s.printed ++ got_ctrl_z ∷ []) ++ process_stopped pid ∷ [];
    system = t;
  }

  swaitpid-stopped_shell :
      (s : Shell S) (jobs : List Job) (id : ℕ) (e : JobEntry) (t1 t2 t3 : S)
      → find_job id jobs ≡ some e
      → system.arrivals s.system ≡ (ctrl_z ∷ [], t1)
      → system.kill t1 e.pid sig_stop ≡ (sent, t2)
      → system.wait_changed t2 e.pid ≡ (changed true, t3)
      → swaitpid system e.pid (waiting s jobs id) ≡ ended tt (stopped_shell s jobs id e.pid t3)
  unfolding swaitpid handle_all stop_sent stopped_shell
  swaitpid-stopped_shell s jobs id e t1 t2 t3 found arrived killed waited =
      rw arrived (rw found (rw killed (rw waited refl)))

  -- The shell waits for a job of its list, ctrl-Z comes, the signal is sent, and `waitpid` reports that
  -- the process has stopped. Then `swaitpid` ends, the job is in the list as stopped and otherwise as it
  -- was, so is every other job, and no job is in the foreground.
  pub swaitpid-Stopped :
      (s : Shell S) (jobs : List Job) (id : ℕ) (e : JobEntry) (t1 t2 t3 : S)
      → find_job id jobs ≡ some e
      → system.arrivals s.system ≡ (ctrl_z ∷ [], t1)
      → system.kill t1 e.pid sig_stop ≡ (sent, t2)
      → system.wait_changed t2 e.pid ≡ (changed true, t3)
      → (t : Shell S) × (swaitpid system e.pid (waiting s jobs id) ≡ ended tt t)
        × (find_job id t.jobs_list.jobs ≡ some (record e { state = stopped }))
        × ((j : ℕ) → j ≢ id → find_job j t.jobs_list.jobs ≡ find_job j jobs)
        × (t.jobs_list.foreground_job ≡ null)
  unfolding stopped_shell
  swaitpid-Stopped s jobs id e t1 t2 t3 found arrived killed waited = (
    stopped_shell s jobs id e.pid t3,
    swaitpid-stopped_shell s jobs id e t1 t2 t3 found arrived killed waited,
    find-change_self id (in_state stopped) e jobs found,
    λ j ne. find-change_other id j (in_state stopped) jobs ne,
    refl,
  )
