-- ===== src/Shell/Order/Jobs.antt =====
-- skeleton_smash/Commands.cpp and signals.cpp: the functions on the list of jobs keep the order of the
-- ids.
use operating_system_related.Prelude.{
  ℕ, Bool, true, false, Option, none, some, List, [], ◌∷◌, if◌then◌else◌,
}
use operating_system_related.Prelude.Int.{ℤ, pos, negsuc}
use operating_system_related.Shell.State.{
  stopped, Command, JobEntry, Job, JobPointer, null, job_of, dangling, pid_command, process_stopped,
  Waited, wait_failed, not_yet, changed, Killed, sent, no_process, kill_failed, Forked, fork_failed,
  child, parent, Signal, ctrl_z, ctrl_c, System, Act, ◌>>=◌, ◌>>◌, give, skip, print,
  set_foreground, call_system,
}
use operating_system_related.Shell.Jobs.{remove_job_by_id, set_state, sig_kill}
use operating_system_related.Shell.Signals.{
  skill, job_at, found_at, stop_job, stop_sent, kill_job, kill_sent, ctrl_z_handler, ctrl_c_handler,
  handle, handle_all,
}
use operating_system_related.Shell.Processes.{
  after_no_hang, after_wait, swaitpid, remove_finished, remove_finished_jobs, add_job,
  print_jobs_list, erase_killed, kill_each, kill_all_jobs, get_job_by_id, get_last_job,
  get_last_stopped_job, after_fork, sfork,
}
use operating_system_related.Shell.Order.{
  KeepsOrder, bind-KeepsOrder, seq-KeepsOrder, if-KeepsOrder, remove_job_by_id-KeepsOrder,
  remove_at-KeepsOrder, set_state-KeepsOrder, insert_job-KeepsOrder, print_jobs-KeepsOrder,
  after_kill-KeepsOrder,
}

module _ {S : Type 0} (system : System S) where
  pub skill-KeepsOrder : (pid : ℕ) (sig : ℤ) → KeepsOrder (skill system pid sig)
  unfolding skill
  skill-KeepsOrder pid sig s o = after_kill-KeepsOrder _ _ o

  found_at-KeepsOrder : (id : ℕ) (e : Option JobEntry) → KeepsOrder (found_at system id e)
  found_at-KeepsOrder id none s o = tt
  found_at-KeepsOrder id (some e) s o = o

  job_at-KeepsOrder : (p : JobPointer) → KeepsOrder (job_at system p)
  unfolding job_at
  job_at-KeepsOrder null s o = o
  job_at-KeepsOrder dangling s o = tt
  job_at-KeepsOrder (job_of id) s o = found_at-KeepsOrder id _ s o

  stop_sent-KeepsOrder : (id pid : ℕ) (r : Killed) → KeepsOrder (stop_sent system id pid r)
  unfolding stop_sent
  stop_sent-KeepsOrder id pid sent =
      seq-KeepsOrder (print (process_stopped pid)) (set_state id stopped) (λ s o. o)
        (set_state-KeepsOrder id stopped)
  stop_sent-KeepsOrder id pid no_process = λ s o. o
  stop_sent-KeepsOrder id pid kill_failed = λ s o. o

  kill_sent-KeepsOrder : (pid : ℕ) (r : Killed) → KeepsOrder (kill_sent system pid r)
  kill_sent-KeepsOrder pid sent s o = o
  kill_sent-KeepsOrder pid no_process s o = o
  kill_sent-KeepsOrder pid kill_failed s o = o

  stop_job-KeepsOrder : (job : Option Job) → KeepsOrder (stop_job system job)
  unfolding stop_job
  stop_job-KeepsOrder none = λ s o. o
  stop_job-KeepsOrder (some (id, e)) =
      bind-KeepsOrder _ _ (skill-KeepsOrder e.pid _) (stop_sent-KeepsOrder id e.pid)

  kill_job-KeepsOrder : (job : Option Job) → KeepsOrder (kill_job system job)
  unfolding kill_job
  kill_job-KeepsOrder none = λ s o. o
  kill_job-KeepsOrder (some (id, e)) =
      bind-KeepsOrder _ _ (skill-KeepsOrder e.pid _) (kill_sent-KeepsOrder e.pid)

  handle-KeepsOrder : (x : Signal) → KeepsOrder (handle system x)
  unfolding handle ctrl_z_handler ctrl_c_handler
  handle-KeepsOrder ctrl_z s o =
      bind-KeepsOrder (job_at system s.jobs_list.foreground_job) (stop_job system)
        (job_at-KeepsOrder s.jobs_list.foreground_job) stop_job-KeepsOrder _ o
  handle-KeepsOrder ctrl_c s o =
      bind-KeepsOrder (job_at system s.jobs_list.foreground_job) (kill_job system)
        (job_at-KeepsOrder s.jobs_list.foreground_job) kill_job-KeepsOrder _ o

  pub handle_all-KeepsOrder : (xs : List Signal) → KeepsOrder (handle_all system xs)
  unfolding handle_all
  handle_all-KeepsOrder [] = λ s o. o
  handle_all-KeepsOrder (x ∷ xs) =
      seq-KeepsOrder _ _ (handle-KeepsOrder x) (handle_all-KeepsOrder xs)

  drop_foreground-KeepsOrder :
      (r : Act S (Unit {0})) → KeepsOrder r → KeepsOrder (r >> set_foreground null)
  drop_foreground-KeepsOrder r h = seq-KeepsOrder r (set_foreground null) h (λ s o. o)

  after_wait-KeepsOrder : (r : Waited) → KeepsOrder (after_wait system r)
  unfolding after_wait
  after_wait-KeepsOrder wait_failed s o = o
  after_wait-KeepsOrder not_yet s o =
      drop_foreground-KeepsOrder _ (remove_at-KeepsOrder s.jobs_list.foreground_job) s o
  after_wait-KeepsOrder (changed false) s o =
      drop_foreground-KeepsOrder _ (remove_at-KeepsOrder s.jobs_list.foreground_job) s o
  after_wait-KeepsOrder (changed true) s o = o

  pub swaitpid-KeepsOrder : (pid : ℕ) → KeepsOrder (swaitpid system pid)
  unfolding swaitpid
  swaitpid-KeepsOrder pid =
      let wait : Act S Waited = call_system (λ s. system.wait_changed s pid) in
      bind-KeepsOrder (call_system system.arrivals)
        (λ xs. handle_all system xs >> (wait >>= after_wait system)) (λ s o. o)
        (λ xs.
          seq-KeepsOrder (handle_all system xs) (wait >>= after_wait system)
            (handle_all-KeepsOrder xs)
            (bind-KeepsOrder wait (after_wait system) (λ s o. o) after_wait-KeepsOrder))

  after_no_hang-KeepsOrder : (r : Waited) → KeepsOrder (after_no_hang system r)
  unfolding after_no_hang
  after_no_hang-KeepsOrder wait_failed s o = o
  after_no_hang-KeepsOrder not_yet s o = o
  after_no_hang-KeepsOrder (changed x) s o = o

  remove_finished-KeepsOrder : (jobs : List Job) → KeepsOrder (remove_finished system jobs)
  unfolding remove_finished
  remove_finished-KeepsOrder [] = λ s o. o
  remove_finished-KeepsOrder ((id, e) ∷ jobs) =
      let go_on : Bool → Act S (Unit {0}) =
        λ b. (if b then remove_job_by_id id else skip) >> remove_finished system jobs in
      bind-KeepsOrder (call_system (λ s. system.wait_no_hang s e.pid))
        (λ r. after_no_hang system r >>= go_on) (λ s o. o)
        (λ r. bind-KeepsOrder (after_no_hang system r) go_on (after_no_hang-KeepsOrder r) (λ b.
          seq-KeepsOrder (if b then remove_job_by_id id else skip) (remove_finished system jobs)
            (if-KeepsOrder b (remove_job_by_id id) skip (remove_job_by_id-KeepsOrder id) (λ s o. o))
            (remove_finished-KeepsOrder jobs)))

  remove_finished_jobs-KeepsOrder : KeepsOrder (remove_finished_jobs system)
  unfolding remove_finished_jobs
  remove_finished_jobs-KeepsOrder s o =
      seq-KeepsOrder _ _ (remove_finished-KeepsOrder s.jobs_list.jobs) (λ t h. h) s o

  -- The functions that first remove the finished jobs.
  after_removal-KeepsOrder :
      {A : Type 0} (f : ℕ → Act S A)
      → ((n : ℕ) → KeepsOrder (f n))
      → KeepsOrder (remove_finished_jobs system >>= f)
  after_removal-KeepsOrder f h =
      bind-KeepsOrder (remove_finished_jobs system) f remove_finished_jobs-KeepsOrder h

  add_job-KeepsOrder :
      (cmd : Command) (pid : ℕ) (stop : Bool) → KeepsOrder (add_job system cmd pid stop)
  unfolding add_job
  add_job-KeepsOrder cmd pid stop =
      after_removal-KeepsOrder _ (λ n s o. insert_job-KeepsOrder cmd pid _ _ s o)

  pub print_jobs_list-KeepsOrder : KeepsOrder (print_jobs_list system)
  unfolding print_jobs_list
  print_jobs_list-KeepsOrder =
      after_removal-KeepsOrder _ (λ n s o. print_jobs-KeepsOrder _ s.jobs_list.jobs s o)

  erase_killed-KeepsOrder : (id : ℕ) (r : Killed) → KeepsOrder (erase_killed system id r)
  unfolding erase_killed
  erase_killed-KeepsOrder id sent = remove_job_by_id-KeepsOrder id
  erase_killed-KeepsOrder id no_process = remove_job_by_id-KeepsOrder id
  erase_killed-KeepsOrder id kill_failed = λ s o. o

  kill_each-KeepsOrder : (jobs : List Job) → KeepsOrder (kill_each system jobs)
  unfolding kill_each
  kill_each-KeepsOrder [] = λ s o. o
  kill_each-KeepsOrder ((id, e) ∷ jobs) =
      let go_on : Killed → Act S (Unit {0}) =
        λ r. erase_killed system id r >> kill_each system jobs in
      seq-KeepsOrder (print (pid_command e.pid e.cmd.original_cmd))
        (skill system e.pid sig_kill >>= go_on) (λ s o. o)
        (bind-KeepsOrder (skill system e.pid sig_kill) go_on (skill-KeepsOrder e.pid sig_kill) (λ r.
          seq-KeepsOrder (erase_killed system id r) (kill_each system jobs)
            (erase_killed-KeepsOrder id r) (kill_each-KeepsOrder jobs)))

  pub kill_all_jobs-KeepsOrder : KeepsOrder (kill_all_jobs system)
  unfolding kill_all_jobs
  kill_all_jobs-KeepsOrder =
      after_removal-KeepsOrder _ (λ n s o. kill_each-KeepsOrder s.jobs_list.jobs _ o)

  pub get_job_by_id-KeepsOrder : (id : ℤ) → KeepsOrder (get_job_by_id system id)
  unfolding get_job_by_id
  get_job_by_id-KeepsOrder (pos id) = after_removal-KeepsOrder _ (λ n s o. o)
  get_job_by_id-KeepsOrder (negsuc id) = after_removal-KeepsOrder _ (λ n s o. o)

  pub get_last_job-KeepsOrder : KeepsOrder (get_last_job system)
  unfolding get_last_job
  get_last_job-KeepsOrder = after_removal-KeepsOrder _ (λ n s o. o)

  pub get_last_stopped_job-KeepsOrder : KeepsOrder (get_last_stopped_job system)
  unfolding get_last_stopped_job
  get_last_stopped_job-KeepsOrder = after_removal-KeepsOrder _ (λ n s o. o)

  wait_unless-KeepsOrder :
      (b : Bool) (pid : ℕ) → KeepsOrder (if b then skip else swaitpid system pid)
  wait_unless-KeepsOrder b pid =
      if-KeepsOrder b skip (swaitpid system pid) (λ s o. o) (swaitpid-KeepsOrder pid)

  after_fork-KeepsOrder : (cmd : Command) (r : Forked) → KeepsOrder (after_fork system cmd r)
  unfolding after_fork
  after_fork-KeepsOrder cmd fork_failed = λ s o. tt
  after_fork-KeepsOrder cmd child = λ s o. o
  after_fork-KeepsOrder cmd (parent pid) =
      let wait : Act S (Unit {0}) = if cmd.in_background then skip else swaitpid system pid in
      seq-KeepsOrder (add_job system cmd pid false) (wait >> give (parent pid))
        (add_job-KeepsOrder cmd pid false)
        (seq-KeepsOrder wait (give (parent pid)) (wait_unless-KeepsOrder cmd.in_background pid)
          (λ s o. o))

  pub sfork-KeepsOrder : (cmd : Command) → KeepsOrder (sfork system cmd)
  unfolding sfork
  sfork-KeepsOrder cmd s o = after_fork-KeepsOrder cmd _ _ o
