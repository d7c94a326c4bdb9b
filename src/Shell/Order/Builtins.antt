-- ===== src/Shell/Order/Builtins.antt =====
-- skeleton_smash/Commands.cpp: the built-in commands keep the order of the ids.
use operating_system_related.Prelude.{
  ℕ, Bool, true, false, Option, none, some, List, [], ◌∷◌, if◌then◌else◌,
}
use operating_system_related.Prelude.Int.{ℤ}
use operating_system_related.Prelude.Text.{Text, codes, same_text}
use operating_system_related.Shell.State.{
  JobState, foreground, background, stopped, Command, JobEntry, Job, job_of, command_pid, Killed,
  sent, no_process, kill_failed, System, Act, ◌>>=◌, ◌>>◌, skip, print, set_foreground, call_system,
  read_system,
}
use operating_system_related.Shell.Jobs.{set_state, sig_cont}
use operating_system_related.Shell.Signals.{skill}
use operating_system_related.Shell.Processes.{
  swaitpid, get_job_by_id, get_last_job, get_last_stopped_job, kill_all_jobs,
}
use operating_system_related.Shell.Builtins.{
  JobArgument, execute_change_prompt, set_quit, get_last_pwd, new_dir, after_chdir, change_from,
  change_to, execute_change_dir, print_cwd, execute_get_curr_dir, execute_quit, continued,
  to_foreground, fg_of_id, fg_of_last, execute_foreground, resumed, to_background,
  bg_unless_running, bg_of_id, bg_of_last, execute_background, signalled, kill_found, execute_kill,
  by_id, by_default, not_valid,
}
use operating_system_related.Shell.Order.{
  change_job-IsAbove, KeepsOrder, bind-KeepsOrder, seq-KeepsOrder, if-KeepsOrder,
  set_state-KeepsOrder,
}
use operating_system_related.Shell.Order.Jobs.{
  skill-KeepsOrder, swaitpid-KeepsOrder, kill_all_jobs-KeepsOrder, get_job_by_id-KeepsOrder,
  get_last_job-KeepsOrder, get_last_stopped_job-KeepsOrder,
}

module _ {S : Type 0} where
  pub execute_change_prompt-KeepsOrder :
      (args : List Text) → KeepsOrder (execute_change_prompt {S = S} args)
  unfolding execute_change_prompt
  execute_change_prompt-KeepsOrder [] s o = o
  execute_change_prompt-KeepsOrder (name ∷ []) s o = o
  execute_change_prompt-KeepsOrder (name ∷ p ∷ args) s o = o

module _ {S : Type 0} (system : System S) where
  after_chdir-KeepsOrder : (cwd : Text) (b : Bool) → KeepsOrder (after_chdir system cwd b)
  after_chdir-KeepsOrder cwd true s o = o
  after_chdir-KeepsOrder cwd false s o = o

  change_from-KeepsOrder :
      (dir : Text) (cwd : Option Text) → KeepsOrder (change_from system dir cwd)
  change_from-KeepsOrder dir none = λ s o. o
  change_from-KeepsOrder dir (some cwd) =
      bind-KeepsOrder (call_system (λ s. system.chdir s dir)) (after_chdir system cwd) (λ s o. o)
        (after_chdir-KeepsOrder cwd)

  change_to-KeepsOrder : (cmd : Command) (dir : Option Text) → KeepsOrder (change_to system cmd dir)
  change_to-KeepsOrder cmd none = λ s o. o
  change_to-KeepsOrder cmd (some dir) =
      bind-KeepsOrder (read_system system.get_cwd) (change_from system dir) (λ s o. o)
        (change_from-KeepsOrder dir)

  pub execute_change_dir-KeepsOrder :
      (cmd : Command) (args : List Text) → KeepsOrder (execute_change_dir system cmd args)
  unfolding execute_change_dir
  execute_change_dir-KeepsOrder cmd [] = λ s o. tt
  execute_change_dir-KeepsOrder cmd (name ∷ []) = λ s o. o
  execute_change_dir-KeepsOrder cmd (name ∷ dir ∷ []) =
      bind-KeepsOrder get_last_pwd (λ last. change_to system cmd (new_dir system dir last))
        (λ s o. o) (λ last. change_to-KeepsOrder cmd (new_dir system dir last))
  execute_change_dir-KeepsOrder cmd (name ∷ dir ∷ x ∷ args) = λ s o. o

  print_cwd-KeepsOrder : (cwd : Option Text) → KeepsOrder (print_cwd system cwd)
  print_cwd-KeepsOrder none s o = o
  print_cwd-KeepsOrder (some dir) s o = o

  pub execute_get_curr_dir-KeepsOrder : KeepsOrder (execute_get_curr_dir system)
  unfolding execute_get_curr_dir
  execute_get_curr_dir-KeepsOrder =
      bind-KeepsOrder (read_system system.get_cwd) (print_cwd system) (λ s o. o)
        print_cwd-KeepsOrder

  pub execute_quit-KeepsOrder : (args : List Text) → KeepsOrder (execute_quit system args)
  unfolding execute_quit
  execute_quit-KeepsOrder [] = λ s o. o
  execute_quit-KeepsOrder (name ∷ []) = λ s o. o
  execute_quit-KeepsOrder (name ∷ x ∷ args) =
      seq-KeepsOrder set_quit (if same_text x (codes "kill") then kill_all_jobs system else skip)
        (λ s o. o)
        (if-KeepsOrder (same_text x (codes "kill")) (kill_all_jobs system) skip
          (kill_all_jobs-KeepsOrder system) (λ s o. o))

  continued-KeepsOrder : (id pid : ℕ) (r : Killed) → KeepsOrder (continued system id pid r)
  unfolding continued
  continued-KeepsOrder id pid sent =
      seq-KeepsOrder (set_state id foreground) (set_foreground (job_of id) >> swaitpid system pid)
        (set_state-KeepsOrder id foreground)
        (seq-KeepsOrder (set_foreground (job_of id)) (swaitpid system pid) (λ s o. o)
          (swaitpid-KeepsOrder system pid))
  continued-KeepsOrder id pid no_process = λ s o. o
  continued-KeepsOrder id pid kill_failed = λ s o. o

  -- The end of `fg` and of `bg`: a message, the signal, and what follows it.
  signal_then-KeepsOrder :
      (e : JobEntry) (f : Killed → Act S (Unit {0}))
      → ((r : Killed) → KeepsOrder (f r))
      → KeepsOrder (
          print (command_pid e.cmd.original_cmd e.pid)
          >> (call_system (λ s. system.kill s e.pid sig_cont) >>= f))
  signal_then-KeepsOrder e f h =
      seq-KeepsOrder (print (command_pid e.cmd.original_cmd e.pid))
        (call_system (λ s. system.kill s e.pid sig_cont) >>= f) (λ s o. o)
        (bind-KeepsOrder (call_system (λ s. system.kill s e.pid sig_cont)) f (λ s o. o) h)

  to_foreground-KeepsOrder : (job : Job) → KeepsOrder (to_foreground system job)
  unfolding to_foreground
  to_foreground-KeepsOrder (id, e) =
      signal_then-KeepsOrder e (continued system id e.pid) (continued-KeepsOrder id e.pid)

  fg_of_id-KeepsOrder :
      (cmd : Command) (id : ℤ) (job : Option Job) → KeepsOrder (fg_of_id system cmd id job)
  unfolding fg_of_id
  fg_of_id-KeepsOrder cmd id none = λ s o. o
  fg_of_id-KeepsOrder cmd id (some job) = to_foreground-KeepsOrder job

  fg_of_last-KeepsOrder :
      (cmd : Command) (job : Option Job) → KeepsOrder (fg_of_last system cmd job)
  unfolding fg_of_last
  fg_of_last-KeepsOrder cmd none = λ s o. o
  fg_of_last-KeepsOrder cmd (some job) = to_foreground-KeepsOrder job

  pub execute_foreground-KeepsOrder :
      (cmd : Command) (x : JobArgument) → KeepsOrder (execute_foreground system cmd x)
  unfolding execute_foreground
  execute_foreground-KeepsOrder cmd (by_id id) =
      bind-KeepsOrder (get_job_by_id system id) (fg_of_id system cmd id)
        (get_job_by_id-KeepsOrder system id) (fg_of_id-KeepsOrder cmd id)
  execute_foreground-KeepsOrder cmd by_default =
      bind-KeepsOrder (get_last_job system) (fg_of_last system cmd) (get_last_job-KeepsOrder system)
        (fg_of_last-KeepsOrder cmd)
  execute_foreground-KeepsOrder cmd not_valid = λ s o. o

  resumed-KeepsOrder : (id : ℕ) (r : Killed) → KeepsOrder (resumed system id r)
  unfolding resumed
  resumed-KeepsOrder id sent s o = change_job-IsAbove id 0 _ s.jobs_list.jobs o
  resumed-KeepsOrder id no_process s o = o
  resumed-KeepsOrder id kill_failed s o = o

  to_background-KeepsOrder : (job : Job) → KeepsOrder (to_background system job)
  unfolding to_background
  to_background-KeepsOrder (id, e) =
      signal_then-KeepsOrder e (resumed system id) (resumed-KeepsOrder id)

  bg_unless_running-KeepsOrder :
      (cmd : Command) (id : ℤ) (job : Job) (x : JobState)
      → KeepsOrder (bg_unless_running system cmd id job x)
  unfolding bg_unless_running
  bg_unless_running-KeepsOrder cmd id job background = λ s o. o
  bg_unless_running-KeepsOrder cmd id job foreground = to_background-KeepsOrder job
  bg_unless_running-KeepsOrder cmd id job stopped = to_background-KeepsOrder job

  bg_of_id-KeepsOrder :
      (cmd : Command) (id : ℤ) (job : Option Job) → KeepsOrder (bg_of_id system cmd id job)
  unfolding bg_of_id
  bg_of_id-KeepsOrder cmd id none = λ s o. o
  bg_of_id-KeepsOrder cmd id (some (i, e)) = bg_unless_running-KeepsOrder cmd id (i, e) e.state

  bg_of_last-KeepsOrder :
      (cmd : Command) (job : Option Job) → KeepsOrder (bg_of_last system cmd job)
  unfolding bg_of_last
  bg_of_last-KeepsOrder cmd none = λ s o. o
  bg_of_last-KeepsOrder cmd (some job) = to_background-KeepsOrder job

  pub execute_background-KeepsOrder :
      (cmd : Command) (x : JobArgument) → KeepsOrder (execute_background system cmd x)
  unfolding execute_background
  execute_background-KeepsOrder cmd (by_id id) =
      bind-KeepsOrder (get_job_by_id system id) (bg_of_id system cmd id)
        (get_job_by_id-KeepsOrder system id) (bg_of_id-KeepsOrder cmd id)
  execute_background-KeepsOrder cmd by_default =
      bind-KeepsOrder (get_last_stopped_job system) (bg_of_last system cmd)
        (get_last_stopped_job-KeepsOrder system) (bg_of_last-KeepsOrder cmd)
  execute_background-KeepsOrder cmd not_valid = λ s o. o

  signalled-KeepsOrder : (sig : ℤ) (pid : ℕ) (r : Killed) → KeepsOrder (signalled system sig pid r)
  signalled-KeepsOrder sig pid sent s o = o
  signalled-KeepsOrder sig pid no_process s o = o
  signalled-KeepsOrder sig pid kill_failed s o = o

  kill_found-KeepsOrder :
      (cmd : Command) (sig id : ℤ) (job : Option Job)
      → KeepsOrder (kill_found system cmd sig id job)
  unfolding kill_found
  kill_found-KeepsOrder cmd sig id none = λ s o. o
  kill_found-KeepsOrder cmd sig id (some (i, e)) =
      bind-KeepsOrder (skill system e.pid sig) (signalled system sig e.pid)
        (skill-KeepsOrder system e.pid sig) (signalled-KeepsOrder sig e.pid)

  pub execute_kill-KeepsOrder :
      (cmd : Command) (x : Option (ℤ × ℤ)) → KeepsOrder (execute_kill system cmd x)
  unfolding execute_kill
  execute_kill-KeepsOrder cmd none = λ s o. o
  execute_kill-KeepsOrder cmd (some (sig, id)) =
      bind-KeepsOrder (get_job_by_id system id) (kill_found system cmd sig id)
        (get_job_by_id-KeepsOrder system id) (kill_found-KeepsOrder cmd sig id)
