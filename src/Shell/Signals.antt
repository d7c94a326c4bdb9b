-- ===== src/Shell/Signals.antt =====
-- skeleton_smash/Commands.cpp: `skill`, and the handlers of skeleton_smash/signals.cpp.
use operating_system_related.Prelude.{ℕ, Option, none, some, List, [], ◌∷◌}
use operating_system_related.Prelude.Int.{ℤ}
use operating_system_related.Shell.State.{
  stopped, JobEntry, Job, JobPointer, null, job_of, dangling, got_ctrl_c, got_ctrl_z,
  process_killed, process_stopped, Killed, sent, no_process, kill_failed, Signal, ctrl_z, ctrl_c,
  System, Act, ◌>>=◌, ◌>>◌, give, skip, fail, print, get_list, call_system,
}
use operating_system_related.Shell.Jobs.{find_job, sig_kill, sig_stop, after_kill, set_state}

module _ {S : Type 0} (system : System S) where
  open system use {kill}

  unfoldable pub skill : (pid : ℕ) (sig : ℤ) → Act S Killed
  unfolding after_kill
  skill pid sig = do r ← call_system (λ s. kill s pid sig); after_kill r

  unfoldable pub stop_sent : (id pid : ℕ) → Killed → Act S (Unit {0})
  unfolding set_state
  stop_sent id pid sent = print (process_stopped pid) >> set_state id stopped
  stop_sent id pid no_process = skip
  stop_sent id pid kill_failed = skip

  abbrev pub kill_sent : (pid : ℕ) → Killed → Act S (Unit {0})
  kill_sent pid sent = print (process_killed pid)
  kill_sent pid no_process = skip
  kill_sent pid kill_failed = skip

  abbrev pub found_at : (id : ℕ) → Option JobEntry → Act S (Option Job)
  found_at id none = fail
  found_at id (some e) = give (some (id, e))

  -- The job that a pointer leads to; NULL is no job.
  unfoldable pub job_at : JobPointer → Act S (Option Job)
  unfolding find_job
  job_at null = give none
  job_at dangling = fail
  job_at (job_of id) = do l ← get_list; found_at id (find_job id l.jobs)

  unfoldable pub stop_job : Option Job → Act S (Unit {0})
  unfolding stop_sent skill
  stop_job none = skip
  stop_job (some (id, e)) = do r ← skill e.pid sig_stop; stop_sent id e.pid r

  unfoldable pub kill_job : Option Job → Act S (Unit {0})
  unfolding skill
  kill_job none = skip
  kill_job (some (id, e)) = do r ← skill e.pid sig_kill; kill_sent e.pid r

  -- `ctrlZHandler`
  unfoldable pub ctrl_z_handler : Act S (Unit {0})
  unfolding stop_job job_at
  ctrl_z_handler = do print got_ctrl_z; l ← get_list; job ← job_at l.foreground_job; stop_job job

  -- `ctrlCHandler`
  unfoldable pub ctrl_c_handler : Act S (Unit {0})
  unfolding kill_job job_at
  ctrl_c_handler = do print got_ctrl_c; l ← get_list; job ← job_at l.foreground_job; kill_job job

  unfoldable pub handle : Signal → Act S (Unit {0})
  unfolding ctrl_z_handler ctrl_c_handler
  handle ctrl_z = ctrl_z_handler
  handle ctrl_c = ctrl_c_handler

  unfoldable pub handle_all : List Signal → Act S (Unit {0})
  unfolding handle
  handle_all [] = skip
  handle_all (x ∷ xs) = do handle x; handle_all xs
