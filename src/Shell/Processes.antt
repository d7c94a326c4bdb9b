-- ===== src/Shell/Processes.antt =====
-- skeleton_smash/Commands.cpp: `swaitpid`, in which the handlers run, `sfork`, and the functions on the
-- list of jobs that first remove the finished ones.
use operating_system_related.Prelude.{
  ℕ, Bool, true, false, Option, none, List, [], ◌∷◌, if◌then◌else◌, length,
}
use operating_system_related.Prelude.Int.{ℤ, pos, negsuc}
use operating_system_related.Prelude.Text.{codes}
use operating_system_related.Shell.State.{
  Command, Job, null, syscall_failed, pid_command, sending_kills, Waited, wait_failed, not_yet,
  changed, Killed, sent, no_process, kill_failed, Forked, fork_failed, child, parent, System, Act,
  ◌>>=◌, ◌>>◌, give, skip, fail, print, get_list, set_foreground, call_system, read_system,
}
use operating_system_related.Shell.Jobs.{
  find_job, remove_job_by_id, remove_at, last_job, last_stopped_of, sig_kill, job_state,
  get_job_from, insert_job, print_jobs,
}
use operating_system_related.Shell.Signals.{skill, handle_all}

module _ {S : Type 0} (system : System S) where
  open system use {arrivals, wait_changed, wait_no_hang, fork, get_time}

  -- `swaitpid` with WNOHANG, and whether what it returns is not 0.
  unfoldable pub after_no_hang : Waited → Act S Bool
  after_no_hang wait_failed = print (syscall_failed (codes "waitpid")) >> give true
  after_no_hang not_yet = set_foreground null >> give false
  after_no_hang (changed x) = set_foreground null >> give true

  -- `swaitpid` with WUNTRACED, after its wait. A status of 0 is not that of a stopped process.
  unfoldable pub after_wait : Waited → Act S (Unit {0})
  unfolding remove_at
  after_wait wait_failed = print (syscall_failed (codes "waitpid"))
  after_wait not_yet = do l ← get_list; remove_at l.foreground_job; set_foreground null
  after_wait (changed false) = do l ← get_list; remove_at l.foreground_job; set_foreground null
  after_wait (changed true) = set_foreground null

  unfoldable pub swaitpid : (pid : ℕ) → Act S (Unit {0})
  unfolding handle_all after_wait
  swaitpid pid = do
    signals ← call_system arrivals
    handle_all system signals
    r ← call_system (λ s. wait_changed s pid)
    after_wait r

  -- `removeFinishedJobs`, which looks at each job in turn.
  unfoldable pub remove_finished : List Job → Act S (Unit {0})
  unfolding after_no_hang remove_job_by_id
  remove_finished [] = skip
  remove_finished ((id, e) ∷ jobs) = do
    r ← call_system (λ s. wait_no_hang s e.pid)
    finished ← after_no_hang r
    if finished then remove_job_by_id id else skip
    remove_finished jobs

  unfoldable pub remove_finished_jobs : Act S ℕ
  unfolding remove_finished
  remove_finished_jobs = do l ← get_list; remove_finished l.jobs; l ← get_list; give (length l.jobs)

  unfoldable pub add_job : (cmd : Command) (pid : ℕ) (is_stopped : Bool) → Act S (Unit {0})
  unfolding remove_finished_jobs insert_job
  add_job cmd pid stop = do
    n ← remove_finished_jobs
    now ← read_system get_time
    insert_job cmd pid (job_state stop cmd) now

  unfoldable pub print_jobs_list : Act S (Unit {0})
  unfolding remove_finished_jobs print_jobs
  print_jobs_list = do
    n ← remove_finished_jobs
    now ← read_system get_time
    l ← get_list
    print_jobs now l.jobs

  -- A job that was killed, or whose process is gone, is erased.
  unfoldable pub erase_killed : (id : ℕ) → Killed → Act S (Unit {0})
  unfolding remove_job_by_id
  erase_killed id sent = remove_job_by_id id
  erase_killed id no_process = remove_job_by_id id
  erase_killed id kill_failed = skip

  unfoldable pub kill_each : List Job → Act S (Unit {0})
  unfolding skill erase_killed
  kill_each [] = skip
  kill_each ((id, e) ∷ jobs) = do
    print (pid_command e.pid e.cmd.original_cmd)
    r ← skill system e.pid sig_kill
    erase_killed id r
    kill_each jobs

  unfoldable pub kill_all_jobs : Act S (Unit {0})
  unfolding remove_finished_jobs kill_each
  kill_all_jobs = do
    n ← remove_finished_jobs
    print (sending_kills n)
    l ← get_list
    kill_each l.jobs

  -- `jobs.find` of an `int`; no id is negative.
  unfoldable pub get_job_by_id : ℤ → Act S (Option Job)
  unfolding remove_finished_jobs find_job
  get_job_by_id (pos id) = do
    n ← remove_finished_jobs
    l ← get_list
    give (get_job_from (find_job id l.jobs) id)
  get_job_by_id (negsuc id) = do n ← remove_finished_jobs; give none

  unfoldable pub get_last_job : Act S (Option Job)
  unfolding remove_finished_jobs last_job
  get_last_job = do n ← remove_finished_jobs; l ← get_list; give (last_job l.jobs)

  unfoldable pub get_last_stopped_job : Act S (Option Job)
  unfolding remove_finished_jobs last_stopped_of
  get_last_stopped_job = do n ← remove_finished_jobs; l ← get_list; give (last_stopped_of l.jobs)

  -- In the process that goes on: the shell adds the job and waits for it unless it is in the background;
  -- if `fork` fails, the function ends without a `return`.
  unfoldable pub after_fork : Command → Forked → Act S Forked
  unfolding add_job swaitpid
  after_fork cmd fork_failed = print (syscall_failed (codes "fork")) >> fail
  after_fork cmd child = give child
  after_fork cmd (parent pid) = do
    add_job cmd pid false
    if cmd.in_background then skip else swaitpid pid
    give (parent pid)

  unfoldable pub sfork : Command → Act S Forked
  unfolding after_fork
  sfork cmd = do r ← call_system fork; after_fork cmd r
