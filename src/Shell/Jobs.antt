-- ===== src/Shell/Jobs.antt =====
-- skeleton_smash/Commands.cpp: the list of jobs.
use operating_system_related.Prelude.{
  ℕ, ◌+◌, ◌-◌, ltb, ◌&&◌, Bool, true, false, Option, none, some, List, [], ◌∷◌, if◌then◌else◌, ◌==◌,
}
use operating_system_related.Prelude.Int.{ℤ, pos}
use operating_system_related.Prelude.Text.{codes}
use operating_system_related.Shell.State.{
  JobState, foreground, background, stopped, Command, JobEntry, Job, JobPointer, null, job_of,
  dangling, syscall_failed, job_line, Killed, sent, no_process, kill_failed, Act, ◌>>◌, give, skip,
  fail, print, set_list,
}

-- `jobs.find`
unfoldable pub find_job : (id : ℕ) → List Job → Option JobEntry
find_job id [] = none
find_job id ((i, e) ∷ jobs) = let rest = find_job id jobs in if i == id then some e else rest

-- `jobs.erase` of an id.
unfoldable pub erase_job : (id : ℕ) → List Job → List Job
erase_job id [] = []
erase_job id ((i, e) ∷ jobs) =
    let rest = erase_job id jobs in if i == id then rest else (i, e) ∷ rest

-- The assignment to an entry through a pointer.
unfoldable pub change_job : (id : ℕ) → (JobEntry → JobEntry) → List Job → List Job
change_job id f [] = []
change_job id f ((i, e) ∷ jobs) = (if i == id then (i, f e) else (i, e)) ∷ change_job id f jobs

abbrev pub after_erase : (id : ℕ) → JobPointer → JobPointer
after_erase id null = null
after_erase id (job_of i) = if i == id then dangling else job_of i
after_erase id dangling = dangling

-- `removeJobById`
unfoldable pub remove_job_by_id : {S : Type 0} → (id : ℕ) → Act S (Unit {0})
unfolding erase_job
remove_job_by_id id =
    set_list
      (λ l. record { jobs = erase_job id l.jobs; foreground_job = after_erase id l.foreground_job })

-- `removeJobById(jobId(*foreground))`
unfoldable pub remove_at : {S : Type 0} → JobPointer → Act S (Unit {0})
unfolding remove_job_by_id
remove_at null = fail
remove_at (job_of id) = remove_job_by_id id
remove_at dangling = fail

-- The greatest id, 0 if there is no job.
unfoldable pub last_id : List Job → ℕ
last_id [] = 0
last_id ((i, e) ∷ []) = i
last_id (j ∷ k ∷ jobs) = last_id (k ∷ jobs)

unfoldable pub last_job : List Job → Option Job
last_job [] = none
last_job (j ∷ []) = some j
last_job (j ∷ k ∷ jobs) = last_job (k ∷ jobs)

abbrev pub is_stopped : JobState → Bool
is_stopped stopped = true
is_stopped background = false
is_stopped foreground = false

abbrev pub is_foreground : JobState → Bool
is_foreground foreground = true
is_foreground background = false
is_foreground stopped = false

-- The loop over `rbegin()` to `rend()` returns the last stopped job: one behind, or else this one.
unfoldable pub or_this : (id : ℕ) (e : JobEntry) → Option Job → Option Job
or_this id e (some job) = some job
or_this id e none = if is_stopped e.state then some (id, e) else none

unfoldable pub last_stopped_of : List Job → Option Job
unfolding or_this
last_stopped_of [] = none
last_stopped_of ((i, e) ∷ jobs) = or_this i e (last_stopped_of jobs)

-- The signals SIGKILL, SIGSTOP and SIGCONT.
abbrev pub sig_kill : ℤ
sig_kill = pos 9

abbrev pub sig_stop : ℤ
sig_stop = pos 19

abbrev pub sig_cont : ℤ
sig_cont = pos 18

-- The state of a new job.
abbrev pub job_state : (is_stopped : Bool) (cmd : Command) → JobState
job_state stop cmd = if stop then stopped else if cmd.in_background then background else foreground

-- The id of a new job: ids start from 1.
unfoldable pub new_job_id : List Job → ℕ
unfolding last_id
new_job_id [] = 1
new_job_id (j ∷ jobs) = last_id (j ∷ jobs) + 1

abbrev pub get_job_from : Option JobEntry → (id : ℕ) → Option Job
get_job_from none id = none
get_job_from (some e) id = some (id, e)

-- `insert` of a `std::map`: at the place of the key, and nothing is changed if the key is there.
unfoldable pub map_insert : (id : ℕ) (entry : JobEntry) → List Job → List Job
map_insert id entry [] = (id, entry) ∷ []
map_insert id entry ((i, e) ∷ jobs) =
    let rest = map_insert id entry jobs in
    if ltb id i
    then (id, entry) ∷ (i, e) ∷ jobs
    else if i == id
    then (i, e) ∷ jobs
    else (i, e) ∷ rest

abbrev pub is_absent : Option JobEntry → Bool
is_absent none = true
is_absent (some e) = false

module _ {S : Type 0} where
  unfoldable pub after_kill : Killed → Act S Killed
  after_kill sent = give sent
  after_kill no_process = print (syscall_failed (codes "kill")) >> give no_process
  after_kill kill_failed = print (syscall_failed (codes "kill")) >> give kill_failed

  -- The member `state` of the job that `foreground` points to.
  unfoldable pub set_state : (id : ℕ) → JobState → Act S (Unit {0})
  unfolding change_job
  set_state id x =
      set_list (λ l. record l { jobs = change_job id (λ e. record e { state = x }) l.jobs })

  -- A new job; it is pointed to as the one in the foreground if it was inserted.
  unfoldable pub insert_job : (cmd : Command) (pid : ℕ) (x : JobState) (now : ℕ) → Act S (Unit {0})
  unfolding new_job_id map_insert find_job
  insert_job cmd pid x now = set_list (λ l.
      let id = new_job_id l.jobs in
      record {
        jobs = map_insert id (record { pid = pid; state = x; entry_time = now; cmd = cmd }) l.jobs;
        foreground_job =
            if is_foreground x && is_absent (find_job id l.jobs)
            then job_of id
            else l.foreground_job;
      })

  -- `printJob`
  unfoldable pub print_job : (now : ℕ) → Job → Act S (Unit {0})
  print_job now (id, e) =
      print (job_line id e.cmd.original_cmd e.pid (now - e.entry_time) (is_stopped e.state))

  unfoldable pub print_jobs : (now : ℕ) → List Job → Act S (Unit {0})
  unfolding print_job
  print_jobs now [] = skip
  print_jobs now ((id, e) ∷ jobs) = do
    if is_foreground e.state then skip else print_job now (id, e)
    print_jobs now jobs
