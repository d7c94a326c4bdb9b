-- ===== src/Shell/Builtins.antt =====
-- skeleton_smash/Commands.cpp: what the built-in commands do.
use operating_system_related.Prelude.{
  ℕ, Bool, true, false, Option, none, some, List, [], ◌∷◌, if◌then◌else◌, ◌==◌, get_or,
}
use operating_system_related.Prelude.Int.{ℤ}
use operating_system_related.Prelude.Text.{Text, codes, same_text}
use operating_system_related.Shell.State.{
  JobState, foreground, background, stopped, Command, Job, job_of, error_of, error_of_job,
  syscall_failed, command_pid, signal_sent, text_line, shell_pid, Killed, sent, no_process,
  kill_failed, System, ended, Act, ◌>>=◌, ◌>>◌, skip, fail, print, set_list, set_foreground,
  call_system, read_system,
}
use operating_system_related.Shell.Jobs.{sig_cont, change_job, set_state}
use operating_system_related.Shell.Signals.{skill}
use operating_system_related.Shell.Processes.{
  swaitpid, kill_all_jobs, get_job_by_id, get_last_job, get_last_stopped_job,
}
use operating_system_related.Shell.Commands.{str_to_int}

-- `args[0]`
abbrev pub name_of : Command → Text
name_of cmd = get_or cmd.args 0 []

abbrev pub error : {S : Type 0} → Command → Text → Act S (Unit {0})
error cmd text = print (error_of (name_of cmd) text)

abbrev pub job_error : {S : Type 0} → Command → ℤ → Text → Act S (Unit {0})
job_error cmd id text = print (error_of_job (name_of cmd) id text)

-- How a command that wants a job names it: by an id, not at all, or in a way that is not valid.
pub data JobArgument : Type 0 where
  by_id : ℤ → JobArgument
  by_default : JobArgument
  not_valid : JobArgument

abbrev pub id_or_not_valid : Option ℤ → JobArgument
id_or_not_valid none = not_valid
id_or_not_valid (some id) = by_id id

unfoldable pub job_argument : List Text → JobArgument
unfolding str_to_int
job_argument [] = not_valid
job_argument (name ∷ []) = by_default
job_argument (name ∷ x ∷ []) = id_or_not_valid (str_to_int x)
job_argument (name ∷ x ∷ y ∷ args) = not_valid

-- The signal and the id of `kill`.
abbrev pub both : Option ℤ → Option ℤ → Option (ℤ × ℤ)
both none y = none
both (some x) none = none
both (some x) (some y) = some (x, y)

unfoldable pub kill_arguments : List Text → Option (ℤ × ℤ)
unfolding str_to_int
kill_arguments (name ∷ (c ∷ sig) ∷ id ∷ []) =
    if c == b'-' then both (str_to_int sig) (str_to_int id) else none
kill_arguments args = none

module _ {S : Type 0} where
  -- `ChangePrompt`
  unfoldable pub execute_change_prompt : List Text → Act S (Unit {0})
  execute_change_prompt [] s = ended tt (record s { display_prompt = codes "smash" })
  execute_change_prompt (name ∷ []) s = ended tt (record s { display_prompt = codes "smash" })
  execute_change_prompt (name ∷ p ∷ args) s = ended tt (record s { display_prompt = p })

  abbrev pub set_last_pwd : Text → Act S (Unit {0})
  set_last_pwd dir s = ended tt (record s { last_pwd = dir })

  abbrev pub set_quit : Act S (Unit {0})
  set_quit s = ended tt (record s { quit = true })

  abbrev pub get_last_pwd : Act S Text
  get_last_pwd s = ended s.last_pwd s

module _ {S : Type 0} (system : System S) where
  open system use {kill, get_time, get_pid, get_cwd, chdir}

  -- The directory that `cd` changes to, `last` after a `-`; without one there is no change.
  abbrev pub new_dir : (arg last : Text) → Option Text
  new_dir arg [] = if same_text arg (codes "-") then none else some arg
  new_dir arg (c ∷ last) = if same_text arg (codes "-") then some (c ∷ last) else some arg

  abbrev pub after_chdir : (cwd : Text) → Bool → Act S (Unit {0})
  after_chdir cwd true = set_last_pwd cwd
  after_chdir cwd false = print (syscall_failed (codes "chdir"))

  abbrev pub change_from : (dir : Text) → Option Text → Act S (Unit {0})
  change_from dir none = print (syscall_failed (codes "getcwd"))
  change_from dir (some cwd) = do r ← call_system (λ s. chdir s dir); after_chdir cwd r

  abbrev pub change_to : (cmd : Command) → Option Text → Act S (Unit {0})
  change_to cmd none = error cmd (codes "OLDPWD not set")
  change_to cmd (some dir) = do cwd ← read_system get_cwd; change_from dir cwd

  -- `ChangeDirCommand`; `args` are those of `cmd`.
  unfoldable pub execute_change_dir : (cmd : Command) (args : List Text) → Act S (Unit {0})
  unfolding same_text
  execute_change_dir cmd [] = fail
  execute_change_dir cmd (name ∷ []) = skip
  execute_change_dir cmd (name ∷ dir ∷ []) = do
    last ← get_last_pwd
    change_to cmd (new_dir dir last)
  execute_change_dir cmd (name ∷ dir ∷ x ∷ args) = error cmd (codes "too many arguments")

  abbrev pub print_cwd : Option Text → Act S (Unit {0})
  print_cwd none = print (syscall_failed (codes "getcwd")) >> print (text_line [])
  print_cwd (some dir) = print (text_line dir)

  -- `GetCurrDirCommand`
  unfoldable pub execute_get_curr_dir : Act S (Unit {0})
  execute_get_curr_dir = do cwd ← read_system get_cwd; print_cwd cwd

  -- `ShowPidCommand`
  unfoldable pub execute_show_pid : Act S (Unit {0})
  execute_show_pid = do p ← read_system get_pid; print (shell_pid p)

  -- `QuitCommand`
  unfoldable pub execute_quit : List Text → Act S (Unit {0})
  unfolding kill_all_jobs same_text
  execute_quit [] = set_quit
  execute_quit (name ∷ []) = set_quit
  execute_quit (name ∷ x ∷ args) = do
    set_quit
    if same_text x (codes "kill") then kill_all_jobs system else skip

  unfoldable pub continued : (id pid : ℕ) → Killed → Act S (Unit {0})
  unfolding set_state swaitpid
  continued id pid sent = do
    set_state id foreground
    set_foreground (job_of id)
    swaitpid system pid
  continued id pid no_process = print (syscall_failed (codes "kill"))
  continued id pid kill_failed = print (syscall_failed (codes "kill"))

  -- The end of `ForegroundCommand::execute`, for the job that was found.
  unfoldable pub to_foreground : Job → Act S (Unit {0})
  unfolding continued set_state swaitpid
  to_foreground (id, e) = do
    print (command_pid e.cmd.original_cmd e.pid)
    r ← call_system (λ s. kill s e.pid sig_cont)
    continued id e.pid r

  unfoldable pub fg_of_id : Command → ℤ → Option Job → Act S (Unit {0})
  unfolding to_foreground
  fg_of_id cmd id none = job_error cmd id (codes "does not exist")
  fg_of_id cmd id (some job) = to_foreground job

  unfoldable pub fg_of_last : Command → Option Job → Act S (Unit {0})
  unfolding to_foreground
  fg_of_last cmd none = error cmd (codes "jobs list is empty")
  fg_of_last cmd (some job) = to_foreground job

  -- `ForegroundCommand`
  unfoldable pub execute_foreground : Command → JobArgument → Act S (Unit {0})
  unfolding fg_of_last fg_of_id get_job_by_id get_last_job to_foreground
  execute_foreground cmd (by_id id) = do job ← get_job_by_id system id; fg_of_id cmd id job
  execute_foreground cmd by_default = do job ← get_last_job system; fg_of_last cmd job
  execute_foreground cmd not_valid = error cmd (codes "invalid arguments")

  -- The time and the state of the job change, when the signal was sent.
  unfoldable pub resumed : (id : ℕ) → Killed → Act S (Unit {0})
  unfolding change_job
  resumed id sent = do
    now ← read_system get_time
    set_list (λ l. record l {
      jobs = change_job id (λ e. record e { state = background; entry_time = now }) l.jobs;
    })
  resumed id no_process = print (syscall_failed (codes "kill"))
  resumed id kill_failed = print (syscall_failed (codes "kill"))

  -- The end of `BackgroundCommand::execute`.
  unfoldable pub to_background : Job → Act S (Unit {0})
  unfolding resumed
  to_background (id, e) = do
    print (command_pid e.cmd.original_cmd e.pid)
    r ← call_system (λ s. kill s e.pid sig_cont)
    resumed id r

  unfoldable pub bg_unless_running : Command → ℤ → Job → JobState → Act S (Unit {0})
  unfolding to_background
  bg_unless_running cmd id job background =
      job_error cmd id (codes "is already running in the background")
  bg_unless_running cmd id job foreground = to_background job
  bg_unless_running cmd id job stopped = to_background job

  unfoldable pub bg_of_id : Command → ℤ → Option Job → Act S (Unit {0})
  unfolding bg_unless_running to_background
  bg_of_id cmd id none = job_error cmd id (codes "does not exist")
  bg_of_id cmd id (some (i, e)) = bg_unless_running cmd id (i, e) e.state

  unfoldable pub bg_of_last : Command → Option Job → Act S (Unit {0})
  unfolding to_background
  bg_of_last cmd none = error cmd (codes "there is no stopped jobs to resume")
  bg_of_last cmd (some job) = to_background job

  -- `BackgroundCommand`
  unfoldable pub execute_background : Command → JobArgument → Act S (Unit {0})
  unfolding bg_of_last bg_of_id get_job_by_id get_last_stopped_job to_background
  execute_background cmd (by_id id) = do job ← get_job_by_id system id; bg_of_id cmd id job
  execute_background cmd by_default = do job ← get_last_stopped_job system; bg_of_last cmd job
  execute_background cmd not_valid = error cmd (codes "invalid arguments")

  abbrev pub signalled : (sig : ℤ) (pid : ℕ) → Killed → Act S (Unit {0})
  signalled sig pid sent = print (signal_sent sig pid)
  signalled sig pid no_process = skip
  signalled sig pid kill_failed = skip

  unfoldable pub kill_found : Command → (sig id : ℤ) → Option Job → Act S (Unit {0})
  unfolding skill
  kill_found cmd sig id none = job_error cmd id (codes "does not exist")
  kill_found cmd sig id (some (i, e)) = do r ← skill system e.pid sig; signalled sig e.pid r

  -- `KillCommand`
  unfoldable pub execute_kill : Command → Option (ℤ × ℤ) → Act S (Unit {0})
  unfolding kill_found get_job_by_id skill
  execute_kill cmd none = error cmd (codes "invalid arguments")
  execute_kill cmd (some (sig, id)) = do job ← get_job_by_id system id; kill_found cmd sig id job
