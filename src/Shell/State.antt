-- ===== src/Shell/State.antt =====
-- skeleton_smash/Commands.h: the state of the shell, its jobs and what it asks of the system.
--
-- A function is a run on the shell: it ends with a value, the process exits, its program is replaced
-- by `exec`, or the behaviour is undefined. What is printed is a list of messages; the numbers and
-- texts of a message are kept, its fixed words are the constructor.
use operating_system_related.Prelude.{ℕ, Bool, false, Option, List, [], ◌∷◌, ◌++◌}
use operating_system_related.Prelude.Int.{ℤ}
use operating_system_related.Prelude.Text.{Text, codes}

-- `jobState`
pub data JobState : Type 0 where
  foreground : JobState
  background : JobState
  stopped : JobState

-- The members of `Command`; what its subclasses add is in `ShellCommand`.
pub record Command : Type 0 where
  pub args : List Text
  pub original_cmd : Text
  pub in_background : Bool

pub record JobEntry : Type 0 where
  pub pid : ℕ
  pub state : JobState
  pub entry_time : ℕ
  pub cmd : Command

-- `Job`, a pair of an id and an entry.
abbrev pub Job : Type 0
Job = ℕ × JobEntry

-- `Job *foreground`: NULL, a job of the list, or a job that was erased.
pub data JobPointer : Type 0 where
  null : JobPointer
  job_of : (id : ℕ) → JobPointer
  dangling : JobPointer

-- `JobsMap` is in the order of the ids.
pub record JobsList : Type 0 where
  pub jobs : List Job
  pub foreground_job : JobPointer

pub data Message : Type 0 where
  error_of : (command : Text) (error : Text) → Message
  error_of_job : (command : Text) (id : ℤ) (error : Text) → Message
  syscall_failed : (name : Text) → Message
  command_pid : (cmd : Text) (pid : ℕ) → Message
  pid_command : (pid : ℕ) (cmd : Text) → Message
  job_line : (id : ℕ) (cmd : Text) (pid secs : ℕ) (is_stopped : Bool) → Message
  sending_kills : (jobs : ℕ) → Message
  signal_sent : (sig : ℤ) (pid : ℕ) → Message
  text_line : Text → Message
  shell_pid : ℕ → Message
  prompt : Text → Message
  got_ctrl_c : Message
  got_ctrl_z : Message
  process_killed : (pid : ℕ) → Message
  process_stopped : (pid : ℕ) → Message

-- What `waitpid` returns: -1, 0, or the process with its status.
pub data Waited : Type 0 where
  wait_failed : Waited
  not_yet : Waited
  changed : (is_stopped : Bool) → Waited

pub data Killed : Type 0 where
  sent : Killed
  no_process : Killed
  kill_failed : Killed

pub data Forked : Type 0 where
  fork_failed : Forked
  child : Forked
  parent : (pid : ℕ) → Forked

-- The signals that the shell handles.
pub data Signal : Type 0 where
  ctrl_z : Signal
  ctrl_c : Signal

-- The system calls. `arrivals` are the signals that come while the shell waits. `exec` returns only
-- if it fails. A descriptor is `none` where the call fails. `get_line` is `getline` on `cin`.
-- `null_fits` is no call: it says whether a NULL that is written behind an array of so many pointers on
-- the stack leaves the program as it is.
pub record System (S : Type 0) : Type 0 where
  pub arrivals : S → List Signal × S
  pub wait_changed : S → (pid : ℕ) → Waited × S
  pub wait_no_hang : S → (pid : ℕ) → Waited × S
  pub kill : S → (pid : ℕ) (sig : ℤ) → Killed × S
  pub fork : S → Forked × S
  pub null_fits : S → (entries : ℕ) → Bool
  pub exec : S → (path : Text) (argv : List Text) → Option S
  pub get_time : S → ℕ
  pub get_pid : S → ℕ
  pub get_cwd : S → Option Text
  pub chdir : S → Text → Bool × S
  pub pipe : S → Option (ℕ × ℕ) × S
  pub dup : S → (fd : ℕ) → Option ℕ × S
  pub dup2 : S → (fd : Option ℕ) (fd2 : ℕ) → Bool × S
  pub close : S → (fd : Option ℕ) → Bool × S
  pub open_file : S → Text → (append : Bool) → Option ℕ × S
  pub get_line : S → Text × S

-- The process: the members of `SmallShell`, what was printed, and the state of the system.
pub record Shell (S : Type 0) : Type 0 where
  pub quit : Bool
  pub display_prompt : Text
  pub last_pwd : Text
  pub jobs_list : JobsList
  pub printed : List Message
  pub system : S

pub data Ending (S A : Type 0) : Type 0 where
  ended : A → Shell S → Ending S A
  exits : (status : ℕ) → Shell S → Ending S A
  replaced : (path : Text) (argv : List Text) → Shell S → Ending S A
  undefined : Ending S A
  no_fuel : Ending S A

abbrev pub Act : Type 0 → Type 0 → Type 0
Act S A = Shell S → Ending S A

abbrev pub then_act : {S A B : Type 0} → Ending S A → (A → Act S B) → Ending S B
then_act (ended a s) f = f a s
then_act (exits n s) f = exits n s
then_act (replaced p v s) f = replaced p v s
then_act undefined f = undefined
then_act no_fuel f = no_fuel

infixl 5 ◌>>=◌ ◌>>◌
abbrev pub ◌>>=◌ : {S A B : Type 0} → Act S A → (A → Act S B) → Act S B
◌>>=◌ r f s = then_act (r s) f

abbrev pub ◌>>◌ : {S B : Type 0} → Act S (Unit {0}) → Act S B → Act S B
r >> k = r >>= λ _. k

abbrev pub give : {S A : Type 0} → A → Act S A
give a s = ended a s

abbrev pub skip : {S : Type 0} → Act S (Unit {0})
skip s = ended tt s

abbrev pub fail : {S A : Type 0} → Act S A
fail s = undefined

abbrev pub print : {S : Type 0} → Message → Act S (Unit {0})
print m s = ended tt (record s { printed = s.printed ++ m ∷ [] })

abbrev pub get_list : {S : Type 0} → Act S JobsList
get_list s = ended s.jobs_list s

abbrev pub set_list : {S : Type 0} → (JobsList → JobsList) → Act S (Unit {0})
set_list f s = ended tt (record s { jobs_list = f s.jobs_list })

abbrev pub set_foreground : {S : Type 0} → JobPointer → Act S (Unit {0})
set_foreground p = set_list (λ l. record l { foreground_job = p })

-- A system call with a result, and one that only reads.
abbrev pub call_system : {S A : Type 0} → (S → A × S) → Act S A
call_system f s = let (a, t) = f s.system in ended a (record s { system = t })

abbrev pub read_system : {S A : Type 0} → (S → A) → Act S A
read_system f s = ended (f s.system) s

-- `SmallShell()`, with the members that have an initial value.
unfoldable pub small_shell : {S : Type 0} → S → Shell S
small_shell system = record {
  quit = false;
  display_prompt = codes "smash";
  last_pwd = [];
  jobs_list = record { jobs = []; foreground_job = null };
  printed = [];
  system = system;
}
