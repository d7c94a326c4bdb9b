-- ===== src/Shell/JobTests.antt =====
-- Runs of the shell on concrete lines and jobs. The state of the system is the lines that are not read
-- yet; process 11 has finished, and others have not.
use operating_system_related.Prelude.{
  ◌++◌, ◌≢◌, ℕ, ℕ, ◌≡◌, refl, true, false, Option, none, some, List, [], ◌∷◌, if◌then◌else◌, ◌==◌,
  length, arith,
}
use operating_system_related.Prelude.Int.{negsuc}
use operating_system_related.Prelude.Text.{Text, codes}
use operating_system_related.Shell.State.{
  ended, child, then_act, ctrl_z, JobState, background, stopped, Command, JobEntry, Job, null,
  sending_kills, prompt, Waited, not_yet, changed, wait_failed, sent, parent, System, Shell, exits,
  no_fuel,
}
use operating_system_related.Shell.State.{small_shell}
use operating_system_related.Shell.Processes.{add_job, remove_finished_jobs, get_last_stopped_job}
use operating_system_related.Shell.Commands.{str_to_int}
use operating_system_related.Shell.Execute.{execute_command, smash}
use operating_system_related.Shell.Jobs.{find_job}
use operating_system_related.Shell.Processes.{swaitpid}
use operating_system_related.Shell.CtrlZ.{waiting, swaitpid-Stopped}
use operating_system_related.Shell.Sides.{execute_command-left_side}
use operating_system_related.Shell.Added.{IsAdded, add_job-IsAdded}
use operating_system_related.Shell.Commands.{
  ShellCommand, external_command, in_foreground, make_command, create_command,
}
use operating_system_related.Shell.Execute.{exit, execute}
use operating_system_related.Shell.EndOfInput.{smash-never}
use operating_system_related.Shell.Finished.{
  Leaves, unfinished, after_asking, remove_finished_jobs-Leaves,
}
use operating_system_related.Shell.LastStopped.{IsLastStopped, get_last_stopped_job-IsLastStopped}

abbrev status : (pid : ℕ) → Waited
status pid = if pid == 11 then changed false else not_yet

abbrev read_line : List Text → Text × List Text
read_line [] = ([], [])
read_line (line ∷ lines) = (line, lines)

abbrev system : System (List Text)
system = record {
  arrivals = λ s. ([], s);
  wait_changed = λ s pid. (changed false, s);
  wait_no_hang = λ s pid. (status pid, s);
  kill = λ s pid sig. (sent, s);
  fork = λ s. (parent 20, s);
  null_fits = λ s entries. true;
  exec = λ s path argv. none;
  get_time = λ s. 5;
  get_pid = λ s. 1;
  get_cwd = λ s. some (codes "/");
  chdir = λ s dir. (true, s);
  pipe = λ s. (some (3, 4), s);
  dup = λ s fd. (some 5, s);
  dup2 = λ s fd fd2. (true, s);
  close = λ s fd. (true, s);
  open_file = λ s path append. (some 6, s);
  get_line = read_line;
}

abbrev sleep : Command
sleep = record { args = codes "sleep" ∷ []; original_cmd = codes "sleep"; in_background = true }

abbrev entry : (pid : ℕ) (x : JobState) → JobEntry
entry pid x = record { pid = pid; state = x; entry_time = 2; cmd = sleep }

-- Three jobs, of which the second has finished.
abbrev shell : Shell (List Text)
shell = record {
  quit = false;
  display_prompt = codes "smash";
  last_pwd = [];
  jobs_list = record {
    jobs = (1, entry 10 stopped) ∷ (2, entry 11 background) ∷ (4, entry 12 background) ∷ [];
    foreground_job = null;
  };
  printed = [];
  system = [];
}

-- Process 11 has finished; once it is asked for it is gone, as are the other children then.
abbrev reap : List Text → (pid : ℕ) → Waited × List Text
reap [] pid = (wait_failed, [])
reap (x ∷ s) pid = if pid == 11 then (changed false, []) else (not_yet, x ∷ s)

abbrev reaping : System (List Text)
reaping = record system { wait_no_hang = reap }

abbrev some_input : List Text
some_input = codes "jobs" ∷ []

abbrev with_children : Shell (List Text)
with_children = record shell { system = some_input }

abbrev front_sleep : Command
front_sleep = record sleep { in_background = false }

add_job-IsAdded_example :
    (t : Shell (List Text)) × (add_job reaping front_sleep 20 false with_children ≡ ended tt t)
    × (t.system ≡ after_asking reaping some_input shell.jobs_list.jobs)
    × IsAdded reaping front_sleep 20 false with_children t
add_job-IsAdded_example =
    add_job-IsAdded reaping front_sleep 20 false with_children
      (omega arith, (omega arith, (omega arith, tt)))

remove_finished_jobs-Leaves_example :
    Leaves reaping
      (unfinished reaping some_input shell.jobs_list.jobs)
      (after_asking reaping some_input shell.jobs_list.jobs)
      (length (unfinished reaping some_input shell.jobs_list.jobs))
      (remove_finished_jobs reaping with_children)
remove_finished_jobs-Leaves_example =
    remove_finished_jobs-Leaves reaping with_children
      (omega arith, (omega arith, (omega arith, tt)))

unfinished_run : unfinished reaping some_input shell.jobs_list.jobs ≡ (1, entry 10 stopped) ∷ []
unfolding unfinished
unfinished_run = refl

get_last_stopped_job-IsLastStopped_example :
    (job : Option Job) × Leaves reaping
      (unfinished reaping some_input shell.jobs_list.jobs)
      (after_asking reaping some_input shell.jobs_list.jobs)
      job
      (get_last_stopped_job reaping with_children)
    × IsLastStopped (unfinished reaping some_input shell.jobs_list.jobs) job
get_last_stopped_job-IsLastStopped_example =
    get_last_stopped_job-IsLastStopped reaping with_children
      (omega arith, (omega arith, (omega arith, tt)))

-- A system without further input.
abbrev silent : System (List Text)
silent = record system { get_line = λ s. ([], s) }

smash-never_example : smash silent 9 2 shell ≡ no_fuel
smash-never_example = smash-never silent (λ s. refl) (λ s. refl) 9 2 shell refl

-- The shell reads two lines and exits.
abbrev lines : List Text
lines = codes "chprompt hi" ∷ codes " quit kill " ∷ codes "pwd" ∷ []

smash_run :
    smash system 3 2 (small_shell lines)
    ≡ exits 0 (record {
      quit = true;
      display_prompt = codes "hi";
      last_pwd = [];
      jobs_list = record { jobs = []; foreground_job = null };
      printed = prompt (codes "smash") ∷ prompt (codes "hi") ∷ sending_kills 0 ∷ [];
      system = codes "pwd" ∷ [];
    })
unfolding smash small_shell
smash_run = refl

str_to_int_run : str_to_int (codes "-12x") ≡ some (negsuc 11)
unfolding str_to_int
str_to_int_run = refl

-- A system in which ctrl-Z comes, and stops the process.
abbrev stopping : System (List Text)
stopping = record system {
  arrivals = λ s. (ctrl_z ∷ [], s);
  wait_changed = λ s pid. (changed true, s);
}

swaitpid-Stopped_example :
    (t : Shell (List Text)) × (swaitpid stopping 12 (waiting shell shell.jobs_list.jobs 4)
      ≡ ended tt t)
    × (find_job 4 t.jobs_list.jobs ≡ some (entry 12 stopped))
    × ((j : ℕ) → j ≢ 4 → find_job j t.jobs_list.jobs ≡ find_job j shell.jobs_list.jobs)
    × (t.jobs_list.foreground_job ≡ null)
unfolding find_job
swaitpid-Stopped_example =
    swaitpid-Stopped stopping shell shell.jobs_list.jobs 4 (entry 12 background) [] [] [] refl refl
      refl refl

-- A line whose pipe takes the error output.
abbrev piped : Command
piped = record {
  args = codes "ls" ∷ codes "|&" ∷ codes "wc" ∷ [];
  original_cmd = codes "ls |& wc";
  in_background = false;
}

-- The process is the child of its fork.
abbrev in_child : System (List Text)
in_child = record system { fork = λ s. (child, s) }

abbrev left_command : ShellCommand
left_command =
    external_command
      (record { args = codes "ls" ∷ []; original_cmd = codes "ls "; in_background = false }) false

abbrev right_command : ShellCommand
right_command =
    external_command
      (record { args = codes "wc" ∷ []; original_cmd = codes " wc"; in_background = false }) false

execute_command-left_side_example :
    execute_command in_child 9 (codes "ls " ++ b'|' ∷ codes "& wc") shell
    ≡ then_act (execute in_child 8 (in_foreground left_command) shell) (λ _. exit 0)
unfolding make_command create_command
execute_command-left_side_example =
    execute_command-left_side in_child 8 (codes "ls ") (codes "& wc") piped left_command
      right_command shell (3, 4) [] [] [] (refl, (refl, (refl, tt))) refl refl refl refl refl
      (record { linked = []; shut = []; links = refl; shuts_reading = refl; shuts_writing = refl })
