-- ===== src/Shell/Execute.antt =====
-- skeleton_smash/Commands.cpp and smash.cpp: external commands, pipes, redirections, and the loop.
--
-- A pipe and a redirection create the commands on their sides, so `execute` is on fuel. The array
-- `argv` of an external command is one entry too short for its NULL, which is written behind it; whether
-- the program survives that is asked of the system (`null_fits`), and it is undefined if it does not.
use operating_system_related.Prelude.{
  ℕ, zero, suc, ◌+◌, Bool, true, false, Option, none, some, List, [], ◌∷◌, ◌++◌, if◌then◌else◌,
  take, drop, length,
}
use operating_system_related.Prelude.Text.{Text, codes}
use operating_system_related.Shell.{trim}
use operating_system_related.Shell.State.{
  Command, syscall_failed, prompt, Forked, fork_failed, child, parent, System, ended, exits,
  replaced, no_fuel, Act, ◌>>=◌, ◌>>◌, give, skip, fail, print, call_system, read_system,
}
use operating_system_related.Shell.Signals.{handle_all}
use operating_system_related.Shell.Processes.{sfork}
use operating_system_related.Shell.Commands.{
  ShellCommand, pipe_command, redirection_command, change_prompt, get_curr_dir, show_pid,
  change_dir, foreground_command, background_command, jobs_command, kill_command, quit_command,
  external_command, base, in_foreground, create_command,
}
use operating_system_related.Shell.Processes.{print_jobs_list}
use operating_system_related.Shell.Builtins.{
  job_argument, kill_arguments, execute_change_prompt, execute_change_dir, execute_get_curr_dir,
  execute_show_pid, execute_quit, execute_foreground, execute_background, execute_kill,
}

-- The words, each followed by a space.
unfoldable pub joined : List Text → Text
joined [] = []
joined (x ∷ args) = x ++ b' ' ∷ joined args

module _ {S : Type 0} where
  abbrev pub exit : (status : ℕ) → Act S (Unit {0})
  exit status s = exits status s

  abbrev pub report : (name : Text) → Bool → Act S (Unit {0})
  report name true = skip
  report name false = print (syscall_failed name)

  abbrev pub report_fd : (name : Text) → Option ℕ → Act S (Unit {0})
  report_fd name (some fd) = skip
  report_fd name none = print (syscall_failed name)

module _ {S : Type 0} (system : System S) where
  open system use {arrivals, pipe, dup, dup2, close, open_file, get_line}

  -- The program is replaced, unless the call fails.
  abbrev pub replace_by : (path : Text) (argv : List Text) → Option S → Act S (Unit {0})
  replace_by path argv none s = replaced path argv s
  replace_by path argv (some t) s = ended tt (record s { system = t })

  unfoldable pub call_exec : (path : Text) (argv : List Text) → Act S (Unit {0})
  call_exec path argv = do r ← read_system (λ s. system.exec s path argv); replace_by path argv r

  unfoldable pub sdup : (fd : ℕ) → Act S (Option ℕ)
  sdup fd = do r ← call_system (λ s. dup s fd); report_fd (codes "dup2") r; give r

  unfoldable pub sdup2 : (fd : Option ℕ) (fd2 : ℕ) → Act S (Unit {0})
  sdup2 fd fd2 = do r ← call_system (λ s. dup2 s fd fd2); report (codes "dup2") r

  unfoldable pub sclose : (fd : Option ℕ) → Act S (Unit {0})
  sclose fd = do r ← call_system (λ s. close s fd); report (codes "close") r

  -- `close`, whose result is not looked at.
  abbrev pub call_close : (fd : Option ℕ) → Act S (Unit {0})
  call_close fd = do r ← call_system (λ s. close s fd); skip

  -- The program is run by its own name, with an entry of `argv` for each word.
  unfoldable pub exec_internal : (name : Text) (args : List Text) → Act S (Unit {0})
  unfolding call_exec
  exec_internal name args = do
    call_exec name (name ∷ args)
    print (syscall_failed (codes "execvp"))
    exit 1

  -- The program is run by bash if the line has a special character, otherwise by its own name.
  unfoldable pub exec_program : (args : List Text) (special : Bool) → Act S (Unit {0})
  unfolding joined call_exec exec_internal
  exec_program args true = do
    call_exec (codes "/bin/bash") (codes "/bin/bash" ∷ codes "-c" ∷ joined args ∷ [])
    print (syscall_failed (codes "execv"))
    exit 1
  exec_program [] false = fail
  exec_program (x ∷ args) false = do
    fits ← read_system (λ s. system.null_fits s (length (x ∷ args)))
    if fits then exec_internal x args else fail

  unfoldable pub external_child : (args : List Text) (special : Bool) → Forked → Act S (Unit {0})
  unfolding exec_program
  external_child args special child = exec_program args special
  external_child args special fork_failed = skip
  external_child args special (parent pid) = skip

  -- `ExternalCommand`
  unfoldable pub execute_external : Command → (special : Bool) → Act S (Unit {0})
  unfolding external_child sfork exec_program
  execute_external cmd special = do r ← sfork system cmd; external_child cmd.args special r

  module _ (run : ShellCommand → Act S (Unit {0})) where
    -- The child writes into the pipe and runs the first command; the other process reads from it.
    unfoldable pub pipe_process :
        (fds : ℕ × ℕ) (ampersand : Bool) (cmd1 cmd2 : ShellCommand) → Forked → Act S (Unit {0})
    unfolding sdup sdup2 sclose
    pipe_process (r, w) ampersand cmd1 cmd2 child = do
      sdup2 (some w) (if ampersand then 2 else 1)
      call_close (some r)
      sclose (some w)
      run cmd1
      exit 0
    pipe_process (r, w) ampersand cmd1 cmd2 (parent pid) = do
      copy ← sdup 0
      sdup2 (some r) 0
      sclose (some r)
      sclose (some w)
      run cmd2
      sdup2 copy 0
      sclose copy
    pipe_process fds ampersand cmd1 cmd2 fork_failed = fail

    -- A side that is NULL is written to before it is looked at.
    unfoldable pub pipe_sides :
        (fds : ℕ × ℕ) (ampersand : Bool)
        → Option (Option ShellCommand)
        → Option (Option ShellCommand)
        → Act S (Unit {0})
    unfolding sfork pipe_process
    pipe_sides fds ampersand (some (some cmd1)) (some (some cmd2)) = do
      r ← sfork system (base (in_foreground cmd1))
      pipe_process fds ampersand (in_foreground cmd1) (in_foreground cmd2) r
    pipe_sides fds ampersand x y = fail

    unfoldable pub with_pipe :
        Text → (sep : ℕ) (ampersand : Bool) → Option (ℕ × ℕ) → Act S (Unit {0})
    unfolding create_command pipe_sides
    with_pipe line sep ampersand none = print (syscall_failed (codes "pipe"))
    with_pipe line sep ampersand (some fds) =
        pipe_sides fds ampersand (create_command (take sep line))
          (create_command (drop (sep + (if ampersand then 2 else 1)) line))

    -- `PipeCommand`
    unfoldable pub execute_pipe : Command → (sep : ℕ) (ampersand : Bool) → Act S (Unit {0})
    unfolding with_pipe create_command pipe_sides
    execute_pipe cmd sep ampersand = do
      fds ← call_system pipe
      with_pipe cmd.original_cmd sep ampersand fds

    -- The command runs with the file as its output.
    unfoldable pub redirect_to : ShellCommand → Option ℕ → Act S (Unit {0})
    unfolding sdup sdup2 sclose
    redirect_to cmd none = print (syscall_failed (codes "open"))
    redirect_to cmd (some file) = do
      copy ← sdup 1
      sdup2 (some file) 1
      run cmd
      sclose (some file)
      sdup2 copy 1
      sclose copy

    unfoldable pub redirect_side :
        (path : Text) (append : Bool) → Option (Option ShellCommand) → Act S (Unit {0})
    unfolding redirect_to
    redirect_side path append (some (some cmd)) = do
      file ← call_system (λ s. open_file s path append)
      redirect_to (in_foreground cmd) file
    redirect_side path append x = fail

    -- `RedirectionCommand`
    unfoldable pub execute_redirection : Command → (sep : ℕ) (append : Bool) → Act S (Unit {0})
    unfolding trim create_command redirect_side
    execute_redirection cmd sep append =
        redirect_side (trim (drop (sep + (if append then 2 else 1)) cmd.original_cmd)) append
          (create_command (take sep cmd.original_cmd))

  -- `execute`, by the class of the command.
  unfoldable pub execute : (fuel : ℕ) → ShellCommand → Act S (Unit {0})
  unfolding job_argument kill_arguments execute_change_prompt execute_change_dir
      execute_get_curr_dir execute_show_pid execute_quit execute_foreground execute_background
      execute_kill print_jobs_list execute_external execute_pipe execute_redirection
  execute zero cmd = (λ s. no_fuel)
  execute (suc fuel) (pipe_command c sep x) = execute_pipe (execute fuel) c sep x
  execute (suc fuel) (redirection_command c sep x) = execute_redirection (execute fuel) c sep x
  execute (suc fuel) (change_prompt c) = execute_change_prompt c.args
  execute (suc fuel) (get_curr_dir c) = execute_get_curr_dir system
  execute (suc fuel) (show_pid c) = execute_show_pid system
  execute (suc fuel) (change_dir c) = execute_change_dir system c c.args
  execute (suc fuel) (foreground_command c) = execute_foreground system c (job_argument c.args)
  execute (suc fuel) (background_command c) = execute_background system c (job_argument c.args)
  execute (suc fuel) (jobs_command c) = print_jobs_list system
  execute (suc fuel) (kill_command c) = execute_kill system c (kill_arguments c.args)
  execute (suc fuel) (quit_command c) = execute_quit system c.args
  execute (suc fuel) (external_command c x) = execute_external c x

  unfoldable pub execute_created : (fuel : ℕ) → Option (Option ShellCommand) → Act S (Unit {0})
  unfolding execute
  execute_created fuel none = fail
  execute_created fuel (some none) = skip
  execute_created fuel (some (some cmd)) = execute fuel cmd

  -- `executeCommand`
  unfoldable pub execute_command : (fuel : ℕ) → Text → Act S (Unit {0})
  unfolding execute_created execute create_command
  execute_command fuel s = execute_created fuel (create_command s)

  abbrev pub get_prompt : Act S Text
  get_prompt s = ended s.display_prompt s

  abbrev pub get_quit : Act S Bool
  get_quit s = ended s.quit s

  -- One round of the loop of `main`; the handlers run while it reads.
  unfoldable pub smash_round : (fuel : ℕ) → Act S (Unit {0})
  unfolding handle_all execute_command
  smash_round fuel = do
    p ← get_prompt
    print (prompt p)
    signals ← call_system arrivals
    handle_all system signals
    line ← call_system get_line
    execute_command fuel line

  -- The loop of `main`, which exits with 0; `fuel` bounds its rounds, `depth` each command.
  unfoldable pub smash : (fuel depth : ℕ) → Act S (Unit {0})
  unfolding smash_round
  smash zero depth = (λ s. no_fuel)
  smash (suc fuel) depth = do
    q ← get_quit
    let rest = smash_round depth >> smash fuel depth
    if q then exit 0 else rest
