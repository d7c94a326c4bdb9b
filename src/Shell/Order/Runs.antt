-- ===== src/Shell/Order/Runs.antt =====
-- skeleton_smash/Commands.cpp: every line is executed to an end, with the ids of the jobs in order.
use operating_system_related.Prelude.{
  ℕ, zero, suc, ◌+◌, ◌<◌, length, take, drop, arith, Option, none, some, if◌then◌else◌,
}
use operating_system_related.Prelude.Text.{Text}
use operating_system_related.Shell.State.{System, Shell}
use operating_system_related.Shell.Commands.{
  ShellCommand, in_foreground, create_command, pipe_command, redirection_command, change_prompt,
  get_curr_dir, show_pid, change_dir, foreground_command, background_command, jobs_command,
  kill_command, quit_command, external_command,
}
use operating_system_related.Shell.Builtins.{execute_show_pid}
use operating_system_related.Shell.Execute.{execute, execute_created, execute_command}
use operating_system_related.Shell.Nesting.{
  IsMade, IsMadeOf, in_foreground-IsMade, create_command-IsMadeOf, take_lt, drop_lt,
}
use operating_system_related.Shell.Order.{IsOrdered, EndsOrdered, KeepsOrder}
use operating_system_related.Shell.Order.Jobs.{print_jobs_list-KeepsOrder}
use operating_system_related.Shell.Order.Builtins.{
  execute_change_prompt-KeepsOrder, execute_change_dir-KeepsOrder, execute_get_curr_dir-KeepsOrder,
  execute_quit-KeepsOrder, execute_foreground-KeepsOrder, execute_background-KeepsOrder,
  execute_kill-KeepsOrder,
}
use operating_system_related.Shell.Order.Pipes.{
  RunKeepsOrder, execute_external-KeepsOrder, execute_pipe-KeepsOrder,
  execute_redirection-KeepsOrder,
}

module _ {S : Type 0} (system : System S) where
  -- Every command that is made of a line keeps the order, with fuel for the bytes of the line.
  abbrev ExecuteKeeps : (fuel : ℕ) → Type 0
  ExecuteKeeps fuel =
      (line : Text) (c : ShellCommand)
      → IsMade line c
      → length line < fuel
      → KeepsOrder (execute system fuel c)

  created-RunKeepsOrder :
      (fuel : ℕ)
      → ExecuteKeeps fuel
      → (s : Text) → length s < fuel
      → (c : Option (Option ShellCommand)) → IsMadeOf s c
      → RunKeepsOrder system (execute system fuel) c
  created-RunKeepsOrder fuel ih s lt none h = tt
  created-RunKeepsOrder fuel ih s lt (some none) h = tt
  created-RunKeepsOrder fuel ih s lt (some (some c)) h =
      ih s (in_foreground c) (in_foreground-IsMade s c h) lt

  side-RunKeepsOrder :
      (fuel : ℕ)
      → ExecuteKeeps fuel
      → (s : Text) → length s < fuel
      → RunKeepsOrder system (execute system fuel) (create_command s)
  side-RunKeepsOrder fuel ih s lt =
      created-RunKeepsOrder fuel ih s lt (create_command s) (create_command-IsMadeOf s)

  execute-KeepsOrder : (fuel : ℕ) → ExecuteKeeps fuel
  unfolding execute execute_show_pid
  execute-KeepsOrder zero line c h lt = absurd (omega (arith, lt))
  execute-KeepsOrder (suc fuel) line (pipe_command c sep x) (e, place) lt =
      let ih = execute-KeepsOrder fuel in
      execute_pipe-KeepsOrder system (execute system fuel) c sep x
        (side-RunKeepsOrder fuel ih (take sep c.original_cmd)
          (take_lt line c.original_cmd e sep fuel place lt))
        (side-RunKeepsOrder fuel ih (drop (sep + (if x then 2 else 1)) c.original_cmd)
          (drop_lt line c.original_cmd e sep x fuel place lt))
  execute-KeepsOrder (suc fuel) line (redirection_command c sep x) (e, place) lt =
      execute_redirection-KeepsOrder system (execute system fuel) c sep x (
        side-RunKeepsOrder fuel (execute-KeepsOrder fuel) (take sep c.original_cmd)
          (take_lt line c.original_cmd e sep fuel place lt))
  execute-KeepsOrder (suc fuel) line (change_prompt c) h lt =
      execute_change_prompt-KeepsOrder c.args
  execute-KeepsOrder (suc fuel) line (get_curr_dir c) h lt = execute_get_curr_dir-KeepsOrder system
  execute-KeepsOrder (suc fuel) line (show_pid c) h lt = λ s o. o
  execute-KeepsOrder (suc fuel) line (change_dir c) h lt =
      execute_change_dir-KeepsOrder system c c.args
  execute-KeepsOrder (suc fuel) line (foreground_command c) h lt =
      execute_foreground-KeepsOrder system c _
  execute-KeepsOrder (suc fuel) line (background_command c) h lt =
      execute_background-KeepsOrder system c _
  execute-KeepsOrder (suc fuel) line (jobs_command c) h lt = print_jobs_list-KeepsOrder system
  execute-KeepsOrder (suc fuel) line (kill_command c) h lt = execute_kill-KeepsOrder system c _
  execute-KeepsOrder (suc fuel) line (quit_command c) h lt = execute_quit-KeepsOrder system c.args
  execute-KeepsOrder (suc fuel) line (external_command c x) h lt =
      execute_external-KeepsOrder system c x

  execute_created-KeepsOrder :
      (fuel : ℕ) (s : Text) (c : Option (Option ShellCommand))
      → length s < fuel
      → IsMadeOf s c
      → KeepsOrder (execute_created system fuel c)
  unfolding execute_created
  execute_created-KeepsOrder fuel s none lt h = λ s o. tt
  execute_created-KeepsOrder fuel s (some none) lt h = λ s o. o
  execute_created-KeepsOrder fuel s (some (some c)) lt h = execute-KeepsOrder fuel s c h lt

  -- A line is executed by a shell in whose list the ids of the jobs are distinct, in ascending order,
  -- and from 1 on, with more fuel than the line has bytes. Whatever the line is and whatever the system
  -- answers, this does not run out of fuel: the command ends, or its process exits or is replaced by a
  -- program, with the ids of the jobs again distinct, in order, and from 1 on, unless its behaviour is
  -- undefined.
  pub execute_command-EndsOrdered :
      (fuel : ℕ) (line : Text) (s : Shell S)
      → length line < fuel
      → IsOrdered s.jobs_list.jobs
      → EndsOrdered (execute_command system fuel line s)
  unfolding execute_command
  execute_command-EndsOrdered fuel line s lt o =
      execute_created-KeepsOrder fuel line (create_command line) lt (create_command-IsMadeOf line) s
        o
