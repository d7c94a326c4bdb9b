-- ===== src/Shell/Order/Pipes.antt =====
-- skeleton_smash/Commands.cpp: external commands, pipes and redirections keep the order of the ids.
use operating_system_related.Prelude.{
  ℕ, ◌+◌, take, drop, length, Bool, true, false, Option, none, some, List, [], ◌∷◌, if◌then◌else◌,
}
use operating_system_related.Prelude.Text.{Text, codes}
use operating_system_related.Shell.{trim}
use operating_system_related.Shell.State.{
  Command, syscall_failed, Forked, fork_failed, child, parent, System, Act, ◌>>=◌, ◌>>◌, fail, give,
  print, call_system, read_system,
}
use operating_system_related.Shell.Processes.{sfork}
use operating_system_related.Shell.Commands.{ShellCommand, base, in_foreground, create_command}
use operating_system_related.Shell.Execute.{
  exit, report, report_fd, replace_by, call_exec, sdup, sdup2, sclose, call_close, exec_internal,
  exec_program, external_child, execute_external, pipe_process, pipe_sides, with_pipe, execute_pipe,
  redirect_to, redirect_side, execute_redirection,
}
use operating_system_related.Shell.Order.{
  KeepsOrder, bind-KeepsOrder, seq-KeepsOrder, if-KeepsOrder,
}
use operating_system_related.Shell.Order.Jobs.{sfork-KeepsOrder}

module _ {S : Type 0} where
  pub report-KeepsOrder : (name : Text) (b : Bool) → KeepsOrder (report {S = S} name b)
  report-KeepsOrder name true s o = o
  report-KeepsOrder name false s o = o

  pub report_fd-KeepsOrder : (name : Text) (fd : Option ℕ) → KeepsOrder (report_fd {S = S} name fd)
  report_fd-KeepsOrder name none s o = o
  report_fd-KeepsOrder name (some fd) s o = o

module _ {S : Type 0} (system : System S) where
  replace_by-KeepsOrder :
      (path : Text) (argv : List Text) (t : Option S) → KeepsOrder (replace_by system path argv t)
  replace_by-KeepsOrder path argv none s o = o
  replace_by-KeepsOrder path argv (some t) s o = o

  call_exec-KeepsOrder : (path : Text) (argv : List Text) → KeepsOrder (call_exec system path argv)
  unfolding call_exec
  call_exec-KeepsOrder path argv =
      bind-KeepsOrder (read_system (λ s. system.exec s path argv)) (replace_by system path argv)
        (λ s o. o) (replace_by-KeepsOrder path argv)

  -- A call whose failure is printed.
  reported-KeepsOrder :
      (name : Text) (f : S → Bool × S) → KeepsOrder (call_system f >>= report name)
  reported-KeepsOrder name f =
      bind-KeepsOrder (call_system f) (report name) (λ s o. o) (report-KeepsOrder name)

  sdup-KeepsOrder : (fd : ℕ) → KeepsOrder (sdup system fd)
  unfolding sdup
  sdup-KeepsOrder fd =
      bind-KeepsOrder (call_system (λ s. system.dup s fd))
        (λ r. report_fd (codes "dup2") r >> give r) (λ s o. o)
        (λ r.
          seq-KeepsOrder (report_fd (codes "dup2") r) (give r)
            (report_fd-KeepsOrder (codes "dup2") r) (λ s o. o))

  sdup2-KeepsOrder : (fd : Option ℕ) (fd2 : ℕ) → KeepsOrder (sdup2 system fd fd2)
  unfolding sdup2
  sdup2-KeepsOrder fd fd2 = reported-KeepsOrder (codes "dup2") (λ s. system.dup2 s fd fd2)

  sclose-KeepsOrder : (fd : Option ℕ) → KeepsOrder (sclose system fd)
  unfolding sclose
  sclose-KeepsOrder fd = reported-KeepsOrder (codes "close") (λ s. system.close s fd)

  exec_then_exit-KeepsOrder :
      (path name : Text) (argv : List Text)
      → KeepsOrder (call_exec system path argv >> (print (syscall_failed name) >> exit 1))
  exec_then_exit-KeepsOrder path name argv =
      seq-KeepsOrder (call_exec system path argv) (print (syscall_failed name) >> exit 1)
        (call_exec-KeepsOrder path argv) (λ s o. o)

  exec_program-KeepsOrder :
      (args : List Text) (special : Bool) → KeepsOrder (exec_program system args special)
  unfolding exec_program exec_internal
  exec_program-KeepsOrder args true = exec_then_exit-KeepsOrder _ _ _
  exec_program-KeepsOrder [] false = λ s o. tt
  exec_program-KeepsOrder (x ∷ args) false = λ s o.
      if-KeepsOrder (system.null_fits s.system (length (x ∷ args))) (exec_internal system x args)
        fail (exec_then_exit-KeepsOrder _ _ _) (λ s o. tt) s o

  external_child-KeepsOrder :
      (args : List Text) (special : Bool) (r : Forked)
      → KeepsOrder (external_child system args special r)
  unfolding external_child
  external_child-KeepsOrder args special child = exec_program-KeepsOrder args special
  external_child-KeepsOrder args special fork_failed = λ s o. o
  external_child-KeepsOrder args special (parent pid) = λ s o. o

  pub execute_external-KeepsOrder :
      (cmd : Command) (special : Bool) → KeepsOrder (execute_external system cmd special)
  unfolding execute_external
  execute_external-KeepsOrder cmd special =
      bind-KeepsOrder (sfork system cmd) (external_child system cmd.args special)
        (sfork-KeepsOrder system cmd) (external_child-KeepsOrder cmd.args special)

  module _ (run : ShellCommand → Act S (Unit {0})) where
    -- The writer: its output goes into the pipe.
    pipe_child-KeepsOrder :
        (r w : ℕ) (x : Bool) (cmd1 cmd2 : ShellCommand)
        → KeepsOrder (run cmd1)
        → KeepsOrder (pipe_process system run (r, w) x cmd1 cmd2 child)
    unfolding pipe_process
    pipe_child-KeepsOrder r w x cmd1 cmd2 h =
        let f4 : Act S (Unit {0}) = run cmd1 >> exit 0 in
        let f3 : Act S (Unit {0}) = sclose system (some w) >> f4 in
        let f2 : Act S (Unit {0}) = call_close system (some r) >> f3 in
        seq-KeepsOrder (sdup2 system (some w) (if x then 2 else 1)) f2 (sdup2-KeepsOrder _ _) (
          seq-KeepsOrder (call_close system (some r)) f3 (λ s o. o)
            (seq-KeepsOrder (sclose system (some w)) f4 (sclose-KeepsOrder (some w))
              (seq-KeepsOrder (run cmd1) (exit 0) h (λ s o. o))))

    -- The input of the shell is given back after a command.
    restore-KeepsOrder :
        (cmd : ShellCommand) (a b : Act S (Unit {0}))
        → KeepsOrder (run cmd)
        → KeepsOrder a
        → KeepsOrder b
        → KeepsOrder (run cmd >> (a >> b))
    restore-KeepsOrder cmd a b h x y = seq-KeepsOrder (run cmd) (a >> b) h (seq-KeepsOrder a b x y)

    pipe_reader-KeepsOrder :
        (r w : ℕ) (x : Bool) (cmd1 cmd2 : ShellCommand) (pid : ℕ)
        → KeepsOrder (run cmd2)
        → KeepsOrder (pipe_process system run (r, w) x cmd1 cmd2 (parent pid))
    unfolding pipe_process
    pipe_reader-KeepsOrder r w x cmd1 cmd2 pid h =
        let f5 : Option ℕ → Act S (Unit {0}) =
          λ copy. run cmd2 >> (sdup2 system copy 0 >> sclose system copy) in
        let f4 : Option ℕ → Act S (Unit {0}) = λ copy. sclose system (some w) >> f5 copy in
        let f3 : Option ℕ → Act S (Unit {0}) = λ copy. sclose system (some r) >> f4 copy in
        let f2 : Option ℕ → Act S (Unit {0}) = λ copy. sdup2 system (some r) 0 >> f3 copy in
        bind-KeepsOrder (sdup system 0) f2 (sdup-KeepsOrder 0) (λ copy.
          seq-KeepsOrder (sdup2 system (some r) 0) (f3 copy) (sdup2-KeepsOrder (some r) 0) (
            seq-KeepsOrder (sclose system (some r)) (f4 copy) (sclose-KeepsOrder (some r)) (
              seq-KeepsOrder (sclose system (some w)) (f5 copy) (sclose-KeepsOrder (some w)) (
                restore-KeepsOrder cmd2 (sdup2 system copy 0) (sclose system copy) h
                  (sdup2-KeepsOrder copy 0) (sclose-KeepsOrder copy)))))

    pipe_process-KeepsOrder :
        (fds : ℕ × ℕ) (x : Bool) (cmd1 cmd2 : ShellCommand) (k : Forked)
        → KeepsOrder (run cmd1)
        → KeepsOrder (run cmd2)
        → KeepsOrder (pipe_process system run fds x cmd1 cmd2 k)
    unfolding pipe_process
    pipe_process-KeepsOrder (r, w) x cmd1 cmd2 child h1 h2 =
        pipe_child-KeepsOrder r w x cmd1 cmd2 h1
    pipe_process-KeepsOrder (r, w) x cmd1 cmd2 (parent pid) h1 h2 =
        pipe_reader-KeepsOrder r w x cmd1 cmd2 pid h2
    pipe_process-KeepsOrder (r, w) x cmd1 cmd2 fork_failed h1 h2 = λ s o. tt

    -- The command, if there is one, keeps the order where it runs in the foreground.
    abbrev pub RunKeepsOrder : Option (Option ShellCommand) → Type 0
    RunKeepsOrder none = Unit
    RunKeepsOrder (some none) = Unit
    RunKeepsOrder (some (some c)) = KeepsOrder (run (in_foreground c))

    pipe_sides-KeepsOrder :
        (fds : ℕ × ℕ) (x : Bool) (c1 c2 : Option (Option ShellCommand))
        → RunKeepsOrder c1
        → RunKeepsOrder c2
        → KeepsOrder (pipe_sides system run fds x c1 c2)
    unfolding pipe_sides
    pipe_sides-KeepsOrder fds x (some (some c1)) (some (some c2)) h1 h2 =
        bind-KeepsOrder (sfork system (base (in_foreground c1)))
          (pipe_process system run fds x (in_foreground c1) (in_foreground c2))
          (sfork-KeepsOrder system (base (in_foreground c1)))
          (λ k. pipe_process-KeepsOrder fds x (in_foreground c1) (in_foreground c2) k h1 h2)
    pipe_sides-KeepsOrder fds x (some (some c1)) (some none) h1 h2 = λ s o. tt
    pipe_sides-KeepsOrder fds x (some (some c1)) none h1 h2 = λ s o. tt
    pipe_sides-KeepsOrder fds x (some none) c2 h1 h2 = λ s o. tt
    pipe_sides-KeepsOrder fds x none c2 h1 h2 = λ s o. tt

    with_pipe-KeepsOrder :
        (line : Text) (sep : ℕ) (x : Bool) (fds : Option (ℕ × ℕ))
        → RunKeepsOrder (create_command (take sep line))
        → RunKeepsOrder (create_command (drop (sep + (if x then 2 else 1)) line))
        → KeepsOrder (with_pipe system run line sep x fds)
    unfolding with_pipe
    with_pipe-KeepsOrder line sep x none h1 h2 = λ s o. o
    with_pipe-KeepsOrder line sep x (some fds) h1 h2 =
        pipe_sides-KeepsOrder fds x (create_command (take sep line))
          (create_command (drop (sep + (if x then 2 else 1)) line)) h1 h2

    pub execute_pipe-KeepsOrder :
        (cmd : Command) (sep : ℕ) (x : Bool)
        → RunKeepsOrder (create_command (take sep cmd.original_cmd))
        → RunKeepsOrder (create_command (drop (sep + (if x then 2 else 1)) cmd.original_cmd))
        → KeepsOrder (execute_pipe system run cmd sep x)
    unfolding execute_pipe
    execute_pipe-KeepsOrder cmd sep x h1 h2 =
        bind-KeepsOrder (call_system system.pipe) (with_pipe system run cmd.original_cmd sep x)
          (λ s o. o) (λ fds. with_pipe-KeepsOrder cmd.original_cmd sep x fds h1 h2)

    redirect_to-KeepsOrder :
        (cmd : ShellCommand) (file : Option ℕ)
        → KeepsOrder (run cmd)
        → KeepsOrder (redirect_to system run cmd file)
    unfolding redirect_to
    redirect_to-KeepsOrder cmd none h = λ s o. o
    redirect_to-KeepsOrder cmd (some file) h =
        let f3 : Option ℕ → Act S (Unit {0}) = λ copy. sdup2 system copy 1 >> sclose system copy in
        let f2 : Option ℕ → Act S (Unit {0}) =
          λ copy. run cmd >> (sclose system (some file) >> f3 copy) in
        bind-KeepsOrder (sdup system 1) (λ copy. sdup2 system (some file) 1 >> f2 copy)
          (sdup-KeepsOrder 1)
          (λ copy.
            seq-KeepsOrder (sdup2 system (some file) 1) (f2 copy) (sdup2-KeepsOrder (some file) 1) (
              restore-KeepsOrder cmd (sclose system (some file)) (f3 copy) h
                (sclose-KeepsOrder (some file))
                (seq-KeepsOrder (sdup2 system copy 1) (sclose system copy) (sdup2-KeepsOrder copy 1)
                  (sclose-KeepsOrder copy))))

    redirect_side-KeepsOrder :
        (path : Text) (append : Bool) (c : Option (Option ShellCommand))
        → RunKeepsOrder c
        → KeepsOrder (redirect_side system run path append c)
    unfolding redirect_side
    redirect_side-KeepsOrder path append (some (some c)) h =
        bind-KeepsOrder (call_system (λ s. system.open_file s path append))
          (redirect_to system run (in_foreground c)) (λ s o. o)
          (λ file. redirect_to-KeepsOrder (in_foreground c) file h)
    redirect_side-KeepsOrder path append (some none) h = λ s o. tt
    redirect_side-KeepsOrder path append none h = λ s o. tt

    pub execute_redirection-KeepsOrder :
        (cmd : Command) (sep : ℕ) (append : Bool)
        → RunKeepsOrder (create_command (take sep cmd.original_cmd))
        → KeepsOrder (execute_redirection system run cmd sep append)
    unfolding execute_redirection
    execute_redirection-KeepsOrder cmd sep append h =
        redirect_side-KeepsOrder (trim (drop (sep + (if append then 2 else 1)) cmd.original_cmd))
          append (create_command (take sep cmd.original_cmd)) h
