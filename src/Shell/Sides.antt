-- ===== src/Shell/Sides.antt =====
-- skeleton_smash/Commands.cpp: a line with a pipe is run as the commands of its two sides.
use operating_system_related.Prelude.{
  ℕ, suc, ◌+◌, ◌≡◌, refl, ap, ◌∙◌, Bool, true, false, Option, some, inl, inr, [], ◌∷◌, ◌++◌,
  if◌then◌else◌, ◌==◌, length, take, drop, drop-append, arith, Bool-cases,
}
use mathlib.Core.Path.{subst}
use operating_system_related.Prelude.Text.{Text, codes}
use operating_system_related.Shell.Special.{Without, separator_before, is_special_command-pipe}
use operating_system_related.Shell.State.{
  Command, Forked, child, System, Shell, Act, ended, then_act, ◌>>◌,
}
use operating_system_related.Shell.Processes.{sfork, after_fork}
use operating_system_related.Shell.Commands.{
  ShellCommand, base, in_foreground, pipe_command, clear_background, make_command, made,
  create_from, create_command,
}
use operating_system_related.Shell.Execute.{
  exit, report, call_close, sdup2, sclose, pipe_process, pipe_sides, with_pipe, execute_pipe,
  execute, execute_created, execute_command,
}
use operating_system_related.Shell.Nesting.{HasLine, make_command-HasLine}

-- What stands behind the pipe: whether a '&' belongs to the pipe, and the other side.
abbrev pub has_ampersand : Text → Bool
has_ampersand [] = false
has_ampersand (x ∷ back) = x == b'&'

abbrev pub other_side : Text → Text
other_side [] = []
other_side (x ∷ back) = if x == b'&' then back else x ∷ back

line_of : (s : Text) (c : Command) → make_command s ≡ some c → c.original_cmd ≡ s
line_of s c e = subst (HasLine s) e (make_command-HasLine s)

take-front : (front rest : Text) → take (length front) (front ++ rest) ≡ front
take-front [] rest = refl
take-front (x ∷ front) rest = ap (λ xs. x ∷ xs) (take-front front rest)

drop-front : (n : ℕ) (front rest : Text) → drop (length front + n) (front ++ rest) ≡ drop n rest
drop-front n front rest =
    drop-append (length front + n) front rest (omega arith) ∙ ap (λ k. drop k rest) (omega arith)

drop-other_side :
    (front back : Text)
    → drop (length front + (if has_ampersand back then 2 else 1)) (front ++ b'|' ∷ back)
      ≡ other_side back
drop-other_side front [] = drop-front 1 front (b'|' ∷ [])
drop-other_side front (x ∷ back) = elim (Bool-cases (x == b'&')) [
  | inl t ↦ rw t (drop-front 2 front (b'|' ∷ x ∷ back))
  | inr f ↦ rw f (drop-front 1 front (b'|' ∷ x ∷ back))
]

create_from-pipe :
    (s back : Text) (i : ℕ) (c : Command)
    → make_command s ≡ some c
    → create_from s (some (separator_before b'&' (codes "|") (codes "|&") back, i))
      ≡ some (some (pipe_command (clear_background c) i (has_ampersand back)))
unfolding create_from
create_from-pipe s [] i c e = ap (made (λ c. pipe_command (clear_background c) i false)) e
create_from-pipe s (x ∷ back) i c e = elim (Bool-cases (x == b'&')) [
  | inl t ↦ rw t (ap (made (λ c. pipe_command (clear_background c) i true)) e)
  | inr f ↦ rw f (ap (made (λ c. pipe_command (clear_background c) i false)) e)
]

create_command-pipe :
    (front back : Text) (c : Command)
    → Without b'|' front
    → make_command (front ++ b'|' ∷ back) ≡ some c
    → create_command (front ++ b'|' ∷ back)
      ≡ some (some (pipe_command (clear_background c) (length front) (has_ampersand back)))
unfolding create_command
create_command-pipe front back c h e =
    ap (create_from (front ++ b'|' ∷ back)) (is_special_command-pipe front back h)
    ∙ create_from-pipe (front ++ b'|' ∷ back) back (length front) c e

module _ {S : Type 0} (system : System S) where
  execute_pipe-sides :
      (run : ShellCommand → Act S (Unit {0})) (front back : Text) (c : Command) (s : Shell S)
      (fds : ℕ × ℕ) (t : S)
      → c.original_cmd ≡ front ++ b'|' ∷ back
      → system.pipe s.system ≡ (some fds, t)
      → execute_pipe system run c (length front) (has_ampersand back) s
        ≡ pipe_sides system run fds
            (has_ampersand back)
            (create_command front)
            (create_command (other_side back))
            (record s { system = t })
  unfolding execute_pipe with_pipe
  execute_pipe-sides run front back c s fds t e p =
      ap
        (λ (r : Option (ℕ × ℕ) × S).
          with_pipe system run c.original_cmd (length front) (has_ampersand back) r.0
            (record s { system = r.1 }))
        p
      ∙ (ap
            (λ line.
              pipe_sides system run fds (has_ampersand back)
                (create_command (take (length front) line))
                (create_command (drop (length front + (if has_ampersand back then 2 else 1)) line))
                (record s { system = t }))
            e
          ∙ (ap
                (λ side.
                  pipe_sides system run fds (has_ampersand back) (create_command side)
                    (create_command (
                      drop (length front + (if has_ampersand back then 2 else 1))
                        (front ++ b'|' ∷ back)))
                    (record s { system = t }))
                (take-front front (b'|' ∷ back))
              ∙ ap
                  (λ side.
                    pipe_sides system run fds (has_ampersand back) (create_command front)
                      (create_command side) (record s { system = t }))
                  (drop-other_side front back)))

  pipe_sides-run :
      (fuel : ℕ) (front back : Text) (c : Command) (s : Shell S) (fds : ℕ × ℕ) (t : S)
      → Without b'|' front
      → make_command (front ++ b'|' ∷ back) ≡ some c
      → system.pipe s.system ≡ (some fds, t)
      → execute_command system (suc fuel) (front ++ b'|' ∷ back) s
        ≡ pipe_sides system
            (execute system fuel)
            fds
            (has_ampersand back)
            (create_command front)
            (create_command (other_side back))
            (record s { system = t })
  unfolding execute_command execute_created execute
  pipe_sides-run fuel front back c s fds t h e p =
      ap (λ k. execute_created system (suc fuel) k s) (create_command-pipe front back c h e)
      ∙ execute_pipe-sides (execute system fuel) front back (clear_background c) s fds t
          (line_of (front ++ b'|' ∷ back) c e) p

  -- The calls by which the left process of a pipe with the ends `fds` takes the end for writing as its
  -- descriptor `target`, from the system `before` to `after`.
  pub record TakesEnd (fds : ℕ × ℕ) (target : ℕ) (before after : S) : Type 0 where
    pub linked : S
    pub shut : S
    pub links : system.dup2 before (some fds.1) target ≡ (true, linked)
    pub shuts_reading : system.close linked (some fds.0) ≡ (true, shut)
    pub shuts_writing : system.close shut (some fds.1) ≡ (true, after)

  child-run :
      (run : ShellCommand → Act S (Unit {0})) (cmd1 cmd2 : ShellCommand) (ampersand : Bool)
      (fds : ℕ × ℕ) (s : Shell S) (u : S)
      → TakesEnd fds (if ampersand then 2 else 1) s.system u
      → pipe_process system run fds ampersand cmd1 cmd2 child s
        ≡ then_act (run cmd1 (record s { system = u })) (λ _. exit 0)
  unfolding pipe_process sdup2 sclose
  child-run run cmd1 cmd2 ampersand fds s u h =
      let left : Act S (Unit {0}) = run cmd1 >> exit 0 in
      ap
        (λ (r : Bool × S).
          then_act (report (codes "dup2") r.0 (record s { system = r.1 }))
            (λ _. call_close system (some fds.0) >> (sclose system (some fds.1) >> left)))
        h.links
      ∙ (ap
            (λ (r : Bool × S).
              then_act (ended tt (record s { system = r.1 }))
                (λ _. sclose system (some fds.1) >> left))
            h.shuts_reading
          ∙ ap
              (λ (r : Bool × S).
                then_act (report (codes "close") r.0 (record s { system = r.1 })) (λ _. left))
              h.shuts_writing)

  -- A line has a pipe, with no other before it; the constructors do not leave their arrays for the
  -- line, nor for what stands before the pipe and what stands after it, or after the '&' that belongs to
  -- it, each of which is a command; and the calls of the system succeed. Then executing the line runs,
  -- in the child, the command before the pipe, after the descriptor 2 if there is the '&', and the
  -- descriptor 1 if there is none, has become the end for writing and the ends have been closed; and
  -- with the end of the command the child exits with 0.
  pub execute_command-left_side :
      (fuel : ℕ) (front back : Text) (c : Command) (cmd1 cmd2 : ShellCommand) (s : Shell S)
      (fds : ℕ × ℕ) (t u v : S)
      → Without b'|' front
      → make_command (front ++ b'|' ∷ back) ≡ some c
      → create_command front ≡ some (some cmd1)
      → create_command (other_side back) ≡ some (some cmd2)
      → system.pipe s.system ≡ (some fds, t)
      → system.fork t ≡ (child, u)
      → TakesEnd fds (if has_ampersand back then 2 else 1) u v
      → execute_command system (suc fuel) (front ++ b'|' ∷ back) s
        ≡ then_act
            (execute system fuel (in_foreground cmd1) (record s { system = v }))
            (λ _. exit 0)
  unfolding pipe_sides sfork after_fork
  execute_command-left_side fuel front back c cmd1 cmd2 s fds t u v h e e1 e2 p f ends =
      pipe_sides-run fuel front back c s fds t h e p
      ∙ (ap
            (λ k.
              pipe_sides system (execute system fuel) fds (has_ampersand back) k
                (create_command (other_side back)) (record s { system = t }))
            e1
          ∙ (ap
                (λ k.
                  pipe_sides system (execute system fuel) fds (has_ampersand back)
                    (some (some cmd1)) k (record s { system = t }))
                e2
              ∙ (ap
                    (λ (r : Forked × S).
                      then_act
                        (after_fork system (base (in_foreground cmd1)) r.0
                          (record s { system = r.1 }))
                        (pipe_process system (execute system fuel) fds (has_ampersand back)
                          (in_foreground cmd1) (in_foreground cmd2)))
                    f
                  ∙ child-run (execute system fuel) (in_foreground cmd1) (in_foreground cmd2)
                      (has_ampersand back) fds (record s { system = u }) v ends)))
