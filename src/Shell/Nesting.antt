-- ===== src/Shell/Nesting.antt =====
-- skeleton_smash/Commands.cpp: the sides of a pipe or a redirection are shorter than its line.
use operating_system_related.Prelude.{
  ℕ, suc, ◌+◌, ◌<◌, ◌≡◌, refl, ap, Bool, true, false, inl, inr, Option, none, some, List, [], ◌∷◌,
  if◌then◌else◌, ◌==◌, length, take, drop, length-take, length-drop, arith, Bool-cases,
}
use operating_system_related.Prelude.Text.{Text, codes, same_text}
use operating_system_related.Shell.{
  trim, is_background_command, remove_background_sign, step_find, find_first, after_redirection,
  after_pipe, is_special_command,
}
use operating_system_related.Shell.State.{Command}
use operating_system_related.Shell.Commands.{
  ShellCommand, pipe_command, redirection_command, change_prompt, get_curr_dir, show_pid,
  change_dir, foreground_command, background_command, jobs_command, kill_command, quit_command,
  external_command, base, in_foreground, clear_background, make_command, with_background,
  without_sign, with_args, parse_command_line, command_max_length, made, class_of, create_simple,
  create_from, create_command, first_word,
}

-- The place where a pipe or a redirection is split.
abbrev pub HasPlace : Text → ShellCommand → Type 0
HasPlace s (pipe_command c sep x) = sep < length s
HasPlace s (redirection_command c sep x) = sep < length s
HasPlace s (change_prompt c) = Unit
HasPlace s (get_curr_dir c) = Unit
HasPlace s (show_pid c) = Unit
HasPlace s (change_dir c) = Unit
HasPlace s (foreground_command c) = Unit
HasPlace s (background_command c) = Unit
HasPlace s (jobs_command c) = Unit
HasPlace s (kill_command c) = Unit
HasPlace s (quit_command c) = Unit
HasPlace s (external_command c x) = Unit

-- The command was made of this line.
abbrev pub IsMade : Text → ShellCommand → Type 0
IsMade s c = ((base c).original_cmd ≡ s) × HasPlace s c

-- What `CreateCommand` gives, if it gives a command, was made of this line.
abbrev pub IsMadeOf : Text → Option (Option ShellCommand) → Type 0
IsMadeOf s none = Unit
IsMadeOf s (some none) = Unit
IsMadeOf s (some (some c)) = IsMade s c

abbrev pub HasLine : Text → Option Command → Type 0
HasLine s none = Unit
HasLine s (some c) = c.original_cmd ≡ s

abbrev IsBefore : ℕ → Option ℕ → Type 0
IsBefore n none = Unit
IsBefore n (some i) = i < n

step_find-IsBefore : (n : ℕ) (o : Option ℕ) → IsBefore n o → IsBefore (suc n) (step_find o)
unfolding step_find
step_find-IsBefore n none h = tt
step_find-IsBefore n (some i) h = omega (arith, h)

find_first-IsBefore : (c : ℕ) (s : Text) → IsBefore (length s) (find_first c s)
unfolding find_first
find_first-IsBefore c [] = tt
find_first-IsBefore c (x ∷ s) = elim (Bool-cases (x == c)) [
  | inl t ↦ rw t (omega arith)
  | inr f ↦ rw f (step_find-IsBefore (length s) (find_first c s) (find_first-IsBefore c s))
]

abbrev IsPlace : Text → Option (Text × ℕ) → Type 0
IsPlace s none = Unit
IsPlace s (some (sep, i)) = i < length s

after_redirection-IsPlace :
    (s : Text) (o : Option ℕ) → IsBefore (length s) o → IsPlace s (after_redirection s o)
unfolding after_redirection
after_redirection-IsPlace s none h = tt
after_redirection-IsPlace s (some i) h = h

after_pipe-IsPlace : (s : Text) (o : Option ℕ) → IsBefore (length s) o → IsPlace s (after_pipe s o)
unfolding after_pipe
after_pipe-IsPlace s none h =
    after_redirection-IsPlace s (find_first b'>' s) (find_first-IsBefore b'>' s)
after_pipe-IsPlace s (some i) h = h

with_args-HasLine : (s : Text) (x : Bool) (o : Option (List Text)) → HasLine s (with_args s x o)
with_args-HasLine s x none = tt
with_args-HasLine s x (some args) = refl

without_sign-HasLine : (s : Text) (x : Bool) (o : Option Text) → HasLine s (without_sign s x o)
unfolding without_sign
without_sign-HasLine s x none = tt
without_sign-HasLine s x (some cmd) = with_args-HasLine s x (parse_command_line cmd)

with_background-HasLine : (s : Text) (o : Option Bool) → HasLine s (with_background s o)
unfolding with_background
with_background-HasLine s none = tt
with_background-HasLine s (some x) =
    without_sign-HasLine s x (remove_background_sign (take command_max_length s))

pub make_command-HasLine : (s : Text) → HasLine s (make_command s)
unfolding make_command
make_command-HasLine s = with_background-HasLine s (is_background_command s)

made-IsMadeOf :
    (s : Text) (f : Command → ShellCommand) (o : Option Command)
    → ((c : Command) → c.original_cmd ≡ s → IsMade s (f c))
    → HasLine s o
    → IsMadeOf s (made f o)
made-IsMadeOf s f none h l = tt
made-IsMadeOf s f (some c) h l = h c l

if-IsMade :
    (s : Text) (b : Bool) (x y : ShellCommand)
    → IsMade s x
    → IsMade s y
    → IsMade s (if b then x else y)
if-IsMade s true x y h k = h
if-IsMade s false x y h k = k

if-IsMadeOf :
    (s : Text) (b : Bool) (x y : Option (Option ShellCommand))
    → IsMadeOf s x
    → IsMadeOf s y
    → IsMadeOf s (if b then x else y)
if-IsMadeOf s true x y h k = h
if-IsMadeOf s false x y h k = k

class_of-IsMade : (word s : Text) (c : Command) → c.original_cmd ≡ s → IsMade s (class_of word s c)
unfolding class_of
class_of-IsMade word s c l =
    if-IsMade s (same_text word (codes "chprompt")) (change_prompt (clear_background c)) _ (l, tt)
      (if-IsMade s (same_text word (codes "pwd")) (get_curr_dir (clear_background c)) _ (l, tt)
        (if-IsMade s (same_text word (codes "showpid")) (show_pid (clear_background c)) _ (l, tt)
          (if-IsMade s (same_text word (codes "cd")) (change_dir (clear_background c)) _ (l, tt)
            (if-IsMade s (same_text word (codes "fg")) (foreground_command (clear_background c)) _
              (l, tt)
              (if-IsMade s (same_text word (codes "bg")) (background_command (clear_background c)) _
                (l, tt)
                (if-IsMade s (same_text word (codes "jobs")) (jobs_command (clear_background c)) _
                  (l, tt)
                  (if-IsMade s (same_text word (codes "kill")) (kill_command (clear_background c)) _
                    (l, tt)
                    (if-IsMade s (same_text word (codes "quit")) (quit_command (clear_background c))
                      _ (l, tt) (l, tt)))))))))

create_simple-IsMadeOf : (cmd s : Text) → IsMadeOf s (create_simple cmd s)
unfolding create_simple
create_simple-IsMadeOf [] s = tt
create_simple-IsMadeOf (c ∷ cmd) s =
    made-IsMadeOf s (class_of (first_word (c ∷ cmd)) s) (make_command s)
      (class_of-IsMade (first_word (c ∷ cmd)) s) (make_command-HasLine s)

create_from-IsMadeOf :
    (s : Text) (o : Option (Text × ℕ)) → IsPlace s o → IsMadeOf s (create_from s o)
unfolding create_from
create_from-IsMadeOf s none h = create_simple-IsMadeOf (trim s) s
create_from-IsMadeOf s (some (sep, i)) h =
    let l = make_command-HasLine s in
    if-IsMadeOf s (same_text sep (codes "|"))
      (made (λ c. pipe_command (clear_background c) i false) (make_command s)) _
      (made-IsMadeOf s (λ c. pipe_command (clear_background c) i false) (make_command s)
        (λ c k. (k, h)) l)
      (if-IsMadeOf s (same_text sep (codes "|&"))
        (made (λ c. pipe_command (clear_background c) i true) (make_command s)) _
        (made-IsMadeOf s (λ c. pipe_command (clear_background c) i true) (make_command s)
          (λ c k. (k, h)) l)
        (if-IsMadeOf s (same_text sep (codes ">"))
          (made (λ c. redirection_command c i false) (make_command s)) _
          (made-IsMadeOf s (λ c. redirection_command c i false) (make_command s) (λ c k. (k, h)) l)
          (if-IsMadeOf s (same_text sep (codes ">>"))
            (made (λ c. redirection_command c i true) (make_command s)) _
            (made-IsMadeOf s (λ c. redirection_command c i true) (make_command s) (λ c k. (k, h)) l)
            tt)))

pub create_command-IsMadeOf : (s : Text) → IsMadeOf s (create_command s)
unfolding create_command is_special_command
create_command-IsMadeOf s =
    create_from-IsMadeOf s (after_pipe s (find_first b'|' s))
      (after_pipe-IsPlace s (find_first b'|' s) (find_first-IsBefore b'|' s))

pub in_foreground-IsMade : (s : Text) (c : ShellCommand) → IsMade s c → IsMade s (in_foreground c)
in_foreground-IsMade s (pipe_command c sep x) h = h
in_foreground-IsMade s (redirection_command c sep x) h = h
in_foreground-IsMade s (change_prompt c) h = h
in_foreground-IsMade s (get_curr_dir c) h = h
in_foreground-IsMade s (show_pid c) h = h
in_foreground-IsMade s (change_dir c) h = h
in_foreground-IsMade s (foreground_command c) h = h
in_foreground-IsMade s (background_command c) h = h
in_foreground-IsMade s (jobs_command c) h = h
in_foreground-IsMade s (kill_command c) h = h
in_foreground-IsMade s (quit_command c) h = h
in_foreground-IsMade s (external_command c x) h = h

-- Both sides are shorter than the line.
pub take_lt :
    (line s : Text)
    → s ≡ line
    → (sep fuel : ℕ) → sep < length line
    → length line < suc fuel
    → length (take sep s) < fuel
take_lt line s e sep fuel place lt = ground (arith, length-take sep s, place, lt)

pub drop_lt :
    (line s : Text)
    → s ≡ line
    → (sep : ℕ) (x : Bool) (fuel : ℕ) → sep < length line
    → length line < suc fuel
    → length (drop (sep + (if x then 2 else 1)) s) < fuel
drop_lt line s e sep x fuel place lt =
    ground (arith, length-drop (sep + (if x then 2 else 1)) s, ap (length {A = ℕ}) e, place, lt)
