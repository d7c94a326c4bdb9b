-- ===== src/Shell/Commands.antt =====
-- skeleton_smash/Commands.cpp: the constructors of the commands, and `CreateCommand`.
--
-- `none` is an access outside of an array, which these functions make on some lines.
use operating_system_related.Prelude.{
  ℕ, zero, suc, ◌+◌, ◌-◌, ◌*◌, ◌^◌, Bool, true, false, ◌&&◌, ◌||◌, Option, none, some, List, [],
  ◌∷◌, ◌++◌, if◌then◌else◌, ◌==◌, leb, ltb, length, take,
}
use operating_system_related.Prelude.Int.{ℤ, pos, negsuc}
use operating_system_related.Prelude.Text.{Text, codes, same_text}
use operating_system_related.Shell.{
  is_white, ltrim, trim, is_background_command, remove_background_sign, is_special_command,
}
use operating_system_related.Shell.State.{Command}

abbrev pub command_max_length : ℕ
command_max_length = 80

abbrev pub command_max_args : ℕ
command_max_args = 20

-- The words that `>>` reads from a stream; `word` is the front of the one it is in.
abbrev pub end_word : (word : Text) → List Text
end_word [] = []
end_word (c ∷ word) = (c ∷ word) ∷ []

unfoldable pub words_from : (word : Text) → Text → List Text
unfolding is_white
words_from word [] = end_word word
words_from word (c ∷ s) =
    let next = end_word word ++ words_from [] s in
    let same = words_from (word ++ c ∷ []) s in if is_white c then next else same

unfoldable pub words : Text → List Text
unfolding words_from
words s = words_from [] s

-- `_parseCommandLine`, which writes a NULL behind the words.
unfoldable pub parse_command_line : Text → Option (List Text)
unfolding words trim
parse_command_line s =
    let args = words (trim s) in if ltb (length args) command_max_args then some args else none

-- The constructor of `Command`. The copy of the line is cut off at its length.
abbrev pub with_args : Text → Bool → Option (List Text) → Option Command
with_args s x none = none
with_args s x (some args) = some (record { args = args; original_cmd = s; in_background = x })

unfoldable pub without_sign : Text → Bool → Option Text → Option Command
unfolding parse_command_line
without_sign s x none = none
without_sign s x (some cmd) = with_args s x (parse_command_line cmd)

unfoldable pub with_background : Text → Option Bool → Option Command
unfolding without_sign remove_background_sign
with_background s none = none
with_background s (some x) = without_sign s x (remove_background_sign (take command_max_length s))

unfoldable pub make_command : Text → Option Command
unfolding with_background is_background_command
make_command s = with_background s (is_background_command s)

-- The digits that `stoi` reads, of which it wants one at least.
abbrev pub is_digit : ℕ → Bool
is_digit c = leb b'0' c && leb c b'9'

unfoldable pub digits_from : (value : ℕ) → Text → ℕ
digits_from value [] = value
digits_from value (c ∷ s) =
    let rest = digits_from (value * 10 + (c - b'0')) s in if is_digit c then rest else value

unfoldable pub number : Text → Option ℕ
unfolding digits_from
number [] = none
number (c ∷ s) = if is_digit c then some (digits_from 0 (c ∷ s)) else none

-- A value that is no `int` is out of range.
abbrev pub positive : Option ℕ → Option ℤ
positive none = none
positive (some n) = if ltb n (2 ^ 31) then some (pos n) else none

abbrev pub negative : Option ℕ → Option ℤ
negative none = none
negative (some zero) = some (pos 0)
negative (some (suc n)) = if ltb n (2 ^ 31) then some (negsuc n) else none

-- `_strToInt`, by `stoi`: what follows the digits is not looked at.
unfoldable pub signed : Text → Option ℤ
unfolding number
signed [] = none
signed (c ∷ s) =
    if c == b'-'
    then negative (number s)
    else if c == b'+'
    then positive (number s)
    else positive (number (c ∷ s))

unfoldable pub str_to_int : Text → Option ℤ
unfolding ltrim signed
str_to_int s = signed (ltrim s)

-- The classes of commands, with their own members.
pub data ShellCommand : Type 0 where
  pipe_command : Command → (sep : ℕ) (ampersand : Bool) → ShellCommand
  redirection_command : Command → (sep : ℕ) (append : Bool) → ShellCommand
  change_prompt : Command → ShellCommand
  get_curr_dir : Command → ShellCommand
  show_pid : Command → ShellCommand
  change_dir : Command → ShellCommand
  foreground_command : Command → ShellCommand
  background_command : Command → ShellCommand
  jobs_command : Command → ShellCommand
  kill_command : Command → ShellCommand
  quit_command : Command → ShellCommand
  external_command : Command → (special : Bool) → ShellCommand

-- The base of a command, in which `background` may be cleared later.
abbrev pub base : ShellCommand → Command
base (pipe_command c sep x) = c
base (redirection_command c sep x) = c
base (change_prompt c) = c
base (get_curr_dir c) = c
base (show_pid c) = c
base (change_dir c) = c
base (foreground_command c) = c
base (background_command c) = c
base (jobs_command c) = c
base (kill_command c) = c
base (quit_command c) = c
base (external_command c x) = c

abbrev pub clear_background : Command → Command
clear_background c = record c { in_background = false }

-- `cmd->background = false`
abbrev pub in_foreground : ShellCommand → ShellCommand
in_foreground (pipe_command c sep x) = pipe_command (clear_background c) sep x
in_foreground (redirection_command c sep x) = redirection_command (clear_background c) sep x
in_foreground (change_prompt c) = change_prompt (clear_background c)
in_foreground (get_curr_dir c) = get_curr_dir (clear_background c)
in_foreground (show_pid c) = show_pid (clear_background c)
in_foreground (change_dir c) = change_dir (clear_background c)
in_foreground (foreground_command c) = foreground_command (clear_background c)
in_foreground (background_command c) = background_command (clear_background c)
in_foreground (jobs_command c) = jobs_command (clear_background c)
in_foreground (kill_command c) = kill_command (clear_background c)
in_foreground (quit_command c) = quit_command (clear_background c)
in_foreground (external_command c x) = external_command (clear_background c) x

-- `_hasSpecialCharacters`
unfoldable pub has_special_characters : Text → Bool
has_special_characters [] = false
has_special_characters (c ∷ s) = (c == b'*') || (c == b'?') || has_special_characters s

-- `substr(0, find_first_of(" \n"))`
unfoldable pub first_word : Text → Text
first_word [] = []
first_word (c ∷ s) = let rest = first_word s in if (c == 32) || (c == 10) then [] else c ∷ rest

-- What the constructors of the classes make of the base.
abbrev pub made : (Command → ShellCommand) → Option Command → Option (Option ShellCommand)
made f none = none
made f (some c) = some (some (f c))

-- The class for the first word of the line.
unfoldable pub class_of : (word s : Text) → Command → ShellCommand
unfolding same_text has_special_characters
class_of word s c =
    if same_text word (codes "chprompt")
    then change_prompt (clear_background c)
    else if same_text word (codes "pwd")
    then get_curr_dir (clear_background c)
    else if same_text word (codes "showpid")
    then show_pid (clear_background c)
    else if same_text word (codes "cd")
    then change_dir (clear_background c)
    else if same_text word (codes "fg")
    then foreground_command (clear_background c)
    else if same_text word (codes "bg")
    then background_command (clear_background c)
    else if same_text word (codes "jobs")
    then jobs_command (clear_background c)
    else if same_text word (codes "kill")
    then kill_command (clear_background c)
    else if same_text word (codes "quit")
    then quit_command (clear_background c)
    else external_command c (has_special_characters s)

-- A line without a pipe and a redirection, trimmed to `cmd`.
unfoldable pub create_simple : (cmd s : Text) → Option (Option ShellCommand)
unfolding first_word class_of make_command
create_simple [] s = some none
create_simple (c ∷ cmd) s = made (class_of (first_word (c ∷ cmd)) s) (make_command s)

unfoldable pub create_from : Text → Option (Text × ℕ) → Option (Option ShellCommand)
unfolding same_text make_command create_simple
create_from s none = create_simple (trim s) s
create_from s (some (sep, i)) =
    if same_text sep (codes "|")
    then made (λ c. pipe_command (clear_background c) i false) (make_command s)
    else if same_text sep (codes "|&")
    then made (λ c. pipe_command (clear_background c) i true) (make_command s)
    else if same_text sep (codes ">")
    then made (λ c. redirection_command c i false) (make_command s)
    else if same_text sep (codes ">>")
    then made (λ c. redirection_command c i true) (make_command s)
    else some none

-- `CreateCommand`; the inner `none` is NULL.
unfoldable pub create_command : Text → Option (Option ShellCommand)
unfolding create_from is_special_command
create_command s = create_from s (is_special_command s)
