-- ===== src/Shell.antt =====
-- skeleton_smash/Commands.cpp: the functions on command lines. A line is the list of its bytes before
-- the 0. An access outside of the line is `none`.
pub mod Lines
pub mod Special
pub mod State
pub mod Jobs
pub mod Signals
pub mod Processes
pub mod CtrlZ
pub mod Nesting
pub mod Sides
pub mod Order
pub mod EndOfInput
pub mod Finished
pub mod Added
pub mod LastStopped
pub mod Commands
pub mod Builtins
pub mod Execute
mod Tests
mod JobTests
use operating_system_related.Prelude.{
  ℕ, zero, suc, ◌+◌, Bool, true, false, ◌&&◌, ◌||◌, Option, none, some, List, [], ◌∷◌, ◌++◌,
  if◌then◌else◌, ◌==◌, leb, ltb, length, take, get_or,
}
use operating_system_related.Prelude.Text.{Text, codes}

-- `WHITESPACE`
unfoldable pub is_white : ℕ → Bool
is_white c = (c == 32) || (leb 9 c && leb c 13)

unfoldable pub ltrim : Text → Text
unfolding is_white
ltrim [] = []
ltrim (x ∷ xs) = let rest = ltrim xs in if is_white x then rest else x ∷ xs

-- `find_last_not_of(WHITESPACE)`
unfoldable pub after_find : (x : ℕ) → Option ℕ → Option ℕ
unfolding is_white
after_find x (some i) = some (suc i)
after_find x none = if is_white x then none else some 0

unfoldable pub find_last : Text → Option ℕ
unfolding after_find
find_last [] = none
find_last (x ∷ xs) = after_find x (find_last xs)

unfoldable pub up_to : Option ℕ → Text → Text
up_to none s = []
up_to (some i) s = take (i + 1) s

unfoldable pub rtrim : Text → Text
unfolding find_last up_to
rtrim s = up_to (find_last s) s

unfoldable pub trim : Text → Text
unfolding ltrim rtrim
trim s = rtrim (ltrim s)

unfoldable pub is_sign_at : Text → Option ℕ → Option Bool
is_sign_at s none = none
is_sign_at s (some i) = some (get_or s i 0 == b'&')

unfoldable pub is_background_command : Text → Option Bool
unfolding is_sign_at find_last
is_background_command s = is_sign_at s (find_last s)

-- The test for a line of spaces compares an `unsigned int` with `npos`, and never holds. The search
-- for the last other character is in the copy `str`, which still has the sign.
unfoldable pub remove_sign_at : Text → Option ℕ → Option Text
remove_sign_at s none = none
remove_sign_at s (some i) = if get_or s i 0 == b'&' then some (take i s ++ b' ' ∷ []) else some s

unfoldable pub remove_background_sign : Text → Option Text
unfolding remove_sign_at find_last
remove_background_sign s = remove_sign_at s (find_last s)

-- `find_first_of` and `find` of a byte.
unfoldable pub step_find : Option ℕ → Option ℕ
step_find none = none
step_find (some i) = some (suc i)

unfoldable pub find_first : (c : ℕ) → Text → Option ℕ
unfolding step_find
find_first c [] = none
find_first c (x ∷ xs) = let rest = step_find (find_first c xs) in if x == c then some 0 else rest

-- The separator at an index: `short`, or `long` if that byte comes next.
unfoldable pub separator : Text → (i : ℕ) → (next : ℕ) (short long : Text) → Text
separator s i next short long =
    if ltb (i + 1) (length s) && (get_or s (i + 1) 0 == next) then long else short

unfoldable pub after_redirection : Text → Option ℕ → Option (Text × ℕ)
unfolding separator
after_redirection s none = none
after_redirection s (some i) = some (separator s i b'>' (codes ">") (codes ">>"), i)

unfoldable pub after_pipe : Text → Option ℕ → Option (Text × ℕ)
unfolding separator after_redirection find_first
after_pipe s none = after_redirection s (find_first b'>' s)
after_pipe s (some i) = some (separator s i b'&' (codes "|") (codes "|&"), i)

-- `sep` and `index`, if the line has a pipe or else a redirection.
unfoldable pub is_special_command : Text → Option (Text × ℕ)
unfolding after_pipe find_first
is_special_command s = after_pipe s (find_first b'|' s)
