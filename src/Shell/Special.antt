-- ===== src/Shell/Special.antt =====
-- skeleton_smash/Commands.cpp: the separator that `_isSpecialCommand` finds.
use operating_system_related.Prelude.{
  ℕ, suc, ◌+◌, ◌<◌, ◌≤◌, ◌≡◌, refl, ap, ◌∙◌, true, false, none, some, [], ◌∷◌, ◌++◌, arith,
  if◌then◌else◌, ◌==◌, ltb, get_or, length, length-append,
}
use operating_system_related.Prelude.Text.{Text, codes}
use operating_system_related.Shell.{find_first, separator, is_special_command}

-- None of the bytes is `c`.
abbrev pub Without : (c : ℕ) → Text → Type 0
Without c [] = Unit
Without c (x ∷ xs) = ((x == c) ≡ false) × Without c xs

same_byte : (c : ℕ) → (c == c) ≡ true
same_byte c = ground arith

find_first-Without : (c : ℕ) (s : Text) → Without c s → find_first c s ≡ none
unfolding find_first
find_first-Without c [] h = refl
find_first-Without c (x ∷ xs) (f, h) = rw (f, find_first-Without c xs h) refl

find_first-front :
    (c : ℕ) (front back : Text)
    → Without c front
    → find_first c (front ++ c ∷ back) ≡ some (length front)
unfolding find_first
find_first-front c [] back h = rw (same_byte c) refl
find_first-front c (x ∷ front) back (f, h) = rw (f, find_first-front c front back h) refl

-- The separator that stands before `back`.
abbrev pub separator_before : (next : ℕ) (short long : Text) (back : Text) → Text
separator_before next short long [] = short
separator_before next short long (x ∷ back) = if x == next then long else short

get_or-second :
    (front : Text) (c : ℕ) (back : Text)
    → get_or (front ++ c ∷ back) (suc (length front)) 0 ≡ get_or back 0 0
get_or-second [] c back = refl
get_or-second (x ∷ front) c back = get_or-second front c back

separator-front :
    (front : Text) (c next : ℕ) (short long back : Text)
    → separator (front ++ c ∷ back) (length front) next short long
      ≡ separator_before next short long back
unfolding separator
separator-front front c next short long [] = rw (at_end front c) refl
  where
    at_end : (front : Text) (c : ℕ) → ltb (length front + 1) (length (front ++ c ∷ [])) ≡ false
    at_end front c = not_less (omega (arith, length-append front (c ∷ [])))
      where
        not_less : {a b : ℕ} → b ≤ a → ltb a b ≡ false
        not_less h = ground arith
separator-front front c next short long (y ∷ back) =
    rw (inside front c y back, after front c y back) refl
  where
    less : (a b : ℕ) → a < b → ltb a b ≡ true
    less a b h = ground arith

    inside :
        (front : Text) (c y : ℕ) (back : Text)
        → ltb (length front + 1) (length (front ++ c ∷ y ∷ back)) ≡ true
    inside front c y back = less _ _ (omega (arith, length-append front (c ∷ y ∷ back)))

    after :
        (front : Text) (c y : ℕ) (back : Text)
        → get_or (front ++ c ∷ y ∷ back) (length front + 1) 0 ≡ y
    after front c y back =
        ap (λ i. get_or (front ++ c ∷ y ∷ back) i 0) (one_more (length front))
        ∙ get_or-second front c (y ∷ back)
      where
        one_more : (n : ℕ) → n + 1 ≡ suc n
        one_more n = omega arith

-- A line with a pipe is split at its first one, whatever redirections stand before it; the separator
-- is "|&" if a '&' comes next, and else "|".
pub is_special_command-pipe :
    (front back : Text)
    → Without b'|' front
    → is_special_command (front ++ b'|' ∷ back)
      ≡ some (separator_before b'&' (codes "|") (codes "|&") back, length front)
unfolding is_special_command
is_special_command-pipe front back h =
    rw
      (
        find_first-front b'|' front back h,
        separator-front front b'|' b'&' (codes "|") (codes "|&") back,
      )
      refl

-- A line without a pipe is split at its first redirection; the separator is ">>" if another '>' comes
-- next, and else ">".
pub is_special_command-redirection :
    (front back : Text)
    → Without b'|' (front ++ b'>' ∷ back)
    → Without b'>' front
    → is_special_command (front ++ b'>' ∷ back)
      ≡ some (separator_before b'>' (codes ">") (codes ">>") back, length front)
unfolding is_special_command
is_special_command-redirection front back h k =
    rw
      (
        find_first-Without b'|' (front ++ b'>' ∷ back) h,
        find_first-front b'>' front back k,
        separator-front front b'>' b'>' (codes ">") (codes ">>") back,
      )
      refl
