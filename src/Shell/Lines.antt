-- ===== src/Shell/Lines.antt =====
-- skeleton_smash/Commands.cpp: what trimming a line and removing its background sign give.
use operating_system_related.Prelude.{
  ℕ, suc, ◌+◌, ◌≡◌, refl, sym, ap, ◌∙◌, true, false, none, some, [], ◌∷◌, ◌++◌, arith, ◌==◌, take,
  get_or, length, Bool-cases, inl, inr, ◌⊎◌,
}
use operating_system_related.Prelude.Text.{Text}
use mathlib.Core.List.{append_assoc}
use mathlib.Core.Path.{subst}
use operating_system_related.Shell.{
  is_white, ltrim, find_last, rtrim, trim, is_background_command, remove_background_sign,
}

abbrev pub IsBlank : Text → Type 0
IsBlank [] = Unit
IsBlank (x ∷ xs) = (is_white x ≡ true) × IsBlank xs

-- The line is empty, or its first byte is not a space.
abbrev pub StartsWell : Text → Type 0
StartsWell [] = Unit
StartsWell (x ∷ xs) = is_white x ≡ false

-- The line is empty, or its last byte is not a space.
abbrev pub EndsWell : Text → Type 0
EndsWell [] = Unit
EndsWell (x ∷ []) = is_white x ≡ false
EndsWell (x ∷ y ∷ xs) = EndsWell (y ∷ xs)

ltrim-StartsWell : (s : Text) → StartsWell (ltrim s)
unfolding ltrim
ltrim-StartsWell [] = tt
ltrim-StartsWell (x ∷ xs) = elim (Bool-cases (is_white x)) [
  | inl t ↦ rw t (ltrim-StartsWell xs)
  | inr f ↦ rw f f
]

ltrim-front : (s : Text) → (left : Text) × IsBlank left × (s ≡ left ++ ltrim s)
unfolding ltrim
ltrim-front [] = ([], tt, refl)
ltrim-front (x ∷ xs) = elim (Bool-cases (is_white x)) [
  | inl t ↦
      let (left, blank, e) = ltrim-front xs in (x ∷ left, (t, blank), rw t (ap (λ ys. x ∷ ys) e))
  | inr f ↦ ([], tt, rw f refl)
]

find_last-blank : (s : Text) → IsBlank s → find_last s ≡ none
unfolding find_last
find_last-blank [] h = refl
find_last-blank (x ∷ xs) (t, h) = rw (find_last-blank xs h, t) refl

-- Where the last byte that is not a space is.
find_last-front :
    (front : Text) (c : ℕ) (blank : Text)
    → is_white c ≡ false
    → IsBlank blank
    → find_last (front ++ c ∷ blank) ≡ some (length front)
unfolding find_last
find_last-front [] c blank f h = rw (find_last-blank blank h, f) refl
find_last-front (x ∷ front) c blank f h = rw (find_last-front front c blank f h) refl

get_or-length :
    (front : Text) (c : ℕ) (back : Text) → get_or (front ++ c ∷ back) (length front) 0 ≡ c
get_or-length [] c back = refl
get_or-length (x ∷ front) c back = get_or-length front c back

take-length : (front : Text) (back : Text) → take (length front) (front ++ back) ≡ front
take-length [] [] = refl
take-length [] (y ∷ back) = refl
take-length (x ∷ front) back = ap (λ ys. x ∷ ys) (take-length front back)

take-snoc :
    (front : Text) (c : ℕ) (back : Text)
    → take (length front + 1) (front ++ c ∷ back) ≡ front ++ c ∷ []
take-snoc front c back =
    ap (λ n. take n (front ++ c ∷ back)) (one_more (length front)) ∙ next front c back
  where
    one_more : (n : ℕ) → n + 1 ≡ suc n
    one_more n = omega arith

    next :
        (front : Text) (c : ℕ) (back : Text)
        → take (suc (length front)) (front ++ c ∷ back) ≡ front ++ c ∷ []
    next [] c [] = refl
    next [] c (y ∷ back) = refl
    next (x ∷ front) c back = ap (λ ys. x ∷ ys) (next front c back)

-- A line is blank, or it ends by a byte that is not a space and blanks.
LastView : Text → Type 0
LastView s =
    IsBlank s
    ⊎ ((front : Text) × (c : ℕ) × (blank : Text) × (is_white c ≡ false)
        × IsBlank blank
        × (s ≡ front ++ c ∷ blank))

view-next : (x : ℕ) (xs : Text) → LastView xs → LastView (x ∷ xs)
unfolding LastView
view-next x xs (inl h) = elim (Bool-cases (is_white x)) [
  | inl t ↦ inl (t, h)
  | inr f ↦ inr ([], x, xs, f, h, refl)
]
view-next x xs (inr (front, c, blank, f, h, e)) =
    inr (x ∷ front, c, blank, f, h, ap (λ ys. x ∷ ys) e)

last_view : (s : Text) → LastView s
unfolding LastView
last_view [] = inl tt
last_view (x ∷ xs) = view-next x xs (last_view xs)

EndsWell-snoc : (front : Text) (c : ℕ) → is_white c ≡ false → EndsWell (front ++ c ∷ [])
EndsWell-snoc [] c f = f
EndsWell-snoc (x ∷ []) c f = f
EndsWell-snoc (x ∷ y ∷ front) c f = EndsWell-snoc (y ∷ front) c f

StartsWell-front :
    (front : Text) (c : ℕ) (blank : Text)
    → StartsWell (front ++ c ∷ blank)
    → StartsWell (front ++ c ∷ [])
StartsWell-front [] c blank h = h
StartsWell-front (x ∷ front) c blank h = h

rtrim-blank : (s : Text) → IsBlank s → rtrim s ≡ []
unfolding rtrim
rtrim-blank s h = rw (find_last-blank s h) refl

rtrim-front :
    (front : Text) (c : ℕ) (blank : Text)
    → is_white c ≡ false
    → IsBlank blank
    → rtrim (front ++ c ∷ blank) ≡ front ++ c ∷ []
unfolding rtrim
rtrim-front front c blank f h = rw (find_last-front front c blank f h) (take-snoc front c blank)

-- Spaces around a text that neither starts nor ends by one.
abbrev pub IsTrimmed : (s r : Text) → Type 0
IsTrimmed s r =
    (left : Text) × (right : Text) × IsBlank left
    × IsBlank right
    × (s ≡ left ++ (r ++ right))
    × StartsWell r
    × EndsWell r

trim-view :
    (s t : Text) (left : Text)
    → IsBlank left
    → s ≡ left ++ t
    → StartsWell t
    → LastView t
    → IsTrimmed s (rtrim t)
unfolding LastView
trim-view s t left h e start (inl blank) = rw (rtrim-blank t blank) (left, t, h, blank, e, tt, tt)
trim-view s t left h e start (inr (front, c, blank, f, hb, e')) =
    let r = ap rtrim e' ∙ rtrim-front front c blank f hb in
    subst (λ k. IsTrimmed s k) (sym r)
      (
        left,
        blank,
        h,
        hb,
        e ∙ ap (λ k. left ++ k) (e' ∙ sym (append_assoc front (c ∷ []) blank)),
        StartsWell-front front c blank (subst StartsWell e' start),
        EndsWell-snoc front c f,
      )

-- `_trim` takes away exactly spaces, on both sides, and as many as there are.
pub trim-IsTrimmed : (s : Text) → IsTrimmed s (trim s)
unfolding trim
trim-IsTrimmed s =
    let (left, h, e) = ltrim-front s in
    trim-view s (ltrim s) left h e (ltrim-StartsWell s) (last_view (ltrim s))

amp_white : is_white b'&' ≡ false
unfolding is_white
amp_white = refl

-- A line that ends by '&' and spaces is a background command, and `_removeBackgroundSign` makes of it
-- what stands before the sign, whatever spaces end that, and one space more.
pub remove_background_sign-front :
    (front blank : Text)
    → IsBlank blank
    → (is_background_command (front ++ b'&' ∷ blank) ≡ some true)
      × (remove_background_sign (front ++ b'&' ∷ blank) ≡ some (front ++ b' ' ∷ []))
unfolding is_background_command remove_background_sign
remove_background_sign-front front blank h =
    let found = find_last-front front b'&' blank amp_white h in
    let here = get_or-length front b'&' blank in
    (rw (found, here) refl, rw (found, here, take-length front (b'&' ∷ blank)) refl)

-- A line that does not end by '&' before its spaces is no background command and is left alone.
pub remove_background_sign-other :
    (front : Text) (c : ℕ) (blank : Text)
    → is_white c ≡ false
    → (c == b'&') ≡ false
    → IsBlank blank
    → (is_background_command (front ++ c ∷ blank) ≡ some false)
      × (remove_background_sign (front ++ c ∷ blank) ≡ some (front ++ c ∷ blank))
unfolding is_background_command remove_background_sign
remove_background_sign-other front c blank f ne h =
    let found = find_last-front front c blank f h in
    let here = get_or-length front c blank in (rw (found, here, ne) refl, rw (found, here, ne) refl)
