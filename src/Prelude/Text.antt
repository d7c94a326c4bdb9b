-- ===== src/Prelude/Text.antt =====
-- Texts as the C library sees them: lists of bytes without the final 0, and the calls on them that the
-- web server uses.
use Prim.Native.String.{String}
use Prim.Native.Char.{code}
use operating_system_related.Prelude.{
  ℕ, ◌≡◌, refl, sym, ap, ◌∙◌, ◌≢◌, Bool, true, false, ◌&&◌, ◌||◌, List, [], ◌∷◌, ◌++◌,
  if◌then◌else◌, ◌==◌, Bool-cases, inl, inr,
}

abbrev pub Text : Type 0
Text = List ℕ

-- The bytes of a text of ASCII characters.
abbrev pub codes : String → Text
codes String.[] = []
codes (String.◌∷◌ c s) = code c ∷ codes s

unfoldable pub is_prefix : (needle haystack : Text) → Bool
is_prefix [] xs = true
is_prefix (c ∷ needle) [] = false
is_prefix (c ∷ needle) (x ∷ xs) = (c == x) && is_prefix needle xs

-- Whether `strstr` finds the needle.
unfoldable pub strstr : (haystack needle : Text) → Bool
unfolding is_prefix
strstr [] needle = is_prefix needle []
strstr (x ∷ xs) needle = is_prefix needle (x ∷ xs) || strstr xs needle

-- `index`: what stands before the first such byte, and what after it (nothing if there is none).
unfoldable pub before_byte : (c : ℕ) (xs : Text) → Text
before_byte c [] = []
before_byte c (x ∷ xs) = let rest = before_byte c xs in if x == c then [] else x ∷ rest

unfoldable pub after_byte : (c : ℕ) (xs : Text) → Text
after_byte c [] = []
after_byte c (x ∷ xs) = let rest = after_byte c xs in if x == c then xs else rest

-- Whether `strcmp` returns 0.
unfoldable pub same_text : (xs ys : Text) → Bool
same_text [] [] = true
same_text [] (y ∷ ys) = false
same_text (x ∷ xs) [] = false
same_text (x ∷ xs) (y ∷ ys) = (x == y) && same_text xs ys

-- The last byte, `before` if there is none.
unfoldable pub last_or : (before : ℕ) (xs : Text) → ℕ
last_or before [] = before
last_or before (x ∷ xs) = last_or x xs

pub or_left : (a b : Bool) → (a || b) ≡ false → a ≡ false
or_left true b h = cc
or_left false b h = refl

pub or_right : (a b : Bool) → (a || b) ≡ false → b ≡ false
or_right true b h = cc
or_right false b h = h

and_left : (a b : Bool) → (a && b) ≡ true → a ≡ true
and_left true b h = refl
and_left false b h = cc

and_right : (a b : Bool) → (a && b) ≡ true → b ≡ true
and_right true b h = h
and_right false b h = cc

is_prefix-append :
    (needle xs ys : Text) → is_prefix needle xs ≡ true → is_prefix needle (xs ++ ys) ≡ true
unfolding is_prefix
is_prefix-append [] xs ys h = refl
is_prefix-append (c ∷ needle) [] ys h = cc
is_prefix-append (c ∷ needle) (x ∷ xs) ys h =
    rw (and_left (c == x) (is_prefix needle xs) h)
      (is_prefix-append needle xs ys (and_right (c == x) (is_prefix needle xs) h))

prefix-strstr : (needle ys : Text) → is_prefix needle ys ≡ true → strstr ys needle ≡ true
unfolding strstr
prefix-strstr needle [] h = h
prefix-strstr needle (y ∷ ys) h = rw h refl

found : {b : Bool} → b ≡ true → b ≡ false → ⊥
found t f = cc

pub strstr-front :
    (xs ys needle : Text) → strstr (xs ++ ys) needle ≡ false → strstr xs needle ≡ false
unfolding strstr
strstr-front [] ys needle h = elim (Bool-cases (is_prefix needle [])) [
  | inl t ↦ absurd (found (prefix-strstr needle ys (is_prefix-append needle [] ys t)) h)
  | inr f ↦ f
]
strstr-front (x ∷ xs) ys needle h = elim (Bool-cases (is_prefix needle (x ∷ xs))) [
  | inl t ↦
      absurd (found (prefix-strstr needle (x ∷ xs ++ ys) (is_prefix-append needle (x ∷ xs) ys t)) h)
  | inr f ↦ rw f (
      strstr-front xs ys needle
        (or_right (is_prefix needle (x ∷ xs ++ ys)) (strstr (xs ++ ys) needle) h))
]

-- Two texts without a doubled byte have none together, if it is not the first of the second.
pub strstr-append_pair :
    (c : ℕ) (xs : Text) (y : ℕ) (ys : Text)
    → (c == y) ≡ false
    → strstr xs (c ∷ c ∷ []) ≡ false
    → strstr (y ∷ ys) (c ∷ c ∷ []) ≡ false
    → strstr (xs ++ y ∷ ys) (c ∷ c ∷ []) ≡ false
unfolding strstr
strstr-append_pair c [] y ys ne hx hy = hy
strstr-append_pair c (x ∷ []) y ys ne hx hy = elim (Bool-cases (c == x)) [
  | inl t ↦ rw (t, ne) (or_right (is_prefix (c ∷ c ∷ []) (y ∷ ys)) (strstr ys (c ∷ c ∷ [])) hy)
  | inr f ↦ rw f hy
]
strstr-append_pair c (x ∷ z ∷ xs) y ys ne hx hy =
    let here = or_left (is_prefix (c ∷ c ∷ []) (x ∷ z ∷ xs)) (strstr (z ∷ xs) (c ∷ c ∷ [])) hx in
    let later = or_right (is_prefix (c ∷ c ∷ []) (x ∷ z ∷ xs)) (strstr (z ∷ xs) (c ∷ c ∷ [])) hx in
    rw here (strstr-append_pair c (z ∷ xs) y ys ne later hy)

pub before_byte-front : (c : ℕ) (xs : Text) → (zs : Text) × (xs ≡ before_byte c xs ++ zs)
unfolding before_byte
before_byte-front c [] = ([], refl)
before_byte-front c (x ∷ xs) = elim (Bool-cases (x == c)) [
  | inl t ↦ (x ∷ xs, rw t refl)
  | inr f ↦ let (zs, e) = before_byte-front c xs in (zs, rw f (ap (λ ys. x ∷ ys) e))
]

tail_eq : (x : ℕ) (xs ys : Text) → x ∷ xs ≡ x ∷ ys → xs ≡ ys
tail_eq x xs ys e = cc

not_nil : (x : ℕ) (path : Text) → [] ≢ x ∷ path
not_nil x path e = cc

pub empty_front : (c x : ℕ) (path : Text) → (x == c) ≡ true → before_byte c (x ∷ path) ≢ x ∷ path
unfolding before_byte
empty_front c x path t h = not_nil x path (sym (rw t refl) ∙ h)

pub rest_front :
    (c x : ℕ) (path : Text)
    → (x == c) ≡ false
    → before_byte c (x ∷ path) ≡ x ∷ path
    → before_byte c path ≡ path
unfolding before_byte
rest_front c x path f h = tail_eq x (before_byte c path) path (sym (rw f refl) ∙ h)
