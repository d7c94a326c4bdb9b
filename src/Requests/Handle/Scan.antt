-- ===== src/Requests/Handle/Scan.antt =====
-- web_server/request.c: the scan of the request line by `sscanf`, and the test of the method by
-- `strcasecmp`.
use operating_system_related.Prelude.{
  ℕ, ◌+◌, ◌≡◌, refl, ap, ◌∙◌, Bool, true, false, ◌&&◌, ◌||◌, [], ◌∷◌, ◌++◌, if◌then◌else◌, ◌==◌,
  leb, map,
}
use operating_system_related.Prelude.Text.{Text, codes, same_text}

-- `isspace`
unfoldable pub is_space : ℕ → Bool
is_space c = (c == 32) || (leb 9 c && leb c 13)

unfoldable pub skip_spaces : Text → Text
unfolding is_space
skip_spaces [] = []
skip_spaces (x ∷ xs) = let rest = skip_spaces xs in if is_space x then rest else x ∷ xs

unfoldable pub first_word : Text → Text
unfolding is_space
first_word [] = []
first_word (x ∷ xs) = let rest = first_word xs in if is_space x then [] else x ∷ rest

unfoldable pub after_word : Text → Text
unfolding is_space
after_word [] = []
after_word (x ∷ xs) = let rest = after_word xs in if is_space x then x ∷ xs else rest

-- An array into which `%s` may have read a word: without one it is left as it was.
unfoldable pub word_or : (old word : Text) → Text
word_or old [] = old
word_or old (x ∷ xs) = x ∷ xs

unfoldable pub scan_method : (old : Text) (buf : Text) → Text
unfolding word_or first_word skip_spaces
scan_method old buf = word_or old (first_word (skip_spaces buf))

unfoldable pub scan_uri : (old : Text) (buf : Text) → Text
unfolding word_or first_word skip_spaces after_word
scan_uri old buf = word_or old (first_word (skip_spaces (after_word (skip_spaces buf))))

unfoldable lower : ℕ → ℕ
lower c = if leb b'A' c && leb c b'Z' then c + 32 else c

-- Whether `strcasecmp(method, "GET")` is 0.
unfoldable pub is_get : (method : Text) → Bool
unfolding lower same_text
is_get method = same_text (map lower method) (codes "get")

-- A word: at least one byte, none of them a space.
abbrev pub IsWord : Text → Type 0
IsWord [] = ⊥
IsWord (x ∷ []) = is_space x ≡ false
IsWord (x ∷ y ∷ xs) = (is_space x ≡ false) × IsWord (y ∷ xs)

first_word-IsWord :
    (word rest : Text) (c : ℕ)
    → IsWord word
    → is_space c ≡ true
    → first_word (word ++ c ∷ rest) ≡ word
unfolding first_word
first_word-IsWord [] rest c h t = absurd h
first_word-IsWord (x ∷ []) rest c h t = rw (h, t) refl
first_word-IsWord (x ∷ y ∷ xs) rest c (h, hs) t =
    rw h (ap (λ ys. x ∷ ys) (first_word-IsWord (y ∷ xs) rest c hs t))

after_word-IsWord :
    (word rest : Text) (c : ℕ)
    → IsWord word
    → is_space c ≡ true
    → after_word (word ++ c ∷ rest) ≡ c ∷ rest
unfolding after_word
after_word-IsWord [] rest c h t = absurd h
after_word-IsWord (x ∷ []) rest c h t = rw (h, t) refl
after_word-IsWord (x ∷ y ∷ xs) rest c (h, hs) t = rw h (after_word-IsWord (y ∷ xs) rest c hs t)

skip_spaces-IsWord : (word rest : Text) → IsWord word → skip_spaces (word ++ rest) ≡ word ++ rest
unfolding skip_spaces
skip_spaces-IsWord [] rest h = absurd h
skip_spaces-IsWord (x ∷ []) rest h = rw h refl
skip_spaces-IsWord (x ∷ y ∷ xs) rest (h, hs) = rw h refl

word_or-IsWord : (old word : Text) → IsWord word → word_or old word ≡ word
unfolding word_or
word_or-IsWord old [] h = absurd h
word_or-IsWord old (x ∷ xs) h = refl

-- The scan of a line with two words and a third part behind spaces.
pub scan_words :
    (old_method old_uri method uri rest : Text)
    → IsWord method
    → IsWord uri
    → let line = method ++ 32 ∷ (uri ++ 32 ∷ rest) in
      (scan_method old_method line ≡ method) × (scan_uri old_uri line ≡ uri)
unfolding scan_method scan_uri is_space skip_spaces
scan_words old_method old_uri method uri rest hm hu =
    let tail = uri ++ 32 ∷ rest in
    let start = skip_spaces-IsWord method (32 ∷ tail) hm in
    (
      ap (λ xs. word_or old_method (first_word xs)) start
          ∙ ap (word_or old_method) (first_word-IsWord method tail 32 hm refl)
          ∙ word_or-IsWord old_method method hm,
      ap (λ xs. word_or old_uri (first_word (skip_spaces (after_word xs)))) start
          ∙ ap (λ xs. word_or old_uri (first_word (skip_spaces xs)))
              (after_word-IsWord method tail 32 hm refl)
          ∙ ap (λ xs. word_or old_uri (first_word xs)) (skip_spaces-IsWord uri (32 ∷ rest) hu)
          ∙ ap (word_or old_uri) (first_word-IsWord uri rest 32 hu refl)
          ∙ word_or-IsWord old_uri uri hu,
    )
