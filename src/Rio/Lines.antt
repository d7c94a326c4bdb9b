-- ===== src/Rio/Lines.antt =====
-- web_server/segel.c: `rio_readlineb`. Its loop calls nothing but `rio_read`, so it is defined over any
-- `Input`; over a buffer it is taken at `buffered`.
use operating_system_related.Prelude.{
  ℕ, zero, suc, ◌+◌, ◌-◌, ◌<◌, ◌≤◌, ◌≡◌, refl, sym, ap, ◌∙◌, ◌⊎◌, inl, inr, Bool, true, false, ◌||◌,
  Option, none, some, List, [], ◌∷◌, ◌++◌, arith, length, length-append, if◌then◌else◌, ◌==◌,
  Bool-cases,
}
use mathlib.Core.List.{append_assoc, append-nil}
use operating_system_related.Rio.{
  ReadResult, got, read_failed, Input, Ran, returned, minus_one, out_of_fuel,
}

-- The byte of `'\n'`.
abbrev pub newline : ℕ
newline = 10

-- The front of a stream up to its first newline, that included, of at most so many bytes.
unfoldable pub first_line : (most : ℕ) (stream : List ℕ) → List ℕ
first_line zero xs = []
first_line (suc most) [] = []
first_line (suc most) (x ∷ xs) =
    let rest = first_line most xs in if x == newline then x ∷ [] else x ∷ rest

unfoldable pub has_newline : (line : List ℕ) → Bool
has_newline [] = false
has_newline (x ∷ xs) = (x == newline) || has_newline xs

-- What `rio_readlineb` returns for a line: one more than the number of its bytes, unless it ended by
-- a newline.
unfoldable pub line_count : (line : List ℕ) → ℕ
unfolding has_newline
line_count line = if has_newline line then length line else suc (length line)

line_count-newline :
    (x : ℕ) (xs : List ℕ) → (x == newline) ≡ false → line_count (x ∷ xs) ≡ suc (line_count xs)
unfolding line_count
line_count-newline x xs e =
    rw e (elim (Bool-cases (has_newline xs)) [ inl t ↦ rw t refl | inr f ↦ rw f refl ])

length-snoc : (line : List ℕ) (c : ℕ) → length (line ++ c ∷ []) ≡ suc (length line)
length-snoc line c = omega (arith, length-append line (c ∷ []))

not_first : (k : ℕ) → (suc (suc k) == 1) ≡ false
not_first k = ground arith

module _ (input : Input) where
  open input use {State, read, pending, got_front, got_end}

  -- One round of the loop of `rio_readlineb`, after its `rio_read`; `again` is the next round.
  unfoldable pub after_char :
      (again : State → (n : ℕ) → (line : List ℕ) → Ran (ℕ × Option (List ℕ) × State))
      → ReadResult
      → State
      → (n : ℕ) → (line : List ℕ) → Ran (ℕ × Option (List ℕ) × State)
  after_char again (got (c ∷ cs)) s n line =
      let next = again s (suc n) (line ++ c ∷ []) in
      if c == newline then returned (n, some (line ++ c ∷ []), s) else next
  after_char again (got []) s n line =
      if n == 1 then returned (0, none, s) else returned (n, some line, s)
  after_char again (read_failed eintr) s n line = minus_one

  -- The loop, with the `maxlen - n` rounds that are left.
  unfoldable pub line_loop :
      (rounds : ℕ) → State → (n : ℕ) → (line : List ℕ) → Ran (ℕ × Option (List ℕ) × State)
  unfolding after_char
  line_loop zero s n line = returned (n, some line, s)
  line_loop (suc rounds) s n line =
      let again = line_loop rounds in let (r, s') = read s 1 in after_char again r s' n line

  -- `rio_readlineb`: the number it returns, and the string in `usrbuf`, which it leaves as it was when
  -- there is nothing to read.
  unfoldable pub readlineb : State → (maxlen : ℕ) → Ran (ℕ × Option (List ℕ) × State)
  unfolding line_loop
  readlineb s maxlen = line_loop (maxlen - 1) s 1 []

  -- The loop has read the line that comes next after the bytes `line`, or some `read` failed.
  abbrev pub ReadsLine : State → ℕ → List ℕ → Ran (ℕ × Option (List ℕ) × State) → Type 0
  ReadsLine s rounds line (returned (n, some xs, s')) =
      let front = first_line rounds (pending s) in
      (xs ≡ line ++ front)
      × (n ≡ length line + line_count front)
      × (pending s ≡ front ++ pending s')
      × ((rounds ≡ 0) ⊎ (0 < length xs))
  ReadsLine s rounds line (returned (n, none, s')) =
      (line ≡ []) × (n ≡ 0) × (pending s ≡ []) × (pending s' ≡ [])
  ReadsLine s rounds line minus_one =
      (t : State) × (k : ℕ) × (eintr : Bool) × ((read t k).0 ≡ read_failed eintr)
  ReadsLine s rounds line out_of_fuel = ⊥

  char_of : (c : ℕ) (cs ys zs : List ℕ) → zs ≡ (c ∷ cs) ++ ys → length (c ∷ cs) ≤ 1 → zs ≡ c ∷ ys
  char_of c [] ys zs e h = e
  char_of c (d ∷ cs) ys zs e h = absurd (omega arith)

  first_line-newline :
      (c rounds : ℕ) (xs ys : List ℕ)
      → xs ≡ c ∷ ys
      → (c == newline) ≡ true
      → first_line (suc rounds) xs ≡ c ∷ []
  unfolding first_line
  first_line-newline c rounds xs ys e t = rw (e, t) refl

  first_line-other :
      (c rounds : ℕ) (xs ys : List ℕ)
      → xs ≡ c ∷ ys
      → (c == newline) ≡ false
      → first_line (suc rounds) xs ≡ c ∷ first_line rounds ys
  unfolding first_line
  first_line-other c rounds xs ys e f = rw (e, f) refl

  first_line-nil : (rounds : ℕ) (xs : List ℕ) → xs ≡ [] → first_line (suc rounds) xs ≡ []
  unfolding first_line
  first_line-nil rounds xs e = rw e refl

  line_count-one : (c : ℕ) → (c == newline) ≡ true → line_count (c ∷ []) ≡ 1
  unfolding line_count
  line_count-one c t = rw t refl

  ReadsLine-end :
      (s s' : State) (rounds c : ℕ) (line : List ℕ)
      → pending s ≡ c ∷ pending s'
      → (c == newline) ≡ true
      → ReadsLine s (suc rounds) line (returned (suc (length line), some (line ++ c ∷ []), s'))
  ReadsLine-end s s' rounds c line e t =
      let front = first_line-newline c rounds (pending s) (pending s') e t in
      (
        ap (λ xs. line ++ xs) (sym front),
        omega (arith, ap line_count front, line_count-one c t),
        e ∙ sym (ap (λ xs. xs ++ pending s') front),
        inr (omega (arith, length-append line (c ∷ []))),
      )

  ReadsLine-next :
      (s s' : State) (rounds c : ℕ) (line : List ℕ)
      → pending s ≡ c ∷ pending s'
      → (c == newline) ≡ false
      → (r : Ran (ℕ × Option (List ℕ) × State)) → ReadsLine s' rounds (line ++ c ∷ []) r
      → ReadsLine s (suc rounds) line r
  ReadsLine-next s s' rounds c line e f (returned (n, some xs, t))
        (whole, number, rest, some_left) =
      let front = first_line-other c rounds (pending s) (pending s') e f in
      let fl = first_line rounds (pending s') in
      let all = whole ∙ append_assoc line (c ∷ []) fl ∙ ap (λ ys. line ++ ys) (sym front) in
      (
        all,
        omega (
          arith,
          number,
          length-append line (c ∷ []),
          ap line_count front,
          line_count-newline c fl f,
        ),
        e ∙ ap (λ ys. c ∷ ys) rest ∙ sym (ap (λ ys. ys ++ pending t) front),
        inr (
            omega (
              arith,
              ap length whole,
              length-append (line ++ c ∷ []) fl,
              length-append line (c ∷ []),
            )),
      )
  ReadsLine-next s s' rounds c line e f (returned (n, none, t)) (empty, z, before, after) =
      absurd (omega (arith, ap length empty, length-append line (c ∷ [])))
  ReadsLine-next s s' rounds c line e f minus_one failed = failed
  ReadsLine-next s s' rounds c line e f out_of_fuel failed = failed

  ReadsLine-stop :
      (s s' : State) (rounds : ℕ) (line : List ℕ)
      → pending s ≡ []
      → pending s ≡ pending s'
      → ReadsLine s (suc rounds) line (
          if suc (length line) == 1
          then returned (0, none, s')
          else returned (suc (length line), some line, s'))
  unfolding line_count
  ReadsLine-stop s s' rounds [] e e' = (refl, refl, e, sym e' ∙ e)
  ReadsLine-stop s s' rounds (x ∷ line) e e' =
      let front = first_line-nil rounds (pending s) e in
      rw (not_first (length line)) (
        sym (append-nil (x ∷ line)) ∙ ap (λ ys. (x ∷ line) ++ ys) (sym front),
        omega (arith, ap line_count front),
        e' ∙ sym (ap (λ ys. ys ++ pending s') front),
        inr (omega arith),
      )

  after_char-ReadsLine :
      (again : State → ℕ → List ℕ → Ran (ℕ × Option (List ℕ) × State)) (s : State) (rounds : ℕ)
      (line : List ℕ)
      → ((s' : State) (ys : List ℕ) → ReadsLine s' rounds ys (again s' (suc (length ys)) ys))
      → (r : ReadResult) → (read s 1).0 ≡ r
      → ReadsLine s (suc rounds) line (after_char again r (read s 1).1 (suc (length line)) line)
  unfolding after_char
  after_char-ReadsLine again s rounds line next (read_failed eintr) e = (s, 1, eintr, e)
  after_char-ReadsLine again s rounds line next (got []) e =
      ReadsLine-stop s (read s 1).1 rounds line (got_end s 1 e (omega arith)) (got_front s 1 [] e).0
  after_char-ReadsLine again s rounds line next (got (c ∷ cs)) e =
      let (front, fits, calm) = got_front s 1 (c ∷ cs) e in
      let one = char_of c cs (pending (read s 1).1) (pending s) front fits in
      elim (Bool-cases (c == newline)) [
        | inl t ↦ rw t (ReadsLine-end s (read s 1).1 rounds c line one t)
        | inr f ↦ rw f (ReadsLine-next s (read s 1).1 rounds c line one f _ (next_line f))
      ]
    where
      next_line :
          (c == newline) ≡ false
          → ReadsLine
              (read s 1).1
              rounds
              (line ++ c ∷ [])
              (again (read s 1).1 (suc (suc (length line))) (line ++ c ∷ []))
      next_line f = rw (sym (length-snoc line c)) (next (read s 1).1 (line ++ c ∷ []))

  line_loop-ReadsLine :
      (rounds : ℕ) (s : State) (line : List ℕ)
      → ReadsLine s rounds line (line_loop rounds s (suc (length line)) line)
  unfolding line_loop first_line line_count
  line_loop-ReadsLine zero s line = (sym (append-nil line), omega arith, refl, inl refl)
  line_loop-ReadsLine (suc rounds) s line =
      after_char-ReadsLine (line_loop rounds) s rounds line (line_loop-ReadsLine rounds)
        (read s 1).0 refl

  -- `rio_readlineb` always ends, and unless some `read` fails it has read the front of the stream up to
  -- its first newline, that included, or `maxlen - 1` bytes if there is none in them, or all that is
  -- left; the rest stays in the stream. It returns the number of the bytes if the last is a newline,
  -- and else one more. It touches `usrbuf` unless nothing is left and `maxlen` is above 1, when it
  -- returns 0.
  pub readlineb-ReadsLine :
      (s : State) (maxlen : ℕ) → ReadsLine s (maxlen - 1) [] (readlineb s maxlen)
  unfolding readlineb
  readlineb-ReadsLine s maxlen = line_loop-ReadsLine (maxlen - 1) s []
