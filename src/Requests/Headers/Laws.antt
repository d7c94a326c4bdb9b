-- ===== src/Requests/Headers/Laws.antt =====
-- web_server/request.c: `requestReadhdrs` on the headers of a request, and at the end of the input.
use operating_system_related.Prelude.{
  ℕ, zero, suc, ◌-◌, ◌<◌, ◌≡◌, refl, sym, ap, ◌∙◌, ◌≢◌, ◌⊎◌, Bool, false, Option, none, some, List,
  [], ◌∷◌, ◌++◌, arith, length, length-append, ◌==◌, Bool-cases, inl, inr,
}
use mathlib.Core.List.{append_assoc}
use operating_system_related.Prelude.Text.{Text, before_byte, same_text, empty_front, rest_front}
use operating_system_related.Rio.{Input, Ran, returned, minus_one, out_of_fuel, read_failed}
use operating_system_related.Rio.Lines.{
  newline, first_line, readlineb, ReadsLine, readlineb-ReadsLine,
}
use operating_system_related.Requests.{maxline}
use operating_system_related.Requests.Stats.{crlf}
use operating_system_related.Requests.Headers.{after_header, readhdrs}

-- A line that `rio_readlineb` reads as a whole: its only newline is its last byte, it holds no 0, and
-- it fits into the array.
pub record IsLine (line : Text) : Type 0 where
  pub body : Text
  pub ends : line ≡ body ++ newline ∷ []
  pub no_newline : before_byte newline body ≡ body
  pub no_nul : before_byte 0 line ≡ line
  pub fits : length line < maxline

-- Lines, none of which is empty, as one text.
abbrev pub AreHeaders : List Text → Type 0
AreHeaders [] = Unit
AreHeaders (line ∷ lines) = IsLine line × (same_text line crlf ≡ false) × AreHeaders lines

abbrev pub all_lines : List Text → Text
all_lines [] = []
all_lines (line ∷ lines) = line ++ all_lines lines

append-cancel : (xs ys zs : Text) → xs ++ ys ≡ xs ++ zs → ys ≡ zs
append-cancel [] ys zs e = e
append-cancel (x ∷ xs) ys zs e = append-cancel xs ys zs cc

first_line-body :
    (most : ℕ) (body rest : Text)
    → before_byte newline body ≡ body
    → length body < most
    → first_line most (body ++ newline ∷ rest) ≡ body ++ newline ∷ []
unfolding first_line before_byte
first_line-body zero body rest h less = absurd (omega arith)
first_line-body (suc most) [] rest h less = refl
first_line-body (suc most) (x ∷ body) rest h less = elim (Bool-cases (x == newline)) [
  | inl t ↦ absurd (empty_front newline x body t h)
  | inr f ↦ rw f (
      ap (λ ys. x ∷ ys)
        (first_line-body most body rest (rest_front newline x body f h) (omega arith)))
]

first_line-IsLine :
    (line rest : Text) → IsLine line → first_line (maxline - 1) (line ++ rest) ≡ line
first_line-IsLine line rest h =
    ap (λ xs. first_line (maxline - 1) (xs ++ rest)) h.ends
    ∙ ap (first_line (maxline - 1)) (append_assoc h.body (newline ∷ []) rest)
    ∙ first_line-body (maxline - 1) h.body rest h.no_newline
        (omega (arith, h.fits, ap length h.ends, length-append h.body (newline ∷ [])))
    ∙ sym h.ends

crlf-IsLine : IsLine crlf
unfolding before_byte
crlf-IsLine = record {
  body = 13 ∷ [];
  ends = refl;
  no_newline = refl;
  no_nul = refl;
  fits = omega arith;
}

module _ (input : Input) where
  open input use {State, read, pending}

  -- Some `read` fails.
  abbrev pub Failed : Type 0
  Failed = (t : State) × (k : ℕ) × (eintr : Bool) × ((read t k).0 ≡ read_failed eintr)

  -- The line that `rio_readlineb` gives where the stream starts with a whole one.
  abbrev pub ReadsWhole : (line rest : Text) → Ran (ℕ × Option Text × State) → Type 0
  ReadsWhole line rest (returned (n, some xs, s')) = (xs ≡ line) × (pending s' ≡ rest)
  ReadsWhole line rest (returned (n, none, s')) = ⊥
  ReadsWhole line rest minus_one = Failed
  ReadsWhole line rest out_of_fuel = ⊥

  ReadsLine-whole :
      (s : State) (line rest : Text)
      → IsLine line
      → pending s ≡ line ++ rest
      → (r : Ran (ℕ × Option Text × State)) → ReadsLine input s (maxline - 1) [] r
      → ReadsWhole line rest r
  ReadsLine-whole s line rest h e (returned (n, some xs, s')) (whole, number, left, some_left) =
      let front = ap (first_line (maxline - 1)) e ∙ first_line-IsLine line rest h in
      (
        whole ∙ front,
        append-cancel line (pending s') rest (sym (left ∙ ap (λ ys. ys ++ pending s') front) ∙ e),
      )
  ReadsLine-whole s line rest h e (returned (n, none, s')) (a, b, none_left, c) = absurd (
      omega (
        arith,
        ap length (sym none_left ∙ e),
        length-append line rest,
        ap length h.ends,
        length-append h.body (newline ∷ []),
      ))
  ReadsLine-whole s line rest h e minus_one failed = failed
  ReadsLine-whole s line rest h e out_of_fuel failed = failed

  pub readlineb-ReadsWhole :
      (s : State) (line rest : Text)
      → IsLine line
      → pending s ≡ line ++ rest
      → ReadsWhole line rest (readlineb input s maxline)
  readlineb-ReadsWhole s line rest h e =
      ReadsLine-whole s line rest h e _ (readlineb-ReadsLine input s maxline)

  -- The headers have been read and the rest is left, or some `read` failed.
  abbrev pub LeavesRest : (rest : Text) → Ran State → Type 0
  LeavesRest rest (returned s') = pending s' ≡ rest
  LeavesRest rest minus_one = Failed
  LeavesRest rest out_of_fuel = ⊥

  after_header-last :
      (again : State → Text → Ran State) (buf rest : Text) (r : Ran (ℕ × Option Text × State))
      → ReadsWhole crlf rest r
      → LeavesRest rest (after_header input again r buf)
  unfolding after_header before_byte same_text
  after_header-last again buf rest (returned (n, some xs, s')) (e, left) = rw e left
  after_header-last again buf rest (returned (n, none, s')) never = absurd never
  after_header-last again buf rest minus_one failed = failed
  after_header-last again buf rest out_of_fuel failed = failed

  after_header-next :
      (again : State → Text → Ran State) (buf line rest left : Text)
      → IsLine line
      → same_text line crlf ≡ false
      → ((s' : State) (buf' : Text) → pending s' ≡ rest → LeavesRest left (again s' buf'))
      → (r : Ran (ℕ × Option Text × State)) → ReadsWhole line rest r
      → LeavesRest left (after_header input again r buf)
  unfolding after_header
  after_header-next again buf line rest left h ne next (returned (n, some xs, s')) (e, more) =
      rw (e, h.no_nul, ne) (next s' _ more)
  after_header-next again buf line rest left h ne next (returned (n, none, s')) never = absurd never
  after_header-next again buf line rest left h ne next minus_one failed = failed
  after_header-next again buf line rest left h ne next out_of_fuel failed = failed

  -- Where the stream starts with headers, one whole line each and none of them empty, and then an
  -- empty line, `requestReadhdrs` ends within one round for each, and unless some `read` fails it
  -- leaves exactly what comes after the empty line.
  pub readhdrs-LeavesRest :
      (fuel : ℕ) (s : State) (buf : Text) (headers : List Text) (rest : Text)
      → AreHeaders headers
      → pending s ≡ all_lines headers ++ (crlf ++ rest)
      → length headers < fuel
      → LeavesRest rest (readhdrs input fuel s buf)
  unfolding readhdrs
  readhdrs-LeavesRest zero s buf headers rest h e less = absurd (omega arith)
  readhdrs-LeavesRest (suc fuel) s buf [] rest h e less =
      after_header-last (readhdrs input fuel) buf rest _
        (readlineb-ReadsWhole s crlf rest crlf-IsLine e)
  readhdrs-LeavesRest (suc fuel) s buf (line ∷ headers) rest (h, ne, hs) e less =
      after_header-next (readhdrs input fuel) buf line (all_lines headers ++ (crlf ++ rest)) rest h
        ne (λ s' buf' e'. readhdrs-LeavesRest fuel s' buf' headers rest hs e' (omega arith)) _
        (readlineb-ReadsWhole s line (all_lines headers ++ (crlf ++ rest)) h
          (e ∙ append_assoc line (all_lines headers) (crlf ++ rest)))

  AtEnd : Ran (ℕ × Option Text × State) → Type 0
  AtEnd (returned (n, some xs, s')) = ⊥
  AtEnd (returned (n, none, s')) = pending s' ≡ []
  AtEnd minus_one = Unit
  AtEnd out_of_fuel = Unit

  ReadsLine-AtEnd :
      (s : State)
      → pending s ≡ []
      → (r : Ran (ℕ × Option Text × State)) → ReadsLine input s (maxline - 1) [] r
      → AtEnd r
  unfolding AtEnd first_line
  ReadsLine-AtEnd s e (returned (n, some xs, s')) (whole, number, left, some_left) =
      no_line (ap length (whole ∙ ap (first_line (maxline - 1)) e)) some_left
    where
      no_line : length xs ≡ 0 → (maxline - 1 ≡ 0) ⊎ (0 < length xs) → ⊥
      no_line z (inl h) = omega arith
      no_line z (inr h) = omega arith
  ReadsLine-AtEnd s e (returned (n, none, s')) (a, b, none_left, c) = c
  ReadsLine-AtEnd s e minus_one failed = tt
  ReadsLine-AtEnd s e out_of_fuel failed = tt

  after_header-end :
      (again : State → Text → Ran State) (buf : Text) (t : State)
      → same_text buf crlf ≡ false
      → ((s' : State) → pending s' ≡ [] → again s' buf ≢ returned t)
      → (r : Ran (ℕ × Option Text × State)) → AtEnd r
      → after_header input again r buf ≢ returned t
  unfolding after_header AtEnd
  after_header-end again buf t ne next (returned (n, some xs, s')) at_end e = absurd at_end
  after_header-end again buf t ne next (returned (n, none, s')) at_end e =
      next s' at_end (sym (rw ne refl) ∙ e)
  after_header-end again buf t ne next minus_one at_end e = cc
  after_header-end again buf t ne next out_of_fuel at_end e = cc

  -- At the end of the stream `requestReadhdrs` never returns, unless the array holds an empty line
  -- before: however many rounds it has, it is not done, or it exits on an error.
  pub readhdrs-never :
      (fuel : ℕ) (s t : State) (buf : Text)
      → pending s ≡ []
      → same_text buf crlf ≡ false
      → readhdrs input fuel s buf ≢ returned t
  unfolding readhdrs
  readhdrs-never zero s t buf e ne = λ h. cc
  readhdrs-never (suc fuel) s t buf e ne =
      after_header-end (readhdrs input fuel) buf t ne (λ s' e'. readhdrs-never fuel s' t buf e' ne)
        _ (ReadsLine-AtEnd s e _ (readlineb-ReadsLine input s maxline))
