-- ===== src/Rio/Unbuffered.antt =====
-- web_server/segel.c: `rio_readn` and `rio_writen`.
use operating_system_related.Prelude.{
  take-append-drop, length-drop, ℕ, zero, suc, ◌+◌, ◌-◌, ◌<◌, ◌≤◌, ◌≡◌, refl, sym, ap, ◌∙◌, ◌≢◌,
  true, false, List, [], ◌∷◌, ◌++◌, arith, length, take, drop, if◌then◌else◌, ◌==◌, take-append,
  drop-append, take-nil, drop-nil,
}
use mathlib.Core.List.{append_assoc, append-nil}
use mathlib.Core.Path.{subst}
use native.Mathlib.Decide.{ℕ_discrete}
use operating_system_related.Rio.{
  ReadResult, got, read_failed, WriteResult, wrote, write_failed, Input, Output, Ran, returned,
  minus_one, out_of_fuel,
}

not_empty : (n : ℕ) → n ≢ 0 → (n == 0) ≡ false
not_empty n h = ground arith

module _ (input : Input) where
  open input use {State, read, pending, patience, got_front, got_end, interrupted}

  -- What follows one `read` in the loop: `again` is the next round, with `nleft` bytes left and the
  -- bytes `buf` read so far.
  unfoldable pub after_read :
      (again : State → (nleft : ℕ) → (buf : List ℕ) → Ran (List ℕ × State))
      → ReadResult
      → State
      → (nleft : ℕ) → (buf : List ℕ) → Ran (List ℕ × State)
  after_read again (read_failed true) s nleft buf = again s nleft buf
  after_read again (read_failed false) s nleft buf = minus_one
  after_read again (got []) s nleft buf = returned (buf, s)
  after_read again (got (x ∷ xs)) s nleft buf = again s (nleft - length (x ∷ xs)) (buf ++ x ∷ xs)

  -- `rio_readn`: the returned list is what is in `usrbuf`, and its length the returned number.
  unfoldable pub readn_loop :
      (fuel : ℕ) → State → (nleft : ℕ) → (buf : List ℕ) → Ran (List ℕ × State)
  unfolding after_read
  readn_loop zero s nleft buf = out_of_fuel
  readn_loop (suc fuel) s nleft buf =
      let again = readn_loop fuel in
      let (r, s') = read s nleft in
      if nleft == 0 then returned (buf, s) else after_read again r s' nleft buf

  unfoldable pub readn : (fuel : ℕ) → State → (n : ℕ) → Ran (List ℕ × State)
  unfolding readn_loop
  readn fuel s n = readn_loop fuel s n []

  -- The loop has read the next bytes of the input, or some `read` failed.
  abbrev pub ReadsNext : State → ℕ → List ℕ → Ran (List ℕ × State) → Type 0
  ReadsNext s n buf (returned (xs, s')) =
      (xs ≡ buf ++ take n (pending s)) × (pending s' ≡ drop n (pending s))
  ReadsNext s n buf minus_one = (t : State) × (k : ℕ) × ((read t k).0 ≡ read_failed false)
  ReadsNext s n buf out_of_fuel = ⊥

  ReadsNext-same :
      {s s' : State} (n : ℕ) (buf : List ℕ)
      → pending s' ≡ pending s
      → (r : Ran (List ℕ × State)) → ReadsNext s' n buf r
      → ReadsNext s n buf r
  ReadsNext-same n buf e (returned (xs, t)) (a, b) =
      (a ∙ ap (λ ys. buf ++ take n ys) e, b ∙ ap (drop n) e)
  ReadsNext-same n buf e minus_one f = f
  ReadsNext-same n buf e out_of_fuel f = f

  -- A front of the input that is in the buffer already.
  ReadsNext-front :
      (s s' : State) (n : ℕ) (buf xs : List ℕ)
      → pending s ≡ xs ++ pending s'
      → length xs ≤ n
      → (r : Ran (List ℕ × State)) → ReadsNext s' (n - length xs) (buf ++ xs) r
      → ReadsNext s n buf r
  ReadsNext-front s s' n buf xs e h (returned (ys, t)) (a, b) = (
    a
        ∙ append_assoc buf xs (take (n - length xs) (pending s'))
        ∙ ap (λ zs. buf ++ zs) (sym (ap (take n) e ∙ take-append n xs (pending s') h)),
    b ∙ sym (ap (drop n) e ∙ drop-append n xs (pending s') h),
  )
  ReadsNext-front s s' n buf xs e h minus_one f = f
  ReadsNext-front s s' n buf xs e h out_of_fuel f = f

  after_read-ReadsNext :
      (again : State → ℕ → List ℕ → Ran (List ℕ × State)) (s : State) (n : ℕ) (buf : List ℕ)
      → n ≢ 0
      → ((s' : State) (m : ℕ) (ys : List ℕ)
          → m + patience s' < n + patience s
          → ReadsNext s' m ys (again s' m ys))
      → (r : ReadResult) → (read s n).0 ≡ r
      → ReadsNext s n buf (after_read again r (read s n).1 n buf)
  unfolding after_read
  after_read-ReadsNext again s n buf ne next (read_failed true) e =
      let (same, less) = interrupted s n e in
      ReadsNext-same n buf same _ (next (read s n).1 n buf (omega (arith, less)))
  after_read-ReadsNext again s n buf ne next (read_failed false) e = (s, n, e)
  after_read-ReadsNext again s n buf ne next (got []) e =
      let none_left = got_end s n e (omega arith) in
      (
        sym (rw (none_left, take-nil, append-nil)),
        sym (got_front s n [] e).0 ∙ sym (rw (none_left, drop-nil)),
      )
  after_read-ReadsNext again s n buf ne next (got (x ∷ xs)) e =
      let (front, fits, less) = got_front s n (x ∷ xs) e in
      ReadsNext-front s (read s n).1 n buf (x ∷ xs) front fits _
        (next (read s n).1 (n - length (x ∷ xs)) (buf ++ x ∷ xs) (omega (arith, fits, less)))

  readn_loop-ReadsNext :
      (fuel : ℕ) (s : State) (n : ℕ) (buf : List ℕ)
      → n + patience s < fuel
      → ReadsNext s n buf (readn_loop fuel s n buf)
  unfolding readn_loop
  readn_loop-ReadsNext zero s n buf h = absurd (omega arith)
  readn_loop-ReadsNext (suc fuel) s n buf h = elim (ℕ_discrete n 0) [
    | yes z ↦ rw z (sym (append-nil buf), refl)
    | no ne ↦ rw (not_empty n ne) (
        after_read-ReadsNext (readn_loop fuel) s n buf ne
          (λ s' m ys less. readn_loop-ReadsNext fuel s' m ys (omega arith)) (read s n).0 refl)
  ]

  -- With fuel for the bytes asked for and the interruptions, `rio_readn` ends, and unless some `read`
  -- fails it returns the next `n` bytes of the input, or all that are left if they are fewer, and
  -- leaves the rest.
  pub readn-ReadsNext :
      (fuel : ℕ) (s : State) (n : ℕ) → n + patience s < fuel → ReadsNext s n [] (readn fuel s n)
  unfolding readn
  readn-ReadsNext fuel s n h = readn_loop-ReadsNext fuel s n [] h

module _ (output : Output) where
  open output use {State, write, written, patience, wrote_front, interrupted}

  -- What follows one `write` in the loop: `again` is the next round, with the bytes that are left.
  unfoldable pub after_write :
      (again : State → (bufp : List ℕ) → Ran State)
      → WriteResult
      → State
      → (bufp : List ℕ) → Ran State
  after_write again (write_failed true) s bufp = again s bufp
  after_write again (write_failed false) s bufp = minus_one
  after_write again (wrote k) s bufp = again s (drop k bufp)

  -- `rio_writen`, whose result is `n` when it returns.
  unfoldable pub writen : (fuel : ℕ) → State → (bufp : List ℕ) → Ran State
  unfolding after_write
  writen zero s bufp = out_of_fuel
  writen (suc fuel) s [] = returned s
  writen (suc fuel) s (x ∷ bufp) =
      let again = writen fuel in
      let (r, s') = write s (x ∷ bufp) in after_write again r s' (x ∷ bufp)

  -- All the bytes have gone out in order, or some `write` failed.
  abbrev pub WritesAll : State → List ℕ → Ran State → Type 0
  WritesAll s bufp (returned s') = written s' ≡ written s ++ bufp
  WritesAll s bufp minus_one = (t : State) × (xs : List ℕ) × ((write t xs).0 ≡ write_failed false)
  WritesAll s bufp out_of_fuel = ⊥

  WritesAll-front :
      (s s' : State) (front back : List ℕ)
      → written s' ≡ written s ++ front
      → (r : Ran State) → WritesAll s' back r
      → WritesAll s (front ++ back) r
  WritesAll-front s s' front back e (returned t) a =
      a ∙ ap (λ xs. xs ++ back) e ∙ append_assoc (written s) front back
  WritesAll-front s s' front back e minus_one f = f
  WritesAll-front s s' front back e out_of_fuel f = f

  after_write-WritesAll :
      (again : State → List ℕ → Ran State) (s : State) (bufp : List ℕ)
      → ((s' : State) (ys : List ℕ)
          → length ys + patience s' < length bufp + patience s
          → WritesAll s' ys (again s' ys))
      → (r : WriteResult) → (write s bufp).0 ≡ r
      → WritesAll s bufp (after_write again r (write s bufp).1 bufp)
  unfolding after_write
  after_write-WritesAll again s bufp next (write_failed true) e =
      let (same, less) = interrupted s bufp e in
      WritesAll-front s (write s bufp).1 [] bufp (same ∙ sym (append-nil (written s))) _
        (next (write s bufp).1 bufp (omega (arith, less)))
  after_write-WritesAll again s bufp next (write_failed false) e = (s, bufp, e)
  after_write-WritesAll again s bufp next (wrote k) e =
      let (front, pos, fits, less) = wrote_front s bufp k e in
      subst (λ xs. WritesAll s xs (again (write s bufp).1 (drop k bufp))) (take-append-drop k bufp)
        (WritesAll-front s (write s bufp).1 (take k bufp) (drop k bufp) front _ (
          next (write s bufp).1 (drop k bufp) (omega (arith, pos, fits, less, length-drop k bufp))))

  -- With fuel for the bytes and the interruptions, `rio_writen` ends, and unless some `write` fails all
  -- the bytes have gone out, once and in their order.
  pub writen-WritesAll :
      (fuel : ℕ) (s : State) (bufp : List ℕ)
      → length bufp + patience s < fuel
      → WritesAll s bufp (writen fuel s bufp)
  unfolding writen
  writen-WritesAll zero s bufp h = absurd (omega arith)
  writen-WritesAll (suc fuel) s [] h = sym (append-nil (written s))
  writen-WritesAll (suc fuel) s (x ∷ bufp) h =
      after_write-WritesAll (writen fuel) s (x ∷ bufp)
        (λ s' ys less. writen-WritesAll fuel s' ys (omega arith)) (write s (x ∷ bufp)).0 refl
