-- ===== src/Rio/Buffered.antt =====
-- web_server/segel.c: `rio_t`, `rio_readinitb` and `rio_read`.
use operating_system_related.Prelude.{
  ℕ, zero, suc, ◌<◌, ◌≤◌, ◌≡◌, refl, sym, ap, ◌∙◌, ◌≢◌, ◌⊎◌, inl, inr, true, false, List, [], ◌∷◌,
  ◌++◌, arith, length, take, drop, take-append-drop, length-take,
}
use Prim.Native.Nat.{min}
use mathlib.Core.List.{append_assoc}
use operating_system_related.Rio.{
  ReadResult, got, read_failed, Input, Ran, returned, minus_one, out_of_fuel,
}

-- `rio_t`: the descriptor, and the `rio_cnt` bytes from `rio_bufptr` on. A count below 0, which a
-- failed read leaves, stands for no bytes too.
pub record Buffer (S : Type 0) : Type 0 where
  pub fd : S
  pub unread : List ℕ

abbrev pub rio_bufsize : ℕ
rio_bufsize = 8192

got_eq : {xs ys : List ℕ} → got xs ≡ got ys → xs ≡ ys
got_eq e = cc

module _ (input : Input) where
  open input use {State, read, pending, patience, got_front, got_end, interrupted}

  unfoldable pub readinitb : State → Buffer State
  readinitb fd = record { fd = fd; unread = [] }

  -- What is still to come through the buffer.
  abbrev pub stream : Buffer State → List ℕ
  stream b = b.unread ++ pending b.fd

  -- One round of the loop of `rio_read` on an empty buffer.
  unfoldable pub after_refill :
      (again : State → Ran (Buffer State)) → ReadResult → State → Ran (Buffer State)
  after_refill again (read_failed true) fd = again fd
  after_refill again (read_failed false) fd = minus_one
  after_refill again (got xs) fd = returned (record { fd = fd; unread = xs })

  -- The loop: it leaves the buffer empty only at the end of the input.
  unfoldable pub refill : (fuel : ℕ) → State → Ran (Buffer State)
  unfolding after_refill
  refill zero fd = out_of_fuel
  refill (suc fuel) fd =
      let again = refill fuel in let (r, fd') = read fd rio_bufsize in after_refill again r fd'

  -- The loop is not entered with bytes in the buffer.
  unfoldable pub fill_from : (unread : List ℕ) → Buffer State → Ran (Buffer State)
  unfolding refill
  fill_from [] b = refill (suc (patience b.fd)) b.fd
  fill_from (x ∷ xs) b = returned b

  -- The copy at the end of `rio_read`. At the end of the input it copies nothing.
  unfoldable pub copy_out : Ran (Buffer State) → Buffer State → (n : ℕ) → ReadResult × Buffer State
  copy_out (returned b) old n = (got (take n b.unread), record b { unread = drop n b.unread })
  copy_out minus_one old n = (read_failed false, old)
  copy_out out_of_fuel old n = (read_failed false, old)

  unfoldable pub rio_read : Buffer State → (n : ℕ) → ReadResult × Buffer State
  unfolding fill_from copy_out
  rio_read b n = copy_out (fill_from b.unread b) b n

  -- A filled buffer stands for the same stream, and is empty only at its end.
  record Filled (b b' : Buffer State) : Type 0 where
    same : stream b' ≡ stream b
    calm : patience b'.fd ≤ patience b.fd
    ready : (0 < length b'.unread) ⊎ (stream b ≡ [])

  abbrev Fills : Buffer State → Ran (Buffer State) → Type 0
  Fills b (returned b') = Filled b b'
  Fills b minus_one = (t : State) × (k : ℕ) × ((read t k).0 ≡ read_failed false)
  Fills b out_of_fuel = ⊥

  Fills-from :
      (b c : Buffer State)
      → stream b ≡ stream c
      → patience b.fd ≤ patience c.fd
      → (r : Ran (Buffer State)) → Fills b r
      → Fills c r
  Fills-from b c e le (returned b') f = record {
    same = f.same ∙ e;
    calm = omega (arith, f.calm);
    ready = ready_from f.ready;
  }
    where
      ready_from :
          (0 < length b'.unread) ⊎ (stream b ≡ []) → (0 < length b'.unread) ⊎ (stream c ≡ [])
      ready_from (inl h) = inl h
      ready_from (inr h) = inr (sym e ∙ h)
  Fills-from b c e le minus_one f = f
  Fills-from b c e le out_of_fuel f = f

  after_refill-Fills :
      (again : State → Ran (Buffer State)) (fd : State)
      → ((fd' : State) → patience fd' < patience fd → Fills (readinitb fd') (again fd'))
      → (r : ReadResult) → (read fd rio_bufsize).0 ≡ r
      → Fills (readinitb fd) (after_refill again r (read fd rio_bufsize).1)
  unfolding after_refill readinitb
  after_refill-Fills again fd next (read_failed true) e =
      let (same, less) = interrupted fd rio_bufsize e in
      Fills-from (readinitb (read fd rio_bufsize).1) (readinitb fd) same (omega (arith, less)) _
        (next (read fd rio_bufsize).1 less)
  after_refill-Fills again fd next (read_failed false) e = (fd, rio_bufsize, e)
  after_refill-Fills again fd next (got []) e =
      let (front, fits, calm) = got_front fd rio_bufsize [] e in
      record { same = sym front; calm = calm; ready = inr (got_end fd rio_bufsize e (omega arith)) }
  after_refill-Fills again fd next (got (x ∷ xs)) e =
      let (front, fits, calm) = got_front fd rio_bufsize (x ∷ xs) e in
      record { same = sym front; calm = calm; ready = inl (omega arith) }

  refill-Fills :
      (fuel : ℕ) (fd : State) → patience fd < fuel → Fills (readinitb fd) (refill fuel fd)
  unfolding refill
  refill-Fills zero fd h = absurd (omega arith)
  refill-Fills (suc fuel) fd h =
      after_refill-Fills (refill fuel) fd (λ fd' less. refill-Fills fuel fd' (omega arith))
        (read fd rio_bufsize).0 refl

  fill_from-Fills :
      (b : Buffer State) (unread : List ℕ) → b.unread ≡ unread → Fills b (fill_from unread b)
  unfolding fill_from readinitb
  fill_from-Fills b [] e =
      Fills-from (readinitb b.fd) b (sym (ap (λ xs. xs ++ pending b.fd) e)) (omega arith) _
        (refill-Fills (suc (patience b.fd)) b.fd (omega arith))
  fill_from-Fills b (x ∷ xs) e = record {
    same = refl;
    calm = omega arith;
    ready = inl (omega (arith, ap length e));
  }

  Front : Buffer State → ℕ → List ℕ → Buffer State → Type 0
  Front b n xs b' =
      (stream b ≡ xs ++ stream b') × (length xs ≤ n) × (patience b'.fd ≤ patience b.fd)

  copy_out-Front :
      (b : Buffer State) (n : ℕ) (xs : List ℕ) (r : Ran (Buffer State))
      → Fills b r
      → (copy_out r b n).0 ≡ got xs
      → Front b n xs (copy_out r b n).1
  unfolding copy_out Front
  copy_out-Front b n xs (returned b') f e =
      let copied = got_eq e in
      (
        sym f.same
            ∙ ap (λ ys. ys ++ pending b'.fd) (sym (take-append-drop n b'.unread))
            ∙ append_assoc (take n b'.unread) (drop n b'.unread) (pending b'.fd)
            ∙ ap (λ ys. ys ++ (drop n b'.unread ++ pending b'.fd)) copied,
        omega (arith, ap length copied, length-take n b'.unread),
        f.calm,
      )
  copy_out-Front b n xs minus_one f e = cc
  copy_out-Front b n xs out_of_fuel f e = cc

  at_end :
      (b b' : Buffer State) (n : ℕ)
      → min n (length b'.unread) ≡ 0
      → 0 < n
      → (0 < length b'.unread) ⊎ (stream b ≡ [])
      → stream b ≡ []
  at_end b b' n e h (inl some_left) = absurd (omega arith)
  at_end b b' n e h (inr none_left) = none_left

  copy_out-end :
      (b : Buffer State) (n : ℕ) (r : Ran (Buffer State))
      → Fills b r
      → (copy_out r b n).0 ≡ got []
      → 0 < n
      → stream b ≡ []
  unfolding copy_out
  copy_out-end b n (returned b') f e h =
      at_end b b' n (omega (arith, ap length (got_eq e), length-take n b'.unread)) h f.ready
  copy_out-end b n minus_one f e h = cc
  copy_out-end b n out_of_fuel f e h = cc

  copy_out-calm :
      (b : Buffer State) (n : ℕ) (r : Ran (Buffer State)) → (copy_out r b n).0 ≢ read_failed true
  unfolding copy_out
  copy_out-calm b n (returned b') e = cc
  copy_out-calm b n minus_one e = cc
  copy_out-calm b n out_of_fuel e = cc

  -- What `rio_read` copies out is the front of the stream.
  pub rio_read-front :
      (b : Buffer State) (n : ℕ) (xs : List ℕ)
      → (rio_read b n).0 ≡ got xs
      → (stream b ≡ xs ++ stream (rio_read b n).1)
        × (length xs ≤ n)
        × (patience (rio_read b n).1.fd ≤ patience b.fd)
  unfolding rio_read Front
  rio_read-front b n xs e =
      copy_out-Front b n xs (fill_from b.unread b) (fill_from-Fills b b.unread refl) e

  -- It copies nothing only at the end of the stream.
  pub rio_read-end : (b : Buffer State) (n : ℕ) → (rio_read b n).0 ≡ got [] → 0 < n → stream b ≡ []
  unfolding rio_read
  rio_read-end b n e h =
      copy_out-end b n (fill_from b.unread b) (fill_from-Fills b b.unread refl) e h

  -- It never fails by an interruption.
  pub rio_read-calm : (b : Buffer State) (n : ℕ) → (rio_read b n).0 ≢ read_failed true
  unfolding rio_read
  rio_read-calm b n = copy_out-calm b n (fill_from b.unread b)

  copy_out-failed :
      (b : Buffer State) (n : ℕ) (r : Ran (Buffer State))
      → Fills b r
      → (copy_out r b n).0 ≡ read_failed false
      → (t : State) × (k : ℕ) × ((read t k).0 ≡ read_failed false)
  unfolding copy_out
  copy_out-failed b n (returned b') f e = cc
  copy_out-failed b n minus_one f e = f
  copy_out-failed b n out_of_fuel f e = absurd f

  -- It fails only after a `read` of the descriptor failed.
  pub rio_read-failed :
      (b : Buffer State) (n : ℕ)
      → (rio_read b n).0 ≡ read_failed false
      → (t : State) × (k : ℕ) × ((read t k).0 ≡ read_failed false)
  unfolding rio_read
  rio_read-failed b n e =
      copy_out-failed b n (fill_from b.unread b) (fill_from-Fills b b.unread refl) e
