-- ===== src/Rio/Script.antt =====
-- A descriptor to run the Rio package on: a script says of each call whether it is interrupted (`none`)
-- or moves at most so many bytes and one more. It shows that `Input` and `Output` can be had.
use operating_system_related.Prelude.{
  ℕ, suc, ◌<◌, ◌≤◌, ◌≡◌, refl, sym, ap, ◌∙◌, true, false, Option, none, some, List, [], ◌∷◌, ◌++◌,
  arith, length, take, drop, take-append-drop, length-take,
}
use Prim.Native.Nat.{min}
use operating_system_related.Rio.{
  ReadResult, got, read_failed, WriteResult, wrote, write_failed, Input, Output,
}

abbrev pub Script : Type 0
Script = List (Option ℕ) × List ℕ

unfoldable pub scripted_read : Script → ℕ → ReadResult × Script
scripted_read ([], bytes) n = (got (take n bytes), ([], drop n bytes))
scripted_read (none ∷ events, bytes) n = (read_failed true, (events, bytes))
scripted_read (some k ∷ events, bytes) n =
    (got (take (min n (suc k)) bytes), (events, drop (min n (suc k)) bytes))

got_eq : {xs ys : List ℕ} → got xs ≡ got ys → xs ≡ ys
got_eq e = cc

front_of :
    (n : ℕ) (bytes xs : List ℕ)
    → got (take n bytes) ≡ got xs
    → (bytes ≡ xs ++ drop n bytes) × (length xs ≤ n)
front_of n bytes xs e = (
  sym (take-append-drop n bytes) ∙ ap (λ ys. ys ++ drop n bytes) (got_eq e),
  omega (arith, ap length (got_eq e), length-take n bytes),
)

end_of : (n : ℕ) (bytes : List ℕ) → got (take n bytes) ≡ got [] → 0 < n → bytes ≡ []
end_of n [] e h = refl
end_of n (x ∷ xs) e h = absurd (omega (arith, ap length (got_eq e), length-take n (x ∷ xs)))

pub scripted_read-front :
    (s : Script) (n : ℕ) (xs : List ℕ)
    → (scripted_read s n).0 ≡ got xs
    → (s.1 ≡ xs ++ (scripted_read s n).1.1)
      × (length xs ≤ n)
      × (length (scripted_read s n).1.0 ≤ length s.0)
unfolding scripted_read
scripted_read-front ([], bytes) n xs e = let (a, b) = front_of n bytes xs e in (a, b, omega arith)
scripted_read-front (none ∷ events, bytes) n xs e = cc
scripted_read-front (some k ∷ events, bytes) n xs e =
    let (a, b) = front_of (min n (suc k)) bytes xs e in (a, omega (arith, b), omega arith)

pub scripted_read-end : (s : Script) (n : ℕ) → (scripted_read s n).0 ≡ got [] → 0 < n → s.1 ≡ []
unfolding scripted_read
scripted_read-end ([], bytes) n e h = end_of n bytes e h
scripted_read-end (none ∷ events, bytes) n e h = cc
scripted_read-end (some k ∷ events, bytes) n e h = end_of (min n (suc k)) bytes e (omega arith)

pub scripted_read-interrupted :
    (s : Script) (n : ℕ)
    → (scripted_read s n).0 ≡ read_failed true
    → ((scripted_read s n).1.1 ≡ s.1) × (length (scripted_read s n).1.0 < length s.0)
unfolding scripted_read
scripted_read-interrupted ([], bytes) n e = cc
scripted_read-interrupted (none ∷ events, bytes) n e = (refl, omega arith)
scripted_read-interrupted (some k ∷ events, bytes) n e = cc

abbrev pub scripted : Input
scripted = record {
  State = Script;
  read = scripted_read;
  pending = λ s. s.1;
  patience = λ s. length s.0;
  got_front = scripted_read-front;
  got_end = scripted_read-end;
  interrupted = scripted_read-interrupted;
}

unfoldable pub scripted_write : Script → List ℕ → WriteResult × Script
scripted_write ([], bytes) xs = (write_failed false, ([], bytes))
scripted_write (none ∷ events, bytes) xs = (write_failed true, (events, bytes))
scripted_write (some k ∷ events, bytes) [] = (write_failed false, (events, bytes))
scripted_write (some k ∷ events, bytes) (x ∷ xs) =
    (wrote (suc (min k (length xs))), (events, bytes ++ x ∷ take (min k (length xs)) xs))

wrote_eq : {j k : ℕ} → wrote j ≡ wrote k → j ≡ k
wrote_eq e = cc

pub scripted_write-front :
    (s : Script) (xs : List ℕ) (k : ℕ)
    → (scripted_write s xs).0 ≡ wrote k
    → ((scripted_write s xs).1.1 ≡ s.1 ++ take k xs)
      × (0 < k)
      × (k ≤ length xs)
      × (length (scripted_write s xs).1.0 ≤ length s.0)
unfolding scripted_write
scripted_write-front ([], bytes) xs k e = cc
scripted_write-front (none ∷ events, bytes) xs k e = cc
scripted_write-front (some j ∷ events, bytes) [] k e = cc
scripted_write-front (some j ∷ events, bytes) (x ∷ xs) k e =
    let same = wrote_eq e in
    (ap (λ m. bytes ++ take m (x ∷ xs)) same, omega (arith, same), omega (arith, same), omega arith)

pub scripted_write-interrupted :
    (s : Script) (xs : List ℕ)
    → (scripted_write s xs).0 ≡ write_failed true
    → ((scripted_write s xs).1.1 ≡ s.1) × (length (scripted_write s xs).1.0 < length s.0)
unfolding scripted_write
scripted_write-interrupted ([], bytes) xs e = cc
scripted_write-interrupted (none ∷ events, bytes) xs e = (refl, omega arith)
scripted_write-interrupted (some k ∷ events, bytes) [] e = cc
scripted_write-interrupted (some k ∷ events, bytes) (x ∷ xs) e = cc

abbrev pub script_output : Output
script_output = record {
  State = Script;
  write = scripted_write;
  written = λ s. s.1;
  patience = λ s. length s.0;
  wrote_front = scripted_write-front;
  interrupted = scripted_write-interrupted;
}
