-- ===== src/Rio.antt =====
-- web_server/segel.c: the Rio package, robust reads and writes. Bytes are numbers.
--
-- `read` and `write` are system calls: they are the parameter `Input` or `Output`, a state with what
-- the calls do to it, and with the parts of their documented behaviour that the code relies on. The
-- loops run on fuel; `patience` bounds how often the calls are interrupted.
pub mod Unbuffered
pub mod Buffered
pub mod Readnb
pub mod Lines
pub mod Script
mod Tests
use operating_system_related.Prelude.{
  ℕ, zero, suc, ◌+◌, ◌-◌, ◌<◌, ◌≤◌, ◌≡◌, ◌≢◌, Bool, true, false, List, [], ◌∷◌, ◌++◌, length, take,
}

-- The result of `read`: bytes (none at the end of the input), or -1 with `errno` equal to `EINTR` or
-- not.
pub data ReadResult : Type 0 where
  got : List ℕ → ReadResult
  read_failed : (eintr : Bool) → ReadResult

-- The result of `write`: how many bytes, more than none; or 0 or -1, with `errno` equal to `EINTR` or
-- not.
pub data WriteResult : Type 0 where
  wrote : ℕ → WriteResult
  write_failed : (eintr : Bool) → WriteResult

-- A descriptor that is read from. `pending` is what is still to come before the end of the input.
pub record Input : Type 1 where
  pub State : Type 0
  pub read : State → ℕ → ReadResult × State
  pub pending : State → List ℕ
  pub patience : State → ℕ
  pub got_front :
      (s : State) (n : ℕ) (xs : List ℕ)
      → (read s n).0 ≡ got xs
      → (pending s ≡ xs ++ pending (read s n).1)
        × (length xs ≤ n)
        × (patience (read s n).1 ≤ patience s)
  pub got_end : (s : State) (n : ℕ) → (read s n).0 ≡ got [] → 0 < n → pending s ≡ []
  pub interrupted :
      (s : State) (n : ℕ)
      → (read s n).0 ≡ read_failed true
      → (pending (read s n).1 ≡ pending s) × (patience (read s n).1 < patience s)

-- A descriptor that is written to. `written` is what has gone out.
pub record Output : Type 1 where
  pub State : Type 0
  pub write : State → List ℕ → WriteResult × State
  pub written : State → List ℕ
  pub patience : State → ℕ
  pub wrote_front :
      (s : State) (xs : List ℕ) (k : ℕ)
      → (write s xs).0 ≡ wrote k
      → (written (write s xs).1 ≡ written s ++ take k xs)
        × (0 < k)
        × (k ≤ length xs)
        × (patience (write s xs).1 ≤ patience s)
  pub interrupted :
      (s : State) (xs : List ℕ)
      → (write s xs).0 ≡ write_failed true
      → (written (write s xs).1 ≡ written s) × (patience (write s xs).1 < patience s)

-- How a loop ends: with a value, with -1, or out of fuel.
pub data Ran {ℓ} (A : Type ℓ) : Type ℓ where
  returned : A → Ran A
  minus_one : Ran A
  out_of_fuel : Ran A
