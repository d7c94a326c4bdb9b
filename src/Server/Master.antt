-- ===== src/Server/Master.antt =====
-- web_server/server.c: the critical section of `runMaster`, from the lock to the unlock or to the
-- place where a policy gives the mutex up.
pub mod Laws
use operating_system_related.Prelude.{
  ℕ, zero, suc, ◌+◌, Bool, true, false, List, [], ◌∷◌, ◌++◌, if◌then◌else◌, ◌==◌,
}
use operating_system_related.Prelude.Int.{ℤ}
use operating_system_related.Server.{SharedInfo, MasterInfo, Policy}
use operating_system_related.Server.Queue.{put_request}
use operating_system_related.Server.Policies.{Outcome, wait, reaccept, dropped, call}

-- How the section ends, with the shared data and the connections closed in it.
pub data Turn : Type 0 where
  -- The connection is in the queue, and `queue_not_empty` was broadcast.
  enqueued : SharedInfo → (closed : List ℤ) → Turn
  -- The master waits on `queue_not_full`, and holds its connection.
  waits : SharedInfo → (closed : List ℤ) → Turn
  -- The master accepts another connection in place of the one that it closed.
  reaccepts : SharedInfo → (closed : List ℤ) → Turn
  out_of_fuel : Turn

-- The condition of the loop.
abbrev pub is_full : SharedInfo → Bool
is_full s = s.requests_queue.size + s.requests_list.size == s.queue_capacity

-- What follows a call of the policy: `again` is the next test of the loop.
unfoldable pub after_policy :
    (again : SharedInfo → List ℤ → Turn) → Outcome → SharedInfo → (closed : List ℤ) → Turn
after_policy again wait s closed = waits s closed
after_policy again (reaccept fd) s closed = reaccepts s (closed ++ fd ∷ [])
after_policy again (dropped s' fds) s closed = again s' (closed ++ fds)

-- `while (full) policy(…);` and the insertion behind it. `rand` gives each call its own values.
unfoldable pub master_turn :
    Policy → (rand : ℕ → ℕ → ℕ) (fuel : ℕ) → SharedInfo → MasterInfo → (closed : List ℤ) → Turn
unfolding after_policy
master_turn p rand zero s m closed = out_of_fuel
master_turn p rand (suc fuel) s m closed =
    let again = λ (s' : SharedInfo) (fds : List ℤ). master_turn p rand fuel s' m fds in
    if is_full s
    then after_policy again (call p (rand fuel) s m) s closed
    else enqueued (put_request s m) closed
