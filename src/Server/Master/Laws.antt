-- ===== src/Server/Master/Laws.antt =====
-- web_server/server.c: how the critical section of `runMaster` ends.
use operating_system_related.Prelude.{
  ℕ, suc, ◌+◌, ◌<◌, ◌≡◌, refl, ◌≢◌, ap, ◌∙◌, inl, inr, true, false, List, [], ◌∷◌, ◌++◌, arith,
  Bool-cases,
}
use operating_system_related.Prelude.Int.{ℤ, count, count-append}
use operating_system_related.Server.{SharedInfo, MasterInfo, Policy, connfds}
use operating_system_related.Server.Queue.{IsValid, put_request}
use operating_system_related.Server.Queue.Refine.{
  contents, incoming, count-connfds-append, put_request-IsValid, put_request-contents,
}
use operating_system_related.Server.Policies.{Outcome, wait, reaccept, dropped, call}
use operating_system_related.Server.Policies.Drops.{Drops, Allowed, call-Allowed}
use operating_system_related.Server.Master.{
  Turn, enqueued, waits, reaccepts, out_of_fuel, is_full, master_turn,
}

-- The connection at hand is in the queue, and what left the queue is closed.
pub record Enqueued (s : SharedInfo) (m : MasterInfo) (fds : List ℤ) (s' : SharedInfo)
    (fds' : List ℤ) : Type 0 where
  pub valid : IsValid s'
  pub same_capacity : s'.queue_capacity ≡ s.queue_capacity
  pub same_list : s'.requests_list ≡ s.requests_list
  pub balance :
      (fd : ℤ)
      → count fd (connfds (contents s')) + count fd fds'
        ≡ count fd (connfds (contents s)) + count fd fds + count fd (m.connfd ∷ [])

-- What each end of the section means. The code always comes to one of the first three.
abbrev pub Ended : Policy → SharedInfo → MasterInfo → List ℤ → Turn → Type 0
Ended p s m fds (enqueued s' fds') = Enqueued s m fds s' fds'
Ended p s m fds (waits s' fds') = (p ≡ Policy.block) × (is_full s ≡ true) × (s' ≡ s) × (fds' ≡ fds)
Ended p s m fds (reaccepts s' fds') =
    (p ≢ Policy.block) × (is_full s ≡ true) × (s' ≡ s) × (fds' ≡ fds ++ m.connfd ∷ [])
Ended p s m fds out_of_fuel = ⊥

room :
    {s : SharedInfo}
    → IsValid s
    → is_full s ≡ false
    → s.requests_queue.size + s.requests_list.size < s.queue_capacity
room v h = ground arith

put_request-Enqueued :
    {s : SharedInfo} (m : MasterInfo) (fds : List ℤ)
    → IsValid s
    → is_full s ≡ false
    → Enqueued s m fds (put_request s m) fds
put_request-Enqueued {s} m fds v h = record {
  valid = put_request-IsValid m v (room v h);
  same_capacity = unfold put_request in refl;
  same_list = unfold put_request in refl;
  balance = λ fd. omega (
    arith,
    ap (λ rs. count fd (connfds rs)) (put_request-contents m v (room v h)),
    count-connfds-append fd (contents s) (incoming s m ∷ []),
  );
}

-- What the section closed before it inserted the connection counts with it.
after_drop :
    {s s' t : SharedInfo} {m : MasterInfo} {fds gone fds' : List ℤ}
    → Drops s s' gone
    → Enqueued s' m (fds ++ gone) t fds'
    → Enqueued s m fds t fds'
after_drop {fds} {gone} d n = record {
  valid = n.valid;
  same_capacity = n.same_capacity ∙ d.same_capacity;
  same_list = n.same_list ∙ d.same_list;
  balance = λ fd. omega (arith, n.balance fd, d.balance fd, count-append fd fds gone);
}

module _ (p : Policy) (rand : ℕ → ℕ → ℕ) (m : MasterInfo) where
  -- With room, the section inserts the connection at once.
  pub master_turn-enqueued :
      (fuel : ℕ) (s : SharedInfo) (fds : List ℤ)
      → is_full s ≡ false
      → master_turn p rand (suc fuel) s m fds ≡ enqueued (put_request s m) fds
  unfolding master_turn
  master_turn-enqueued fuel s fds h = rw h

  -- A policy that drops from the queue makes room: the loop is left at its next test.
  makes_room : {s s' : SharedInfo} {fds : List ℤ} → IsValid s → Drops s s' fds → is_full s' ≡ false
  makes_room {s} {s'} v d = ground (arith, ap (λ l. l.size) d.same_list)

  after_call :
      (fuel : ℕ) {s : SharedInfo} (fds : List ℤ)
      → IsValid s
      → is_full s ≡ true
      → (o : Outcome) → call p (rand (suc fuel)) s m ≡ o
      → Allowed p s m o
      → Ended p s m fds (master_turn p rand (suc (suc fuel)) s m fds)
  unfolding master_turn
  after_call fuel {s} fds v full wait e a = rw (full, e) (a, full, refl, refl)
  after_call fuel {s} fds v full (reaccept fd) e a =
      rw (full, e) (a.0, full, refl, ap (λ k. fds ++ k ∷ []) a.1)
  after_call fuel {s} fds v full (dropped s' gone) e (ne, d) =
      rw (full, e, master_turn-enqueued fuel s' (fds ++ gone) (makes_room v d))
        (after_drop d (put_request-Enqueued m (fds ++ gone) d.valid (makes_room v d)))

  -- Two tests of the loop are enough: with more fuel than one the section ends, and as `Ended` says.
  pub master_turn-Ended :
      (fuel : ℕ) {s : SharedInfo} (fds : List ℤ)
      → IsValid s
      → Ended p s m fds (master_turn p rand (suc (suc fuel)) s m fds)
  master_turn-Ended fuel {s} fds v = elim (Bool-cases (is_full s)) [
    | inl full ↦
        after_call fuel fds v full (call p (rand (suc fuel)) s m) refl
          (call-Allowed m v p (rand (suc fuel)))
    | inr room ↦ rw (master_turn-enqueued (suc fuel) s fds room) (put_request-Enqueued m fds v room)
  ]
