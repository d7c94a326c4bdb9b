-- ===== src/Server/Threads/Invariant/Master.antt =====
-- web_server/server.c: the master's steps keep the invariant.
use operating_system_related.Prelude.{ℕ, ◌≡◌, sym, ap, ◌∙◌, inl, [], ◌∷◌, ◌++◌, arith}
use operating_system_related.Prelude.Int.{ℤ, count, count-append}
use operating_system_related.Server.{RequestsList, MasterInfo, Timeval, Policy}
use operating_system_related.Server.Master.{
  Turn, enqueued, waits, reaccepts, out_of_fuel, master_turn,
}
use operating_system_related.Server.Master.Laws.{Ended, master_turn-Ended}
use operating_system_related.Server.Threads.{
  Threads, MasterPoint, accepting, after_turn, master_step,
}
use operating_system_related.Server.Threads.Totals.{
  broadcast-busy, broadcast-asleep, broadcast-held,
}
use operating_system_related.Server.Threads.Invariant.{Inv, in_hand}

pub accept-Inv :
    {t : Threads} (fd : ℤ) (now : Timeval)
    → t.master ≡ accepting
    → Inv t
    → Inv (record t {
      master = MasterPoint.locking (record { connfd = fd; accept_time = now });
      accepted = t.accepted ++ fd ∷ [];
    })
accept-Inv {t} fd now e v = record {
  valid = v.valid;
  listed = v.listed;
  workers_sleep = v.workers_sleep;
  master_sleeps = tt;
  balance = λ a. omega (
    arith,
    count-append a t.accepted (fd ∷ []),
    v.balance a,
    ap (λ (p : MasterPoint). count a (in_hand p)) e,
  );
}

pub wake_master-Inv :
    {t : Threads} (m : MasterInfo)
    → t.master ≡ MasterPoint.waiting m
    → Inv t
    → Inv (record t { master = MasterPoint.locking m })
wake_master-Inv m e v = record {
  valid = v.valid;
  listed = v.listed;
  workers_sleep = v.workers_sleep;
  master_sleeps = tt;
  balance = λ a. omega (arith, v.balance a, ap (λ (p : MasterPoint). count a (in_hand p)) e);
}

module _ (p : Policy) {t : Threads} (m : MasterInfo) (e : t.master ≡ MasterPoint.locking m)
    (v : Inv t) where
  hand : (a : ℤ) → count a (in_hand t.master) ≡ count a (m.connfd ∷ [])
  hand a = ap (λ (q : MasterPoint). count a (in_hand q)) e

  after_turn-Inv : (turn : Turn) → Ended p t.shared m t.closed turn → Inv (after_turn t m turn)
  unfolding after_turn
  after_turn-Inv (enqueued s fds) n = record {
    valid = n.valid;
    listed =
        ap (λ (l : RequestsList). l.size) n.same_list ∙ v.listed ∙ sym (broadcast-busy t.workers);
    workers_sleep = inl (broadcast-asleep t.workers);
    master_sleeps = tt;
    balance = λ a. omega (arith, v.balance a, n.balance a, hand a, broadcast-held a t.workers);
  }
  after_turn-Inv (waits s fds) (block, full, same, closed) =
      rw (same, closed)
        (record {
          valid = v.valid;
          listed = v.listed;
          workers_sleep = v.workers_sleep;
          master_sleeps = full;
          balance = λ a. omega (arith, v.balance a, hand a);
        })
  after_turn-Inv (reaccepts s fds) (ne, full, same, closed) =
      rw (same, closed)
        (record {
          valid = v.valid;
          listed = v.listed;
          workers_sleep = v.workers_sleep;
          master_sleeps = tt;
          balance =
              λ a. omega (arith, v.balance a, hand a, count-append a t.closed (m.connfd ∷ []));
        })
  after_turn-Inv out_of_fuel n = absurd n

  pub master_step-Inv : (rand : ℕ → ℕ → ℕ) → Inv (master_step p rand t m)
  unfolding master_step
  master_step-Inv rand =
      after_turn-Inv (master_turn p rand 2 t.shared m t.closed)
        (master_turn-Ended p rand m 0 t.closed v.valid)
