-- ===== src/Server/Threads/Invariant.antt =====
-- web_server/server.c: what holds of the server at every point of every run, however the threads
-- take turns: no connection is lost or closed twice, and no wake-up is missed.
pub mod Master
pub mod Workers
pub mod Runs
use operating_system_related.Prelude.{ℕ, ◌+◌, ◌≡◌, ◌⊎◌, true, List, [], ◌∷◌}
use operating_system_related.Prelude.Int.{ℤ, count}
use operating_system_related.Server.{SharedInfo, RequestsList, RequestsQueue, MasterInfo, connfds}
use operating_system_related.Server.Queue.{IsValid}
use operating_system_related.Server.Queue.Refine.{contents}
use operating_system_related.Server.Master.{is_full}
use operating_system_related.Server.Threads.{Threads, MasterPoint, accepting}
use operating_system_related.Server.Threads.Totals.{total, busy, asleep, held}

-- The open connection that the master has in hand.
abbrev pub in_hand : MasterPoint → List ℤ
in_hand accepting = []
in_hand (MasterPoint.locking m) = m.connfd ∷ []
in_hand (MasterPoint.waiting m) = m.connfd ∷ []

-- The master sleeps only while the server is full.
abbrev pub Sleeps : MasterPoint → SharedInfo → Type 0
Sleeps accepting s = Unit
Sleeps (MasterPoint.locking m) s = Unit
Sleeps (MasterPoint.waiting m) s = is_full s ≡ true

pub record Inv (t : Threads) : Type 0 where
  pub valid : IsValid t.shared
  -- The list counts the workers that have a request.
  pub listed : t.shared.requests_list.size ≡ total busy t.workers
  -- A worker sleeps only while no request waits.
  pub workers_sleep : (total asleep t.workers ≡ 0) ⊎ (t.shared.requests_queue.size ≡ 0)
  pub master_sleeps : Sleeps t.master t.shared
  -- Each accepted connection is closed, in the master's hand, in the queue or with a worker: once.
  pub balance :
      (fd : ℤ)
      → count fd t.accepted
        ≡ count fd t.closed
          + count fd (in_hand t.master)
          + count fd (connfds (contents t.shared))
          + total (held fd) t.workers
