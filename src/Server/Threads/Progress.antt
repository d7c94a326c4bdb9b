-- ===== src/Server/Threads/Progress.antt =====
-- web_server/server.c: what a run of the server never comes to: a connection that is lost, a
-- capacity that is exceeded, or threads that all sleep.
use operating_system_related.Prelude.{
  ℕ, zero, suc, ◌+◌, ◌<◌, ◌≤◌, ◌≡◌, refl, ap, ◌∙◌, true, ◌==◌, List, [], ◌∷◌, arith, length,
  length-set, Bool-cases, inl, inr,
}
use mathlib.Core.Path.{subst}
use operating_system_related.Prelude.Int.{ℤ, count}
use operating_system_related.Server.{Request, ThreadInfo, MasterInfo, Policy, Timeval, connfds}
use operating_system_related.Server.Queue.Refine.{contents}
use operating_system_related.Server.Master.{
  Turn, enqueued, waits, reaccepts, out_of_fuel, master_turn, is_full,
}
use operating_system_related.Server.Threads.{
  Threads, Worker, MasterPoint, Step, accept, admit, wake_master, take, wake_worker, handle, finish,
  Reach, here, next, create_workers_pool, server_start, broadcast_not_empty, after_turn,
  master_step, take_step, handle_step, finish_step,
}
use operating_system_related.Server.Threads.Totals.{total, busy, asleep, held}
use operating_system_related.Server.Threads.Invariant.{Inv, in_hand, Sleeps}
use operating_system_related.Server.Threads.Invariant.Runs.{Reach-Inv, server_start-Inv}

length-broadcast : (ws : List Worker) → length (broadcast_not_empty ws) ≡ length ws
unfolding broadcast_not_empty
length-broadcast [] = refl
length-broadcast (w ∷ ws) = ap suc (length-broadcast ws)

length-after_turn :
    (t : Threads) (m : MasterInfo) (turn : Turn)
    → length (after_turn t m turn).workers ≡ length t.workers
unfolding after_turn
length-after_turn t m (enqueued s fds) = length-broadcast t.workers
length-after_turn t m (waits s fds) = refl
length-after_turn t m (reaccepts s fds) = refl
length-after_turn t m out_of_fuel = refl

length-take_step :
    (t : Threads) (i : ℕ) (w : ThreadInfo) (now : Timeval)
    → length (take_step t i w now).workers ≡ length t.workers
unfolding take_step
length-take_step t i w now = elim (Bool-cases (t.shared.requests_queue.size == 0)) [
  | inl e ↦ rw e (length-set t.workers i _)
  | inr e ↦ rw e (length-set t.workers i _)
]

-- Threads neither start nor end.
Step-length : {p : Policy} {t u : Threads} → Step p t u → length u.workers ≡ length t.workers
unfolding master_step handle_step finish_step
Step-length (accept t fd now e) = refl
Step-length {p} (admit t m rand e) =
    length-after_turn t m (master_turn p rand 2 t.shared m t.closed)
Step-length (wake_master t m e) = refl
Step-length (take t i w now at) = length-take_step t i w now
Step-length (wake_worker t i w at) = length-set t.workers i _
Step-length (handle t i w r stats result at) = length-set t.workers i _
Step-length (finish t i w result at) = length-set t.workers i _

Reach-length :
    {p : Policy} {start t : Threads} → Reach p start t → length t.workers ≡ length start.workers
Reach-length here = refl
Reach-length (next r step) = Step-length step ∙ Reach-length r

length-pool : (n i : ℕ) → length (create_workers_pool n i) ≡ n
unfolding create_workers_pool
length-pool zero i = refl
length-pool (suc n) i = ap suc (length-pool n (i + 1))

busy-asleep-le : (ws : List Worker) → total busy ws + total asleep ws ≤ length ws
busy-asleep-le [] = omega arith
busy-asleep-le (w ∷ ws) = ground (arith, busy-asleep-le ws)

module _ {p : Policy} (capacity threads : ℕ) (memory list_memory : List Request)
    (pos : 0 < capacity) (len : length memory ≡ capacity) {t : Threads}
    (run : Reach p (server_start capacity threads memory list_memory) t) where
  inv : Inv t
  inv = Reach-Inv (server_start-Inv capacity threads memory list_memory pos len) run

  workers_number : length t.workers ≡ threads
  unfolding server_start
  workers_number = Reach-length run ∙ length-pool threads 0

  -- In every run from the start of a server with a positive capacity, under every policy: each
  -- connection has been accepted as often as it has been closed, is in the master's hand, is in the
  -- queue and is being handled by a worker, together. So none is lost, and none is closed twice.
  pub connections-balance :
      (fd : ℤ)
      → count fd t.accepted
        ≡ count fd t.closed
          + count fd (in_hand t.master)
          + count fd (connfds (contents t.shared))
          + total (held fd) t.workers
  connections-balance = inv.balance

  -- In every run the waiting and the handled requests are within the capacity of the server's data,
  -- and the handled ones are as many as the workers that have a request, at most the number of
  -- threads, which is the size of the list's array.
  pub requests-le-capacity :
      (t.shared.requests_queue.size + t.shared.requests_list.size ≤ t.shared.queue_capacity)
      × (t.shared.requests_list.size ≡ total busy t.workers)
      × (t.shared.requests_list.size ≤ threads)
      × (length t.shared.requests_queue.items ≡ t.shared.queue_capacity)
  requests-le-capacity = (
    inv.valid.room,
    inv.listed,
    omega (arith, inv.listed, busy-asleep-le t.workers, workers_number),
    inv.valid.storage,
  )

  -- In every run, while a request waits in the queue no worker sleeps on `queue_not_empty`.
  pub no_worker_asleep : 0 < t.shared.requests_queue.size → total asleep t.workers ≡ 0
  no_worker_asleep h = omega (arith, inv.workers_sleep)

  full_of_waiting :
      (q : MasterPoint) {m : MasterInfo}
      → q ≡ MasterPoint.waiting m
      → Sleeps q t.shared
      → is_full t.shared ≡ true
  full_of_waiting q e s = subst (λ k. Sleeps k t.shared) e s

  full→eq :
      is_full t.shared ≡ true
      → t.shared.requests_queue.size + t.shared.requests_list.size ≡ t.shared.queue_capacity
  full→eq h = ground arith

  -- In every run of a server with a thread at least, while the master sleeps on `queue_not_full` the
  -- server is full, and some worker does not sleep: they never all wait for one another.
  pub some_worker_awake :
      (m : MasterInfo)
      → t.master ≡ MasterPoint.waiting m
      → 0 < threads
      → (t.shared.requests_queue.size + t.shared.requests_list.size ≡ t.shared.queue_capacity)
        × (total asleep t.workers < length t.workers)
  some_worker_awake m e h =
      let full = full→eq (full_of_waiting t.master e inv.master_sleeps) in
      (
        full,
        omega (
          arith,
          full,
          inv.listed,
          inv.workers_sleep,
          inv.valid.capacity_pos,
          busy-asleep-le t.workers,
          workers_number,
        ),
      )
