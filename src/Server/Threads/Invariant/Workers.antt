-- ===== src/Server/Threads/Invariant/Workers.antt =====
-- web_server/server.c: the workers' steps keep the invariant.
use operating_system_related.Prelude.{
  ℕ, ◌≡◌, refl, ◌≢◌, ap, inl, inr, false, ◌==◌, ==_iff, [], ◌∷◌, arith, set,
}
use native.Mathlib.Decide.{ℕ_discrete}
use operating_system_related.Prelude.Int.{count, count-append}
use operating_system_related.Server.{
  Request, Statistics, SharedInfo, ThreadInfo, Timeval, RequestResult, connfds,
}
use operating_system_related.Server.Worker.{begin_request, end_request}
use operating_system_related.Server.Worker.Laws.{begin_request-contents, end_request-contents}
use operating_system_related.Server.Threads.{
  Threads, Worker, WorkerPoint, MasterPoint, accepting, handling, handled, At, signal_not_full,
  take_step, handle_step, finish_step,
}
use operating_system_related.Server.Threads.Totals.{busy, asleep, held, total-set}
use operating_system_related.Server.Threads.Invariant.{Inv, in_hand, Sleeps}

-- A signal leaves the master awake, with its connection.
Sleeps-signal : (q : MasterPoint) (s : SharedInfo) → Sleeps (signal_not_full q) s
unfolding signal_not_full
Sleeps-signal accepting s = tt
Sleeps-signal (MasterPoint.locking m) s = tt
Sleeps-signal (MasterPoint.waiting m) s = tt

in_hand-signal : (q : MasterPoint) → in_hand (signal_not_full q) ≡ in_hand q
unfolding signal_not_full
in_hand-signal accepting = refl
in_hand-signal (MasterPoint.locking m) = refl
in_hand-signal (MasterPoint.waiting m) = refl

not_empty : (n : ℕ) → n ≢ 0 → (n == 0) ≡ false
not_empty n h = ground arith

abbrev worker : ThreadInfo → WorkerPoint → Worker
worker w q = record { info = w; point = q }

module _ {t : Threads} (i : ℕ) (w : ThreadInfo) where
  pub wake_worker-Inv :
      At t i w WorkerPoint.waiting
      → Inv t
      → Inv (record t { workers = set t.workers i (worker w WorkerPoint.locking) })
  wake_worker-Inv at v =
      let change = λ (f : WorkerPoint → ℕ).
        total-set f t.workers i (worker w WorkerPoint.waiting) (worker w WorkerPoint.locking) at in
      record {
        valid = v.valid;
        listed = omega (arith, v.listed, change busy);
        workers_sleep = omega (arith, v.workers_sleep, change asleep);
        master_sleeps = v.master_sleeps;
        balance = λ a. omega (arith, v.balance a, change (held a));
      }

  pub handle_step-Inv :
      (r : Request) (stats : Statistics) (result : RequestResult)
      → At t i w (handling r stats)
      → Inv t
      → Inv (handle_step t i w r result)
  unfolding handle_step
  handle_step-Inv r stats result at v =
      let change = λ (f : WorkerPoint → ℕ).
        total-set f t.workers i (worker w (handling r stats)) (worker w (handled result)) at in
      record {
        valid = v.valid;
        listed = omega (arith, v.listed, change busy);
        workers_sleep = omega (arith, v.workers_sleep, change asleep);
        master_sleeps = v.master_sleeps;
        balance = λ a.
            omega (arith, v.balance a, change (held a), count-append a t.closed (r.connfd ∷ []));
      }

  -- With an empty queue the worker goes to sleep.
  sleep-Inv :
      At t i w WorkerPoint.locking
      → Inv t
      → t.shared.requests_queue.size ≡ 0
      → Inv (record t { workers = set t.workers i (worker w WorkerPoint.waiting) })
  sleep-Inv at v empty =
      let change = λ (f : WorkerPoint → ℕ).
        total-set f t.workers i (worker w WorkerPoint.locking) (worker w WorkerPoint.waiting) at in
      record {
        valid = v.valid;
        listed = omega (arith, v.listed, change busy);
        workers_sleep = inr empty;
        master_sleeps = v.master_sleeps;
        balance = λ a. omega (arith, v.balance a, change (held a));
      }

  -- Otherwise it takes the oldest request into its slot of the list.
  taken-Inv :
      (now : Timeval)
      → At t i w WorkerPoint.locking
      → Inv t
      → t.shared.requests_queue.size ≢ 0
      → let (r, stats, s) = begin_request t.shared w now in
        Inv (record t {
          shared = s;
          master = signal_not_full t.master;
          workers = set t.workers i (worker w (handling r stats));
        })
  taken-Inv now at v h =
      let (r, stats, s) = begin_request t.shared w now in
      let (old, front, same, listed, less, cap, valid) = begin_request-contents w v.valid now h in
      let change = λ (f : WorkerPoint → ℕ).
        total-set f t.workers i (worker w WorkerPoint.locking) (worker w (handling r stats)) at in
      record {
        valid = valid;
        listed = omega (arith, v.listed, listed, change busy);
        workers_sleep = inl (omega (arith, v.workers_sleep, change asleep));
        master_sleeps = Sleeps-signal t.master s;
        balance = λ a. omega (
          arith,
          v.balance a,
          change (held a),
          ap (λ rs. count a (connfds rs)) front,
          ap (λ (k : Request). count a (k.connfd ∷ [])) same,
          ap (λ fds. count a fds) (in_hand-signal t.master),
        );
      }

  pub take_step-Inv :
      (now : Timeval) → At t i w WorkerPoint.locking → Inv t → Inv (take_step t i w now)
  unfolding take_step
  take_step-Inv now at v = elim (ℕ_discrete t.shared.requests_queue.size 0) [
    | yes empty ↦ rw ((==_iff t.shared.requests_queue.size 0).1 empty) (sleep-Inv at v empty)
    | no h ↦ rw (not_empty t.shared.requests_queue.size h) (taken-Inv now at v h)
  ]

  pub finish_step-Inv :
      (result : RequestResult) → At t i w (handled result) → Inv t → Inv (finish_step t i w result)
  unfolding finish_step
  finish_step-Inv result at v =
      let (s, w') = end_request t.shared w result in
      let change = λ (f : WorkerPoint → ℕ).
        total-set f t.workers i (worker w (handled result)) (worker w' WorkerPoint.locking) at in
      let (same, listed, size, cap, valid) =
        end_request-contents w v.valid result (omega (arith, v.listed, change busy)) in
      record {
        valid = valid;
        listed = omega (arith, v.listed, listed, change busy);
        workers_sleep = omega (arith, v.workers_sleep, size, change asleep);
        master_sleeps = Sleeps-signal t.master s;
        balance = λ a. omega (
          arith,
          v.balance a,
          change (held a),
          ap (λ rs. count a (connfds rs)) same,
          ap (λ fds. count a fds) (in_hand-signal t.master),
        );
      }
