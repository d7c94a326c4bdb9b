-- ===== src/Server/Threads.antt =====
-- web_server/server.c: the master and the workers as threads over the shared data. A step is what a
-- thread does from one point to the next at which it does not hold `queue_mutex`, so that the steps
-- of a run stand in the order in which the threads hold the mutex. What is outside of src/ is in the
-- event: the accepted connection, the time, the values of `rand`, the result of `requestHandle`.
-- A thread may be woken from a condition variable at any time, as POSIX allows.
pub mod Totals
pub mod Invariant
pub mod Progress
use operating_system_related.Prelude.{
  ℕ, zero, suc, ◌+◌, Bool, true, false, Option, none, some, List, [], ◌∷◌, ◌++◌, map, if◌then◌else◌,
  ◌==◌, set, get_elem?, ◌≡◌,
}
use operating_system_related.Prelude.Int.{ℤ}
use operating_system_related.Server.{
  Timeval, Request, Statistics, SharedInfo, ThreadInfo, MasterInfo, Policy, RequestResult,
  create_request_queue, create_request_list,
}
use operating_system_related.Server.Master.{
  Turn, enqueued, waits, reaccepts, out_of_fuel, master_turn,
}
use operating_system_related.Server.Worker.{begin_request, end_request}

pub data MasterPoint : Type 0 where
  -- In `Accept`, of the loop of `runMaster` or of `drop_tail`.
  accepting : MasterPoint
  -- With a connection, before the lock, or woken and taking the mutex again.
  locking : MasterInfo → MasterPoint
  -- In `pthread_cond_wait` on `queue_not_full`.
  waiting : MasterInfo → MasterPoint

pub data WorkerPoint : Type 0 where
  -- Before the lock at the head of the loop, or woken and taking the mutex again.
  locking : WorkerPoint
  -- In `pthread_cond_wait` on `queue_not_empty`.
  waiting : WorkerPoint
  -- In `requestHandle`.
  handling : Request → Statistics → WorkerPoint
  -- Behind the `Close` of the connection, before the second lock.
  handled : RequestResult → WorkerPoint

pub record Worker : Type 0 where
  pub info : ThreadInfo
  pub point : WorkerPoint

-- `accepted` and `closed` record the connections that `Accept` returned and that `Close` was called on.
pub record Threads : Type 0 where
  pub shared : SharedInfo
  pub master : MasterPoint
  pub workers : List Worker
  pub accepted : List ℤ
  pub closed : List ℤ

-- `pthread_cond_signal(&queue_not_full)`: only the master waits on it.
unfoldable pub signal_not_full : MasterPoint → MasterPoint
signal_not_full (MasterPoint.waiting m) = MasterPoint.locking m
signal_not_full accepting = accepting
signal_not_full (MasterPoint.locking m) = MasterPoint.locking m

unfoldable pub wake : WorkerPoint → WorkerPoint
wake WorkerPoint.waiting = WorkerPoint.locking
wake WorkerPoint.locking = WorkerPoint.locking
wake (handling r s) = handling r s
wake (handled r) = handled r

-- `pthread_cond_broadcast(&queue_not_empty)`.
unfoldable pub broadcast_not_empty : List Worker → List Worker
unfolding wake
broadcast_not_empty [] = []
broadcast_not_empty (w ∷ ws) = record w { point = wake w.point } ∷ broadcast_not_empty ws

-- The master's section of `runMaster`. Two tests of its loop are enough fuel.
unfoldable pub after_turn : Threads → MasterInfo → Turn → Threads
unfolding broadcast_not_empty
after_turn t m (enqueued s closed) = record t {
  shared = s;
  master = accepting;
  workers = broadcast_not_empty t.workers;
  closed = closed;
}
after_turn t m (waits s closed) = record t {
  shared = s;
  master = MasterPoint.waiting m;
  closed = closed;
}
after_turn t m (reaccepts s closed) = record t { shared = s; master = accepting; closed = closed }
after_turn t m out_of_fuel = t

unfoldable pub master_step : Policy → (rand : ℕ → ℕ → ℕ) → Threads → MasterInfo → Threads
unfolding after_turn
master_step p rand t m = after_turn t m (master_turn p rand 2 t.shared m t.closed)

-- The worker's first section: it waits, or takes a request.
unfoldable pub take_step : Threads → (i : ℕ) → ThreadInfo → (now : Timeval) → Threads
take_step t i w now =
    let (r, stats, s) = begin_request t.shared w now in
    if t.shared.requests_queue.size == 0
    then record t { workers = set t.workers i (record { info = w; point = WorkerPoint.waiting }) }
    else record t {
      shared = s;
      master = signal_not_full t.master;
      workers = set t.workers i (record { info = w; point = handling r stats });
    }

-- `requestHandle` and the `Close` behind it.
unfoldable pub handle_step : Threads → (i : ℕ) → ThreadInfo → Request → RequestResult → Threads
handle_step t i w r result = record t {
  workers = set t.workers i (record { info = w; point = handled result });
  closed = t.closed ++ r.connfd ∷ [];
}

-- The worker's second section.
unfoldable pub finish_step : Threads → (i : ℕ) → ThreadInfo → RequestResult → Threads
finish_step t i w result =
    let (s, w') = end_request t.shared w result in
    record t {
      shared = s;
      master = signal_not_full t.master;
      workers = set t.workers i (record { info = w'; point = WorkerPoint.locking });
    }

-- Worker `i` is at a point.
abbrev pub At : Threads → ℕ → ThreadInfo → WorkerPoint → Type 0
At t i w point = get_elem? t.workers i ≡ some (record { info = w; point = point })

pub data Step (p : Policy) : Threads → Threads → Type 0 where
  accept :
      (t : Threads) (fd : ℤ) (now : Timeval)
      → t.master ≡ accepting
      → Step p t (record t {
        master = MasterPoint.locking (record { connfd = fd; accept_time = now });
        accepted = t.accepted ++ fd ∷ [];
      })
  admit :
      (t : Threads) (m : MasterInfo) (rand : ℕ → ℕ → ℕ)
      → t.master ≡ MasterPoint.locking m
      → Step p t (master_step p rand t m)
  wake_master :
      (t : Threads) (m : MasterInfo)
      → t.master ≡ MasterPoint.waiting m
      → Step p t (record t { master = MasterPoint.locking m })
  take :
      (t : Threads) (i : ℕ) (w : ThreadInfo) (now : Timeval)
      → At t i w WorkerPoint.locking
      → Step p t (take_step t i w now)
  wake_worker :
      (t : Threads) (i : ℕ) (w : ThreadInfo)
      → At t i w WorkerPoint.waiting
      → Step p t (record t {
        workers = set t.workers i (record { info = w; point = WorkerPoint.locking });
      })
  handle :
      (t : Threads) (i : ℕ) (w : ThreadInfo) (r : Request) (stats : Statistics)
      (result : RequestResult)
      → At t i w (handling r stats)
      → Step p t (handle_step t i w r result)
  finish :
      (t : Threads) (i : ℕ) (w : ThreadInfo) (result : RequestResult)
      → At t i w (handled result)
      → Step p t (finish_step t i w result)

pub data Reach (p : Policy) (start : Threads) : Threads → Type 0 where
  here : Reach p start start
  next : {t u : Threads} → Reach p start t → Step p t u → Reach p start u

-- `createWorkersPool`, for the rounds left from thread `i` on.
unfoldable pub create_workers_pool : (rounds i : ℕ) → List Worker
create_workers_pool zero i = []
create_workers_pool (suc rounds) i =
    record {
      info = record {
        thread_id = i;
        requests_count = 0;
        static_requests_count = 0;
        dynamic_requests_count = 0;
      };
      point = WorkerPoint.locking;
    }
    ∷ create_workers_pool rounds (i + 1)

-- What `main` sets up before `runMaster`. `memory` and `list_memory` are what `malloc` returns.
unfoldable pub server_start :
    (queue_capacity threads_num : ℕ) (memory list_memory : List Request) → Threads
unfolding create_workers_pool create_request_queue create_request_list
server_start queue_capacity threads_num memory list_memory = record {
  shared = record {
    requests_queue = create_request_queue memory;
    requests_list = create_request_list list_memory;
    queue_capacity = queue_capacity;
  };
  master = accepting;
  workers = create_workers_pool threads_num 0;
  accepted = [];
  closed = [];
}
