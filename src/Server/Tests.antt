-- ===== src/Server/Tests.antt =====
-- web_server/server.c: runs on small servers, and the theorems at them.
use operating_system_related.Prelude.{
  ℕ, ◌+◌, ◌<◌, ◌≤◌, ◌≡◌, refl, Bool, true, false, List, [], ◌∷◌, ◌++◌, arith, length,
}
use operating_system_related.Prelude.Int.{pos, count}
use operating_system_related.Server.{
  Timeval, Request, SharedInfo, MasterInfo, Policy, no_request, no_time, connfds,
}
use operating_system_related.Server.Queue.{IsValid, put_request, take_head}
use operating_system_related.Server.Queue.Refine.{
  contents, put_request-contents, take_head-contents, incoming,
}
use operating_system_related.Server.Policies.{
  dropped, drop_head, drop_random, random_picks, compact, call, block,
}
use operating_system_related.Server.Policies.Mask.{count_true, select, reject}
use operating_system_related.Server.Policies.Laws.{drop_head-contents, drop_random-contents}
use operating_system_related.Server.Master.{master_turn}
use operating_system_related.Server.Master.Laws.{Ended, master_turn-Ended}
use operating_system_related.Server.Worker.{interval}
use operating_system_related.Server.Threads.{
  Threads, MasterPoint, accept, admit, Reach, here, next, server_start, master_step,
}
use operating_system_related.Server.Threads.Totals.{total, busy, asleep, held}
use operating_system_related.Server.Threads.Invariant.{in_hand}
use operating_system_related.Server.Threads.Progress.{
  connections-balance, requests-le-capacity, no_worker_asleep, some_worker_awake,
}

abbrev time : ℕ → ℕ → Timeval
time s u = record { tv_sec = pos s; tv_usec = pos u }

abbrev request : ℕ → Request
request fd = record { connfd = pos fd; arrival_time = time 1 0; dispatch_interval = no_time }

abbrev connection : ℕ → MasterInfo
connection fd = record { connfd = pos fd; accept_time = time 1 0 }

-- A ring of four slots with three requests, 3, 4 and 5, that goes round the end.
abbrev ring : SharedInfo
ring = record {
  requests_queue = record {
    items = request 5 ∷ no_request ∷ request 3 ∷ request 4 ∷ [];
    head = 2;
    tail = 1;
    size = 3;
  };
  requests_list = record { items = no_request ∷ []; size = 0 };
  queue_capacity = 4;
}

ring-IsValid : IsValid ring
ring-IsValid = omega arith

contents-ring : connfds (contents ring) ≡ pos 3 ∷ pos 4 ∷ pos 5 ∷ []
contents-ring = refl

abbrev rolls : ℕ → ℕ
rolls i = 7 + i

random_picks-rolls : random_picks rolls 3 ≡ false ∷ true ∷ false ∷ []
unfolding random_picks
random_picks-rolls = refl

drop_random-ring :
    (s : SharedInfo) × (drop_random rolls ring (connection 9) ≡ dropped s (pos 3 ∷ pos 5 ∷ []))
    × (connfds (contents s) ≡ pos 4 ∷ [])
unfolding drop_random random_picks compact
drop_random-ring = (
  record ring {
    requests_queue = record {
      items = request 5 ∷ no_request ∷ request 4 ∷ request 4 ∷ [];
      head = 2;
      tail = 3;
      size = 1;
    };
  },
  refl,
  refl,
)

drop_head-contents_example :
    (r : Request) × (s : SharedInfo) × (drop_head ring (connection 9) ≡ dropped s (r.connfd ∷ []))
    × (contents ring ≡ r ∷ contents s)
    × (s.queue_capacity ≡ 4)
    × (s.requests_list ≡ ring.requests_list)
    × IsValid s
drop_head-contents_example = drop_head-contents (connection 9) ring-IsValid (omega arith)

drop_random-contents_example :
    (mask : List Bool) × (s : SharedInfo) × (drop_random rolls ring (connection 9)
      ≡ dropped s (connfds (reject mask (contents ring))))
    × (length mask ≡ 3)
    × (count_true mask ≡ 1)
    × (contents s ≡ select mask (contents ring))
    × (s.requests_queue.size ≡ 1)
    × (s.queue_capacity ≡ 4)
    × (s.requests_list ≡ ring.requests_list)
    × IsValid s
drop_random-contents_example = drop_random-contents (connection 9) ring-IsValid rolls (omega arith)

put_request-contents_example :
    contents (put_request ring (connection 9)) ≡ contents ring ++ incoming ring (connection 9) ∷ []
put_request-contents_example = put_request-contents (connection 9) ring-IsValid (omega arith)

take_head-contents_example : contents ring ≡ (take_head ring).0 ∷ contents (take_head ring).1
take_head-contents_example = take_head-contents ring-IsValid (omega arith)

-- The interval borrows a second.
interval-borrow : interval (time 3 900000) (time 5 100000) ≡ time 1 200000
unfolding interval
interval-borrow = refl

-- A ring with one slot that is taken: the section closes the request in it and inserts its own.
abbrev full_ring : SharedInfo
full_ring = record {
  requests_queue = record { items = request 3 ∷ []; head = 0; tail = 0; size = 1 };
  requests_list = record { items = no_request ∷ []; size = 0 };
  queue_capacity = 1;
}

master_turn-Ended_example :
    Ended Policy.dh full_ring
      (connection 9)
      []
      (master_turn Policy.dh (λ k. rolls) 2 full_ring (connection 9) [])
master_turn-Ended_example =
    master_turn-Ended Policy.dh (λ k. rolls) (connection 9) 0 [] (omega arith)

-- A server of capacity 1 with one thread, under `dh`: the master accepts 5 and inserts it, accepts 6
-- and drops 5 for it; the worker takes 6; the master accepts 7, inserts it and accepts 8.
abbrev memory : List Request
memory = no_request ∷ []

abbrev started : Threads
started = server_start 1 1 memory memory

abbrev accepting_next : Threads → ℕ → Threads
accepting_next t fd = record t {
  master = MasterPoint.locking (connection fd);
  accepted = t.accepted ++ pos fd ∷ [];
}

abbrev two_accepted : Threads
two_accepted =
    accepting_next (master_step Policy.dh (λ k. rolls) (accepting_next started 5) (connection 5)) 6

abbrev one_dropped : Threads
one_dropped = master_step Policy.dh (λ k. rolls) two_accepted (connection 6)

run-one_dropped : Reach Policy.dh started one_dropped
unfolding server_start master_step master_turn put_request
run-one_dropped =
    next
      (next
        (next (next here (accept started (pos 5) (time 1 0) refl))
          (admit (accepting_next started 5) (connection 5) (λ k. rolls) refl))
        (accept (master_step Policy.dh (λ k. rolls) (accepting_next started 5) (connection 5))
          (pos 6) (time 1 0) refl))
      (admit two_accepted (connection 6) (λ k. rolls) refl)

connections-balance_example :
    count (pos 5) one_dropped.accepted
    ≡ count (pos 5) one_dropped.closed
      + count (pos 5) (in_hand one_dropped.master)
      + count (pos 5) (connfds (contents one_dropped.shared))
      + total (held (pos 5)) one_dropped.workers
connections-balance_example =
    connections-balance 1 1 memory memory (omega arith) refl run-one_dropped (pos 5)

-- The dropped connection is closed, and nowhere else.
dropped_closed : one_dropped.closed ≡ pos 5 ∷ []
unfolding server_start master_step master_turn put_request call drop_head
dropped_closed = refl

requests-le-capacity_example :
    (one_dropped.shared.requests_queue.size + one_dropped.shared.requests_list.size
      ≤ one_dropped.shared.queue_capacity)
    × (one_dropped.shared.requests_list.size ≡ total busy one_dropped.workers)
    × (one_dropped.shared.requests_list.size ≤ 1)
    × (length one_dropped.shared.requests_queue.items ≡ one_dropped.shared.queue_capacity)
requests-le-capacity_example =
    requests-le-capacity 1 1 memory memory (omega arith) refl run-one_dropped

one_waits : 0 < one_dropped.shared.requests_queue.size
unfolding server_start master_step master_turn put_request call drop_head
one_waits = omega arith

no_worker_asleep_example : total asleep one_dropped.workers ≡ 0
no_worker_asleep_example =
    no_worker_asleep 1 1 memory memory (omega arith) refl run-one_dropped one_waits

-- The same server under `block`: the master sleeps with 6 in hand.
abbrev both_accepted : Threads
both_accepted =
    accepting_next (master_step Policy.block (λ k. rolls) (accepting_next started 5) (connection 5))
      6

abbrev blocked : Threads
blocked = master_step Policy.block (λ k. rolls) both_accepted (connection 6)

run-blocked : Reach Policy.block started blocked
unfolding server_start master_step master_turn put_request
run-blocked =
    next
      (next
        (next (next here (accept started (pos 5) (time 1 0) refl))
          (admit (accepting_next started 5) (connection 5) (λ k. rolls) refl))
        (accept (master_step Policy.block (λ k. rolls) (accepting_next started 5) (connection 5))
          (pos 6) (time 1 0) refl))
      (admit both_accepted (connection 6) (λ k. rolls) refl)

blocked-waits : blocked.master ≡ MasterPoint.waiting (connection 6)
unfolding server_start master_step master_turn put_request call block
blocked-waits = refl

some_worker_awake_example :
    (blocked.shared.requests_queue.size + blocked.shared.requests_list.size
      ≡ blocked.shared.queue_capacity)
    × (total asleep blocked.workers < length blocked.workers)
some_worker_awake_example =
    some_worker_awake 1 1 memory memory (omega arith) refl run-blocked (connection 6) blocked-waits
      (omega arith)
