-- ===== src/Server/Policies.antt =====
-- web_server/server.c: the overload policies, which the master calls under `queue_mutex` while the
-- server is full. `rand` gives the successive values of the library's `rand()`. `Close`, `Accept` and
-- the condition variable are not modelled here: what a policy asks of them is its result.
pub mod Mask
pub mod Pick
pub mod Compact
pub mod Drops
pub mod Laws
use operating_system_related.Prelude.{
  ℕ, zero, suc, ◌+◌, ◌-◌, ◌/◌, ◌%◌, Bool, true, false, List, [], ◌∷◌, if◌then◌else◌, ◌==◌, get_or,
  set, replicate,
}
use operating_system_related.Prelude.Int.{ℤ}
use operating_system_related.Server.{
  Request, RequestsQueue, SharedInfo, MasterInfo, Policy, no_request,
}

-- What a policy does, and where the master goes on.
pub data Outcome : Type 0 where
  -- It waits on `queue_not_full`, with the mutex released.
  wait : Outcome
  -- It releases the mutex, closes the connection at hand, and accepts another.
  reaccept : (closed : ℤ) → Outcome
  -- Under the mutex it has changed the shared data, and closed these connections in this order.
  dropped : SharedInfo → (closed : List ℤ) → Outcome

unfoldable pub block : SharedInfo → MasterInfo → Outcome
block s m = wait

unfoldable pub drop_tail : SharedInfo → MasterInfo → Outcome
drop_tail s m = reaccept m.connfd

unfoldable pub drop_head : SharedInfo → MasterInfo → Outcome
unfolding drop_tail
drop_head s m =
    let q = s.requests_queue in
    if q.size == 0
    then drop_tail s m
    else dropped
        (record s {
          requests_queue = record q { head = (q.head + 1) % s.queue_capacity; size = q.size - 1 };
        })
        ((get_or q.items q.head no_request).connfd ∷ [])

-- `indexes` as the first loop fills it: `i`, `i + 1` and so on, for the rounds left.
unfoldable pub init_indexes : (rounds i : ℕ) → List ℕ
init_indexes zero i = []
init_indexes (suc k) i = i ∷ init_indexes k (i + 1)

-- The loop that picks: `rounds` is `limit - i`. It returns `rand_indexes`.
unfoldable pub pick :
    (rand : ℕ → ℕ) (n rounds i : ℕ) (rand_indexes : List Bool) (indexes : List ℕ) → List Bool
pick rand n zero i rand_indexes indexes = rand_indexes
pick rand n (suc rounds) i rand_indexes indexes =
    let index = rand i % (n - i) in
    let temp = get_or indexes index 0 in
    let swapped = set (set indexes index (get_or indexes (n - i - 1) 0)) (n - i - 1) temp in
    pick rand n rounds (i + 1) (set rand_indexes temp true) swapped

-- The loop that moves the picked requests to the head and closes the others, over what is left of
-- `rand_indexes` from `i` on. It returns `items`, `tail` and the closed connections.
unfoldable pub compact :
    (capacity head : ℕ) (rand_indexes : List Bool) (i tail : ℕ)
    → List Request
    → List Request × ℕ × List ℤ
compact capacity head [] i tail items = (items, tail, [])
compact capacity head (true ∷ picks) i tail items =
    compact capacity head picks (i + 1) ((tail + 1) % capacity)
      (set items tail (get_or items ((head + i) % capacity) no_request))
compact capacity head (false ∷ picks) i tail items =
    let (items', tail', closed) = compact capacity head picks (i + 1) tail items in
    (items', tail', (get_or items ((head + i) % capacity) no_request).connfd ∷ closed)

-- The picks of `drop_random` for a queue of `n` requests: half of them, rounded down.
unfoldable pub random_picks : (rand : ℕ → ℕ) (n : ℕ) → List Bool
unfolding pick init_indexes
random_picks rand n = pick rand n (n / 2) 0 (replicate n false) (init_indexes n 0)

unfoldable pub drop_random : (rand : ℕ → ℕ) → SharedInfo → MasterInfo → Outcome
unfolding drop_tail
drop_random rand s m =
    let q = s.requests_queue in
    let cap = s.queue_capacity in
    let (items', tail', closed) = compact cap q.head (random_picks rand q.size) 0 q.head q.items in
    if q.size == 0
    then drop_tail s m
    else dropped
        (record s { requests_queue = record q { items = items'; tail = tail'; size = q.size / 2 } })
        closed

-- The call `master_info->policy(sh_info, master_info)`.
unfoldable pub call : Policy → (rand : ℕ → ℕ) → SharedInfo → MasterInfo → Outcome
unfolding block drop_tail drop_head drop_random
call Policy.block rand s m = block s m
call Policy.dt rand s m = drop_tail s m
call Policy.dh rand s m = drop_head s m
call Policy.random rand s m = drop_random rand s m
