-- ===== src/Server/Queue.antt =====
-- web_server/server.c: the ring buffer `requests_queue`, put by the master and taken by a worker.
pub mod Window
pub mod Refine
use operating_system_related.Prelude.{ℕ, ◌+◌, ◌-◌, ◌%◌, ◌≤◌, ◌<◌, ◌≡◌, List, length, get_or, set}
use operating_system_related.Server.{Request, RequestsQueue, SharedInfo, MasterInfo, no_request}

-- The end of the body of `runMaster`: the accepted connection goes to the tail slot. The slot keeps
-- the `dispatch_interval` that it had.
unfoldable pub put_request : SharedInfo → MasterInfo → SharedInfo
put_request s m =
    let q = s.requests_queue in
    let slot = get_or q.items q.tail no_request in
    record s {
      requests_queue = record {
        items =
            set q.items q.tail (record slot { arrival_time = m.accept_time; connfd = m.connfd });
        head = q.head;
        tail = (q.tail + 1) % s.queue_capacity;
        size = q.size + 1;
      };
    }

-- `workerFunction`, "take head out of queue".
unfoldable pub take_head : SharedInfo → Request × SharedInfo
take_head s =
    let q = s.requests_queue in
    (
      get_or q.items q.head no_request,
      record s {
        requests_queue = record q { head = (q.head + 1) % s.queue_capacity; size = q.size - 1 };
      },
    )

-- The representation invariant of the shared data.
pub record IsValid (s : SharedInfo) : Type 0 where
  pub capacity_pos : 0 < s.queue_capacity
  pub storage : length s.requests_queue.items ≡ s.queue_capacity
  pub head_in : s.requests_queue.head < s.queue_capacity
  pub tail_at :
      s.requests_queue.tail ≡ (s.requests_queue.head + s.requests_queue.size) % s.queue_capacity
  pub room : s.requests_queue.size + s.requests_list.size ≤ s.queue_capacity
