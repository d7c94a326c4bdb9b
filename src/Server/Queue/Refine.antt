-- ===== src/Server/Queue/Refine.antt =====
-- web_server/server.c: the ring buffer behaves as a first-in first-out queue.
use operating_system_related.Prelude.{
  ℕ, ◌+◌, ◌-◌, ◌%◌, ◌<◌, ◌≡◌, sym, ◌≢◌, ap, ◌∙◌, List, [], ◌∷◌, ◌++◌, arith, length, get_or,
  length-set,
}
use native.Mathlib.Nat.{mod-add-mod}
use operating_system_related.Prelude.Int.{ℤ, count}
use operating_system_related.Server.{
  connfds, Request, SharedInfo, MasterInfo, no_request, create_request_queue, create_request_list,
}
use operating_system_related.Server.Queue.{IsValid, put_request, take_head}
use operating_system_related.Server.Queue.Window.{
  window, length-window, window-set_tail, window-first, mod-lt_cap,
}

-- The requests that wait, oldest first.
abbrev pub contents : SharedInfo → List Request
contents s =
    window no_request s.queue_capacity s.requests_queue.items s.requests_queue.head
      s.requests_queue.size

pub length-contents : (s : SharedInfo) → length (contents s) ≡ s.requests_queue.size
length-contents s =
    length-window no_request s.queue_capacity s.requests_queue.items s.requests_queue.head
      s.requests_queue.size

pub count-connfds-append :
    (fd : ℤ) (xs ys : List Request)
    → count fd (connfds (xs ++ ys)) ≡ count fd (connfds xs) + count fd (connfds ys)
count-connfds-append fd [] ys = omega arith
count-connfds-append fd (x ∷ xs) ys = omega (arith, count-connfds-append fd xs ys)

-- What `put_request` writes into the tail slot.
abbrev pub incoming : SharedInfo → MasterInfo → Request
incoming s m = record (get_or s.requests_queue.items s.requests_queue.tail no_request) {
  arrival_time = m.accept_time;
  connfd = m.connfd;
}

pub create-IsValid :
    (capacity : ℕ) (memory list_memory : List Request)
    → 0 < capacity
    → length memory ≡ capacity
    → IsValid (record {
      requests_queue = create_request_queue memory;
      requests_list = create_request_list list_memory;
      queue_capacity = capacity;
    })
unfolding create_request_queue create_request_list
create-IsValid capacity memory list_memory h k = omega arith

module _ {s : SharedInfo} (m : MasterInfo) (v : IsValid s) where
  open s use {requests_queue as q, requests_list as l, queue_capacity as cap}

  put_tail : (q.tail + 1) % cap ≡ (q.head + (q.size + 1)) % cap
  put_tail =
      ap (λ k. (k + 1) % cap) v.tail_at
      ∙ mod-add-mod (q.head + q.size) cap 1
      ∙ ap (λ k. k % cap) (omega arith)

  pub put_request-IsValid : q.size + l.size < cap → IsValid (put_request s m)
  unfolding put_request
  put_request-IsValid h = record {
    capacity_pos = v.capacity_pos;
    storage = length-set q.items q.tail _ ∙ v.storage;
    head_in = v.head_in;
    tail_at = put_tail;
    room = omega arith;
  }

  -- With room in the server, the master's insertion puts its connection and accept time behind the
  -- waiting requests, which keep their order.
  pub put_request-contents :
      q.size + l.size < cap → contents (put_request s m) ≡ contents s ++ incoming s m ∷ []
  unfolding put_request
  put_request-contents h =
      window-set_tail no_request cap q.items q.head q.size q.tail (incoming s m) v.capacity_pos
        v.storage (omega arith) v.tail_at

module _ {s : SharedInfo} (v : IsValid s) where
  open s use {requests_queue as q, requests_list as l, queue_capacity as cap}

  take_tail : q.size ≢ 0 → q.tail ≡ ((q.head + 1) % cap + (q.size - 1)) % cap
  take_tail h =
      v.tail_at ∙ sym (mod-add-mod (q.head + 1) cap (q.size - 1) ∙ ap (λ k. k % cap) (omega arith))

  pub take_head-IsValid : q.size ≢ 0 → IsValid (take_head s).1
  unfolding take_head
  take_head-IsValid h = record {
    capacity_pos = v.capacity_pos;
    storage = v.storage;
    head_in = mod-lt_cap cap (q.head + 1) v.capacity_pos;
    tail_at = take_tail h;
    room = omega arith;
  }

  -- From a queue that is not empty a worker takes the oldest waiting request, and leaves the others in
  -- their order.
  pub take_head-contents : q.size ≢ 0 → contents s ≡ (take_head s).0 ∷ contents (take_head s).1
  unfolding take_head
  take_head-contents h = window-first no_request cap q.items q.head q.size v.head_in h
