-- ===== src/Server/Worker/Laws.antt =====
-- web_server/server.c: what the critical sections of a worker keep.
use operating_system_related.Prelude.{◌+◌, ◌<◌, ◌≡◌, refl, ◌≢◌, ◌∷◌, arith}
use operating_system_related.Server.{Timeval, Request, SharedInfo, ThreadInfo, RequestResult}
use operating_system_related.Server.Queue.{IsValid, take_head}
use operating_system_related.Server.Queue.Refine.{contents, take_head-IsValid, take_head-contents}
use operating_system_related.Server.Worker.{begin_request, end_request, interval}

module _ {s : SharedInfo} (t : ThreadInfo) (v : IsValid s) where
  -- Taking a request moves the oldest one from the queue to the list.
  pub begin_request-contents :
      (now : Timeval)
      → s.requests_queue.size ≢ 0
      → let (r, stats, s') = begin_request s t now in
        (old : Request) × (contents s ≡ old ∷ contents s')
        × (r ≡ record old { dispatch_interval = interval old.arrival_time now })
        × (s'.requests_list.size ≡ s.requests_list.size + 1)
        × (s'.requests_queue.size + 1 ≡ s.requests_queue.size)
        × (s'.queue_capacity ≡ s.queue_capacity)
        × IsValid s'
  unfolding begin_request
  begin_request-contents now h =
      let taken = take_head-IsValid v h in
      (
        (take_head s).0,
        take_head-contents v h,
        refl,
        refl,
        omega arith,
        refl,
        record {
          capacity_pos = taken.capacity_pos;
          storage = taken.storage;
          head_in = taken.head_in;
          tail_at = taken.tail_at;
          room = omega (arith, v.room);
        },
      )

  -- Finishing a request takes it off the list, and leaves the queue.
  pub end_request-contents :
      (result : RequestResult)
      → 0 < s.requests_list.size
      → let (s', t') = end_request s t result in
        (contents s' ≡ contents s)
        × (s'.requests_list.size + 1 ≡ s.requests_list.size)
        × (s'.requests_queue.size ≡ s.requests_queue.size)
        × (s'.queue_capacity ≡ s.queue_capacity)
        × IsValid s'
  unfolding end_request
  end_request-contents result h = (
    refl,
    omega arith,
    refl,
    refl,
    record {
      capacity_pos = v.capacity_pos;
      storage = v.storage;
      head_in = v.head_in;
      tail_at = v.tail_at;
      room = omega (arith, v.room);
    },
  )
