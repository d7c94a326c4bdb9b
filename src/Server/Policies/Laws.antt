-- ===== src/Server/Policies/Laws.antt =====
-- web_server/server.c: what the overload policies do to the queue of waiting requests.
use operating_system_related.Prelude.{
  ℕ, ◌+◌, ◌/◌, ◌%◌, ◌≡◌, refl, sym, ◌≢◌, ap, ◌∙◌, Bool, false, List, [], ◌∷◌, arith, length, ◌==◌,
}
use native.Mathlib.Nat.{add-zero, mod-eq_of_lt}
use mathlib.Core.Path.{ap₂}
use operating_system_related.Prelude.Int.{ℤ}
use operating_system_related.Server.{Request, SharedInfo, MasterInfo, no_request, connfds}
use operating_system_related.Server.Queue.{IsValid, take_head}
use operating_system_related.Server.Queue.Window.{window}
use operating_system_related.Server.Queue.Refine.{contents, take_head-IsValid, take_head-contents}
use operating_system_related.Server.Policies.{
  dropped, drop_head, drop_random, random_picks, compact,
}
use operating_system_related.Server.Policies.Mask.{count_true, select, reject}
use operating_system_related.Server.Policies.Pick.{random_picks-count_true}
use operating_system_related.Server.Policies.Compact.{Compacted, compact-Compacted}

-- The test `size == 0` of the policies.
not_empty : (n : ℕ) → n ≢ 0 → (n == 0) ≡ false
not_empty n h = ground arith

module _ {s : SharedInfo} (m : MasterInfo) (v : IsValid s) where
  open s use {requests_queue as q, requests_list as l, queue_capacity as cap}

  -- `drop_head` on a queue that is not empty closes the oldest waiting request, and leaves the others
  -- in their order, the capacity and the list of handled requests.
  pub drop_head-contents :
      q.size ≢ 0
      → (r : Request) × (s' : SharedInfo) × (drop_head s m ≡ dropped s' (r.connfd ∷ []))
        × (contents s ≡ r ∷ contents s')
        × (s'.queue_capacity ≡ cap)
        × (s'.requests_list ≡ l)
        × IsValid s'
  unfolding drop_head take_head
  drop_head-contents h = (
    (take_head s).0,
    (take_head s).1,
    rw (not_empty q.size h),
    take_head-contents v h,
    refl,
    refl,
    take_head-IsValid v h,
  )

  module _ (rand : ℕ → ℕ) where
    abbrev picks : List Bool
    picks = random_picks rand q.size

    abbrev compacted : List Request × ℕ × List ℤ
    compacted = compact cap q.head picks 0 q.head q.items

    abbrev after : SharedInfo
    after = record s {
      requests_queue = record q { items = compacted.0; tail = compacted.1; size = q.size / 2 };
    }

    start : q.head ≡ (q.head + 0) % cap
    start = sym (ap (λ k. k % cap) (add-zero q.head) ∙ mod-eq_of_lt v.head_in)

    run : Compacted cap q.head picks 0 0 q.items compacted
    run =
        compact-Compacted cap q.head picks 0 0 q.head q.items v.capacity_pos v.storage start
          (omega arith) (omega (arith, random_picks-count_true rand q.size, v.room))

    half : 0 + count_true picks ≡ q.size / 2
    half = omega (arith, random_picks-count_true rand q.size)

    waiting : window no_request cap q.items (q.head + 0) (length picks) ≡ contents s
    waiting =
        ap₂ (window no_request cap q.items) (add-zero q.head)
          (random_picks-count_true rand q.size).1

    chosen : contents after ≡ select picks (contents s)
    chosen =
        ap (window no_request cap compacted.0 q.head) (sym half)
        ∙ run.chosen
        ∙ ap (select picks) waiting

    others : compacted.2 ≡ connfds (reject picks (contents s))
    others = run.others ∙ ap (λ rs. connfds (reject picks rs)) waiting

    after-IsValid : IsValid after
    after-IsValid = record {
      capacity_pos = v.capacity_pos;
      storage = run.storage;
      head_in = v.head_in;
      tail_at = run.tail_at ∙ ap (λ k. (q.head + k) % cap) half;
      room = omega (arith, v.room);
    }

    -- `drop_random` on a queue that is not empty keeps half of the requests, rounded down, in their
    -- order, and closes the others, half of the queue rounded up, and leaves the capacity and the list
    -- of handled requests, whatever `rand` returns.
    pub drop_random-contents :
        q.size ≢ 0
        → (mask : List Bool) × (s' : SharedInfo) × (drop_random rand s m
            ≡ dropped s' (connfds (reject mask (contents s))))
          × (length mask ≡ q.size)
          × (count_true mask ≡ q.size / 2)
          × (contents s' ≡ select mask (contents s))
          × (s'.requests_queue.size ≡ q.size / 2)
          × (s'.queue_capacity ≡ cap)
          × (s'.requests_list ≡ l)
          × IsValid s'
    unfolding drop_random
    drop_random-contents h = (
      picks,
      after,
      rw (not_empty q.size h) (ap (dropped after) others),
      (random_picks-count_true rand q.size).1,
      (random_picks-count_true rand q.size).0,
      chosen,
      refl,
      refl,
      refl,
      after-IsValid,
    )
