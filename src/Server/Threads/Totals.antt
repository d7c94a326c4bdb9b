-- ===== src/Server/Threads/Totals.antt =====
-- web_server/server.c: what the workers hold, summed over all of them.
use operating_system_related.Prelude.{
  ℕ, zero, suc, ◌+◌, ◌≡◌, refl, ap, some, List, [], ◌∷◌, arith, set, get_elem?,
}
use mathlib.Core.Option.{some-injective}
use operating_system_related.Prelude.Int.{ℤ, count}
use operating_system_related.Server.Threads.{
  Worker, WorkerPoint, handling, handled, broadcast_not_empty,
}

abbrev pub total : (WorkerPoint → ℕ) → List Worker → ℕ
total f [] = 0
total f (w ∷ ws) = f w.point + total f ws

-- A worker that has a slot of the list.
abbrev pub busy : WorkerPoint → ℕ
busy WorkerPoint.locking = 0
busy WorkerPoint.waiting = 0
busy (handling r s) = 1
busy (handled r) = 1

abbrev pub asleep : WorkerPoint → ℕ
asleep WorkerPoint.locking = 0
asleep WorkerPoint.waiting = 1
asleep (handling r s) = 0
asleep (handled r) = 0

-- The open connection that a worker has in hand.
abbrev pub held : ℤ → WorkerPoint → ℕ
held fd WorkerPoint.locking = 0
held fd WorkerPoint.waiting = 0
held fd (handling r s) = count fd (r.connfd ∷ [])
held fd (handled r) = 0

pub total-set :
    (f : WorkerPoint → ℕ) (ws : List Worker) (i : ℕ) (old new : Worker)
    → get_elem? ws i ≡ some old
    → total f (set ws i new) + f old.point ≡ total f ws + f new.point
total-set f [] i old new h = cc
total-set f (w ∷ ws) zero old new h =
    omega (arith, ap (λ (v : Worker). f v.point) (some-injective w old h))
total-set f (w ∷ ws) (suc i) old new h = omega (arith, total-set f ws i old new h)

-- A broadcast leaves nobody asleep, and does not show in what the workers hold.
pub broadcast-busy : (ws : List Worker) → total busy (broadcast_not_empty ws) ≡ total busy ws
unfolding broadcast_not_empty
broadcast-busy [] = refl
broadcast-busy (w ∷ ws) = ground (arith, broadcast-busy ws)

pub broadcast-asleep : (ws : List Worker) → total asleep (broadcast_not_empty ws) ≡ 0
unfolding broadcast_not_empty
broadcast-asleep [] = refl
broadcast-asleep (w ∷ ws) = ground (arith, broadcast-asleep ws)

pub broadcast-held :
    (fd : ℤ) (ws : List Worker) → total (held fd) (broadcast_not_empty ws) ≡ total (held fd) ws
unfolding broadcast_not_empty
broadcast-held fd [] = refl
broadcast-held fd (w ∷ ws) = ground (arith, broadcast-held fd ws)
