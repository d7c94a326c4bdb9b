-- ===== src/Server/Threads/Invariant/Runs.antt =====
-- web_server/server.c: runs of the server from its start.
use operating_system_related.Prelude.{ℕ, zero, suc, ◌+◌, ◌<◌, ◌≡◌, refl, inl, List, arith, length}
use operating_system_related.Server.{Request, Policy}
use operating_system_related.Server.Queue.Refine.{create-IsValid}
use operating_system_related.Server.Threads.{
  Threads, WorkerPoint, Step, accept, admit, wake_master, take, wake_worker, handle, finish, Reach,
  here, next, create_workers_pool, server_start,
}
use operating_system_related.Server.Threads.Totals.{total, busy, asleep, held}
use operating_system_related.Server.Threads.Invariant.{Inv}
use operating_system_related.Server.Threads.Invariant.Master.{
  accept-Inv, master_step-Inv, wake_master-Inv,
}
use operating_system_related.Server.Threads.Invariant.Workers.{
  take_step-Inv, wake_worker-Inv, handle_step-Inv, finish_step-Inv,
}

pub Step-Inv : {p : Policy} {t u : Threads} → Step p t u → Inv t → Inv u
Step-Inv (accept t fd now e) v = accept-Inv fd now e v
Step-Inv {p} (admit t m rand e) v = master_step-Inv p m e v rand
Step-Inv (wake_master t m e) v = wake_master-Inv m e v
Step-Inv (take t i w now at) v = take_step-Inv i w now at v
Step-Inv (wake_worker t i w at) v = wake_worker-Inv i w at v
Step-Inv (handle t i w r stats result at) v = handle_step-Inv i w r stats result at v
Step-Inv (finish t i w result at) v = finish_step-Inv i w result at v

pub Reach-Inv : {p : Policy} {start t : Threads} → Inv start → Reach p start t → Inv t
Reach-Inv v here = v
Reach-Inv v (next r step) = Step-Inv step (Reach-Inv v r)

-- A pool has nobody busy, nobody asleep and nobody with a connection.
total-pool :
    (f : WorkerPoint → ℕ) (n i : ℕ)
    → f WorkerPoint.locking ≡ 0
    → total f (create_workers_pool n i) ≡ 0
unfolding create_workers_pool
total-pool f zero i e = refl
total-pool f (suc n) i e = omega (arith, e, total-pool f n (i + 1) e)

pub server_start-Inv :
    (capacity threads : ℕ) (memory list_memory : List Request)
    → 0 < capacity
    → length memory ≡ capacity
    → Inv (server_start capacity threads memory list_memory)
unfolding server_start
server_start-Inv capacity threads memory list_memory pos len = record {
  valid = create-IsValid capacity memory list_memory pos len;
  listed = omega (arith, total-pool busy threads 0 refl);
  workers_sleep = inl (total-pool asleep threads 0 refl);
  master_sleeps = tt;
  balance = λ a. omega (arith, total-pool (held a) threads 0 refl);
}
