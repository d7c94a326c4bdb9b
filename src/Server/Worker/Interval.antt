-- ===== src/Server/Worker/Interval.antt =====
-- web_server/server.c: the dispatch interval of `workerFunction` is the difference of its times.
use operating_system_related.Prelude.{◌+◌, ◌*◌, ◌≡◌, ℕ, arith}
use operating_system_related.Prelude.Int.{pos, pos_part, neg_part, ◌≤ℤ◌, ◌<ℤ◌}
use operating_system_related.Server.{Timeval}
use operating_system_related.Server.Worker.{interval}

-- The microseconds lie in a second, as `gettimeofday` gives them.
pub record IsNormal (t : Timeval) : Type 0 where
  pub usec_nonneg : pos 0 ≤ℤ t.tv_usec
  pub usec_bound : t.tv_usec <ℤ pos 1000000

-- A time in microseconds, as what it gains and what it loses.
abbrev pub gained : Timeval → ℕ
gained t = 1000000 * pos_part t.tv_sec + pos_part t.tv_usec

abbrev pub lost : Timeval → ℕ
lost t = 1000000 * neg_part t.tv_sec + neg_part t.tv_usec

-- The interval between two normal times is normal, and added to the first time it gives the second.
pub interval_lem :
    (from until : Timeval)
    → IsNormal from
    → IsNormal until
    → IsNormal (interval from until)
      × (gained (interval from until) + gained from + lost until
          ≡ lost (interval from until) + lost from + gained until)
unfolding interval
interval_lem from until f u = ground arith
