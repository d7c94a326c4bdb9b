-- ===== src/Requests/Stats.antt =====
-- web_server/request.c: `buf_stats`, with the conversions of `sprintf` that it uses.
pub mod Laws
use operating_system_related.Prelude.{
  ℕ, zero, suc, ◌+◌, ◌-◌, ◌*◌, ◌/◌, ◌%◌, Bool, List, [], ◌∷◌, ◌++◌, if◌then◌else◌, ltb, length,
  replicate,
}
use operating_system_related.Prelude.Int.{ℤ, pos, negsuc, eqb_ℤ}
use operating_system_related.Prelude.Text.{Text, codes}
use operating_system_related.Server.{Timeval, Statistics}

-- "\r\n"
abbrev pub crlf : Text
crlf = 13 ∷ 10 ∷ []

unfoldable pub digits : (fuel n : ℕ) → Text
digits zero n = []
digits (suc fuel) n =
    let front = digits fuel (n / 10) in
    if ltb n 10 then (b'0' + n) ∷ [] else front ++ (b'0' + n % 10) ∷ []

-- `%d` and `%lu` of a number that is not negative; `n + 1` rounds are enough for its digits.
unfoldable pub decimal : (n : ℕ) → Text
unfolding digits
decimal n = digits (suc n) n

-- `%ld`
unfoldable pub print_ld : ℤ → Text
unfolding decimal
print_ld (pos n) = decimal n
print_ld (negsuc n) = b'-' ∷ decimal (suc n)

unfoldable pub pad : (width : ℕ) (text : Text) → Text
pad width text = replicate (width - length text) b'0' ++ text

-- `%06ld`
unfoldable pub print_06ld : ℤ → Text
unfolding decimal pad
print_06ld (pos n) = pad 6 (decimal n)
print_06ld (negsuc n) = b'-' ∷ pad 5 (decimal (suc n))

-- `%ld.%06ld` of a time.
unfoldable pub print_time : Timeval → Text
unfolding print_ld print_06ld
print_time t = print_ld t.tv_sec ++ b'.' ∷ print_06ld t.tv_usec

-- The six lines, each of a name and a value.
unfoldable pub stat_lines :
    (arrival dispatch : Timeval) (thread_id count static_count dynamic_count : ℕ) → Text
unfolding print_time decimal
stat_lines arrival dispatch thread_id count static_count dynamic_count =
    codes "Stat-Req-Arrival:: "
    ++ print_time arrival
    ++ crlf
    ++ codes "Stat-Req-Dispatch:: "
    ++ print_time dispatch
    ++ crlf
    ++ codes "Stat-Thread-Id:: "
    ++ decimal thread_id
    ++ crlf
    ++ codes "Stat-Thread-Count:: "
    ++ decimal count
    ++ crlf
    ++ codes "Stat-Thread-Static:: "
    ++ decimal static_count
    ++ crlf
    ++ codes "Stat-Thread-Dynamic:: "
    ++ decimal dynamic_count
    ++ crlf

-- `is_static` is 1, 0, or -1 for an error. The text is what `buf` holds in the end.
unfoldable pub buf_stats : Statistics → (is_static : ℤ) → Text
unfolding stat_lines
buf_stats stats is_static =
    stat_lines stats.arrival_time stats.dispatch_interval stats.thread_id (stats.requests_count + 1)
      (stats.static_requests_count + (if eqb_ℤ is_static (pos 1) then 1 else 0))
      (stats.dynamic_requests_count + (if eqb_ℤ is_static (pos 0) then 1 else 0))
