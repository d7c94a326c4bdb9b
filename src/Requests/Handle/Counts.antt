-- ===== src/Requests/Handle/Counts.antt =====
-- web_server/request.c: the statistics that are sent with every answer.
use operating_system_related.Prelude.{ℕ, ◌≡◌, List, [], ◌∷◌, ◌++◌, inl, inr}
use mathlib.Core.Path.{subst}
use operating_system_related.Prelude.Text.{Text, codes}
use operating_system_related.Server.{Request, SharedInfo, ThreadInfo, RequestResult}
use RequestResult.{err501, err404, err403, dynamic, static}
use operating_system_related.Server.Worker.{statistics_stamp, end_request}
use operating_system_related.Rio.{Input}
use operating_system_related.Requests.Stats.{crlf, decimal, print_time, stat_lines, buf_stats}
use operating_system_related.Requests.Uri.{Parsed, parse_uri}
use operating_system_related.Requests.Handle.{
  Files, Arrays, Action, sent, handled, request_error, serve_dynamic, static_actions,
  request_handle,
}
use operating_system_related.Requests.Handle.Outcome.{Answer}
use operating_system_related.Requests.Handle.Laws.{NotGet, Allowed, request_handle-Allowed}

-- The lines for a request that a worker has counted.
abbrev counted_lines : Request → ThreadInfo → Text
counted_lines r t =
    codes "Stat-Req-Arrival:: "
    ++ print_time r.arrival_time
    ++ crlf
    ++ codes "Stat-Req-Dispatch:: "
    ++ print_time r.dispatch_interval
    ++ crlf
    ++ codes "Stat-Thread-Id:: "
    ++ decimal t.thread_id
    ++ crlf
    ++ codes "Stat-Thread-Count:: "
    ++ decimal t.requests_count
    ++ crlf
    ++ codes "Stat-Thread-Static:: "
    ++ decimal t.static_requests_count
    ++ crlf
    ++ codes "Stat-Thread-Dynamic:: "
    ++ decimal t.dynamic_requests_count
    ++ crlf

-- With the empty line that ends the header; after the statistics of a program it is left to the program.
abbrev ended_by : RequestResult → Text → Text
ended_by err501 text = text ++ crlf
ended_by err404 text = text ++ crlf
ended_by err403 text = text ++ crlf
ended_by dynamic text = text
ended_by static text = text ++ crlf

module _ (files : Files) (server : SharedInfo) (t : ThreadInfo) (r : Request) where
  -- The actions for a request with this result send the lines, with the counters that the worker has
  -- once it has counted the request.
  abbrev pub SendsCounts : RequestResult → List Action → Type 0
  SendsCounts result actions =
      (front : List Action) × (back : List Action) × (actions
        ≡ front ++ sent (ended_by result (counted_lines r (end_request server t result).1)) ∷ back)

  Answer-SendsCounts :
      (p : Parsed) (result : RequestResult) (actions : List Action)
      → Answer files (statistics_stamp t r) p result actions
      → SendsCounts result actions
  unfolding request_error serve_dynamic static_actions buf_stats stat_lines statistics_stamp
      end_request
  Answer-SendsCounts p static actions (st, content, h, m, e) = (_ ∷ [], _ ∷ [], e)
  Answer-SendsCounts p dynamic actions (st, args, f, k, g, x, a, e) = (_ ∷ [], _ ∷ [], e)
  Answer-SendsCounts p err501 actions never = absurd never
  Answer-SendsCounts p err404 actions (f, e) = (_ ∷ _ ∷ _ ∷ [], _ ∷ [], e)
  Answer-SendsCounts p err403 actions (st, f, inl (k, g, e)) = (_ ∷ _ ∷ _ ∷ [], _ ∷ [], e)
  Answer-SendsCounts p err403 actions (st, f, inr (k, g, e)) = (_ ∷ _ ∷ _ ∷ [], _ ∷ [], e)

  NotGet-SendsCounts :
      (result : RequestResult) (actions : List Action)
      → NotGet files (statistics_stamp t r) result actions
      → SendsCounts result actions
  unfolding request_error buf_stats stat_lines statistics_stamp end_request
  NotGet-SendsCounts err501 actions (method, f, e) = (_ ∷ _ ∷ _ ∷ [], _ ∷ [], e)
  NotGet-SendsCounts err404 actions never = absurd never
  NotGet-SendsCounts err403 actions never = absurd never
  NotGet-SendsCounts dynamic actions never = absurd never
  NotGet-SendsCounts static actions never = absurd never

  Allowed-SendsCounts :
      (result : RequestResult) (actions : List Action)
      → Allowed files (statistics_stamp t r) (handled result actions)
      → SendsCounts result actions
  Allowed-SendsCounts result actions (inl (before, uri, (public, inl a))) =
      Answer-SendsCounts (parse_uri before uri) result actions a
  Allowed-SendsCounts result actions (inl (before, uri, (public, inr (st, f, m, e)))) = cc
  Allowed-SendsCounts result actions (inr (inl a)) = NotGet-SendsCounts result actions a
  Allowed-SendsCounts result actions (inr (inr (inl e))) = cc
  Allowed-SendsCounts result actions (inr (inr (inr e))) = cc

  -- Whenever `requestHandle` returns a result, one of the texts it has sent is the six lines of the
  -- statistics, with the times of the request, and with the counters that the worker has once it has
  -- counted the request by that result; the header ends behind them, unless a program is to go on.
  pub request_handle-SendsCounts :
      (input : Input) (fuel : ℕ) (arrays : Arrays) (s : input.State) (result : RequestResult)
      (actions : List Action)
      → request_handle input fuel files (statistics_stamp t r) arrays s ≡ handled result actions
      → SendsCounts result actions
  request_handle-SendsCounts input fuel arrays s result actions e =
      Allowed-SendsCounts result actions (
        subst (Allowed files (statistics_stamp t r)) e
          (request_handle-Allowed files (statistics_stamp t r) input fuel arrays s))
