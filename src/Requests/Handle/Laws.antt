-- ===== src/Requests/Handle/Laws.antt =====
-- web_server/request.c: how `requestHandle` can end, whatever comes in.
use operating_system_related.Prelude.{
  ℕ, ◌≡◌, refl, false, Option, List, [], Bool-cases, ◌⊎◌, inl, inr,
}
use operating_system_related.Prelude.Text.{Text, codes}
use operating_system_related.Server.{Statistics, RequestResult}
use RequestResult.{err501, err404, err403, dynamic, static}
use operating_system_related.Rio.{Input, Ran, returned, minus_one, out_of_fuel}
use operating_system_related.Rio.Lines.{readlineb}
use operating_system_related.Requests.{maxline}
use operating_system_related.Requests.Uri.{parse_uri}
use operating_system_related.Requests.Headers.{array_text, readhdrs}
use operating_system_related.Requests.Handle.{
  Files, Arrays, Action, Handled, exited, unfinished, request_error, after_headers, after_line,
  after_readline, request_handle,
}
use operating_system_related.Requests.Handle.Outcome.{
  Ends, Outcome, answer_error-Ends, serve-Outcome,
}
use operating_system_related.Requests.Handle.Scan.{is_get, scan_method, scan_uri}

module _ (files : Files) (stats : Statistics) where
  -- The answer to a method other than GET.
  abbrev pub NotGet : RequestResult → List Action → Type 0
  NotGet err501 actions =
      (method : Text) × (is_get method ≡ false)
      × (actions
          ≡ request_error method (codes "501") (codes "Not Implemented")
              (codes "OS-HW3 Server does not implement this method") stats)
  NotGet err404 actions = ⊥
  NotGet err403 actions = ⊥
  NotGet dynamic actions = ⊥
  NotGet static actions = ⊥

  -- An answer for some URI, or to a method other than GET, or an exit with nothing sent, or not yet.
  abbrev pub Allowed : Handled → Type 0
  Allowed h =
      ((before : ℕ) × (uri : Text) × Outcome files stats (parse_uri before uri) h)
      ⊎ (Ends files stats NotGet h ⊎ ((h ≡ exited []) ⊎ (h ≡ unfinished)))

  module _ (input : Input) where
    open input use {State}

    after_headers-Allowed :
        (arrays : Arrays) (uri : Text) (r : Ran State)
        → Allowed (after_headers input files stats arrays uri r)
    unfolding after_headers
    after_headers-Allowed arrays uri (returned s) =
        inl (arrays.before_uri, uri, serve-Outcome files stats arrays uri)
    after_headers-Allowed arrays uri minus_one = inr (inr (inl refl))
    after_headers-Allowed arrays uri out_of_fuel = inr (inr (inr refl))

    after_line-Allowed :
        (fuel : ℕ) (arrays : Arrays) (buf : Text) (s : State)
        → Allowed (after_line input fuel files stats arrays buf s)
    unfolding after_line
    after_line-Allowed fuel arrays buf s =
        let method = scan_method arrays.method buf in
        elim (Bool-cases (is_get method)) [
          | inl t ↦ rw t (
              after_headers-Allowed arrays (scan_uri arrays.uri buf)
                (readhdrs input fuel s arrays.headers))
          | inr f ↦ rw f (
              inr (
                inl (
                  answer_error-Ends files stats NotGet err501 method (codes "501")
                    (codes "Not Implemented") (codes "OS-HW3 Server does not implement this method")
                    refl (method, f, refl))))
        ]

    after_readline-Allowed :
        (fuel : ℕ) (arrays : Arrays) (r : Ran (ℕ × Option Text × State))
        → Allowed (after_readline input fuel files stats arrays r)
    unfolding after_readline
    after_readline-Allowed fuel arrays (returned (n, line, s)) =
        after_line-Allowed fuel arrays (array_text arrays.line line) s
    after_readline-Allowed fuel arrays minus_one = inr (inr (inl refl))
    after_readline-Allowed fuel arrays out_of_fuel = inr (inr (inr refl))

    pub request_handle-Allowed :
        (fuel : ℕ) (arrays : Arrays) (s : State)
        → Allowed (request_handle input fuel files stats arrays s)
    unfolding request_handle
    request_handle-Allowed fuel arrays s =
        after_readline-Allowed fuel arrays (readlineb input s maxline)
