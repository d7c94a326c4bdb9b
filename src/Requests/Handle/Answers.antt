-- ===== src/Requests/Handle/Answers.antt =====
-- web_server/request.c: what `requestHandle` answers to a well-formed request.
use operating_system_related.Prelude.{◌≡◌, true, List, ◌∷◌, ◌++◌, ◌⊎◌}
use operating_system_related.Prelude.Text.{Text}
use operating_system_related.Server.{Statistics}
use operating_system_related.Rio.{Input}
use operating_system_related.Requests.Headers.Laws.{IsLine, AreHeaders, Failed}
use operating_system_related.Requests.Handle.{Files, Handled}
use operating_system_related.Requests.Handle.Outcome.{Outcome}
use operating_system_related.Requests.Handle.Scan.{is_get, IsWord}
use operating_system_related.Requests.Uri.{parse_uri}

-- A request of a method `GET` in any case, for `uri`: its line, its headers, the empty line.
pub record IsRequest (line uri : Text) (headers : List Text) : Type 0 where
  pub method : Text
  pub version : Text
  pub parts : line ≡ method ++ 32 ∷ (uri ++ 32 ∷ version)
  pub whole : IsLine line
  pub a_method : IsWord method
  pub a_uri : IsWord uri
  pub get : is_get method ≡ true
  pub named : AreHeaders headers

module _ (files : Files) (stats : Statistics) (input : Input) where
  open input use {State, pending}

  -- The outcome for the URI, unless some `read` fails.
  abbrev pub IsAnswered : (uri : Text) → Handled → Type 0
  IsAnswered uri h = Outcome files stats (parse_uri 0 uri) h ⊎ Failed input
