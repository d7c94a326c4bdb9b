-- ===== src/Requests/Handle/Outcome.antt =====
-- web_server/request.c: what `requestHandle` answers once the URI is parsed.
use operating_system_related.Prelude.{
  ℕ, ◌≤◌, ◌<◌, ◌≡◌, refl, Bool, true, false, ◌&&◌, Option, none, some, List, [], ◌∷◌, ◌++◌, take,
  length, Bool-cases, ◌⊎◌, inl, inr, arith, ltb,
}
use operating_system_related.Prelude.Int.{to_int}
use operating_system_related.Prelude.Text.{Text, codes, strstr}
use operating_system_related.Server.{Statistics, RequestResult}
use RequestResult.{err501, err404, err403, dynamic, static}
use operating_system_related.Requests.{maxbuf}
use operating_system_related.Requests.Uri.{Parsed, parse_static, parse_dynamic, parse_uri}
use operating_system_related.Requests.Uri.Laws.{IsPublic, parse_uri-IsPublic}
use operating_system_related.Requests.Handle.{
  Stat, Files, Arrays, Action, sent, Handled, handled, exited, overflowed, unfinished, answered,
  error_body, request_error, answer_error, serve_dynamic, static_actions, serve_static, after_stat,
  respond, args_text, serve,
}

abbrev pub is_error : RequestResult → Bool
is_error static = false
is_error dynamic = false
is_error err501 = true
is_error err404 = true
is_error err403 = true

-- The URI of a program gives its arguments.
parse_uri-args :
    (before : ℕ) (uri old : Text)
    → (parse_uri before uri).is_static ≡ false
    → (parse_uri before uri).cgiargs ≡ some (args_text old (parse_uri before uri).cgiargs)
unfolding parse_uri parse_static parse_dynamic args_text
parse_uri-args before uri old = elim (Bool-cases (strstr uri (codes ".."))) [
  | inl t ↦ rw t (λ h. cc)
  | inr f ↦ rw f (elim (Bool-cases (strstr uri (codes "cgi"))) [
    | inl t ↦ rw t (λ h. refl)
    | inr g ↦ rw g (λ h. cc)
  ])
]

module _ (files : Files) (stats : Statistics) where
  open files use {stat, mapped, fails_at}

  -- The first actions of an answer, up to the one that fails.
  abbrev IsCut : (RequestResult → List Action → Type 0) → List Action → Type 0
  IsCut answer actions =
      (result : RequestResult) × (all : List Action) × (k : ℕ) × answer result all
      × (fails_at ≡ some k)
      × (k < length all)
      × (actions ≡ take k all)

  -- The answer is an error whose page does not fit into its array.
  abbrev IsTooLong : (RequestResult → List Action → Type 0) → Type 0
  IsTooLong answer =
      (result : RequestResult) × (front : List Action) × (page : Text) × answer result
        (front ++ sent page ∷ [])
      × (is_error result ≡ true)
      × (maxbuf ≤ length page)

  -- The answer is given; or it is cut where an action fails; or its page is too long.
  abbrev pub Ends : (RequestResult → List Action → Type 0) → Handled → Type 0
  Ends answer (handled result actions) = answer result actions
  Ends answer (exited actions) = IsCut answer actions
  Ends answer overflowed = IsTooLong answer
  Ends answer unfinished = ⊥

  -- The file is there to be sent, to its user, as static content.
  abbrev IsReadable : Parsed → Stat → Type 0
  IsReadable p st =
      (stat p.filename ≡ some st)
      × (p.is_static ≡ true)
      × (st.is_regular ≡ true)
      × (st.user_readable ≡ true)

  -- The answers for a parsed URI, each with its reason, which excludes the others.
  abbrev pub Answer : Parsed → RequestResult → List Action → Type 0
  Answer p static actions =
      (st : Stat) × (content : Text) × IsReadable p st
      × (mapped p.filename (to_int st.size) ≡ some content)
      × (actions ≡ static_actions p.filename (to_int st.size) content stats)
  Answer p dynamic actions =
      (st : Stat) × (args : Text) × (stat p.filename ≡ some st)
      × (p.is_static ≡ false)
      × (st.is_regular ≡ true)
      × (st.user_executable ≡ true)
      × (p.cgiargs ≡ some args)
      × (actions ≡ serve_dynamic p.filename args stats)
  Answer p err501 actions = ⊥
  Answer p err404 actions =
      (stat p.filename ≡ none)
      × (actions
          ≡ request_error p.filename (codes "404") (codes "Not found")
              (codes "OS-HW3 Server could not find this file") stats)
  Answer p err403 actions =
      (st : Stat) × (stat p.filename ≡ some st)
      × (((p.is_static ≡ true)
            × ((st.is_regular && st.user_readable) ≡ false)
            × (actions
                ≡ request_error p.filename (codes "403") (codes "Forbidden")
                    (codes "OS-HW3 Server could not read this file") stats))
          ⊎ ((p.is_static ≡ false)
              × ((st.is_regular && st.user_executable) ≡ false)
              × (actions
                  ≡ request_error p.filename (codes "403") (codes "Forbidden")
                      (codes "OS-HW3 Server could not run this CGI program") stats)))

  -- Exit without an answer, since a file that is there to be sent cannot be opened or mapped.
  abbrev IsUnmapped : Parsed → Handled → Type 0
  IsUnmapped p h =
      (st : Stat) × IsReadable p st × (mapped p.filename (to_int st.size) ≡ none) × (h ≡ exited [])

  abbrev pub Outcome : Parsed → Handled → Type 0
  Outcome p h = IsPublic p.filename × (Ends (Answer p) h ⊎ IsUnmapped p h)

  answered-Ends :
      (answer : RequestResult → List Action → Type 0) (result : RequestResult)
      (actions : List Action)
      → answer result actions
      → (k : Option ℕ) → fails_at ≡ k
      → Ends answer (answered k result actions)
  unfolding answered
  answered-Ends answer result actions a none e = a
  answered-Ends answer result actions a (some k) e = elim (Bool-cases (ltb k (length actions))) [
    | inl t ↦ rw t (result, actions, k, a, e, less k (length actions) t, refl)
    | inr f ↦ rw f a
  ]
    where
      less : (a b : ℕ) → ltb a b ≡ true → a < b
      less a b t = ground arith

  pub answer_error-Ends :
      (answer : RequestResult → List Action → Type 0) (result : RequestResult)
      (cause errnum shortmsg longmsg : Text)
      → is_error result ≡ true
      → answer result (request_error cause errnum shortmsg longmsg stats)
      → Ends answer (answer_error fails_at result cause errnum shortmsg longmsg stats)
  unfolding answer_error request_error
  answer_error-Ends answer result cause errnum shortmsg longmsg h a =
      let page = error_body cause errnum shortmsg longmsg in
      elim (Bool-cases (ltb (length page) maxbuf)) [
        | inl t ↦ rw t (answered-Ends answer result _ a fails_at refl)
        | inr f ↦ rw f (result, _ ∷ _ ∷ _ ∷ _ ∷ [], page, a, h, more (length page) maxbuf f)
      ]
    where
      more : (a b : ℕ) → ltb a b ≡ false → b ≤ a
      more a b f = ground arith

  both_true : (a b : Bool) → (a && b) ≡ true → (a ≡ true) × (b ≡ true)
  both_true true true h = (refl, refl)
  both_true true false h = cc
  both_true false b h = cc

  serve_static-Outcome :
      (p : Parsed) (st : Stat)
      → IsPublic p.filename
      → IsReadable p st
      → (content : Option Text) → mapped p.filename (to_int st.size) ≡ content
      → Outcome p (serve_static fails_at p.filename (to_int st.size) content stats)
  unfolding serve_static
  serve_static-Outcome p st public r none m = (public, inr (st, r, m, refl))
  serve_static-Outcome p st public r (some content) m =
      (public, inl (answered-Ends (Answer p) static _ (st, content, r, m, refl) fails_at refl))

  after_stat-Outcome :
      (p : Parsed) (args : Text) (st : Stat)
      → IsPublic p.filename
      → stat p.filename ≡ some st
      → (p.is_static ≡ false → p.cgiargs ≡ some args)
      → (b : Bool) → p.is_static ≡ b
      → Outcome p (after_stat files stats b p.filename args st)
  unfolding after_stat
  after_stat-Outcome p args st public e has_args true kind =
      elim (Bool-cases (st.is_regular && st.user_readable)) [
        | inl t ↦
            let (regular, readable) = both_true st.is_regular st.user_readable t in
            rw t (serve_static-Outcome p st public (e, kind, regular, readable) _ refl)
        | inr f ↦ rw f (
          public,
          inl (
              answer_error-Ends (Answer p) err403 p.filename (codes "403") (codes "Forbidden")
                (codes "OS-HW3 Server could not read this file") refl (st, e, inl (kind, f, refl))),
        )
      ]
  after_stat-Outcome p args st public e has_args false kind =
      elim (Bool-cases (st.is_regular && st.user_executable)) [
        | inl t ↦
            let (regular, executable) = both_true st.is_regular st.user_executable t in
            rw t (
              public,
              inl (
                  answered-Ends (Answer p) dynamic _
                    (st, args, e, kind, regular, executable, has_args kind, refl) fails_at refl),
            )
        | inr f ↦ rw f (
          public,
          inl (
              answer_error-Ends (Answer p) err403 p.filename (codes "403") (codes "Forbidden")
                (codes "OS-HW3 Server could not run this CGI program") refl
                (st, e, inr (kind, f, refl))),
        )
      ]

  respond-Outcome :
      (p : Parsed) (args : Text)
      → IsPublic p.filename
      → (p.is_static ≡ false → p.cgiargs ≡ some args)
      → (found : Option Stat) → stat p.filename ≡ found
      → Outcome p (respond files stats p.is_static p.filename args found)
  unfolding respond
  respond-Outcome p args public has_args none e = (
    public,
    inl (
        answer_error-Ends (Answer p) err404 p.filename (codes "404") (codes "Not found")
          (codes "OS-HW3 Server could not find this file") refl (e, refl)),
  )
  respond-Outcome p args public has_args (some st) e =
      after_stat-Outcome p args st public e has_args p.is_static refl

  pub serve-Outcome :
      (arrays : Arrays) (uri : Text)
      → Outcome (parse_uri arrays.before_uri uri) (serve files stats arrays uri)
  unfolding serve
  serve-Outcome arrays uri =
      let p = parse_uri arrays.before_uri uri in
      respond-Outcome p (args_text arrays.cgiargs p.cgiargs)
        (parse_uri-IsPublic arrays.before_uri uri)
        (parse_uri-args arrays.before_uri uri arrays.cgiargs) (stat p.filename) refl
