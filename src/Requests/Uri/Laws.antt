-- ===== src/Requests/Uri/Laws.antt =====
-- web_server/request.c: where the file names of `requestParseURI` lie, and which parts of the URI it
-- gives back.
use operating_system_related.Prelude.{
  ℕ, ◌+◌, ◌<◌, ◌≤◌, ◌≡◌, refl, ap, true, false, some, [], ◌∷◌, ◌++◌, arith, length, length-append,
  ◌==◌, Bool-cases, inl, inr,
}
use operating_system_related.Prelude.Text.{
  Text, codes, is_prefix, strstr, strstr-front, strstr-append_pair, before_byte, before_byte-front,
  after_byte, last_or, empty_front, rest_front,
}
use operating_system_related.Requests.{maxline}
use operating_system_related.Requests.Uri.{parse_static, parse_dynamic, parse_uri}
use mathlib.Core.Path.{subst}

-- A name of something below the directory `public`: it starts there and never goes up.
pub record IsPublic (filename : Text) : Type 0 where
  pub below : is_prefix (codes "./public/") filename ≡ true
  pub never_up : strstr filename (codes "..") ≡ false

IsPublic-name :
    (name : Text) → strstr name (codes "..") ≡ false → IsPublic (codes "./public/" ++ name)
unfolding strstr
IsPublic-name name h = record { below = refl; never_up = h }

before_byte-never_up :
    (c : ℕ) (uri : Text)
    → strstr uri (codes "..") ≡ false
    → strstr (before_byte c uri) (codes "..") ≡ false
before_byte-never_up c uri h =
    let (rest, e) = before_byte-front c uri in
    strstr-front (before_byte c uri) rest (codes "..")
      (subst (λ xs. strstr xs (codes "..") ≡ false) e h)

home-never_up :
    (uri : Text)
    → strstr uri (codes "..") ≡ false
    → strstr (uri ++ codes "home.html") (codes "..") ≡ false
unfolding strstr
home-never_up uri h = strstr-append_pair b'.' uri b'h' (codes "ome.html") refl h refl

parse_static-IsPublic :
    (before : ℕ) (uri : Text)
    → strstr uri (codes "..") ≡ false
    → IsPublic (parse_static before uri).filename
unfolding parse_static
parse_static-IsPublic before uri h = elim (Bool-cases (last_or before uri == b'/')) [
  | inl t ↦ rw t (IsPublic-name (uri ++ codes "home.html") (home-never_up uri h))
  | inr f ↦ rw f (IsPublic-name uri h)
]

parse_dynamic-IsPublic :
    (uri : Text) → strstr uri (codes "..") ≡ false → IsPublic (parse_dynamic uri).filename
unfolding parse_dynamic
parse_dynamic-IsPublic uri h =
    IsPublic-name (before_byte b'?' uri) (before_byte-never_up b'?' uri h)

-- Whatever the URI, the file name that `requestParseURI` makes of it starts with "./public/" and
-- contains no "..": no request reaches a file outside of the directory.
pub parse_uri-IsPublic : (before : ℕ) (uri : Text) → IsPublic (parse_uri before uri).filename
unfolding parse_uri strstr
parse_uri-IsPublic before uri = elim (Bool-cases (strstr uri (codes ".."))) [
  | inl t ↦ rw t record { below = refl; never_up = refl }
  | inr f ↦ rw f (elim (Bool-cases (strstr uri (codes "cgi"))) [
    | inl t ↦ rw t (parse_dynamic-IsPublic uri f)
    | inr f' ↦ rw f' (parse_static-IsPublic before uri f)
  ])
]

length-before_byte : (c : ℕ) (uri : Text) → length (before_byte c uri) ≤ length uri
length-before_byte c uri =
    let (rest, e) = before_byte-front c uri in
    omega (arith, ap length e, length-append (before_byte c uri) rest)

static-le : (before : ℕ) (uri : Text) → length (parse_static before uri).filename ≤ length uri + 18
unfolding parse_static
static-le before uri = elim (Bool-cases (last_or before uri == b'/')) [
  | inl t ↦ rw t (omega (arith, length-append uri (codes "home.html")))
  | inr f ↦ rw f (omega arith)
]

dynamic-le : (uri : Text) → length (parse_dynamic uri).filename ≤ length uri + 18
unfolding parse_dynamic
dynamic-le uri = omega (arith, length-before_byte b'?' uri)

-- A URI at least 18 bytes shorter than `MAXLINE` allows gives a file name that fits, with its final 0,
-- into the array `filename`.
pub parse_uri-lt-maxline :
    (before : ℕ) (uri : Text)
    → length uri + 18 < maxline
    → length (parse_uri before uri).filename < maxline
unfolding parse_uri
parse_uri-lt-maxline before uri h = elim (Bool-cases (strstr uri (codes ".."))) [
  | inl t ↦ rw t (omega arith)
  | inr f ↦ rw f (elim (Bool-cases (strstr uri (codes "cgi"))) [
    | inl t ↦ rw t (omega (arith, dynamic-le uri))
    | inr f' ↦ rw f' (omega (arith, static-le before uri))
  ])
]

same_byte : (c : ℕ) → (c == c) ≡ true
same_byte c = ground arith

split_query :
    (c : ℕ) (path query : Text)
    → before_byte c path ≡ path
    → (before_byte c (path ++ c ∷ query) ≡ path) × (after_byte c (path ++ c ∷ query) ≡ query)
unfolding before_byte after_byte
split_query c [] query h = rw (same_byte c) (refl, refl)
split_query c (x ∷ path) query h = elim (Bool-cases (x == c)) [
  | inl t ↦ absurd (empty_front c x path t h)
  | inr f ↦
      let (a, b) = split_query c path query (rest_front c x path f h) in
      rw f (ap (λ xs. x ∷ xs) a, b)
]

-- A request for a program: of a URI that contains "cgi" and no "..", of which `path` is what stands
-- before the first '?', the file is `path` and the arguments are all that comes after.
pub parse_uri-dynamic :
    (before : ℕ) (path query : Text)
    → strstr (path ++ b'?' ∷ query) (codes "..") ≡ false
    → strstr (path ++ b'?' ∷ query) (codes "cgi") ≡ true
    → before_byte b'?' path ≡ path
    → parse_uri before (path ++ b'?' ∷ query)
      ≡ (record { is_static = false; filename = codes "./public/" ++ path; cgiargs = some query })
unfolding parse_uri parse_dynamic
parse_uri-dynamic before path query no_dots cgi h =
    let (a, b) = split_query b'?' path query h in rw (no_dots, cgi, a, b) refl
