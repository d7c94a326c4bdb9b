-- ===== src/Requests/Handle.antt =====
-- web_server/request.c: `requestHandle`, `requestError`, `requestServeStatic` and
-- `requestServeDynamic`.
--
-- What a request does to the outside is the list of its actions: each is one `Rio_writen`, or the run
-- of a program with the connection as its output. `sprintf` with `buf` as its target and as its first
-- argument appends. A `Rio_writen` or a `Fork` that fails exits from the server, so what comes after it
-- is cut off. `WaitPid` of the child just made and `Munmap` of the file just mapped are taken to
-- succeed.
pub mod Scan
pub mod Outcome
pub mod Laws
pub mod Answers
pub mod Counts
use operating_system_related.Prelude.{
  ℕ, Bool, true, false, ◌&&◌, Option, none, some, List, [], ◌∷◌, ◌++◌, if◌then◌else◌, length, take,
  ltb,
}
use operating_system_related.Prelude.Int.{ℤ, pos, negsuc, to_int}
use operating_system_related.Prelude.Text.{Text, codes, same_text}
use operating_system_related.Server.{Statistics, RequestResult}
use RequestResult.{err501, err404, err403, dynamic, static}
use operating_system_related.Rio.{Input, Ran, returned, minus_one, out_of_fuel}
use operating_system_related.Rio.Lines.{readlineb}
use operating_system_related.Requests.{maxline, maxbuf}
use operating_system_related.Requests.Stats.{crlf, decimal, print_ld, buf_stats}
use operating_system_related.Requests.Uri.{Parsed, parse_uri, get_filetype}
use operating_system_related.Requests.Headers.{array_text, readhdrs}
use operating_system_related.Requests.Handle.Scan.{is_get, scan_method, scan_uri}

-- What `stat` tells of a file: `S_ISREG`, `S_IRUSR`, `S_IXUSR` and `st_size`.
pub record Stat : Type 0 where
  pub is_regular : Bool
  pub user_readable : Bool
  pub user_executable : Bool
  pub size : ℕ

-- The world outside. `mapped` is what `Open` and `Mmap` make readable of a file when they are asked for
-- that size, an `int`; nothing if one of them fails, which exits. `fails_at` is the number, from 0, of
-- the action that fails, if one does.
pub record Files : Type 0 where
  pub stat : Text → Option Stat
  pub mapped : Text → (filesize : ℤ) → Option Text
  pub fails_at : Option ℕ

-- What the arrays of `requestHandle` and `requestReadhdrs` hold before they are written, and the byte
-- before `uri`.
pub record Arrays : Type 0 where
  pub line : Text
  pub method : Text
  pub uri : Text
  pub cgiargs : Text
  pub headers : Text
  pub before_uri : ℕ

pub data Action : Type 0 where
  sent : Text → Action
  ran_cgi : (filename cgiargs : Text) → Action

-- `requestHandle` returns; or the server exits, with these actions done; or a text does not fit into its
-- array, and the behaviour is undefined; or it is not done yet.
pub data Handled : Type 0 where
  handled : RequestResult → List Action → Handled
  exited : List Action → Handled
  overflowed : Handled
  unfinished : Handled

-- What becomes of actions that end with this result, when one of them may fail.
unfoldable pub answered : (fails_at : Option ℕ) → RequestResult → List Action → Handled
answered none result actions = handled result actions
answered (some k) result actions =
    if ltb k (length actions) then exited (take k actions) else handled result actions

-- The page of an error.
unfoldable pub error_body : (cause errnum shortmsg longmsg : Text) → Text
error_body cause errnum shortmsg longmsg =
    codes "<html><title>OS-HW3 Error</title>"
    ++ codes "<body bgcolor=fffff>"
    ++ crlf
    ++ errnum
    ++ codes ": "
    ++ shortmsg
    ++ crlf
    ++ codes "<p>"
    ++ longmsg
    ++ codes ": "
    ++ cause
    ++ crlf
    ++ codes "<hr>OS-HW3 Web Server"
    ++ crlf

unfoldable pub request_error : (cause errnum shortmsg longmsg : Text) → Statistics → List Action
unfolding error_body decimal buf_stats
request_error cause errnum shortmsg longmsg stats =
    let body = error_body cause errnum shortmsg longmsg in
    sent (codes "HTTP/1.0 " ++ errnum ++ codes " " ++ shortmsg ++ crlf)
    ∷ sent (codes "Content-Type: text/html" ++ crlf)
    ∷ sent (codes "Content-Length: " ++ decimal (length body) ++ crlf)
    ∷ sent (buf_stats stats (negsuc 0) ++ crlf)
    ∷ sent body
    ∷ []

-- The call of `requestError` and the return behind it; the page is built in the array `body`.
unfoldable pub answer_error :
    Option ℕ → RequestResult → (cause errnum shortmsg longmsg : Text) → Statistics → Handled
unfolding error_body request_error answered
answer_error fails_at result cause errnum shortmsg longmsg stats =
    if ltb (length (error_body cause errnum shortmsg longmsg)) maxbuf
    then answered fails_at result (request_error cause errnum shortmsg longmsg stats)
    else overflowed

unfoldable pub ok_header : Text
ok_header = codes "HTTP/1.0 200 OK" ++ crlf ++ codes "Server: OS-HW3 Web Server" ++ crlf

unfoldable pub serve_dynamic : (filename cgiargs : Text) → Statistics → List Action
unfolding ok_header buf_stats
serve_dynamic filename cgiargs stats =
    sent ok_header ∷ sent (buf_stats stats (pos 0)) ∷ ran_cgi filename cgiargs ∷ []

-- What is sent once the file is mapped.
unfoldable pub static_actions :
    (filename : Text) (filesize : ℤ) (content : Text) → Statistics → List Action
unfolding ok_header get_filetype print_ld buf_stats
static_actions filename filesize content stats =
    sent (
      ok_header
      ++ codes "Content-Length: "
      ++ print_ld filesize
      ++ crlf
      ++ codes "Content-Type: "
      ++ get_filetype filename
      ++ crlf)
    ∷ sent (buf_stats stats (pos 1) ++ crlf)
    ∷ sent content
    ∷ []

unfoldable pub serve_static :
    Option ℕ → (filename : Text) (filesize : ℤ) → (content : Option Text) → Statistics → Handled
unfolding static_actions answered
serve_static fails_at filename filesize none stats = exited []
serve_static fails_at filename filesize (some content) stats =
    answered fails_at static (static_actions filename filesize content stats)

-- The branch for static content, then that for dynamic content, once `stat` has found the file.
unfoldable pub after_stat :
    Files → Statistics → (is_static : Bool) → (filename cgiargs : Text) → Stat → Handled
unfolding serve_static serve_dynamic answered answer_error
after_stat files stats true filename cgiargs st =
    if st.is_regular && st.user_readable
    then (let filesize = to_int st.size in
        serve_static files.fails_at filename filesize (files.mapped filename filesize) stats)
    else answer_error files.fails_at err403 filename (codes "403") (codes "Forbidden")
        (codes "OS-HW3 Server could not read this file") stats
after_stat files stats false filename cgiargs st =
    if st.is_regular && st.user_executable
    then answered files.fails_at dynamic (serve_dynamic filename cgiargs stats)
    else answer_error files.fails_at err403 filename (codes "403") (codes "Forbidden")
        (codes "OS-HW3 Server could not run this CGI program") stats

unfoldable pub respond :
    Files → Statistics → (is_static : Bool) → (filename cgiargs : Text) → Option Stat → Handled
unfolding after_stat answer_error
respond files stats is_static filename cgiargs none =
    answer_error files.fails_at err404 filename (codes "404") (codes "Not found")
      (codes "OS-HW3 Server could not find this file") stats
respond files stats is_static filename cgiargs (some st) =
    after_stat files stats is_static filename cgiargs st

-- What `cgiargs` holds after `requestParseURI`.
unfoldable pub args_text : (old : Text) → Option Text → Text
args_text old none = old
args_text old (some text) = text

-- From `requestParseURI` on.
unfoldable pub serve : Files → Statistics → Arrays → (uri : Text) → Handled
unfolding respond parse_uri args_text
serve files stats arrays uri =
    let parsed = parse_uri arrays.before_uri uri in
    let args = args_text arrays.cgiargs parsed.cgiargs in
    respond files stats parsed.is_static parsed.filename args (files.stat parsed.filename)

module _ (input : Input) where
  open input use {State}

  unfoldable pub after_headers : Files → Statistics → Arrays → (uri : Text) → Ran State → Handled
  unfolding serve
  after_headers files stats arrays uri (returned s) = serve files stats arrays uri
  after_headers files stats arrays uri minus_one = exited []
  after_headers files stats arrays uri out_of_fuel = unfinished

  -- From `sscanf` on, with what `buf` holds.
  unfoldable pub after_line :
      (fuel : ℕ) → Files → Statistics → Arrays → (buf : Text) → State → Handled
  unfolding is_get scan_method scan_uri answer_error readhdrs after_headers
  after_line fuel files stats arrays buf s =
      let method = scan_method arrays.method buf in
      if is_get method
      then after_headers files stats arrays (scan_uri arrays.uri buf)
          (readhdrs input fuel s arrays.headers)
      else answer_error files.fails_at err501 method (codes "501") (codes "Not Implemented")
          (codes "OS-HW3 Server does not implement this method") stats

  unfoldable pub after_readline :
      (fuel : ℕ) → Files → Statistics → Arrays → Ran (ℕ × Option Text × State) → Handled
  unfolding after_line array_text
  after_readline fuel files stats arrays (returned (n, line, s)) =
      after_line fuel files stats arrays (array_text arrays.line line) s
  after_readline fuel files stats arrays minus_one = exited []
  after_readline fuel files stats arrays out_of_fuel = unfinished

  -- `fuel` bounds the rounds of `requestReadhdrs`; `s` is the connection behind its empty buffer.
  unfoldable pub request_handle : (fuel : ℕ) → Files → Statistics → Arrays → State → Handled
  unfolding after_readline readlineb
  request_handle fuel files stats arrays s =
      after_readline fuel files stats arrays (readlineb input s maxline)
