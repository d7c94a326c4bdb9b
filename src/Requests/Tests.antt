-- ===== src/Requests/Tests.antt =====
-- Runs of the request handling, and the theorems on them.
use operating_system_related.Prelude.{
  ◌≡◌, refl, true, false, none, some, List, [], ◌∷◌, ◌++◌, arith, length, ◌<◌,
}
use operating_system_related.Prelude.Int.{pos}
use operating_system_related.Prelude.Text.{Text, codes, strstr, before_byte, same_text, last_or}
use operating_system_related.Server.{
  Timeval, Statistics, RequestResult, SharedInfo, ThreadInfo, Request, create_request_queue,
  create_request_list,
}
use operating_system_related.Server.Worker.{statistics_stamp}
use operating_system_related.Rio.Script.{Script, scripted, scripted_read}
use operating_system_related.Rio.{returned}
use operating_system_related.Rio.Buffered.{Buffer, rio_read}
use operating_system_related.Rio.Readnb.{buffered}
use operating_system_related.Requests.{maxline}
use operating_system_related.Requests.Stats.{crlf, print_06ld}
use operating_system_related.Requests.Uri.{parse_uri}
use operating_system_related.Requests.Uri.Laws.{
  IsPublic, parse_uri-IsPublic, parse_uri-lt-maxline, parse_uri-dynamic,
}
use operating_system_related.Requests.Headers.{readhdrs}
use operating_system_related.Requests.Headers.Laws.{
  IsLine, AreHeaders, all_lines, LeavesRest, readhdrs-LeavesRest, readhdrs-never,
}
use operating_system_related.Requests.Handle.{
  Files, Arrays, Action, sent, handled, exited, request_handle,
}
use operating_system_related.Requests.Handle.Counts.{SendsCounts, request_handle-SendsCounts}

parse_uri-IsPublic_example : IsPublic (parse_uri 0 (codes "/../secret")).filename
parse_uri-IsPublic_example = parse_uri-IsPublic 0 (codes "/../secret")

parse_uri-lt-maxline_example : length (parse_uri 0 (codes "/a/")).filename < maxline
parse_uri-lt-maxline_example = parse_uri-lt-maxline 0 (codes "/a/") (omega arith)

parse_uri-dynamic_example : parse_uri 0 (codes "/add.cgi" ++ b'?' ∷ codes "1&2") ≡ (record {
  is_static = false;
  filename = codes "./public/" ++ codes "/add.cgi";
  cgiargs = some (codes "1&2");
})
unfolding strstr before_byte
parse_uri-dynamic_example = parse_uri-dynamic 0 (codes "/add.cgi") (codes "1&2") refl refl refl

parse_home : (parse_uri 0 (codes "dir/")).filename ≡ codes "./public/dir/home.html"
unfolding parse_uri strstr last_or
parse_home = refl

six_places : print_06ld (pos 34) ≡ codes "000034"
unfolding print_06ld
six_places = refl

abbrev a_time : Timeval
a_time = record { tv_sec = pos 12; tv_usec = pos 34 }

abbrev a_request : Request
a_request = record { connfd = pos 4; arrival_time = a_time; dispatch_interval = a_time }

abbrev a_thread : ThreadInfo
a_thread = record {
  thread_id = 0;
  requests_count = 5;
  static_requests_count = 2;
  dynamic_requests_count = 1;
}

abbrev some_memory : List Request
some_memory = a_request ∷ a_request ∷ []

abbrev a_server : SharedInfo
a_server = record {
  requests_queue = create_request_queue some_memory;
  requests_list = create_request_list some_memory;
  queue_capacity = 2;
}

abbrev request_line : Text
request_line = codes "GET /a.html HTTP/1.0" ++ crlf

abbrev a_header : Text
a_header = codes "Host: b" ++ crlf

abbrev a_stream : Text
a_stream = request_line ++ (all_lines (a_header ∷ []) ++ (crlf ++ []))

abbrev connection : Buffer Script
connection = record { fd = (some 3 ∷ none ∷ [], a_stream); unread = [] }

abbrev header_connection : Buffer Script
header_connection = record {
  fd = (none ∷ [], all_lines (a_header ∷ []) ++ (crlf ++ []));
  unread = [];
}

a_header-IsLine : IsLine a_header
unfolding before_byte
a_header-IsLine = record {
  body = codes "Host: b" ++ 13 ∷ [];
  ends = refl;
  no_newline = refl;
  no_nul = refl;
  fits = omega arith;
}

a_header-AreHeaders : AreHeaders (a_header ∷ [])
unfolding same_text
a_header-AreHeaders = (a_header-IsLine, refl, tt)

readhdrs-LeavesRest_example :
    LeavesRest (buffered scripted) [] (readhdrs (buffered scripted) 2 header_connection [])
readhdrs-LeavesRest_example =
    readhdrs-LeavesRest (buffered scripted) 2 header_connection [] (a_header ∷ []) []
      a_header-AreHeaders refl (omega arith)

readhdrs-never_example : ¬ (
    readhdrs (buffered scripted) 9 (record { fd = ([], []); unread = [] }) []
    ≡ returned (record { fd = ([], []); unread = [] }))
unfolding same_text
readhdrs-never_example =
    readhdrs-never (buffered scripted) 9 (record { fd = ([], []); unread = [] })
      (record { fd = ([], []); unread = [] }) [] refl refl

-- Every name is that of a file of two bytes.
abbrev a_file : Files
a_file = record {
  stat = λ name.
      some (record { is_regular = true; user_readable = true; user_executable = false; size = 2 });
  mapped = λ name filesize. some (codes "ok");
  fails_at = none;
}

-- The last of the three texts cannot be written.
abbrev broken : Files
broken = record a_file { fails_at = some 2 }

abbrev blank : Arrays
blank = record { line = []; method = []; uri = []; cgiargs = []; headers = []; before_uri = 0 }

abbrev some_stats : Statistics
some_stats = statistics_stamp a_thread a_request

abbrev two_texts : List Action
two_texts =
    sent (
      codes "HTTP/1.0 200 OK"
      ++ crlf
      ++ codes "Server: OS-HW3 Web Server"
      ++ crlf
      ++ codes "Content-Length: 2"
      ++ crlf
      ++ codes "Content-Type: text/html"
      ++ crlf)
    ∷ sent (
        codes "Stat-Req-Arrival:: 12.000034"
        ++ crlf
        ++ codes "Stat-Req-Dispatch:: 12.000034"
        ++ crlf
        ++ codes "Stat-Thread-Id:: 0"
        ++ crlf
        ++ codes "Stat-Thread-Count:: 6"
        ++ crlf
        ++ codes "Stat-Thread-Static:: 3"
        ++ crlf
        ++ codes "Stat-Thread-Dynamic:: 1"
        ++ crlf
        ++ crlf)
    ∷ []

handle_run :
    request_handle (buffered scripted) 2 a_file some_stats blank connection
    ≡ handled RequestResult.static (two_texts ++ sent (codes "ok") ∷ [])
unfolding request_handle rio_read scripted_read before_byte strstr last_or statistics_stamp
handle_run = refl

handle_broken :
    request_handle (buffered scripted) 2 broken some_stats blank connection ≡ exited two_texts
unfolding request_handle rio_read scripted_read before_byte strstr last_or statistics_stamp
handle_broken = refl

request_handle-SendsCounts_example :
    SendsCounts a_file a_server a_thread a_request RequestResult.static
      (two_texts ++ sent (codes "ok") ∷ [])
request_handle-SendsCounts_example =
    request_handle-SendsCounts a_file a_server a_thread a_request (buffered scripted) 2 blank
      connection RequestResult.static (two_texts ++ sent (codes "ok") ∷ []) handle_run
