-- ===== src/Requests.antt =====
-- web_server/request.c: what the web server does with one connection.
--
-- Texts are lists of bytes, and a `char` array that holds a string is the list of its bytes before
-- the 0. The file system, the descriptor and what an array holds before it is written are parameters.
pub mod Uri
pub mod Stats
pub mod Headers
pub mod Handle
mod Tests
use operating_system_related.Prelude.{ℕ}

-- `MAXLINE`, the size of the arrays for a line, a URI and a file name.
abbrev pub maxline : ℕ
maxline = 8192

-- `MAXBUF`, the size of the arrays for an answer.
abbrev pub maxbuf : ℕ
maxbuf = 8192
