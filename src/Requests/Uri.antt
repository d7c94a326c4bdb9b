-- ===== src/Requests/Uri.antt =====
-- web_server/request.c: `requestParseURI` and `requestGetFiletype`.
pub mod Laws
use operating_system_related.Prelude.{
  ℕ, Bool, true, false, Option, none, some, List, [], ◌∷◌, ◌++◌, if◌then◌else◌, ◌==◌,
}
use operating_system_related.Prelude.Text.{Text, codes, strstr, before_byte, after_byte, last_or}

-- What `requestParseURI` returns, and what it writes to `filename` and to `cgiargs`, which it leaves
-- alone (`none`) where the URI contains "..".
pub record Parsed : Type 0 where
  pub is_static : Bool
  pub filename : Text
  pub cgiargs : Option Text

-- The branch for static content; `before` is the byte before `uri` in memory, which is read when the
-- URI is empty.
unfoldable pub parse_static : (before : ℕ) (uri : Text) → Parsed
parse_static before uri = record {
  is_static = true;
  filename =
      if last_or before uri == b'/'
      then codes "./public/" ++ (uri ++ codes "home.html")
      else codes "./public/" ++ uri;
  cgiargs = some [];
}

-- The branch for dynamic content.
unfoldable pub parse_dynamic : (uri : Text) → Parsed
parse_dynamic uri = record {
  is_static = false;
  filename = codes "./public/" ++ before_byte b'?' uri;
  cgiargs = some (after_byte b'?' uri);
}

unfoldable pub parse_uri : (before : ℕ) (uri : Text) → Parsed
unfolding parse_static parse_dynamic
parse_uri before uri =
    if strstr uri (codes "..")
    then record { is_static = true; filename = codes "./public/home.html"; cgiargs = none }
    else if strstr uri (codes "cgi")
    then parse_dynamic uri
    else parse_static before uri

unfoldable pub get_filetype : (filename : Text) → Text
get_filetype filename =
    if strstr filename (codes ".html")
    then codes "text/html"
    else if strstr filename (codes ".gif")
    then codes "image/gif"
    else if strstr filename (codes ".jpg")
    then codes "image/jpeg"
    else codes "text/plain"
