-- ===== src/Requests/Headers.antt =====
-- web_server/request.c: `requestReadhdrs`, over the reads of `rio_readlineb`.
pub mod Laws
use operating_system_related.Prelude.{
  ℕ, zero, suc, ◌≡◌, Bool, Option, none, some, List, [], ◌∷◌, if◌then◌else◌,
}
use operating_system_related.Prelude.Text.{Text, before_byte, same_text}
use operating_system_related.Rio.{Input, Ran, returned, minus_one, out_of_fuel}
use operating_system_related.Rio.Lines.{readlineb}
use operating_system_related.Requests.{maxline}
use operating_system_related.Requests.Stats.{crlf}

-- The string in an array after `Rio_readlineb`: up to the first 0 of the bytes read, or what was
-- there if the array was left alone.
unfoldable pub array_text : (old : Text) → Option Text → Text
array_text old none = old
array_text old (some xs) = before_byte 0 xs

module _ (input : Input) where
  open input use {State}

  -- One round: a line read into `buf`, and the test of the loop; `again` is the next round.
  unfoldable pub after_header :
      (again : State → (buf : Text) → Ran State)
      → Ran (ℕ × Option Text × State)
      → (buf : Text) → Ran State
  unfolding array_text
  after_header again (returned (n, line, s)) buf =
      let next = again s (array_text buf line) in
      if same_text (array_text buf line) crlf then returned s else next
  after_header again minus_one buf = minus_one
  after_header again out_of_fuel buf = out_of_fuel

  -- `buf` is what the array holds before, which is not set at first. -1 stands for the exit of
  -- `Rio_readlineb` on an error.
  unfoldable pub readhdrs : (fuel : ℕ) → State → (buf : Text) → Ran State
  unfolding after_header
  readhdrs zero s buf = out_of_fuel
  readhdrs (suc fuel) s buf = after_header (readhdrs fuel) (readlineb input s maxline) buf
