-- ===== src/Rio/Readnb.antt =====
-- web_server/segel.c: `rio_readnb`. A buffer on a descriptor is read from like a descriptor, so
-- `buffered` makes an `Input` of it, and the loop of `rio_readnb`, which is that of `rio_readn` with
-- `rio_read` in place of `read`, is the same definition over it.
use operating_system_related.Prelude.{ℕ, ◌+◌, ◌<◌, ◌≡◌, true, List, []}
use operating_system_related.Rio.{read_failed, Input, Ran}
use operating_system_related.Rio.Unbuffered.{readn, ReadsNext, readn-ReadsNext}
use operating_system_related.Rio.Buffered.{
  Buffer, stream, rio_read, rio_read-front, rio_read-end, rio_read-calm,
}

pub rio_read_interrupted :
    (input : Input) (b : Buffer input.State) (n : ℕ) {A : Type 0}
    → (rio_read input b n).0 ≡ read_failed true
    → A
rio_read_interrupted input b n e = absurd (rio_read-calm input b n e)

-- A buffer, as something to read from by `rio_read`.
abbrev pub buffered : Input → Input
buffered input = record {
  State = Buffer input.State;
  read = rio_read input;
  pending = stream input;
  patience = λ b. input.patience b.fd;
  got_front = rio_read-front input;
  got_end = rio_read-end input;
  interrupted = λ b n e. rio_read_interrupted input b n e;
}

-- `rio_readnb`: the loop of `rio_readn`, with `rio_read` for `read`.
unfoldable pub readnb :
    (input : Input) (fuel : ℕ) → Buffer input.State → (n : ℕ) → Ran (List ℕ × Buffer input.State)
unfolding readn
readnb input = readn (buffered input)

-- With fuel for the bytes asked for and the interruptions, `rio_readnb` ends, and unless some
-- `rio_read` fails it returns the next `n` bytes of the stream, which are those in the buffer and then
-- those of the descriptor, or all that are left if they are fewer, and leaves the rest.
pub readnb-ReadsNext :
    (input : Input) (fuel : ℕ) (b : Buffer input.State) (n : ℕ)
    → n + input.patience b.fd < fuel
    → ReadsNext (buffered input) b n [] (readnb input fuel b n)
unfolding readnb
readnb-ReadsNext input fuel b n h = readn-ReadsNext (buffered input) fuel b n h
