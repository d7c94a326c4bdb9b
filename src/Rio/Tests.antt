-- ===== src/Rio/Tests.antt =====
-- Runs of the Rio package on a scripted descriptor.
use operating_system_related.Prelude.{◌≡◌, refl, none, some, [], ◌∷◌, arith}
use operating_system_related.Rio.{
  ReadResult, got, read_failed, WriteResult, wrote, write_failed, Input, Output, Ran, returned,
  minus_one, out_of_fuel,
}
use operating_system_related.Rio.Unbuffered.{
  readn, ReadsNext, readn-ReadsNext, writen, WritesAll, writen-WritesAll,
}
use operating_system_related.Rio.Buffered.{Buffer, readinitb}
use operating_system_related.Rio.Readnb.{buffered, readnb, readnb-ReadsNext}
use operating_system_related.Rio.Lines.{readlineb, ReadsLine, readlineb-ReadsLine}
use operating_system_related.Rio.Script.{Script, scripted_read, scripted, script_output}

-- "GET", a newline and "x", of which the second call is interrupted.
abbrev hello : Script
hello = (some 1 ∷ none ∷ some 0 ∷ [], 71 ∷ 69 ∷ 84 ∷ 10 ∷ 120 ∷ [])

readn-ReadsNext_example : ReadsNext scripted hello 4 [] (readn scripted 8 hello 4)
readn-ReadsNext_example = readn-ReadsNext scripted 8 hello 4 (omega arith)

readn_run : readn scripted 8 hello 4 ≡ returned (71 ∷ 69 ∷ 84 ∷ 10 ∷ [], ([], 120 ∷ []))
unfolding readn scripted_read
readn_run = refl

writen-WritesAll_example :
    WritesAll script_output
      (hello.0, [])
      (9 ∷ 8 ∷ [])
      (writen script_output 6 (hello.0, []) (9 ∷ 8 ∷ []))
writen-WritesAll_example = writen-WritesAll script_output 6 (hello.0, []) (9 ∷ 8 ∷ []) (omega arith)

abbrev hello_buffer : Buffer Script
hello_buffer = record { fd = hello; unread = 7 ∷ [] }

readnb-ReadsNext_example :
    ReadsNext (buffered scripted) hello_buffer 4 [] (readnb scripted 8 hello_buffer 4)
readnb-ReadsNext_example = readnb-ReadsNext scripted 8 hello_buffer 4 (omega arith)

readlineb-ReadsLine_example :
    ReadsLine (buffered scripted) hello_buffer 7 [] (readlineb (buffered scripted) hello_buffer 8)
readlineb-ReadsLine_example = readlineb-ReadsLine (buffered scripted) hello_buffer 8

readlineb_run :
    readlineb (buffered scripted) hello_buffer 8
    ≡ returned (5, some (7 ∷ 71 ∷ 69 ∷ 84 ∷ 10 ∷ []), record { fd = ([], []); unread = 120 ∷ [] })
unfolding readlineb scripted_read operating_system_related.Rio.Buffered.rio_read
readlineb_run = refl
