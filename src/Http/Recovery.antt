-- ===== src/Http/Recovery.antt =====
-- httpx/recover/recover.go, and middleware/timeout/timeout.go with the handler of net/http that it
-- makes: a buffer for the handler behind it, copied or dropped in the end.
use api_toolkit.Prelude.{
  ℕ, Bool, true, false, [], ◌∷◌, Option, none, some, codes, insert, string_eq,
}
use api_toolkit.Prelude.Int.{ℤ, pos}
use api_toolkit.Httpx.{Problem, problem_members, status_or_500}
use api_toolkit.Http.{
  World, Exit, finished, panicked, Handler, Headers, Writer, Chunk, text, problem, set_header, send,
  accept, write_header, write,
}

abbrev pub internal_error : Problem ℕ
internal_error = record {
  type_uri = "";
  title = "Internal Server Error";
  status = 0;
  detail = "internal server error";
  instance_uri = "";
  ext = [];
}

-- What `WriteProblem` writes behind its header.
abbrev pub and_document : Chunk → ℕ → Exit × World → Exit × World
and_document document n (panicked, w) = (panicked, w)
and_document document n (finished, w) = (finished, write document n w)

-- `WriteProblem` on the writer, for a document that can be encoded; `n` is its length.
unfoldable pub send_problem : ℕ → ℤ → Problem ℕ → World → Exit × World
send_problem n status p w = and_document (problem (problem_members status p)) n (
    write_header (status_or_500 status)
      (set_header "Content-Type" (codes "application/problem+json") w))

-- The panic comes after the handlers behind have returned, so the writer is the one that they got.
unfoldable pub recovered : Exit × World → Exit × World
unfolding send_problem
recovered (finished, w) = (finished, w)
recovered (panicked, w) = send_problem 80 (pos 500) internal_error w

unfoldable pub recover : Handler → Handler
unfolding recovered
recover next r w = recovered (next r w)

abbrev pub buffer : Writer
buffer = record { headers = []; sent = none; body = []; size = 0; buffered = true; recorders = [] }

abbrev pub code_or_200 : Option (ℕ × Headers) → ℕ
code_or_200 none = 200
code_or_200 (some (c, hs)) = c

-- `for k, vv := range tw.h { dst[k] = vv }`.
unfoldable pub copy_headers : Headers → Headers → Headers
copy_headers dst [] = dst
copy_headers dst ((k, v) ∷ rest) = insert k v (copy_headers dst rest)

-- The buffered response is sent as one write.
unfoldable pub flush : Writer → World → World
unfolding copy_headers write_header send
flush inner w =
    let headed = record w {
      writer = record (w.writer) { headers = copy_headers w.writer.headers inner.headers };
    } in
    let (exit, w1) = write_header (code_or_200 inner.sent) headed in
    record w1 { writer = accept inner.body inner.size (send 200 w1.writer) }

-- `w` has the writer of the server, `w'` is the world after the handler with its buffer. After the
-- timeout the handler runs on, but its response and its panic are dropped.
unfoldable pub after_timeout : (timed_out : Bool) → World → Exit × World → Exit × World
unfolding flush
after_timeout true w (exit, w') =
    let (exit', w1) = write_header 503 (record w' { writer = w.writer }) in
    (finished, write (text "request timeout") 15 w1)
after_timeout false w (panicked, w') = (panicked, record w' { writer = w.writer })
after_timeout false w (finished, w') = (finished, flush w'.writer (record w' { writer = w.writer }))

unfoldable pub timeout : (timed_out : Bool) → Handler → Handler
unfolding after_timeout
timeout timed_out next r w = after_timeout timed_out w (next r (record w { writer = buffer }))
