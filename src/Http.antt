-- ===== src/Http.antt =====
-- Requests, response writers and handlers as the middleware of the repository sees them: net/http with
-- its rules for `WriteHeader`, and a world with what the middleware keeps and reports.
pub mod Guards
pub mod Cors
pub mod Secure
pub mod Recording
pub mod Recovery
use api_toolkit.Prelude.{
  ℕ, ◌+◌, ◌≡◌, refl, Bool, true, false, not, ◌&&◌, ◌||◌, String, List, [], ◌∷◌, ◌++◌, map, Option,
  none, some, if◌then◌else◌, eqb, leb, ltb, within, Text, codes, lookup, insert, is_some, ◌==◌,
  string_eq,
}
pub use api_toolkit.Httpx.{is_informational, is_bodiless}
use api_toolkit.Httpx.{Value}
use api_toolkit.RateLimit
use api_toolkit.Metrics.{Observation}

abbrev pub Headers : Type 0
Headers = List (String × Text)

-- `body_limit` is what `http.MaxBytesReader` allows.
pub record Request : Type 0 where
  pub method : Text
  pub path : Text
  pub headers : Headers
  pub remote_addr : Text
  pub tls : Bool
  pub has_body : Bool
  pub body_limit : Option ℕ
  pub context : List (String × Text)

-- `r.Header.Get`.
abbrev pub header : String → Headers → Text
header k hs = text_of (lookup k hs)
  where
    text_of : Option Text → Text
    text_of none = []
    text_of (some v) = v

-- What is written to a body: text, or the members of a problem document.
pub data Chunk : Type 0 where
  text : String → Chunk
  problem : List (String × Value ℕ) → Chunk

-- The status and the bytes that a `respWriter` keeps.
pub record Recorder : Type 0 where
  pub status : ℕ
  pub bytes : ℕ

-- `sent`: the code of the first final `WriteHeader` and the headers at that time. `buffered` tells the
-- writer of `http.TimeoutHandler` from that of the server. `recorders` are the writers that wrap it,
-- the innermost first; `size` is the length of the body.
pub record Writer : Type 0 where
  pub headers : Headers
  pub sent : Option (ℕ × Headers)
  pub body : List Chunk
  pub size : ℕ
  pub buffered : Bool
  pub recorders : List Recorder

pub record LogLine : Type 0 where
  pub method : Text
  pub path : Text
  pub status : ℕ
  pub bytes : ℕ
  pub dur_ms : ℕ
  pub ip : Text
  pub user_agent : Text
  pub request_id : Text

-- `reads` counts the readings of the clock.
pub record World : Type 0 where
  pub writer : Writer
  pub limiter : RateLimit.Middleware
  pub reads : ℕ
  pub log : List LogLine
  pub observations : List Observation

pub data Exit : Type 0 where
  finished panicked : Exit

abbrev pub Handler : Type 0
Handler = Request → World → Exit × World

unfoldable pub set_header : String → Text → World → World
set_header k v w = record w { writer = record (w.writer) { headers = insert k v w.writer.headers } }

-- `checkWriteHeaderCode` panics on other codes.
abbrev pub is_code : ℕ → Bool
is_code c = within 100 999 c

unfoldable pub send : ℕ → Writer → Writer
send c w =
    if is_some w.sent || (not w.buffered && is_informational c)
    then w
    else record w { sent = some (c, w.headers) }

abbrev pub note_status : ℕ → Recorder → Recorder
note_status c r = record r { status = c }

abbrev pub note_bytes : ℕ → Recorder → Recorder
note_bytes n r = record r { bytes = r.bytes + n }

unfoldable pub write_header : ℕ → World → Exit × World
unfolding send
write_header c w =
    let noted = record (w.writer) { recorders = map (note_status c) w.writer.recorders } in
    if is_code c
    then (finished, record w { writer = send c noted })
    else (panicked, record w { writer = noted })

abbrev pub refuses_body : Option (ℕ × Headers) → Bool
refuses_body none = false
refuses_body (some (c, hs)) = is_bodiless c

-- A write after the header. The server's writer refuses it, with an error that no caller looks at,
-- where the code allows no body; a buffer takes everything. The bound that a header Content-Length sets
-- is left out.
abbrev pub accept : List Chunk → ℕ → Writer → Writer
accept chunks n w =
    let refused = not w.buffered && refuses_body w.sent in
    record w {
      body = if refused then w.body else w.body ++ chunks;
      size = if refused then w.size else w.size + n;
      recorders = if refused then w.recorders else map (note_bytes n) w.recorders;
    }

-- `Write` sends the code 200 first, past the wrapping writers, where nothing has been sent.
unfoldable pub write : Chunk → ℕ → World → World
unfolding send
write chunk n w = record w { writer = accept (chunk ∷ []) n (send 200 w.writer) }

-- `http.Error`, for a code that `WriteHeader` takes; `n` is the length of the message and its newline.
unfoldable pub http_error : String → ℕ → ℕ → World → World
unfolding set_header write_header write
http_error message n code w =
    let w1 = set_header "Content-Type" (codes "text/plain; charset=utf-8") w in
    let w2 = set_header "X-Content-Type-Options" (codes "nosniff") w1 in
    let (exit, w3) = write_header code w2 in write (text message) n w3
