-- ===== src/Bootstrap/SecurityHeaders.antt =====
-- The headers of middleware/secure/secure.go, and what the writes of the middleware of
-- bootstrap/http.go make of them.
use api_toolkit.Prelude.{
  ℕ, ◌≡◌, refl, ap, ◌∙◌, Bool, true, false, not, ◌&&◌, ◌||◌, String, map, Option, none, some,
  if◌then◌else◌, Text, codes, lookup, insert, lookup-insert, is_some, ◌==◌, string_eq, list_eq,
}
use api_toolkit.Http.{
  Request, World, Exit, finished, panicked, Handler, Headers, Writer, Chunk, text, is_code,
  note_status, is_informational, set_header, send, write_header, write, http_error,
}

-- The headers that every response gets; HSTS depends on TLS.
pub data SecurityHeader : Type 0 where
  content_type_options frame_options referrer_policy content_security_policy : SecurityHeader

abbrev pub name : SecurityHeader → String
name content_type_options = "X-Content-Type-Options"
name frame_options = "X-Frame-Options"
name referrer_policy = "Referrer-Policy"
name content_security_policy = "Content-Security-Policy"

abbrev pub value : SecurityHeader → Text
value content_type_options = codes "nosniff"
value frame_options = codes "DENY"
value referrer_policy = codes "no-referrer"
value content_security_policy = codes "default-src 'none'; frame-ancestors 'none'"

abbrev pub sent_header : String → Option (ℕ × Headers) → Option Text
sent_header k none = none
sent_header k (some (c, hs)) = lookup k hs

-- A handler that leaves the header as it finds it.
abbrev pub Keeps : String → Handler → Type 0
Keeps k next =
    (r : Request) (w : World) → lookup k (next r w).1.writer.headers ≡ lookup k w.writer.headers

abbrev pub SentWith : SecurityHeader → Option (ℕ × Headers) → Type 0
SentWith h none = Unit
SentWith h (some (c, hs)) = lookup (name h) hs ≡ some (value h)

-- The header is set, and was so when the final response was sent, if it was.
abbrev pub IsSecured : SecurityHeader → Writer → Type 0
IsSecured h x = (lookup (name h) x.headers ≡ some (value h)) × SentWith h x.sent

abbrev pub IsSecuredAfter : SecurityHeader → Exit × World → Type 0
IsSecuredAfter h (exit, w) = IsSecured h w.writer

abbrev pub Secures : SecurityHeader → Handler → Type 0
Secures h next = (r : Request) (w : World) → IsSecured h w.writer → IsSecuredAfter h (next r w)

pub lookup-other :
    (j k : String) (v : Text) (hs : Headers)
    → (j == k) ≡ false
    → lookup k (insert j v hs) ≡ lookup k hs
lookup-other j k v hs h = lookup-insert j k v hs ∙ ap (λ b. if b then some v else lookup k hs) h

pub lookup-same :
    (j k : String) (v : Text) (hs : Headers) → (j == k) ≡ true → lookup k (insert j v hs) ≡ some v
lookup-same j k v hs h = lookup-insert j k v hs ∙ ap (λ b. if b then some v else lookup k hs) h

-- A header that no security header is named like.
abbrev pub IsForeign : String → Type 0
IsForeign j = (h : SecurityHeader) → (j == name h) ≡ false

pub content_type-IsForeign : IsForeign "Content-Type"
content_type-IsForeign content_type_options = refl
content_type-IsForeign frame_options = refl
content_type-IsForeign referrer_policy = refl
content_type-IsForeign content_security_policy = refl

pub retry_after-IsForeign : IsForeign "Retry-After"
retry_after-IsForeign content_type_options = refl
retry_after-IsForeign frame_options = refl
retry_after-IsForeign referrer_policy = refl
retry_after-IsForeign content_security_policy = refl

pub traceparent-IsForeign : IsForeign "traceparent"
traceparent-IsForeign content_type_options = refl
traceparent-IsForeign frame_options = refl
traceparent-IsForeign referrer_policy = refl
traceparent-IsForeign content_security_policy = refl

pub strict-IsForeign : IsForeign "Strict-Transport-Security"
strict-IsForeign content_type_options = refl
strict-IsForeign frame_options = refl
strict-IsForeign referrer_policy = refl
strict-IsForeign content_security_policy = refl

-- `http.Error` sets one security header as well, to the same value.
pub lookup-nosniff :
    (h : SecurityHeader) (hs : Headers)
    → lookup (name h) hs ≡ some (value h)
    → lookup (name h) (insert "X-Content-Type-Options" (codes "nosniff") hs) ≡ some (value h)
lookup-nosniff content_type_options hs e =
    lookup-same "X-Content-Type-Options" "X-Content-Type-Options" (codes "nosniff") hs refl
lookup-nosniff frame_options hs e =
    lookup-other "X-Content-Type-Options" "X-Frame-Options" (codes "nosniff") hs refl ∙ e
lookup-nosniff referrer_policy hs e =
    lookup-other "X-Content-Type-Options" "Referrer-Policy" (codes "nosniff") hs refl ∙ e
lookup-nosniff content_security_policy hs e =
    lookup-other "X-Content-Type-Options" "Content-Security-Policy" (codes "nosniff") hs refl ∙ e

pub sent-send :
    (c : ℕ) (x : Writer)
    → (send c x).sent ≡ (
        if is_some x.sent || (not x.buffered && is_informational c)
        then x.sent
        else some (c, x.headers))
unfolding send
sent-send c x = by_bool (is_some x.sent || (not x.buffered && is_informational c))
  where
    by_bool :
        (b : Bool)
        → (if b then x else record x { sent = some (c, x.headers) }).sent
          ≡ (if b then x.sent else some (c, x.headers))
    by_bool true = refl
    by_bool false = refl

pub headers-write :
    (chunk : Chunk) (n : ℕ) (w : World) → (write chunk n w).writer.headers ≡ w.writer.headers
unfolding write send
headers-write chunk n w =
    by_bool (is_some w.writer.sent || (not w.writer.buffered && is_informational 200))
  where
    by_bool :
        (b : Bool)
        → (if b
            then w.writer
            else record (w.writer) { sent = some (200, w.writer.headers) }).headers
          ≡ w.writer.headers
    by_bool true = refl
    by_bool false = refl

module _ (h : SecurityHeader) where
  pub set_header-IsSecured :
      (j : String) (u : Text) (w : World)
      → lookup (name h) (insert j u w.writer.headers) ≡ some (value h)
      → IsSecured h w.writer
      → IsSecured h (set_header j u w).writer
  unfolding set_header
  set_header-IsSecured j u w e (now, before) = (e, before)

  pub foreign-IsSecured :
      (j : String) (u : Text) (w : World)
      → IsForeign j
      → IsSecured h w.writer
      → IsSecured h (set_header j u w).writer
  foreign-IsSecured j u w f (now, before) =
      set_header-IsSecured j u w (lookup-other j (name h) u w.writer.headers (f h) ∙ now)
        (now, before)

  pub send-IsSecured : (c : ℕ) (x : Writer) → IsSecured h x → IsSecured h (send c x)
  unfolding send
  send-IsSecured c x (now, before) =
      by_bool (is_some x.sent || (not x.buffered && is_informational c))
    where
      by_bool : (b : Bool) → IsSecured h (if b then x else record x { sent = some (c, x.headers) })
      by_bool true = (now, before)
      by_bool false = (now, now)

  pub write_header-IsSecured :
      (c : ℕ) (w : World) → IsSecured h w.writer → IsSecured h (write_header c w).1.writer
  unfolding write_header
  write_header-IsSecured c w e = by_bool (is_code c)
    where
      noted : Writer
      noted = record (w.writer) { recorders = map (note_status c) w.writer.recorders }

      answer : Bool → Exit × World
      answer b =
          if b
          then (finished, record w { writer = send c noted })
          else (panicked, record w { writer = noted })

      by_bool : (b : Bool) → IsSecured h (answer b).1.writer
      by_bool true = send-IsSecured c noted e
      by_bool false = e

  pub write-IsSecured :
      (chunk : Chunk) (n : ℕ) (w : World)
      → IsSecured h w.writer
      → IsSecured h (write chunk n w).writer
  unfolding write
  write-IsSecured chunk n w e = send-IsSecured 200 w.writer e

  pub http_error-IsSecured :
      (message : String) (n c : ℕ) (w : World)
      → IsSecured h w.writer
      → IsSecured h (http_error message n c w).writer
  unfolding http_error
  http_error-IsSecured message n c w e =
      let w1 = set_header "Content-Type" (codes "text/plain; charset=utf-8") w in
      let w2 = set_header "X-Content-Type-Options" (codes "nosniff") w1 in
      let e1 : IsSecured h w1.writer =
        foreign-IsSecured "Content-Type" (codes "text/plain; charset=utf-8") w
          content_type-IsForeign e in
      let e2 : IsSecured h w2.writer =
        set_header-IsSecured "X-Content-Type-Options" (codes "nosniff") w1
          (lookup-nosniff h w1.writer.headers e1.0) e1 in
      write-IsSecured (text message) n (write_header c w2).1 (write_header-IsSecured c w2 e2)

  pub either-IsSecuredAfter :
      (b : Bool) (x y : Exit × World)
      → IsSecuredAfter h x
      → IsSecuredAfter h y
      → IsSecuredAfter h (if b then x else y)
  either-IsSecuredAfter true x y e f = e
  either-IsSecuredAfter false x y e f = f

  pub send-sent :
      (x : Writer) → IsSecured h x → sent_header (name h) (send 200 x).sent ≡ some (value h)
  unfolding send
  send-sent x (now, before) =
      ap (sent_header (name h)) (sent-send 200 x) ∙ by_sent x.sent before x.buffered
    where
      by_sent :
          (o : Option (ℕ × Headers))
          → SentWith h o
          → (b : Bool)
          → sent_header
              (name h)
              (if is_some o || (not b && is_informational 200) then o else some (200, x.headers))
            ≡ some (value h)
      by_sent none e true = now
      by_sent none e false = now
      by_sent (some s) e b = e
