-- ===== src/Bootstrap/Actions.antt =====
-- The calls of an application on the buffered writer behind the default router of
-- bootstrap/http.go, and what they leave there.
use api_toolkit.Prelude.{
  ℕ, ◌+◌, ◌≡◌, refl, sym, ap, ◌∙◌, true, false, String, List, [], ◌∷◌, ◌++◌, append-nil,
  append_assoc, insert, ◌==◌, string_eq, map, Option, none, some, Text, arith,
}
use api_toolkit.Bootstrap.Refused.{code}
use api_toolkit.Http.{
  World, Headers, Chunk, Recorder, set_header, is_code, is_informational, note_status, note_bytes,
  send, write_header, write,
}

-- The calls of an application on its writer.
pub data Action : Type 0 where
  put : String → Text → Action
  status : ℕ → Action
  chunk : Chunk → ℕ → Action

pub perform : List Action → World → World
perform [] w = w
perform (put k v ∷ rest) w = perform rest (set_header k v w)
perform (status c ∷ rest) w = perform rest (write_header c w).1
perform (chunk b n ∷ rest) w = perform rest (write b n w)

-- Codes of final responses, which `WriteHeader` takes, and no header Content-Length, behind which the
-- server would refuse a longer body.
abbrev pub AllPlain : List Action → Type 0
AllPlain [] = Unit
AllPlain (status c ∷ rest) = (is_code c ≡ true) × (is_informational c ≡ false) × AllPlain rest
AllPlain (put k v ∷ rest) = ((k == "Content-Length") ≡ false) × AllPlain rest
AllPlain (chunk b n ∷ rest) = AllPlain rest

-- The code of the first call that sends the header, and that of the last `WriteHeader`.
abbrev pub first_code : List Action → ℕ
first_code [] = 200
first_code (put k v ∷ rest) = first_code rest
first_code (status c ∷ rest) = c
first_code (chunk b n ∷ rest) = 200

abbrev pub last_code : ℕ → List Action → ℕ
last_code c [] = c
last_code c (status c' ∷ rest) = last_code c' rest
last_code c (a ∷ rest) = last_code c rest

abbrev pub chunks : List Action → List Chunk
chunks [] = []
chunks (chunk b n ∷ rest) = b ∷ chunks rest
chunks (a ∷ rest) = chunks rest

abbrev pub total : List Action → ℕ
total [] = 0
total (chunk b n ∷ rest) = n + total rest
total (a ∷ rest) = total rest

-- The calls on a writer in a buffer, with its recorders: the world after each, in one form.
abbrev pub at : World → Headers → Option (ℕ × Headers) → List Chunk → ℕ → List Recorder → World
at w hs sent body size recs = record w {
  writer = record {
    headers = hs;
    sent = sent;
    body = body;
    size = size;
    buffered = true;
    recorders = recs;
  };
}

abbrev pub sent_by : ℕ → Headers → Option (ℕ × Headers) → Option (ℕ × Headers)
sent_by c hs none = some (c, hs)
sent_by c hs (some s) = some s

pub send-buffered :
    (c : ℕ) (hs : Headers) (sent : Option (ℕ × Headers)) (body : List Chunk) (size : ℕ)
    (recs : List Recorder) (w : World)
    → send c (at w hs sent body size recs).writer
      ≡ (at w hs (sent_by c hs sent) body size recs).writer
unfolding send
send-buffered c hs none body size recs w = refl
send-buffered c hs (some s) body size recs w = refl

pub write_header-buffered :
    (c : ℕ) (hs : Headers) (sent : Option (ℕ × Headers)) (body : List Chunk) (size : ℕ)
    (recs : List Recorder) (w : World)
    → is_code c ≡ true
    → (write_header c (at w hs sent body size recs)).1
      ≡ at w hs (sent_by c hs sent) body size (map (note_status c) recs)
unfolding write_header
write_header-buffered c hs sent body size recs w e = rw e (
    ap (λ x. record w { writer = x })
      (send-buffered c hs sent body size (map (note_status c) recs) w))

pub write-buffered :
    (b : Chunk) (n : ℕ) (hs : Headers) (sent : Option (ℕ × Headers)) (body : List Chunk) (size : ℕ)
    (recs : List Recorder) (w : World)
    → write b n (at w hs sent body size recs)
      ≡ at w hs (sent_by 200 hs sent) (body ++ b ∷ []) (size + n) (map (note_bytes n) recs)
unfolding write
write-buffered b n hs none body size recs w = unfold send in refl
write-buffered b n hs (some s) body size recs w = unfold send in refl

abbrev pub told : List Action → Recorder → Recorder
told acts r = record { status = last_code r.status acts; bytes = r.bytes + total acts }

abbrev pub firstly : Option (ℕ × Headers) → List Action → ℕ
firstly none acts = first_code acts
firstly (some (c, hs)) acts = c

abbrev pub code_of : Option (ℕ × Headers) → ℕ
code_of none = 200
code_of (some (c, hs)) = c

-- The two recorders are told the same, the body is what is written, and the code is the first one.
pub record Ended (w : World) (start : World) (acts : List Action) (sent : Option (ℕ × Headers))
    (body : List Chunk) (size : ℕ) (r r' : Recorder) : Type 0 where
  pub headers : Headers
  pub sent' : Option (ℕ × Headers)
  pub ends :
      perform acts start
      ≡ at w headers sent'
          (body ++ chunks acts)
          (size + total acts)
          (told acts r ∷ told acts r' ∷ [])
  pub first : code_of sent' ≡ firstly sent acts

pub at-eq :
    (w : World) (hs : Headers) (sent : Option (ℕ × Headers)) (body body' : List Chunk)
    (size size' : ℕ) (recs recs' : List Recorder)
    → body ≡ body'
    → size ≡ size'
    → recs ≡ recs'
    → at w hs sent body size recs ≡ at w hs sent body' size' recs'
at-eq w hs sent body body' size size' recs recs' b s r = rw (b, s, r) refl

pub told-chunk :
    (b : Chunk) (n : ℕ) (rest : List Action) (r : Recorder)
    → told rest (note_bytes n r) ≡ told (chunk b n ∷ rest) r
told-chunk b n rest r =
    ap (λ k. record { status = last_code r.status rest; bytes = k }) (omega arith)

pub first_sent :
    (c : ℕ) (hs : Headers) (sent : Option (ℕ × Headers)) (a : Action) (rest : List Action)
    → firstly none (a ∷ rest) ≡ c
    → firstly (sent_by c hs sent) rest ≡ firstly sent (a ∷ rest)
first_sent c hs none a rest e = sym e
first_sent c hs (some s) a rest e = refl

pub perform-Ended :
    (w : World) (acts : List Action) (hs : Headers) (sent : Option (ℕ × Headers))
    (body : List Chunk) (size : ℕ) (r r' : Recorder)
    → AllPlain acts
    → Ended w (at w hs sent body size (r ∷ r' ∷ [])) acts sent body size r r'
unfolding perform set_header
perform-Ended w [] hs sent body size r r' e = record {
  headers = hs;
  sent' = sent;
  ends =
      at-eq w hs sent body (body ++ []) size (size + 0) (r ∷ r' ∷ []) (told [] r ∷ told [] r' ∷ [])
        (sym (append-nil body)) (omega arith) (rw (told-nil r, told-nil r') refl);
  first = by_sent sent;
}
  where
    told-nil : (x : Recorder) → told [] x ≡ x
    told-nil x = ap (λ k. record { status = x.status; bytes = k }) (omega arith)

    by_sent : (o : Option (ℕ × Headers)) → code_of o ≡ firstly o []
    by_sent none = refl
    by_sent (some s) = refl
perform-Ended w (put k v ∷ rest) hs sent body size r r' (apart, e) =
    let h = perform-Ended w rest (insert k v hs) sent body size r r' e in
    record { headers = h.headers; sent' = h.sent'; ends = h.ends; first = h.first ∙ by_sent sent }
  where
    by_sent : (o : Option (ℕ × Headers)) → firstly o rest ≡ firstly o (put k v ∷ rest)
    by_sent none = refl
    by_sent (some s) = refl
perform-Ended w (status c ∷ rest) hs sent body size r r' (code, final, e) =
    let h =
      perform-Ended w rest hs (sent_by c hs sent) body size (note_status c r) (note_status c r')
        e in
    record {
      headers = h.headers;
      sent' = h.sent';
      ends =
          ap (perform rest) (write_header-buffered c hs sent body size (r ∷ r' ∷ []) w code)
          ∙ h.ends;
      first = h.first ∙ first_sent c hs sent (status c) rest refl;
    }
perform-Ended w (chunk b n ∷ rest) hs sent body size r r' e =
    let h =
      perform-Ended w rest hs (sent_by 200 hs sent) (body ++ b ∷ []) (size + n) (note_bytes n r)
        (note_bytes n r') e in
    record {
      headers = h.headers;
      sent' = h.sent';
      ends =
          ap (perform rest) (write-buffered b n hs sent body size (r ∷ r' ∷ []) w)
          ∙ (h.ends
              ∙ at-eq w _ _ ((body ++ b ∷ []) ++ chunks rest) (body ++ b ∷ chunks rest) _ _ _ _
                  (append_assoc body (b ∷ []) (chunks rest)) (omega arith)
                  (rw (told-chunk b n rest r, told-chunk b n rest r') refl));
      first = h.first ∙ first_sent 200 hs sent (chunk b n) rest refl;
    }
