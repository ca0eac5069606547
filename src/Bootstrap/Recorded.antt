-- ===== src/Bootstrap/Recorded.antt =====
-- What the log and the metrics of the default router of bootstrap/http.go tell of a response.
use api_toolkit.Prelude.{
  ℕ, ◌+◌, ◌<◌, ◌≡◌, refl, ap, ◌∙◌, Bool, true, false, List, [], ◌∷◌, ◌++◌, string_eq, map, Option,
  none, some, if◌then◌else◌, Text, arith,
}
use api_toolkit.Prelude.Int.{pos, parse_int64}
use api_toolkit.Metrics.{Observation, write_headers, sanitize_http_labels}
use api_toolkit.Metrics.Labelling.{handler-labels}
use api_toolkit.Http.Recording.{
  request_log, measure, after_logged, after_measured, after_observed, fresh, log_line,
}
use api_toolkit.Trace.{middleware}
use api_toolkit.Bootstrap.{Env, cors_of, inner_router, trace, serve, is_head}
use api_toolkit.Http.Recovery.{buffer, copy_headers, flush, timeout, after_timeout, recovered}
use api_toolkit.Bootstrap.Refused.{code, ready, refusal, headers_at, counted}
use api_toolkit.Bootstrap.Admitted.{passed, arrived, default_router-accepted, unless_head}
use api_toolkit.Http.{
  LogLine, Request, World, Exit, finished, panicked, Handler, Headers, Writer, Chunk, Recorder,
  is_code, is_informational, is_bodiless, note_status, send, write_header,
}
use api_toolkit.Bootstrap.Actions.{
  Action, put, status, chunk, perform, AllPlain, first_code, last_code, chunks, total, at, told,
  code_of, at-eq, perform-Ended, put, status, chunk,
}

last_code-bound : (c : ℕ) (acts : List Action) → c < 1000 → AllPlain acts → last_code c acts < 1000
last_code-bound c [] h e = h
last_code-bound c (put k v ∷ rest) h (apart, e) = last_code-bound c rest h e
last_code-bound c (status c' ∷ rest) h (code, final, e) =
    last_code-bound c' rest (ground (arith, code)) e
last_code-bound c (chunk b n ∷ rest) h e = last_code-bound c rest h e

abbrev status_label : Text × Text × Text → Text
status_label (method, route, code) = code

-- An observation with the status `c`, as the recorder reads it.
abbrev pub Tells : ℕ → Observation → Type 0
Tells c o =
    (status' : Text) × (status_label (sanitize_http_labels o.labels) ≡ status')
    × (parse_int64 status' ≡ some (pos c))

after_measured-Tells :
    (clock : ℕ → ℕ) (r : Request) (start : ℕ) (w : World) (hs : Headers)
    (sent : Option (ℕ × Headers)) (body : List Chunk) (size : ℕ) (rec : Recorder)
    (recs : List Recorder)
    → rec.status < 1000
    → (o : Observation) × Tells rec.status o
      × (after_measured clock r start (finished, at w hs sent body size (rec ∷ recs)) ≡ (
        finished,
        record (at w hs sent body size recs) {
          reads = w.reads + 1;
          observations = w.observations ++ o ∷ [];
        },
      ))
unfolding after_measured after_observed
after_measured-Tells clock r start w hs sent body size rec recs h =
    let (o, status', run, labels, reads, duration) =
      handler-labels r.method r.path (pos rec.status ∷ []) start (clock w.reads)
        (unfold write_headers in omega arith) in
    (o, (status', ap status_label labels, unfold write_headers in reads), rw run refl)

-- An application that answers every request with these calls.
abbrev pub answering : List Action → Handler
answering acts r w = (finished, perform acts w)

-- The line and the observation that a run of the application leaves, and its buffer.
record Answered (w : World) (acts : List Action) (a : Exit × World) : Type 0 where
  headers : Headers
  sent : Option (ℕ × Headers)
  line : LogLine
  observed : Observation
  reads : ℕ
  run : a ≡ (
    finished,
    record (at w headers sent (chunks acts) (total acts) []) {
      reads = reads;
      log = w.log ++ line ∷ [];
      observations = w.observations ++ observed ∷ [];
    },
  )
  first : code_of sent ≡ first_code acts
  status : line.status ≡ last_code 200 acts
  bytes : line.bytes ≡ total acts
  tells : Tells (last_code 200 acts) observed

inner_router-Answered :
    (env : Env) (acts : List Action) (r : Request) (w : World)
    → AllPlain acts
    → Answered w acts (inner_router env (answering acts) r (record w { writer = buffer }))
unfolding inner_router request_log measure trace middleware after_logged log_line
inner_router-Answered env acts r w e =
    let w2 = record w { reads = w.reads + 1 + 1 } in
    let h = perform-Ended w2 acts _ none [] 0 fresh fresh e in
    let (o, tells, measured) =
      after_measured-Tells env.clock r (env.clock (w.reads + 1)) w2 h.headers h.sent' (chunks acts)
        (total acts) (told acts fresh) (told acts fresh ∷ []) (last_code-bound 200 acts below e) in
    record {
      headers = h.headers;
      sent = h.sent';
      line = _;
      observed = o;
      reads = _;
      run =
          ap
            (λ x.
              after_logged env.clock env.split_host_port r (env.clock w.reads)
                (after_measured env.clock r (env.clock (w.reads + 1)) (finished, x)))
            (h.ends
              ∙ at-eq w2 h.headers h.sent' ([] ++ chunks acts) (chunks acts) (0 + total acts)
                  (total acts) _ (told acts fresh ∷ told acts fresh ∷ []) refl (omega arith) refl)
          ∙ ap (after_logged env.clock env.split_host_port r (env.clock w.reads)) measured;
      first = h.first;
      status = refl;
      bytes = zero_add (total acts);
      tells = tells;
    }
  where
    below : 200 < 1000
    below = omega arith

    zero_add : (n : ℕ) → 0 + n ≡ n
    zero_add n = omega arith

-- The buffer as the client gets it.
flush-sent :
    (inner : Writer) (hs : Headers) (w : World) (c : ℕ)
    → code_of inner.sent ≡ c
    → is_code c ≡ true
    → is_informational c ≡ false
    → (code (send 200 (flush inner (ready hs w)).writer) ≡ some c)
      × ((send 200 (flush inner (ready hs w)).writer).body
          ≡ (if is_bodiless c then [] else inner.body))
unfolding flush write_header send
flush-sent inner hs w c first valid final = rw (first, valid, final) (refl, by_bool (is_bodiless c))
  where
    by_bool : (b : Bool) → (if b then [] else [] ++ inner.body) ≡ (if b then [] else inner.body)
    by_bool true = refl
    by_bool false = refl

write_header-log :
    (c : ℕ) (w : World)
    → ((write_header c w).1.log ≡ w.log) × ((write_header c w).1.observations ≡ w.observations)
unfolding write_header
write_header-log c w = by_bool (is_code c)
  where
    noted : Writer
    noted = record (w.writer) { recorders = map (note_status c) w.writer.recorders }

    answer : Bool → Exit × World
    answer b =
        if b
        then (finished, record w { writer = send c noted })
        else (panicked, record w { writer = noted })

    by_bool : (b : Bool) → ((answer b).1.log ≡ w.log) × ((answer b).1.observations ≡ w.observations)
    by_bool true = (refl, refl)
    by_bool false = (refl, refl)

flush-log :
    (inner : Writer) (w : World)
    → ((flush inner w).log ≡ w.log) × ((flush inner w).observations ≡ w.observations)
unfolding flush
flush-log inner w = write_header-log (code_of inner.sent) (record w {
  writer = record (w.writer) { headers = copy_headers w.writer.headers inner.headers };
})

first_code-valid :
    (acts : List Action)
    → AllPlain acts
    → (is_code (first_code acts) ≡ true) × (is_informational (first_code acts) ≡ false)
first_code-valid [] e = (refl, refl)
first_code-valid (put k v ∷ rest) (apart, e) = first_code-valid rest e
first_code-valid (status c ∷ rest) (valid, final, e) = (valid, final)
first_code-valid (chunk b n ∷ rest) e = (refl, refl)

-- What came of a request: the response, one more line in the log and one more observation.
abbrev pub Recorded : Request → World → List Action → World → Type 0
Recorded r w acts w' =
    (code w'.writer ≡ some (first_code acts))
    × (w'.writer.body ≡ unless_head r (if is_bodiless (first_code acts) then [] else chunks acts))
    × ((line : LogLine) × (w'.log ≡ w.log ++ line ∷ [])
        × (line.status ≡ last_code 200 acts)
        × (line.bytes ≡ total acts))
    × ((o : Observation) × (w'.observations ≡ w.observations ++ o ∷ [])
        × Tells (last_code 200 acts) o)

abbrev serve_end : Request → Exit × World → World
serve_end r (exit, w) =
    let sent = send 200 w.writer in
    record w {
      writer = record sent {
        body = if is_head r then [] else sent.body;
        size = if is_head r then 0 else sent.size;
      };
    }

served-Recorded :
    (r : Request) (late : Bool) (hs : Headers) (w : World) (acts : List Action) (a : Exit × World)
    → late ≡ false
    → Answered (ready hs w) acts a
    → AllPlain acts
    → Recorded r w acts (serve_end r (recovered (after_timeout late (ready hs w) a)))
unfolding after_timeout recovered
served-Recorded r true hs w acts a k h e = ground arith
served-Recorded r false hs w acts a k h e =
    let (valid, final) = first_code-valid acts e in
    let inner = at w h.headers h.sent (chunks acts) (total acts) [] in
    let w' = record w {
      reads = h.reads;
      log = w.log ++ h.line ∷ [];
      observations = w.observations ++ h.observed ∷ [];
    } in
    let (logged, measured) = flush-log inner.writer (ready hs w') in
    let (sent, body) = flush-sent inner.writer hs w' (first_code acts) h.first valid final in
    rw (h.run) (
      sent,
      ap (unless_head r) body,
      (h.line, logged, h.status, h.bytes),
      (h.observed, measured, h.tells),
    )

pub serve-Recorded :
    (env : Env) (acts : List Action) (r : Request) (w : World)
    → (cors_of env (env.identify r)).1 ≡ false
    → refusal env (env.identify r) w ≡ none
    → env.timed_out ≡ false
    → AllPlain acts
    → Recorded r w acts (serve env (answering acts) r w).1
unfolding serve timeout
serve-Recorded env acts r w off pass late e =
    rw (default_router-accepted env (answering acts) r w off pass) (
      served-Recorded r env.timed_out (headers_at env (env.identify r))
        (counted env (env.identify r) w) acts
        (inner_router env (answering acts) (passed env r)
          (record (arrived env r w) { writer = buffer }))
        late (inner_router-Answered env acts (passed env r) (arrived env r w) e) e)
