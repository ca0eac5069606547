-- ===== src/Bootstrap/Opening.antt =====
-- bootstrap/db.go, bootstrap/migrate.go and migrate/migrate.go: databases that are opened and pinged.
use api_toolkit.Prelude.{
  ℕ, zero, suc, ◌*◌, ◌≡◌, refl, ap, Bool, true, false, List, [], ◌∷◌, Option, none, some,
  if◌then◌else◌, Text, ◌==◌, list_eq,
}
use api_toolkit.Prelude.Int.{ℤ, pos, negsuc}

-- The calls on a database or a pool of connections.
pub data Call : Type 0 where
  connect ping close : Call

abbrev pub Trace : Type 0
Trace = List (Call × Option ℕ)

-- The errors that `migrate.New` makes itself, and those that it passes on.
pub data OpenError : Type 0 where
  logger_required dsn_required : OpenError
  failed : ℕ → OpenError

module _ (answer : Trace → Call → Option ℕ) where
  abbrev pub call : Call → Trace → Option ℕ × Trace
  call c t = (answer t c, (c, answer t c) ∷ t)

  abbrev pub after_ping : Option ℕ × Trace → Option OpenError × Trace
  after_ping (none, t) = (none, t)
  after_ping (some e, t) = let (ignored, t') = call close t in (some (failed e), t')

  abbrev pub after_open : Option ℕ × Trace → Option OpenError × Trace
  after_open (some e, t) = (some (failed e), t)
  after_open (none, t) = after_ping (call ping t)

  -- `OpenAndPingDB`: none is a pool without an error.
  unfoldable pub open_and_ping_db : Trace → Option OpenError × Trace
  open_and_ping_db t = after_open (call connect t)

  -- `migrate.New`.
  unfoldable pub new_adapter : (has_logger : Bool) → (dsn : Text) → Trace → Option OpenError × Trace
  new_adapter has_logger dsn t =
      if has_logger
      then if dsn == [] then (some dsn_required, t) else after_open (call connect t)
      else (some logger_required, t)

  -- `Adapter.Close`.
  unfoldable pub close_adapter : Trace → Option ℕ × Trace
  close_adapter t = call close t

abbrev pub positive_or : ℕ → ℤ → ℕ
positive_or default (pos zero) = default
positive_or default (pos (suc n)) = suc n
positive_or default (negsuc n) = default

-- The durations of `OpenAndPingDB` and of `WithTimeout`, in nanoseconds.
unfoldable pub ping_timeout : ℤ → ℕ
ping_timeout d = positive_or (3 * 1_000_000_000) d

unfoldable pub with_timeout : ℤ → ℕ
with_timeout d = positive_or (15 * 60 * 1_000_000_000) d

-- Whether a handle is open; `broken` is a call without one, or a second one beside it.
pub data Phase : Type 0 where
  closed held broken : Phase

abbrev pub step : Phase → Call → Option ℕ → Phase
step closed connect none = held
step closed connect (some e) = closed
step held ping e = held
step held close e = closed
step _ c e = broken

abbrev pub phase : Trace → Phase
phase [] = closed
phase ((c, e) ∷ t) = step (phase t) c e

-- The handle is open exactly where there is no error.
abbrev pub IsBalanced : Option OpenError × Trace → Type 0
IsBalanced (none, t) = phase t ≡ held
IsBalanced (some e, t) = phase t ≡ closed

module _ (answer : Trace → Call → Option ℕ) where
  after_ping-IsBalanced :
      (r : Option ℕ × Trace) → phase r.1 ≡ held → IsBalanced (after_ping answer r)
  after_ping-IsBalanced (none, t) h = h
  after_ping-IsBalanced (some e, t) h = ap (λ p. step p close (answer t close)) h

  after_open-IsBalanced :
      (r : Option ℕ × Trace)
      → phase r.1 ≡ step closed connect r.0
      → IsBalanced (after_open answer r)
  after_open-IsBalanced (some e, t) h = h
  after_open-IsBalanced (none, t) h =
      after_ping-IsBalanced (call answer ping t) (ap (λ p. step p ping (answer t ping)) h)

  -- Whatever the database answers, OpenAndPingDB and the adapter's New return an open handle where they
  -- give no error, and leave none open where they give one.
  pub opening-IsBalanced :
      (has_logger : Bool) (dsn : Text)
      → IsBalanced (open_and_ping_db answer []) × IsBalanced (new_adapter answer has_logger dsn [])
  unfolding open_and_ping_db new_adapter
  opening-IsBalanced has_logger dsn = (opened, by_bools has_logger (dsn == []))
    where
      opened : IsBalanced (after_open answer (call answer connect []))
      opened = after_open-IsBalanced (call answer connect []) refl

      by_bools :
          (a b : Bool)
          → IsBalanced (
              if a
              then if b then (some dsn_required, []) else after_open answer (call answer connect [])
              else (some logger_required, []))
      by_bools true true = refl
      by_bools true false = opened
      by_bools false b = refl
