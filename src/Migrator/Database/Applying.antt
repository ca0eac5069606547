-- ===== src/Migrator/Database/Applying.antt =====
-- What the loop of `Up` in migrator/migrator.go records, for every course of errors.
use api_toolkit.Prelude.{
  ℕ, ◌≡◌, refl, ap, ◌∙◌, Bool, true, false, List, [], ◌∷◌, ◌++◌, Option, none, some, if◌then◌else◌,
  is_some,
}
use api_toolkit.Migrator.{Migration, Error}
use api_toolkit.Migrator.Database.{
  upsert_row, Call, exec, begin_tx, commit, exec_tx, log_applying, Trace, Env, World, call, logged,
  record_row, after_commit, after_exec, after_begin, apply_one, apply_all, wrapped,
}

abbrev add_success : Call → Option ℕ → List Migration → List Migration
add_success (exec (upsert_row table m ms true)) none vs = m ∷ vs
add_success _ e vs = vs

-- The migrations whose row of success was written without an error, the last one first.
abbrev pub recorded : Trace → List Migration
recorded [] = []
recorded ((c, e) ∷ t) = add_success c e (recorded t)

-- The migrations put in front, one after the other.
abbrev pub pushed : (ms vs : List Migration) → List Migration
pushed [] vs = vs
pushed (m ∷ ms) vs = pushed ms (m ∷ vs)

abbrev IsRecorded : Migration → List Migration → Option Error × World → Type 0
IsRecorded m vs (none, w) = recorded w.trace ≡ m ∷ vs
IsRecorded m vs (some e, w) = recorded w.trace ≡ vs

IsRecorded-from :
    (m : Migration) (us vs : List Migration) (r : Option Error × World)
    → us ≡ vs
    → IsRecorded m us r
    → IsRecorded m vs r
IsRecorded-from m us vs (none, w) e h = h ∙ ap (◌∷◌ m) e
IsRecorded-from m us vs (some x, w) e h = h ∙ e

logged-recorded :
    (v : ℕ) (m : Migration) (w : World)
    → recorded (logged (log_applying v m.name) w).trace ≡ recorded w.trace
logged-recorded v m w = by_logger w.runner.opts.has_logger
  where
    by_logger :
        (b : Bool)
        → recorded
            (if b then record w { trace = (log_applying v m.name, none) ∷ w.trace } else w).trace
          ≡ recorded w.trace
    by_logger true = refl
    by_logger false = refl

module _ (env : Env) where
  after_commit-IsRecorded :
      (m : Migration) (ms : ℕ) (r : Option ℕ × World)
      → IsRecorded m (recorded r.1.trace) (after_commit env m ms r)
  unfolding after_commit record_row call
  after_commit-IsRecorded m ms (some e, w) = refl
  after_commit-IsRecorded m ms (none, w) =
      by_error (env.error w.trace (exec (upsert_row w.runner.opts.table_name m ms true)))
    where
      by_error :
          (e : Option ℕ)
          → IsRecorded m (recorded w.trace) (
            wrapped e,
            record w {
              trace = (exec (upsert_row w.runner.opts.table_name m ms true), e) ∷ w.trace;
            },
          )
      by_error none = refl
      by_error (some e) = refl

  after_exec-IsRecorded :
      (m : Migration) (r : Option ℕ × World)
      → IsRecorded m (recorded r.1.trace) (after_exec env m r)
  unfolding after_exec record_row call
  after_exec-IsRecorded m (some e, w) = refl
  after_exec-IsRecorded m (none, w) =
      after_commit-IsRecorded m (env.millis w.trace) (call env commit w)

  after_begin-IsRecorded :
      (m : Migration) (r : Option ℕ × World)
      → IsRecorded m (recorded r.1.trace) (after_begin env m r)
  unfolding after_begin call
  after_begin-IsRecorded m (some e, w) = refl
  after_begin-IsRecorded m (none, w) = after_exec-IsRecorded m (call env (exec_tx m.sql) w)

  apply_one-IsRecorded :
      (m : Migration) (w : World) → IsRecorded m (recorded w.trace) (apply_one env m w)
  unfolding apply_one call
  apply_one-IsRecorded m w =
      let w1 = logged (log_applying m.version m.name) w in
      IsRecorded-from m (recorded w1.trace) (recorded w.trace)
        (after_begin env m (call env begin_tx w1)) (logged-recorded m.version m w)
        (after_begin-IsRecorded m (call env begin_tx w1))

-- How far the loop has come: the migrations recorded and the others, none where there is no error.
abbrev pub IsApplied : (ms vs : List Migration) → Option Error × World → Type 0
IsApplied ms vs (e, w) =
    (done rest : List Migration) × (ms ≡ done ++ rest)
    × (recorded w.trace ≡ pushed done vs)
    × (e ≡ none → rest ≡ [])

IsApplied-cons :
    (m : Migration) (ms vs : List Migration) (one : Option Error × World)
    (rest : Option Error × World)
    → IsRecorded m vs one
    → IsApplied ms (recorded one.1.trace) rest
    → IsApplied (m ∷ ms) vs (if is_some one.0 then one else rest)
IsApplied-cons m ms vs (some e, w) rest h k = ([], m ∷ ms, refl, h, λ none_. cc)
IsApplied-cons m ms vs (none, w) (e, w') h (done, left, split, same, all_done) =
    (m ∷ done, left, ap (◌∷◌ m) split, same ∙ ap (pushed done) h, all_done)

-- The loop of `Up` records the pending migrations as successes one after the other in their order,
-- each at most once, up to the first error: without an error all of them, whatever the database
-- answers.
pub apply_all-IsApplied :
    (env : Env) (ms : List Migration) (w : World)
    → IsApplied ms (recorded w.trace) (apply_all env ms w)
unfolding apply_all
apply_all-IsApplied env [] w = ([], [], refl, refl, λ h. refl)
apply_all-IsApplied env (m ∷ ms) w =
    IsApplied-cons m ms (recorded w.trace) (apply_one env m w)
      (apply_all env ms (apply_one env m w).1) (apply_one-IsRecorded env m w)
      (apply_all-IsApplied env ms (apply_one env m w).1)
