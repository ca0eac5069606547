-- ===== src/Migrator/Database/Completing.antt =====
-- What `Up` of migrator/migrator.go records from beginning to end, for every course of errors.
use mathlib.Core.Path.{ap₂}
use api_toolkit.Prelude.{
  ℕ, ◌≡◌, refl, sym, ap, ◌∙◌, ◌⊎◌, inl, inr, Bool, true, false, List, [], ◌∷◌, ◌++◌, append-nil,
  Option, none, some, if◌then◌else◌, is_some, Text,
}
use api_toolkit.Migrator.Kept.{opts-load_migrations}
use api_toolkit.Migrator.{Options, Migration, Error, Root}
use api_toolkit.Migrator.Pending.{Pending, mismatch, pending, pending_up}
use api_toolkit.Migrator.Database.{
  Call, exec, query, select_applied, begin_tx, commit, exec_tx, log_applying, log_up_to_date,
  advisory_lock, create_table, Trace, Env, World, Outcome, returned, panicked, call, logged,
  ensure_table, read_rows, load_applied, record_row, after_commit, after_exec, after_begin,
  apply_one, apply_all, as_outcome, apply_pending, with_applied, load, after_load, after_table,
  up_body, run_up, after_lock, unlock, with_lock,
}
use api_toolkit.Migrator.Database.Applying.{recorded, pushed, IsApplied, apply_all-IsApplied}

module _ (env : Env) where
  runner-logged : (c : Call) (w : World) → (logged c w).runner ≡ w.runner
  runner-logged c w = by_logger w.runner.opts.has_logger
    where
      by_logger :
          (b : Bool) → (if b then record w { trace = (c, none) ∷ w.trace } else w).runner ≡ w.runner
      by_logger true = refl
      by_logger false = refl

  runner-after_exec :
      (m : Migration) (r : Option ℕ × World) → (after_exec env m r).1.runner ≡ r.1.runner
  unfolding after_exec after_commit record_row call
  runner-after_exec m (some e, w) = refl
  runner-after_exec m (none, w) = by_error (env.error w.trace commit)
    where
      by_error :
          (e : Option ℕ)
          → (after_commit env m
              (env.millis w.trace)
              (e, record w { trace = (commit, e) ∷ w.trace })).1.runner
            ≡ w.runner
      by_error none = refl
      by_error (some e) = refl

  runner-apply_one : (m : Migration) (w : World) → (apply_one env m w).1.runner ≡ w.runner
  unfolding apply_one call
  runner-apply_one m w =
      begun (call env begin_tx (logged (log_applying m.version m.name) w))
      ∙ (begun_from ∙ runner-logged (log_applying m.version m.name) w)
    where
      begun : (r : Option ℕ × World) → (after_begin env m r).1.runner ≡ r.1.runner
      begun (some e, w) = refl
      begun (none, w) = runner-after_exec m (call env (exec_tx m.sql) w)

      begun_from :
          (call env begin_tx (logged (log_applying m.version m.name) w)).1.runner
          ≡ (logged (log_applying m.version m.name) w).runner
      begun_from = refl

  runner-apply_all : (ms : List Migration) (w : World) → (apply_all env ms w).1.runner ≡ w.runner
  unfolding apply_all
  runner-apply_all [] w = refl
  runner-apply_all (m ∷ ms) w =
      let one = apply_one env m w in
      by_bool (is_some one.0) (apply_all env ms one.1)
        (runner-apply_all ms one.1 ∙ runner-apply_one m w)
    where
      by_bool :
          (b : Bool) (rest : Option Error × World)
          → rest.1.runner ≡ w.runner
          → (if b then apply_one env m w else rest).1.runner ≡ w.runner
      by_bool true rest h = runner-apply_one m w
      by_bool false rest h = h

  module _ (t : Trace) where
    -- The migrations pending by the rows that the database answers after these calls are `next`.
    abbrev pub IsPending : World → List Migration → Type 0
    IsPending w next = pending_up w.runner.migrations (env.rows t) ≡ pending next

    -- The migrations recorded when `Up` ends, on top of `vs`: all pending ones without an error, the
    -- first ones of them with one, and none with a panic, where a checksum does not match.
    abbrev pub Completes : List Migration → Outcome × World → Type 0
    Completes vs (returned none, w) =
        (next : List Migration) × IsPending w next × (recorded w.trace ≡ pushed next vs)
    Completes vs (returned (some e), w) =
        (done : List Migration) × (recorded w.trace ≡ pushed done vs)
        × ((done ≡ []) ⊎ ((left : List Migration) × IsPending w (done ++ left)))
    Completes vs (panicked v have want, w) =
        (recorded w.trace ≡ vs)
        × (pending_up w.runner.migrations (env.rows t) ≡ mismatch v have want)

    applied-Completes :
        (ms : List Migration) (w : World) (r : Option Error × World)
        → pending_up w.runner.migrations (env.rows t) ≡ pending ms
        → r.1.runner ≡ w.runner
        → IsApplied ms (recorded w.trace) r
        → Completes (recorded w.trace) (as_outcome env r)
    applied-Completes ms w (none, w') found kept (done, left, split, same, all_done) =
        let whole : ms ≡ done = split ∙ (ap (λ l. done ++ l) (all_done refl) ∙ append-nil done) in
        (done, rw kept (found ∙ ap pending whole), same)
    applied-Completes ms w (some e, w') found kept (done, left, split, same, all_done) =
        (done, same, inr (left, rw (kept, sym split) found))

    recorded-logged : (w : World) → recorded (logged log_up_to_date w).trace ≡ recorded w.trace
    recorded-logged w = by_logger w.runner.opts.has_logger
      where
        by_logger :
            (b : Bool)
            → recorded
                (if b then record w { trace = (log_up_to_date, none) ∷ w.trace } else w).trace
              ≡ recorded w.trace
        by_logger true = refl
        by_logger false = refl

    apply_pending-Completes :
        (w : World) (p : Pending)
        → pending_up w.runner.migrations (env.rows t) ≡ p
        → Completes (recorded w.trace) (apply_pending env p w)
    unfolding apply_pending
    apply_pending-Completes w (mismatch v have want) found = (refl, found)
    apply_pending-Completes w (pending []) found =
        ([], rw (runner-logged log_up_to_date w) found, recorded-logged w)
    apply_pending-Completes w (pending (m ∷ ms)) found =
        applied-Completes (m ∷ ms) w (apply_all env (m ∷ ms) w) found (runner-apply_all (m ∷ ms) w)
          (apply_all-IsApplied env (m ∷ ms) w)

    with_applied-Completes :
        (w : World) (e : Option ℕ)
        → w.trace ≡ t
        → Completes
            (recorded w.trace)
            (with_applied env (e, (if is_some e then [] else env.rows w.trace), w))
    unfolding with_applied
    with_applied-Completes w none h =
        apply_pending-Completes w (pending_up w.runner.migrations (env.rows w.trace))
          (ap (λ u. pending_up w.runner.migrations (env.rows u)) (sym h))
    with_applied-Completes w (some e) h = ([], refl, inl refl)

    unlock-Completes :
        (vs : List Migration) (r : Outcome × World) → Completes vs r → Completes vs (unlock env r)
    unfolding unlock call
    unlock-Completes vs (returned none, w) h = h
    unlock-Completes vs (returned (some e), w) h = h
    unlock-Completes vs (panicked v have want, w) h = h

-- The calls up to the query of a run of `Up` from a world, when none of them fails.
abbrev pub read_at : World → Trace
read_at w =
    (query (select_applied w.runner.opts.table_name), none)
    ∷ (exec (create_table w.runner.opts.table_name), none)
    ∷ (exec (advisory_lock w.runner.opts.lock_key), none)
    ∷ w.trace

module _ (env : Env) (sum256 : Text → Text) (dir_fs : Text → Root) (embedded : List Root) where
  module _ (start : World) where
    -- The worlds of the run before its query: so far the calls are these, and the options are the same.
    abbrev Reaches : Trace → World → Type 0
    Reaches t w = (w.trace ≡ t) × (w.runner.opts ≡ start.runner.opts)

    abbrev table_made : Trace
    table_made =
        (exec (create_table start.runner.opts.table_name), none)
        ∷ (exec (advisory_lock start.runner.opts.lock_key), none)
        ∷ start.trace

    read-Completes :
        (w : World) (e : Option ℕ)
        → Reaches table_made w
        → Completes env (read_at start) (recorded w.trace) (
            with_applied env (
              read_rows env (
                e,
                record w { trace = (query (select_applied w.runner.opts.table_name), e) ∷ w.trace },
              )))
    unfolding read_rows with_applied
    read-Completes w (some e) h = ([], refl, inl refl)
    read-Completes w none (same, opts) =
        with_applied-Completes env (read_at start)
          (record w { trace = (query (select_applied w.runner.opts.table_name), none) ∷ w.trace })
          (env.rows_error ((query (select_applied w.runner.opts.table_name), none) ∷ w.trace))
          (ap₂ (λ (o : Options) u. (query (select_applied o.table_name), none) ∷ u) opts same)

    loaded-Completes :
        (r : Option Error × World)
        → Reaches table_made r.1
        → Completes env
            (read_at start)
            (recorded r.1.trace)
            (after_load env sum256 dir_fs embedded (with_applied env) r)
    unfolding after_load load_applied call
    loaded-Completes (some e, w) h = ([], refl, inl refl)
    loaded-Completes (none, w) h =
        read-Completes w (env.error w.trace (query (select_applied w.runner.opts.table_name))) h

    tabled-Completes :
        (w : World) (e : Option ℕ)
        → (e ≡ none → Reaches table_made w)
        → Completes env
            (read_at start)
            (recorded w.trace)
            (after_table env sum256 dir_fs embedded (with_applied env) (e, w))
    unfolding after_table
    tabled-Completes w (some e) h = ([], refl, inl refl)
    tabled-Completes w none h =
        let (same, opts) = h refl in
        loaded-Completes (load env sum256 dir_fs embedded w)
          (same, opts-load_migrations sum256 dir_fs embedded w.runner ∙ opts)

    abbrev locked : Option ℕ → World
    locked e = record start {
      trace = (exec (advisory_lock start.runner.opts.lock_key), e) ∷ start.trace;
    }

    abbrev made : Option ℕ → World
    made e = record start {
      trace =
          (exec (create_table start.runner.opts.table_name), e)
          ∷ (exec (advisory_lock start.runner.opts.lock_key), none)
          ∷ start.trace;
    }

    locked-Completes :
        (e : Option ℕ)
        → Completes env
            (read_at start)
            (recorded start.trace)
            (after_lock env (up_body env sum256 dir_fs embedded) (e, locked e))
    unfolding after_lock up_body ensure_table call
    locked-Completes (some e) = ([], refl, inl refl)
    locked-Completes none =
        unlock-Completes env (read_at start) (recorded start.trace)
          (up_body env sum256 dir_fs embedded (locked none))
          (with_error
            (env.error (locked none).trace (exec (create_table start.runner.opts.table_name))))
      where
        with_error :
            (e : Option ℕ)
            → Completes env
                (read_at start)
                (recorded start.trace)
                (after_table env sum256 dir_fs embedded (with_applied env) (e, made e))
        with_error e = tabled-Completes (made e) e (λ h. (ap (λ o. (made o).trace) h, refl))

  -- Whatever the database answers: if `Up` returns no error, it has recorded exactly the migrations
  -- that are pending by the rows that the database answers to the query of this run, behind its lock and
  -- its table, as successes, one after the other in their order; if it returns an error, the first ones
  -- of them; and none if it panics, which it does where `pendingUp` finds a changed checksum in these
  -- rows.
  pub run_up-Completes :
      (w : World)
      → Completes env (read_at w) (recorded w.trace) (run_up env sum256 dir_fs embedded w)
  unfolding run_up with_lock call
  run_up-Completes w =
      locked-Completes w (env.error w.trace (exec (advisory_lock w.runner.opts.lock_key)))
