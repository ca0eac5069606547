-- ===== src/Migrator/Database/Deleting.antt =====
-- Where AllowDangerousDown is off: what `Up` and `Status` of migrator/migrator.go leave alone.
use api_toolkit.Prelude.{
  ℕ, ◌≡◌, refl, ap, ◌∙◌, Bool, true, false, List, [], ◌∷◌, Option, none, some, if◌then◌else◌,
  is_some, any, Text,
}
use api_toolkit.Migrator.{Options, Migration, Error, Root}
use api_toolkit.Migrator.Kept.{opts-load_migrations}
use api_toolkit.Migrator.Pending.{AppliedRow, Pending, mismatch, pending, pending_up}
use api_toolkit.Migrator.Database.{
  Statement, advisory_lock, delete_row, Call, exec, exec_tx_statement, log_applying, log_up_to_date,
  log_reverting, commit, exec_tx, begin_tx, Env, World, Outcome, call, logged, record_row,
  after_commit, after_exec, after_begin, apply_one, apply_all, apply_pending, with_applied,
  ensure_table, read_rows, load_applied, load, after_load, after_table, up_body, unlock, after_lock,
  with_lock, run_up,
}
use api_toolkit.Migrator.Database.Reporting.{
  status_with_rows, status_loaded, status_with_table, run_status,
}

abbrev deletes_row : Statement → Bool
deletes_row (delete_row table version) = true
deletes_row _ = false

-- A call of a revert: the message before it, or the deletion of a row.
abbrev pub reverts : Call × Option ℕ → Bool
reverts (exec s, e) = deletes_row s
reverts (exec_tx_statement s, e) = deletes_row s
reverts (log_reverting version name, e) = true
reverts _ = false

-- Reverts are off, and none has been begun.
abbrev pub IsGuarded : World → Type 0
IsGuarded w = (w.runner.opts.allow_dangerous_down ≡ false) × (any reverts w.trace ≡ false)

IsGuarded-if :
    {A : Type 0} (b : Bool) (x y : A × World)
    → IsGuarded x.1
    → IsGuarded y.1
    → IsGuarded (if b then x else y).1
IsGuarded-if true x y hx hy = hx
IsGuarded-if false x y hx hy = hy

logged-IsGuarded :
    (c : Call) (w : World) → reverts (c, none) ≡ false → IsGuarded w → IsGuarded (logged c w)
logged-IsGuarded c w e (off, h) = by_logger w.runner.opts.has_logger
  where
    by_logger : (b : Bool) → IsGuarded (if b then record w { trace = (c, none) ∷ w.trace } else w)
    by_logger true = (off, rw e h)
    by_logger false = (off, h)

abbrev Guards : (World → Outcome × World) → Type 0
Guards body = (w : World) → IsGuarded w → IsGuarded (body w).1

module _ (env : Env) where
  after_exec-IsGuarded :
      (m : Migration) (r : Option ℕ × World) → IsGuarded r.1 → IsGuarded (after_exec env m r).1
  unfolding after_exec record_row call
  after_exec-IsGuarded m (some e, w) h = h
  after_exec-IsGuarded m (none, w) h = committed (call env commit w) h
    where
      committed :
          (r : Option ℕ × World)
          → IsGuarded r.1
          → IsGuarded (after_commit env m (env.millis w.trace) r).1
      committed (some e, w') h' = h'
      committed (none, w') h' = h'

  apply_one-IsGuarded : (m : Migration) (w : World) → IsGuarded w → IsGuarded (apply_one env m w).1
  unfolding apply_one call
  apply_one-IsGuarded m w h =
      let w1 = logged (log_applying m.version m.name) w in
      begun (call env begin_tx w1) (logged-IsGuarded (log_applying m.version m.name) w refl h)
    where
      begun : (r : Option ℕ × World) → IsGuarded r.1 → IsGuarded (after_begin env m r).1
      begun (some e, w') h' = h'
      begun (none, w') h' = after_exec-IsGuarded m (call env (exec_tx m.sql) w') h'

  apply_all-IsGuarded :
      (ms : List Migration) (w : World) → IsGuarded w → IsGuarded (apply_all env ms w).1
  unfolding apply_all
  apply_all-IsGuarded [] w h = h
  apply_all-IsGuarded (m ∷ ms) w h =
      let (e, w') = apply_one env m w in
      let one = apply_one-IsGuarded m w h in
      IsGuarded-if (is_some e) (e, w') (apply_all env ms w') one (apply_all-IsGuarded ms w' one)

  apply_pending-Guards : (p : Pending) → Guards (apply_pending env p)
  unfolding apply_pending
  apply_pending-Guards (mismatch v have want) w h = h
  apply_pending-Guards (pending []) w h = logged-IsGuarded log_up_to_date w refl h
  apply_pending-Guards (pending (m ∷ ms)) w h = apply_all-IsGuarded (m ∷ ms) w h

  read_rows-IsGuarded : (r : Option ℕ × World) → IsGuarded r.1 → IsGuarded (read_rows env r).2
  unfolding read_rows
  read_rows-IsGuarded (some e, w) h = h
  read_rows-IsGuarded (none, w) h = h

  module _ (sum256 : Text → Text) (dir_fs : Text → Root) (embedded : List Root) where
    load-IsGuarded : (w : World) → IsGuarded w → IsGuarded (load env sum256 dir_fs embedded w).1
    load-IsGuarded w (off, h) = (
      ap (λ (o : Options). o.allow_dangerous_down)
            (opts-load_migrations sum256 dir_fs embedded w.runner)
          ∙ off,
      h,
    )

    with_applied-IsGuarded :
        (r : Option ℕ × List AppliedRow × World) → IsGuarded r.2 → IsGuarded (with_applied env r).1
    unfolding with_applied
    with_applied-IsGuarded (some e, rows, w) h = h
    with_applied-IsGuarded (none, rows, w) h =
        apply_pending-Guards (pending_up w.runner.migrations rows) w h

    up_body-Guards : Guards (up_body env sum256 dir_fs embedded)
    unfolding up_body after_table after_load ensure_table load_applied call
    up_body-Guards w h = with_table (ensure_table env w) h
      where
        loaded :
            (r : Option Error × World)
            → IsGuarded r.1
            → IsGuarded (after_load env sum256 dir_fs embedded (with_applied env) r).1
        loaded (some e, w') h' = h'
        loaded (none, w') h' =
            with_applied-IsGuarded (load_applied env w') (read_rows-IsGuarded _ h')

        with_table :
            (r : Option ℕ × World)
            → IsGuarded r.1
            → IsGuarded (after_table env sum256 dir_fs embedded (with_applied env) r).1
        with_table (some e, w') h' = h'
        with_table (none, w') h' =
            loaded (load env sum256 dir_fs embedded w') (load-IsGuarded w' h')

    pub run_up-Guards : Guards (run_up env sum256 dir_fs embedded)
    unfolding run_up with_lock after_lock unlock call
    run_up-Guards w h = locked (call env (exec (advisory_lock w.runner.opts.lock_key)) w) h
      where
        locked :
            (r : Option ℕ × World)
            → IsGuarded r.1
            → IsGuarded (after_lock env (up_body env sum256 dir_fs embedded) r).1
        locked (some e, w') h' = h'
        locked (none, w') h' = up_body-Guards w' h'

    pub run_status-IsGuarded :
        (w : World) → IsGuarded w → IsGuarded (run_status env sum256 dir_fs embedded w).1
    unfolding run_status status_with_table status_loaded ensure_table load_applied call
    run_status-IsGuarded w h = with_table (ensure_table env w) h
      where
        with_rows :
            (r : Option ℕ × List AppliedRow × World)
            → IsGuarded r.2
            → IsGuarded (status_with_rows env sum256 dir_fs embedded r).1
        with_rows (some e, rows, w') h' = h'
        with_rows (none, rows, w') h' = h'

        loaded :
            (r : Option Error × World)
            → IsGuarded r.1
            → IsGuarded (status_loaded env sum256 dir_fs embedded r).1
        loaded (some e, w') h' = h'
        loaded (none, w') h' = with_rows (load_applied env w') (read_rows-IsGuarded _ h')

        with_table :
            (r : Option ℕ × World)
            → IsGuarded r.1
            → IsGuarded (status_with_table env sum256 dir_fs embedded r).1
        with_table (some e, w') h' = h'
        with_table (none, w') h' =
            loaded (load env sum256 dir_fs embedded w') (load-IsGuarded w' h')
