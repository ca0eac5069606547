-- ===== src/Migrator/Database/Locking.antt =====
-- `withLock` of migrator/migrator.go around `Up` and `Down`: the protocol of the calls, and the lock.
use api_toolkit.Prelude.{
  ℕ, refl, ap, ◌∙◌, Bool, true, false, List, [], ◌∷◌, Option, none, some, if◌then◌else◌, Text,
}
use api_toolkit.Migrator.{Direction, Migration, Error, Root}
use api_toolkit.Migrator.Pending.{AppliedRow, Pending, mismatch, pending, pending_up}
use api_toolkit.Migrator.Database.{
  advisory_lock, select_applied, exec, query, log_up_to_date, log_nothing, Env, World, Outcome,
  call, apply_pending, with_applied, revert_found, revert_latest, latest_success, find,
  down_with_applied, ensure_table, read_rows, load_applied, load, after_load, after_table, up_body,
  down_body, unlock, after_lock, with_lock, run_up, run_down,
}
use api_toolkit.Migrator.Database.Protocol.{
  IsSettled, is_settled, logged-phase, apply_all-IsSettled, revert_one-IsSettled,
}

abbrev Keeps : (World → Outcome × World) → Type 0
Keeps body = (w : World) → IsSettled w → IsSettled (body w).1

abbrev KeepsRows : (Option ℕ × List AppliedRow × World → Outcome × World) → Type 0
KeepsRows k =
    (e : Option ℕ) (rows : List AppliedRow) (w : World) → IsSettled w → IsSettled (k (e, rows, w)).1

module _ (env : Env) where
  apply_pending-Keeps : (p : Pending) → Keeps (apply_pending env p)
  unfolding apply_pending
  apply_pending-Keeps (mismatch v have want) w h = h
  apply_pending-Keeps (pending []) w h =
      ap is_settled (logged-phase log_up_to_date w (λ p. refl)) ∙ h
  apply_pending-Keeps (pending (m ∷ ms)) w h = apply_all-IsSettled env (m ∷ ms) w h

  with_applied-KeepsRows : KeepsRows (with_applied env)
  unfolding with_applied
  with_applied-KeepsRows (some e) rows w h = h
  with_applied-KeepsRows none rows w h =
      apply_pending-Keeps (pending_up w.runner.migrations rows) w h

  revert_found-Keeps : (a : AppliedRow) (m : Option Migration) → Keeps (revert_found env a m)
  unfolding revert_found
  revert_found-Keeps a none w h = h
  revert_found-Keeps a (some m) w h = revert_one-IsSettled env m w h

  revert_latest-Keeps : (a : Option AppliedRow) → Keeps (revert_latest env a)
  unfolding revert_latest
  revert_latest-Keeps none w h = ap is_settled (logged-phase log_nothing w (λ p. refl)) ∙ h
  revert_latest-Keeps (some a) w h =
      revert_found-Keeps a (find env a.version Direction.down w.runner.migrations) w h

  down_with_applied-KeepsRows : KeepsRows (down_with_applied env)
  unfolding down_with_applied
  down_with_applied-KeepsRows (some e) rows w h = h
  down_with_applied-KeepsRows none rows w h = revert_latest-Keeps (latest_success env rows) w h

  load_applied-IsSettled : (w : World) → IsSettled w → IsSettled (load_applied env w).2
  unfolding load_applied read_rows call
  load_applied-IsSettled w h =
      read (env.error w.trace (query (select_applied w.runner.opts.table_name))) _ (rw h refl)
    where
      read : (e : Option ℕ) (w' : World) → IsSettled w' → IsSettled (read_rows env (e, w')).2
      read (some e) w' h' = h'
      read none w' h' = h'

  module _ (sum256 : Text → Text) (dir_fs : Text → Root) (embedded : List Root) where
    after_load-Keeps :
        (k : Option ℕ × List AppliedRow × World → Outcome × World)
        → KeepsRows k
        → (r : Option Error × World) → IsSettled r.1
        → IsSettled (after_load env sum256 dir_fs embedded k r).1
    unfolding after_load
    after_load-Keeps k keeps (some e, w) h = h
    after_load-Keeps k keeps (none, w) h =
        let (e, rows, w') = load_applied env w in keeps e rows w' (load_applied-IsSettled w h)

    after_table-Keeps :
        (k : Option ℕ × List AppliedRow × World → Outcome × World)
        → KeepsRows k
        → (r : Option ℕ × World) → IsSettled r.1
        → IsSettled (after_table env sum256 dir_fs embedded k r).1
    unfolding after_table
    after_table-Keeps k keeps (some e, w) h = h
    after_table-Keeps k keeps (none, w) h =
        after_load-Keeps k keeps (load env sum256 dir_fs embedded w) h

    ensure_table-IsSettled : (w : World) → IsSettled w → IsSettled (ensure_table env w).1
    unfolding ensure_table call
    ensure_table-IsSettled w h = rw h refl

    up_body-Keeps : Keeps (up_body env sum256 dir_fs embedded)
    unfolding up_body
    up_body-Keeps w h =
        after_table-Keeps (with_applied env) with_applied-KeepsRows (ensure_table env w)
          (ensure_table-IsSettled w h)

    down_body-Keeps : Keeps (down_body env sum256 dir_fs embedded)
    unfolding down_body
    down_body-Keeps w h =
        after_table-Keeps (down_with_applied env) down_with_applied-KeepsRows (ensure_table env w)
          (ensure_table-IsSettled w h)

  with_lock-Keeps : (body : World → Outcome × World) → Keeps body → Keeps (with_lock env body)
  unfolding with_lock after_lock unlock call
  with_lock-Keeps body keeps w h =
      locked (env.error w.trace (exec (advisory_lock w.runner.opts.lock_key))) _ (rw h refl)
    where
      released : (r : Outcome × World) → IsSettled r.1 → IsSettled (unlock env r).1
      released (o, w') h' = rw h' refl

      locked :
          (e : Option ℕ) (w' : World) → IsSettled w' → IsSettled (after_lock env body (e, w')).1
      locked (some e) w' h' = h'
      locked none w' h' = released (body w') (keeps w' h')

-- Whatever the database answers, `Up` and `Down` leave no transaction open and never break the
-- protocol of their calls: a transaction begins only when none is open, each is closed by one commit
-- or rollback, a failed statement is followed by a rollback, statements outside of a transaction run
-- only when none is open, and a row of success is written only straight after the commit of the
-- transaction that ran the text of the same migration.
pub runs-IsSettled :
    (env : Env) (sum256 : Text → Text) (dir_fs : Text → Root) (embedded : List Root) (w : World)
    → IsSettled w
    → IsSettled (run_up env sum256 dir_fs embedded w).1
      × IsSettled (run_down env sum256 dir_fs embedded w).1
unfolding run_up run_down
runs-IsSettled env sum256 dir_fs embedded w h = (
  with_lock-Keeps env (up_body env sum256 dir_fs embedded)
      (up_body-Keeps env sum256 dir_fs embedded) w h,
  allowed w.runner.opts.allow_dangerous_down,
)
  where
    allowed :
        (b : Bool)
        → IsSettled
            (if b
              then with_lock env (down_body env sum256 dir_fs embedded) w
              else (Outcome.returned (some Error.down_disabled), w)).1
    allowed true =
        with_lock-Keeps env (down_body env sum256 dir_fs embedded)
          (down_body-Keeps env sum256 dir_fs embedded) w h
    allowed false = h
