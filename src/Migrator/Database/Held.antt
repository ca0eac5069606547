-- ===== src/Migrator/Database/Held.antt =====
-- The advisory lock of migrator/migrator.go as a second state machine over the trace of the calls, and
-- the operations of one migration, which leave it alone.
use api_toolkit.Prelude.{
  ℕ, ◌≡◌, refl, ap, ◌∙◌, Bool, true, false, List, [], ◌∷◌, Option, none, some, if◌then◌else◌,
  is_some, eqb, trim_space, ◌==◌, list_eq, arith,
}
use api_toolkit.Prelude.Int.{ℤ, pos, negsuc}
use api_toolkit.Migrator.{Migration}
use api_toolkit.Migrator.Database.{
  advisory_lock, advisory_unlock, delete_row, Call, exec, begin_tx, commit, exec_tx,
  exec_tx_statement, log_applying, log_reverting, log_up_to_date, log_nothing, Trace, Env, World,
  call, logged, record_row, after_commit, after_exec, after_begin, apply_one, apply_all,
  after_delete, after_down, after_begin_down, revert_one,
}

-- `wrong`: a call on the database without the lock, a lock or unlock out of turn, or of another key.
pub data Lock : Type 0 where
  released held wrong : Lock

abbrev pub same_key : ℤ → ℤ → Bool
same_key (pos a) (pos b) = eqb a b
same_key (negsuc a) (negsuc b) = eqb a b
same_key _ _ = false

-- A lock or an unlock that the database answers with an error changes nothing.
abbrev pub take : Lock → Option ℕ → Lock
take released none = held
take released (some e) = released
take _ e = wrong

abbrev pub give_back : Lock → Option ℕ → Lock
give_back held none = released
give_back held (some e) = held
give_back _ e = wrong

abbrev pub while_held : Lock → Lock
while_held held = held
while_held _ = wrong

module _ (key : ℤ) where
  abbrev pub lock_step : Lock → Call → Option ℕ → Lock
  lock_step l (exec (advisory_lock other)) e = if same_key key other then take l e else wrong
  lock_step l (exec (advisory_unlock other)) e = if same_key key other then give_back l e else wrong
  lock_step l (log_applying v n) e = l
  lock_step l (log_reverting v n) e = l
  lock_step l log_up_to_date e = l
  lock_step l log_nothing e = l
  lock_step l _ e = while_held l

  abbrev pub lock_of : Trace → Lock
  lock_of [] = released
  lock_of ((c, e) ∷ t) = lock_step (lock_of t) c e

-- The lock of the key in the options, after the calls so far.
abbrev pub lock_in : World → Lock
lock_in w = lock_of w.runner.opts.lock_key w.trace

abbrev pub IsHeld : World → Type 0
IsHeld w = lock_in w ≡ held

pub same_key_self : (key : ℤ) → same_key key key ≡ true
same_key_self (pos n) = ground arith
same_key_self (negsuc n) = ground arith

pub logged-IsHeld :
    (c : Call) (w : World)
    → ((l : Lock) → lock_step w.runner.opts.lock_key l c none ≡ l)
    → IsHeld w
    → IsHeld (logged c w)
logged-IsHeld c w skips h = by_logger w.runner.opts.has_logger
  where
    by_logger : (b : Bool) → IsHeld (if b then record w { trace = (c, none) ∷ w.trace } else w)
    by_logger true = skips (lock_in w) ∙ h
    by_logger false = h

IsHeld-if :
    {A : Type 0} (b : Bool) (a c : A × World)
    → IsHeld a.1
    → IsHeld c.1
    → IsHeld (if b then a else c).1
IsHeld-if true a c ha hc = ha
IsHeld-if false a c ha hc = hc

module _ (env : Env) where
  after_commit-IsHeld :
      (m : Migration) (ms : ℕ) (r : Option ℕ × World)
      → IsHeld r.1
      → IsHeld (after_commit env m ms r).1
  unfolding after_commit record_row call
  after_commit-IsHeld m ms (some e, w) h = ap while_held h
  after_commit-IsHeld m ms (none, w) h = ap while_held h

  after_exec-IsHeld :
      (m : Migration) (r : Option ℕ × World) → IsHeld r.1 → IsHeld (after_exec env m r).1
  unfolding after_exec record_row call
  after_exec-IsHeld m (some e, w) h = ap (λ l. while_held (while_held l)) h
  after_exec-IsHeld m (none, w) h =
      after_commit-IsHeld m (env.millis w.trace) (call env commit w) (ap while_held h)

  after_begin-IsHeld :
      (m : Migration) (r : Option ℕ × World) → IsHeld r.1 → IsHeld (after_begin env m r).1
  unfolding after_begin call
  after_begin-IsHeld m (some e, w) h = h
  after_begin-IsHeld m (none, w) h =
      after_exec-IsHeld m (call env (exec_tx m.sql) w) (ap while_held h)

  begun-IsHeld : (w : World) → IsHeld w → IsHeld (call env begin_tx w).1
  unfolding call
  begun-IsHeld w h = by_error (env.error w.trace begin_tx)
    where
      by_error : (e : Option ℕ) → lock_step w.runner.opts.lock_key (lock_in w) begin_tx e ≡ held
      by_error e = ap while_held h

  apply_one-IsHeld : (m : Migration) (w : World) → IsHeld w → IsHeld (apply_one env m w).1
  unfolding apply_one
  apply_one-IsHeld m w h =
      let w1 = logged (log_applying m.version m.name) w in
      after_begin-IsHeld m (call env begin_tx w1)
        (begun-IsHeld w1 (logged-IsHeld (log_applying m.version m.name) w (λ l. refl) h))

  pub apply_all-IsHeld :
      (ms : List Migration) (w : World) → IsHeld w → IsHeld (apply_all env ms w).1
  unfolding apply_all
  apply_all-IsHeld [] w h = h
  apply_all-IsHeld (m ∷ ms) w h =
      let (e, w') = apply_one env m w in
      let one = apply_one-IsHeld m w h in
      IsHeld-if (is_some e) (e, w') (apply_all env ms w') one (apply_all-IsHeld ms w' one)

  after_delete-IsHeld :
      (m : Migration) (r : Option ℕ × World) → IsHeld r.1 → IsHeld (after_delete env m r).1
  unfolding after_delete call
  after_delete-IsHeld m (some e, w) h = ap while_held h
  after_delete-IsHeld m (none, w) h =
      IsHeld-if (eqb (env.affected w.trace) 1) _ _ (ap while_held h) (ap while_held h)

  after_down-IsHeld :
      (m : Migration) (r : Option ℕ × World) → IsHeld r.1 → IsHeld (after_down env m r).1
  unfolding after_down call
  after_down-IsHeld m (some e, w) h = ap while_held h
  after_down-IsHeld m (none, w) h =
      after_delete-IsHeld m
        (call env (exec_tx_statement (delete_row w.runner.opts.table_name m.version)) w)
        (ap while_held h)

  after_begin_down-IsHeld :
      (m : Migration) (r : Option ℕ × World) → IsHeld r.1 → IsHeld (after_begin_down env m r).1
  unfolding after_begin_down call
  after_begin_down-IsHeld m (some e, w) h = h
  after_begin_down-IsHeld m (none, w) h =
      after_down-IsHeld m (if trim_space m.sql == [] then (none, w) else call env (exec_tx m.sql) w)
        (IsHeld-if (trim_space m.sql == []) (none, w) (call env (exec_tx m.sql) w) h
          (ap while_held h))

  pub revert_one-IsHeld : (m : Migration) (w : World) → IsHeld w → IsHeld (revert_one env m w).1
  unfolding revert_one
  revert_one-IsHeld m w h =
      let w1 = logged (log_reverting m.version m.name) w in
      after_begin_down-IsHeld m (call env begin_tx w1)
        (begun-IsHeld w1 (logged-IsHeld (log_reverting m.version m.name) w (λ l. refl) h))
