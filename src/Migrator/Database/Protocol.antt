-- ===== src/Migrator/Database/Protocol.antt =====
-- The order of the calls that migrator/migrator.go makes on the database, as a state machine over the
-- trace: transactions do not overlap, and a row of success follows the commit of its migration's text.
use api_toolkit.Prelude.{
  ℕ, ◌≡◌, ◌⊎◌, refl, ap, ◌∙◌, Bool, true, false, List, [], ◌∷◌, Option, none, some, if◌then◌else◌,
  is_some, eqb, Text, ◌==◌, list_eq, beq_refl, inl, inr, trim_space,
}
use api_toolkit.Migrator.{Migration, Error}
use api_toolkit.Migrator.Database.{
  Statement, delete_row, upsert_row, Call, exec, query, begin_tx, commit, rollback, exec_tx,
  exec_tx_statement, log_applying, log_reverting, Trace, Env, World, call, logged, apply_one,
  apply_all, after_begin, after_exec, after_commit, record_row, revert_one, after_begin_down,
  after_down, after_delete,
}

-- `ran` and `committed` keep the text that ran; a failed statement leaves `spoiled`.
pub data Phase : Type 0 where
  idle opened spoiled broken : Phase
  ran committed : Text → Phase

-- No transaction is open.
abbrev pub is_settled : Phase → Bool
is_settled idle = true
is_settled (committed s) = true
is_settled _ = false

abbrev when_settled : Phase → Phase → Phase
when_settled p q = if is_settled p then q else broken

abbrev ran_or_spoiled : Text → Option ℕ → Phase
ran_or_spoiled s none = ran s
ran_or_spoiled s (some e) = spoiled

abbrev run_text : Phase → Text → Option ℕ → Phase
run_text opened s e = ran_or_spoiled s e
run_text _ s e = broken

abbrev run_statement : Phase → Option ℕ → Phase
run_statement opened e = ran_or_spoiled [] e
run_statement (ran s) e = ran_or_spoiled s e
run_statement _ e = broken

abbrev close : Phase → Option ℕ → Phase
close (ran s) none = committed s
close (ran s) (some e) = idle
close _ e = broken

abbrev abandon : Phase → Phase
abandon opened = idle
abandon (ran s) = idle
abandon spoiled = idle
abandon _ = broken

abbrev record_success : Phase → Text → Phase
record_success (committed s) t = if s == t then idle else broken
record_success _ t = broken

abbrev run_plain : Phase → Statement → Phase
run_plain p (upsert_row table m ms true) = record_success p m.sql
run_plain p _ = when_settled p idle

abbrev pub step : Phase → Call → Option ℕ → Phase
step p begin_tx none = when_settled p opened
step p begin_tx (some e) = when_settled p idle
step p (exec_tx s) e = run_text p s e
step p (exec_tx_statement s) e = run_statement p e
step p commit e = close p e
step p rollback e = abandon p
step p (exec s) e = run_plain p s
step p (query s) e = when_settled p idle
step p _ e = p

abbrev pub phase : Trace → Phase
phase [] = idle
phase ((c, e) ∷ t) = step (phase t) c e

-- The calls so far keep to the protocol, and no transaction is open.
abbrev pub IsSettled : World → Type 0
IsSettled w = is_settled (phase w.trace) ≡ true

pub logged-phase :
    (c : Call) (w : World)
    → ((p : Phase) → step p c none ≡ p)
    → phase (logged c w).trace ≡ phase w.trace
logged-phase c w skips = by_logger w.runner.opts.has_logger
  where
    by_logger :
        (b : Bool)
        → phase (if b then record w { trace = (c, none) ∷ w.trace } else w).trace ≡ phase w.trace
    by_logger true = skips (phase w.trace)
    by_logger false = refl

IsSettled-if :
    (b : Bool) (a c : Option Error × World)
    → IsSettled a.1
    → IsSettled c.1
    → IsSettled (if b then a else c).1
IsSettled-if true a c ha hc = ha
IsSettled-if false a c ha hc = hc

module _ (env : Env) where
  after_commit-IsSettled :
      (m : Migration) (ms : ℕ) (r : Option ℕ × World)
      → phase r.1.trace ≡ close (ran m.sql) r.0
      → IsSettled (after_commit env m ms r).1
  unfolding after_commit record_row call
  after_commit-IsSettled m ms (some e, w) h = rw h refl
  after_commit-IsSettled m ms (none, w) h = rw (h, beq_refl m.sql) refl

  after_exec-IsSettled :
      (m : Migration) (r : Option ℕ × World)
      → phase r.1.trace ≡ ran_or_spoiled m.sql r.0
      → IsSettled (after_exec env m r).1
  unfolding after_exec record_row call
  after_exec-IsSettled m (some e, w) h = rw h refl
  after_exec-IsSettled m (none, w) h =
      after_commit-IsSettled m (env.millis w.trace) (call env commit w)
        (ap (λ p. close p (env.error w.trace commit)) h)

  after_begin-IsSettled :
      (m : Migration) (r : Option ℕ × World) (p : Phase)
      → is_settled p ≡ true
      → phase r.1.trace ≡ step p begin_tx r.0
      → IsSettled (after_begin env m r).1
  unfolding after_begin call
  after_begin-IsSettled m (some e, w) p settled h = rw (h, settled) refl
  after_begin-IsSettled m (none, w) p settled h =
      after_exec-IsSettled m (call env (exec_tx m.sql) w) (
        ap (λ q. run_text q m.sql (env.error w.trace (exec_tx m.sql)))
          (h ∙ ap (λ (b : Bool). if b then opened else broken) settled))

  apply_one-IsSettled : (m : Migration) (w : World) → IsSettled w → IsSettled (apply_one env m w).1
  unfolding apply_one call
  apply_one-IsSettled m w settled =
      let w1 = logged (log_applying m.version m.name) w in
      after_begin-IsSettled m (call env begin_tx w1) (phase w1.trace)
        (ap is_settled (logged-phase (log_applying m.version m.name) w (λ p. refl)) ∙ settled) refl

  pub apply_all-IsSettled :
      (ms : List Migration) (w : World) → IsSettled w → IsSettled (apply_all env ms w).1
  unfolding apply_all
  apply_all-IsSettled [] w settled = settled
  apply_all-IsSettled (m ∷ ms) w settled =
      let (e, w') = apply_one env m w in
      let one = apply_one-IsSettled m w settled in
      IsSettled-if (is_some e) (e, w') (apply_all env ms w') one (apply_all-IsSettled ms w' one)

  after_delete-IsSettled :
      (m : Migration) (s : Text) (r : Option ℕ × World)
      → phase r.1.trace ≡ ran_or_spoiled s r.0
      → IsSettled (after_delete env m r).1
  unfolding after_delete call
  after_delete-IsSettled m s (some e, w) h = rw h refl
  after_delete-IsSettled m s (none, w) h =
      IsSettled-if (eqb (env.affected w.trace) 1) _ _ (rw h (closed (env.error w.trace commit)))
        (rw h refl)
    where
      closed : (e : Option ℕ) → is_settled (close (ran s) e) ≡ true
      closed none = refl
      closed (some e) = refl

  after_down-IsSettled :
      (m : Migration) (r : Option ℕ × World)
      → (phase r.1.trace ≡ ran_or_spoiled m.sql r.0) ⊎ ((phase r.1.trace ≡ opened) × (r.0 ≡ none))
      → IsSettled (after_down env m r).1
  unfolding after_down call
  after_down-IsSettled m (some e, w) (inl h) = rw h refl
  after_down-IsSettled m (some e, w) (inr (h, none_)) = rw h refl
  after_down-IsSettled m (none, w) (inl h) =
      let c = exec_tx_statement (delete_row w.runner.opts.table_name m.version) in
      after_delete-IsSettled m m.sql (call env c w)
        (ap (λ p. run_statement p (env.error w.trace c)) h)
  after_down-IsSettled m (none, w) (inr (h, none_)) =
      let c = exec_tx_statement (delete_row w.runner.opts.table_name m.version) in
      after_delete-IsSettled m [] (call env c w) (ap (λ p. run_statement p (env.error w.trace c)) h)

  after_begin_down-IsSettled :
      (m : Migration) (r : Option ℕ × World) (p : Phase)
      → is_settled p ≡ true
      → phase r.1.trace ≡ step p begin_tx r.0
      → IsSettled (after_begin_down env m r).1
  unfolding after_begin_down call
  after_begin_down-IsSettled m (some e, w) p settled h = rw (h, settled) refl
  after_begin_down-IsSettled m (none, w) p settled h =
      by_text (trim_space m.sql == []) (h ∙ ap (λ (b : Bool). if b then opened else broken) settled)
    where
      by_text :
          (empty : Bool)
          → phase w.trace ≡ opened
          → IsSettled (after_down env m (if empty then (none, w) else call env (exec_tx m.sql) w)).1
      by_text true now = after_down-IsSettled m (none, w) (inr (now, refl))
      by_text false now =
          after_down-IsSettled m (call env (exec_tx m.sql) w)
            (inl (ap (λ q. run_text q m.sql (env.error w.trace (exec_tx m.sql))) now))

  pub revert_one-IsSettled :
      (m : Migration) (w : World) → IsSettled w → IsSettled (revert_one env m w).1
  unfolding revert_one call
  revert_one-IsSettled m w settled =
      let w1 = logged (log_reverting m.version m.name) w in
      after_begin_down-IsSettled m (call env begin_tx w1) (phase w1.trace)
        (ap is_settled (logged-phase (log_reverting m.version m.name) w (λ p. refl)) ∙ settled) refl
