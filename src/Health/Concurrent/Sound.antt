-- ===== src/Health/Concurrent/Sound.antt =====
-- What calls of `performCheck` of health/health.go that run at the same time cache and give.
use mathlib.Core.Path.{subst}
use mathlib.Core.Option.{some_inj}
use api_toolkit.Prelude.{
  ℕ, ◌+◌, ◌≤◌, ◌<◌, ◌≡◌, refl, ap, ◌∙◌, sym, ◌⊎◌, inl, inr, Bool, true, false, String, List, [],
  ◌∷◌, ◌++◌, none, some, if◌then◌else◌, lookup, insert, lookup-insert, string_eq, ◌==◌, All, arith,
}
use api_toolkit.Health.Status.{HealthResult, HealthChecker}
use api_toolkit.Health.Manager.{Manager, cached, store, not_found}
use api_toolkit.Health.Concurrent.{
  Thread, looking, missed, running, checked, answered, System, stamped_at, Step, hit, stale, miss,
  unknown, run, finish, write, Reaches, begun, ticked, stepped,
}

module _ (clock : ℕ → ℕ) where
  -- A result of the checker of the name, asked after the start of the call, with the call's readings.
  abbrev pub IsGenuine : List (String × HealthChecker) → ℕ → String → HealthResult → Type 0
  IsGenuine checkers w name r =
      (c : HealthChecker) × (asked : ℕ) × (start : ℕ) × (end : ℕ) × (lookup name checkers ≡ some c)
      × (r ≡ stamped_at clock c asked start end)
      × (start < asked)
      × ((c.check asked).1 ≤ end)
      × (end + 1 < w)

  abbrev pub IsSoundThread : List (String × HealthChecker) → ℕ → Thread → Type 0
  IsSoundThread checkers w (running name c start) = lookup name checkers ≡ some c
  IsSoundThread checkers w (checked name r) = IsGenuine checkers w name r
  IsSoundThread checkers w (answered name r) =
      (IsGenuine checkers w name r)
      ⊎ ((lookup name checkers ≡ none) × ((v : ℕ) × (r ≡ not_found clock name v)))
  IsSoundThread checkers w _ = Unit

  pub record IsSound (checkers : List (String × HealthChecker)) (s : System) : Type 0 where
    pub same : s.manager.checkers ≡ checkers
    pub cache :
        (name : String) (r : HealthResult)
        → lookup name s.manager.cache ≡ some r
        → IsGenuine checkers s.reads name r
    pub threads : All (IsSoundThread checkers s.reads) s.threads

  IsGenuine-later :
      (checkers : List (String × HealthChecker)) (w w' : ℕ) (name : String) (r : HealthResult)
      → w ≤ w'
      → IsGenuine checkers w name r
      → IsGenuine checkers w' name r
  IsGenuine-later checkers w w' name r h (c, asked, start, end, found, e, late, ran, bound) =
      (c, asked, start, end, found, e, late, ran, omega arith)

  thread-later :
      (checkers : List (String × HealthChecker)) (w w' : ℕ) (t : Thread)
      → w ≤ w'
      → IsSoundThread checkers w t
      → IsSoundThread checkers w' t
  thread-later checkers w w' (looking name) h s = tt
  thread-later checkers w w' (missed name) h s = tt
  thread-later checkers w w' (running name c start) h s = s
  thread-later checkers w w' (checked name r) h s = IsGenuine-later checkers w w' name r h s
  thread-later checkers w w' (answered name r) h (inl s) =
      inl (IsGenuine-later checkers w w' name r h s)
  thread-later checkers w w' (answered name r) h (inr s) = inr s

  threads-later :
      (checkers : List (String × HealthChecker)) (w w' : ℕ) (ts : List Thread)
      → w ≤ w'
      → All (IsSoundThread checkers w) ts
      → All (IsSoundThread checkers w') ts
  threads-later checkers w w' [] h s = tt
  threads-later checkers w w' (t ∷ ts) h (st, s) =
      (thread-later checkers w w' t h st, threads-later checkers w w' ts h s)

  store-checkers :
      (m : Manager) (name : String) (r : HealthResult) → (store m name r).checkers ≡ m.checkers
  unfolding store
  store-checkers m name r = by_caching m.config.enable_caching
    where
      by_caching :
          (b : Bool)
          → (if b then record m { cache = insert name r m.cache } else m).checkers ≡ m.checkers
      by_caching true = refl
      by_caching false = refl

  -- An entry after a write is the one written, under its name, or one from before.
  store-cache :
      (m : Manager) (name other : String) (r r' : HealthResult)
      → lookup other (store m name r).cache ≡ some r'
      → ((name ≡ other) × (r ≡ r')) ⊎ (lookup other m.cache ≡ some r')
  unfolding store
  store-cache m name other r r' e = by_caching m.config.enable_caching e
    where
      by_name :
          (b : Bool)
          → (name == other) ≡ b
          → (if b then some r else lookup other m.cache) ≡ some r'
          → ((name ≡ other) × (r ≡ r')) ⊎ (lookup other m.cache ≡ some r')
      by_name true same h = inl ((string_eq.beq_iff name other).0 same, some_inj.0 h)
      by_name false same h = inr h

      by_caching :
          (b : Bool)
          → lookup other (if b then record m { cache = insert name r m.cache } else m).cache
            ≡ some r'
          → ((name ≡ other) × (r ≡ r')) ⊎ (lookup other m.cache ≡ some r')
      by_caching false h = inr h
      by_caching true h =
          by_name (name == other) refl (sym (lookup-insert name other r m.cache) ∙ h)

  cached-cache :
      (m : Manager) (name : String) (r : HealthResult)
      → cached m name ≡ some r
      → lookup name m.cache ≡ some r
  unfolding cached
  cached-cache m name r e = by_caching m.config.enable_caching e
    where
      by_caching :
          (b : Bool)
          → (if b then lookup name m.cache else none) ≡ some r
          → lookup name m.cache ≡ some r
      by_caching true h = h
      by_caching false h = cc

  abbrev IsSoundCache : List (String × HealthChecker) → ℕ → List (String × HealthResult) → Type 0
  IsSoundCache checkers w cache =
      (name : String) (r : HealthResult) → lookup name cache ≡ some r → IsGenuine checkers w name r

  cache-later :
      (checkers : List (String × HealthChecker)) (w w' : ℕ) (cache : List (String × HealthResult))
      → w ≤ w'
      → IsSoundCache checkers w cache
      → IsSoundCache checkers w' cache
  cache-later checkers w w' cache h s name r e = IsGenuine-later checkers w w' name r h (s name r e)

  store-IsSoundCache :
      (checkers : List (String × HealthChecker)) (m : Manager) (w : ℕ) (name : String)
      (r : HealthResult)
      → IsSoundCache checkers w m.cache
      → IsGenuine checkers w name r
      → IsSoundCache checkers w (store m name r).cache
  store-IsSoundCache checkers m w name r s genuine other r' e =
      elim (store-cache m name other r r' e) [
        | inl (same, eq) ↦
            subst (λ n. IsGenuine checkers w n r') same
              (subst (λ x. IsGenuine checkers w name x) eq genuine)
        | inr old ↦ s other r' old
      ]

  step-IsSound :
      (checkers : List (String × HealthChecker)) (m m' : Manager) (w w' : ℕ) (t t' : Thread)
      → m.checkers ≡ checkers
      → IsSoundCache checkers w m.cache
      → IsSoundThread checkers w t
      → Step clock m w t m' w' t'
      → (w ≤ w')
        × (m'.checkers ≡ checkers)
        × IsSoundCache checkers w' m'.cache
        × IsSoundThread checkers w' t'
  step-IsSound checkers m m' w w' t t' same cache sound (hit name r e fresh) =
      let genuine = cache name r (cached-cache m name r e) in
      let later : w ≤ w + 1 = omega arith in
      (
        later,
        same,
        cache-later checkers w (w + 1) m.cache later cache,
        inl (IsGenuine-later checkers w (w + 1) name r later genuine),
      )
  step-IsSound checkers m m' w w' t t' same cache sound (stale name r e fresh) =
      (omega arith, same, cache-later checkers w (w + 1) m.cache (omega arith) cache, tt)
  step-IsSound checkers m m' w w' t t' same cache sound (miss name e) =
      (omega arith, same, cache, tt)
  step-IsSound checkers m m' w w' t t' same cache sound (unknown name e) = (
    omega arith,
    same,
    cache-later checkers w (w + 1) m.cache (omega arith) cache,
    inr (ap (lookup name) (sym same) ∙ e, (w, refl)),
  )
  step-IsSound checkers m m' w w' t t' same cache sound (run name c e) = (
    omega arith,
    same,
    cache-later checkers w (w + 1) m.cache (omega arith) cache,
    ap (lookup name) (sym same) ∙ e,
  )
  step-IsSound checkers m m' w w' t t' same cache sound (finish name c asked start late ran) = (
    omega arith,
    same,
    cache-later checkers w (w + 2) m.cache (omega arith) cache,
    (c, asked, start, w, sound, refl, late, ran, omega arith),
  )
  step-IsSound checkers m m' w w' t t' same cache sound (write name r) = (
    omega arith,
    store-checkers m name r ∙ same,
    store-IsSoundCache checkers m w name r cache sound,
    inl sound,
  )

  module _ (P : Thread → Type 0) where
    All-at : (before after : List Thread) (t : Thread) → All P (before ++ t ∷ after) → P t
    All-at [] after t (h, hs) = h
    All-at (b ∷ before) after t (h, hs) = All-at before after t hs

    All-replace :
        (before after : List Thread) (t t' : Thread)
        → P t'
        → All P (before ++ t ∷ after)
        → All P (before ++ t' ∷ after)
    All-replace [] after t t' h' (h, hs) = (h', hs)
    All-replace (b ∷ before) after t t' h' (h, hs) = (h, All-replace before after t t' h' hs)

  -- However calls of `performCheck` interleave, every result in the cache and every one that a call gives
  -- comes from the checker that is registered under that very name, asked after the call that made it
  -- had begun, with the readings of that call as its times, all before now; and only where no checker
  -- is registered it is the answer that says so.
  pub Reaches-IsSound :
      (checkers : List (String × HealthChecker)) (s s' : System)
      → IsSound checkers s
      → Reaches clock s s'
      → IsSound checkers s'
  Reaches-IsSound checkers s s' h begun = h
  Reaches-IsSound checkers s s' h (ticked m w threads r) =
      let so_far = Reaches-IsSound checkers s _ h r in
      record {
        same = so_far.same;
        cache = cache-later checkers w (w + 1) m.cache (omega arith) so_far.cache;
        threads = threads-later checkers w (w + 1) threads (omega arith) so_far.threads;
      }
  Reaches-IsSound checkers s s' h (stepped m m' w w' before after t t' r step) =
      let so_far = Reaches-IsSound checkers s _ h r in
      let (later, same, cache, sound) =
        step-IsSound checkers m m' w w' t t' so_far.same so_far.cache
          (All-at (IsSoundThread checkers w) before after t so_far.threads) step in
      record {
        same = same;
        cache = cache;
        threads =
            All-replace (IsSoundThread checkers w') before after t t' sound
              (threads-later checkers w w' (before ++ t ∷ after) later so_far.threads);
      }
