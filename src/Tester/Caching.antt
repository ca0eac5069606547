-- ===== src/Tester/Caching.antt =====
-- The cache of cmd/tester/main.go: what it holds, and what a run over packages makes of it.
use api_toolkit.Prelude.{
  ℕ, zero, suc, ◌+◌, ◌≡◌, refl, sym, ap, ◌∙◌, ◌⊎◌, inl, inr, Bool, true, false, ◌&&◌, List, [], ◌∷◌,
  Option, none, some, if◌then◌else◌, Text, lookup, is_some, insert, lookup-insert, ◌==◌, list_eq,
  text_eq_iff,
}
use api_toolkit.Envvar.{Package}
use api_toolkit.Tester.{
  Server, Wait, ready, timed_out, context_done, not_set, panicked, wait_for_api,
}
use api_toolkit.Tester.Running.{
  Config, File, World, Machine, compute_cache_key, is_cache_valid, test_args, store, after_run,
  called, run_tests_with_cache, run_packages, fast_args, run_cmd_streaming, run_all, any_help,
  after_wait, main, load_config, run_go_list,
}

abbrev content_of : Option File → Text
content_of none = []
content_of (some f) = f.content

module _ (m : Machine) (cfg : Config) where
  -- A file that stood in the cache at first, or the output of a run of `go test` without an error for
  -- a package whose key it stands under.
  abbrev pub Vouched : World → Text → File → Type 0
  Vouched start file f =
      (lookup file start.cache ≡ some f)
      ⊎ ((p : Text) × (before : List (List Text)) × (compute_cache_key m p cfg.test_pattern
              cfg.flags
            ≡ file)
          × (m.go before (test_args p cfg.test_pattern cfg.flags) ≡ (0, f.content)))

  abbrev pub IsSound : World → World → Type 0
  IsSound start w = (file : Text) (f : File) → lookup file w.cache ≡ some f → Vouched start file f

  store-IsSound :
      (start w : World) (p out : Text) (before : List (List Text))
      → m.go before (test_args p cfg.test_pattern cfg.flags) ≡ (0, out)
      → IsSound start w
      → IsSound start (store m cfg (compute_cache_key m p cfg.test_pattern cfg.flags) out w)
  store-IsSound start w p out before run sound = by_bool (cfg.cache_enabled && m.writable)
    where
      key : Text
      key = compute_cache_key m p cfg.test_pattern cfg.flags

      new : File
      new = record { modified = m.clock w.reads; content = out }

      at_key :
          (file : Text) (f : File) (b : Bool)
          → (key == file) ≡ b
          → (if b then some new else lookup file w.cache) ≡ some f
          → Vouched start file f
      at_key file f true e h =
          inr (p, before, (text_eq_iff key file).0 e, run ∙ ap (λ o. (0, content_of o)) h)
      at_key file f false e h = sound file f h

      by_bool :
          (b : Bool)
          → IsSound start
              (if b then record w { cache = insert key new w.cache; reads = w.reads + 1 } else w)
      by_bool false file f h = sound file f h
      by_bool true file f h =
          at_key file f (key == file) refl (sym (lookup-insert key file new w.cache) ∙ h)

  after_run-IsSound :
      (start w : World) (p : Text) (before : List (List Text)) (r : ℕ × Text)
      → m.go before (test_args p cfg.test_pattern cfg.flags) ≡ r
      → IsSound start w
      → IsSound start (after_run m cfg (compute_cache_key m p cfg.test_pattern cfg.flags) r w).1
  after_run-IsSound start w p before (zero, out) run sound =
      store-IsSound start w p out before run sound
  after_run-IsSound start w p before (suc code, out) run sound = sound

  pub run_tests_with_cache-IsSound :
      (start w : World) (p : Text)
      → IsSound start w
      → IsSound start (run_tests_with_cache m cfg p cfg.test_pattern cfg.flags w).1
  unfolding run_tests_with_cache
  run_tests_with_cache-IsSound start w p sound =
      by_bool (cfg.cache_enabled && is_cache_valid m w key cfg.cache_ttl)
        (record w {
          reads =
              if cfg.cache_enabled && is_some (lookup key w.cache) then w.reads + 1 else w.reads;
        })
        sound
    where
      key : Text
      key = compute_cache_key m p cfg.test_pattern cfg.flags

      args : List Text
      args = test_args p cfg.test_pattern cfg.flags

      by_bool :
          (b : Bool) (w' : World)
          → IsSound start w'
          → IsSound start
              (if b
                then (true, w')
                else after_run m cfg key (called m args w').0 (called m args w').1).1
      by_bool true w' k = k
      by_bool false w' k =
          after_run-IsSound start (called m args w').1 p w'.commands (called m args w').0 refl k

  run_packages-IsSound :
      (start : World) (ps : List Text) (w : World)
      → IsSound start w
      → IsSound start (run_packages m cfg ps w).1
  unfolding run_packages
  run_packages-IsSound start [] w sound = sound
  run_packages-IsSound start (p ∷ ps) w sound =
      let tested = run_tests_with_cache m cfg p cfg.test_pattern cfg.flags w in
      let kept = run_tests_with_cache-IsSound start w p sound in
      by_bool tested.0 (run_packages m cfg ps tested.1) tested.1
        (run_packages-IsSound start ps tested.1 kept) kept
    where
      by_bool :
          (b : Bool) (rest : ℕ × World) (w' : World)
          → IsSound start rest.1
          → IsSound start w'
          → IsSound start (if b then rest else (1, w')).1
      by_bool true rest w' k l = k
      by_bool false rest w' k l = l

run_all-IsSound :
    (m : Machine) (cfg : Config) (pkgs : Option (List Text)) (w : World)
    → IsSound m cfg w (run_all m cfg pkgs w).1
unfolding run_all
run_all-IsSound m cfg none w file f h = inl h
run_all-IsSound m cfg (some pkgs) w file f h = by_bool cfg.fast_mode file f h
  where
    by_bool :
        (b : Bool)
        → IsSound m cfg w
            (if b then run_cmd_streaming m (fast_args cfg pkgs) w else run_packages m cfg pkgs w).1
    by_bool true file f h = inl h
    by_bool false file f h = run_packages-IsSound m cfg w pkgs w (λ file f h. inl h) file f h

after_wait-IsSound :
    (m : Machine) (cfg : Config) (o : Option Wait) (w : World)
    → IsSound m cfg w (after_wait m cfg o w).1
unfolding after_wait
after_wait-IsSound m cfg (some ready) w file f h =
    run_all-IsSound m cfg (run_go_list m cfg.package_pattern) w file f h
after_wait-IsSound m cfg (some timed_out) w file f h = inl h
after_wait-IsSound m cfg (some context_done) w file f h = inl h
after_wait-IsSound m cfg (some not_set) w file f h = inl h
after_wait-IsSound m cfg (some panicked) w file f h = inl h
after_wait-IsSound m cfg none w file f h = inl h

-- However the program ends, a file of its cache stood there at first or is the output of a run of
-- `go test` that passed, for a package whose key names the file.
pub main-IsSound :
    (m : Machine) (server : Server) (lib : Package) (fuel : ℕ) (args : List Text) (w : World)
    → IsSound m (load_config lib) w (main m server lib fuel args w).1
unfolding main
main-IsSound m server lib fuel args w = by_bools (any_help args) (load_config lib).skip_api_wait
  where
    cfg : Config
    cfg = load_config lib

    by_bools :
        (a b : Bool)
        → IsSound m cfg w
            (if a
              then (0, w)
              else if b
              then run_all m cfg (run_go_list m cfg.package_pattern) w
              else after_wait m cfg (wait_for_api server fuel cfg.api_host) w).1
    by_bools true b file f h = inl h
    by_bools false true file f h =
        run_all-IsSound m cfg (run_go_list m cfg.package_pattern) w file f h
    by_bools false false file f h =
        after_wait-IsSound m cfg (wait_for_api server fuel cfg.api_host) w file f h
