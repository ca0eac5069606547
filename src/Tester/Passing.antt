-- ===== src/Tester/Passing.antt =====
-- The exit code of the loop over packages of cmd/tester/main.go.
use api_toolkit.Prelude.{
  ℕ, suc, ◌≡◌, ◌⊎◌, Bool, true, false, List, [], ◌∷◌, some, Text, lookup, list_eq,
}
use api_toolkit.Prelude.Int.{pos, ◌-ℤ◌, ◌≤ℤ◌}
use api_toolkit.Tester.Running.{
  Config, File, World, Machine, compute_cache_key, ttl_duration, test_args, run_tests_with_cache,
}
use api_toolkit.Tester.Caching.{Vouched}

module _ (m : Machine) (cfg : Config) where
  -- The tests of a package passed in a world: the command `go test` did, after the commands so far, or
  -- there is a file of the cache that is, by the clock of that moment, at most as old as
  -- the configured duration.
  abbrev pub Verified : (start w : World) → Text → Type 0
  Verified start w p =
      ((out : Text) × (m.go w.commands (test_args p cfg.test_pattern cfg.flags) ≡ (0, out)))
      ⊎ ((f : File) × (cfg.cache_enabled ≡ true)
          × (lookup (compute_cache_key m p cfg.test_pattern cfg.flags) w.cache ≡ some f)
          × ((pos (m.clock w.reads) -ℤ pos f.modified) ≤ℤ ttl_duration cfg.cache_ttl)
          × Vouched m cfg start (compute_cache_key m p cfg.test_pattern cfg.flags) f)

  -- The last command was the tests of the package, and gave an error.
  abbrev pub Failed : Text → World → Type 0
  Failed p w =
      (before : List (List Text)) × (code : ℕ) × (out : Text) × (w.commands
        ≡ test_args p cfg.test_pattern cfg.flags ∷ before)
      × (m.go before (test_args p cfg.test_pattern cfg.flags) ≡ (suc code, out))

  abbrev Tested : (start w : World) → Text → Bool × World → Type 0
  Tested start w p (passed, w') =
      ((passed ≡ true) × Verified start w p) ⊎ ((passed ≡ false) × Failed p w')

  -- Every package passed in the world that the tests of the packages before it leave.
  abbrev pub AllVerified : (start w : World) → List Text → Type 0
  AllVerified start w [] = Unit
  AllVerified start w (p ∷ ps) =
      Verified start w p
      × AllVerified start (run_tests_with_cache m cfg p cfg.test_pattern cfg.flags w).1 ps

  abbrev pub SomeFailed : List Text → World → Type 0
  SomeFailed [] w = ⊥
  SomeFailed (p ∷ ps) w = Failed p w ⊎ SomeFailed ps w

  abbrev pub Verdict : (start w : World) → List Text → ℕ × World → Type 0
  Verdict start w ps (code, w') =
      ((code ≡ 0) × AllVerified start w ps) ⊎ ((code ≡ 1) × SomeFailed ps w')
