-- ===== src/Migrator/Kept.antt =====
-- A load of migrator/migrator.go leaves the options of the runner alone.
use api_toolkit.Prelude.{
  ◌≡◌, refl, Bool, true, false, List, [], ◌∷◌, Option, none, some, if◌then◌else◌, Text,
}
use api_toolkit.Migrator.{Migration, Runner, DirEntry, Error, Root, aggregate}
use api_toolkit.Migrator.Loading.{load_migrations, load_from, load_files, finish, collect, roots_of}

module _ (sum256 : Text → Text) (dir_fs : Text → Root) (embedded : List Root) where
  opts-finish :
      (r : Runner) (c : Option Error × List Migration) → (finish sum256 r c).1.opts ≡ r.opts
  unfolding finish
  opts-finish r (none, ms) = refl
  opts-finish r (some e, ms) = refl

  opts-load_from : (r : Runner) (roots : List Root) → (load_from sum256 r roots).1.opts ≡ r.opts
  unfolding load_from load_files
  opts-load_from r [] = refl
  opts-load_from r (root ∷ roots) = by_files (aggregate (root ∷ roots))
    where
      by_files : (files : Option (List DirEntry)) → (load_files sum256 r files).1.opts ≡ r.opts
      by_files none = refl
      by_files (some files) = opts-finish r (collect sum256 files [] r.migrations)

  pub opts-load_migrations :
      (r : Runner) → (load_migrations sum256 dir_fs embedded r).1.opts ≡ r.opts
  unfolding load_migrations
  opts-load_migrations r = by_loaded r.loaded
    where
      by_loaded :
          (b : Bool)
          → (if b
              then (none, r)
              else load_from sum256 r (roots_of sum256 dir_fs embedded r.opts)).1.opts
            ≡ r.opts
      by_loaded true = refl
      by_loaded false = opts-load_from r (roots_of sum256 dir_fs embedded r.opts)
