-- ===== src/Prelude.antt =====
-- Shared names of the development: the libraries' names passed on, Boolean tests, lists, text,
-- integers and maps. No code of the repository is modelled here.
mod Tests
mod Lists
mod Equality
mod Strings
mod Maps
pub mod Int
pub mod Float
unfoldable pub use Tests.*
unfoldable pub use Lists.*
pub use Equality.*
unfoldable pub use Strings.*
unfoldable pub use Maps.*
pub use Prim.Native.Nat.{ℕ, zero, suc, ◌+◌, ◌-◌, ◌*◌, ◌/◌, ◌%◌, ◌^◌, ◌≤◌, ◌<◌}
pub use Prim.Native.String.{String}
pub use mathlib.Core.Path.{◌≡◌, refl, sym, ap, ◌∙◌}
pub use mathlib.Core.Logic.{◌≢◌, ◌↔◌, ◌⊎◌, inl, inr}
pub use mathlib.Core.Bool.{Bool, true, false, not, ◌&&◌, ◌||◌}
pub use mathlib.Core.Option.{Option, none, some}
pub use mathlib.Core.List.{List, [], ◌∷◌, ◌++◌, map, append-nil, append_assoc}
pub use native.Mathlib.Omega.{arith}
