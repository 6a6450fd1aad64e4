-- ===== src/Base.antt =====
-- The names that every module shares: the libraries', passed on, and those of the children.
mod Tests
mod Equality
mod Lists
pub mod Errors
mod Calls
mod Actions
mod Int
mod Words
mod Slices
mod Windows
pub mod Dict
unfoldable pub use Tests.*
unfoldable pub use Equality.*
unfoldable pub use Lists.*
unfoldable pub use Slices.*
pub use Windows.*
pub use Errors.{Error, Result, ok, err, guard, or_error, Result-cases, guard_ok, or_error_ok}
pub use Errors.{invalid_path, path_not_found, path_exists, not_empty, not_a_file, not_a_directory}
pub use Errors.{block_not_found, block_corrupted, conflict, access_denied, auth_error, internal}
unfoldable pub use Calls.*
unfoldable pub use Actions.*
unfoldable pub use Int.*
unfoldable pub use Words.*
pub use Prim.Native.Nat.{ℕ, zero, suc, ◌+◌, ◌-◌, ◌*◌, ◌/◌, ◌%◌, ◌^◌, ◌≤◌, ◌<◌, min, max}
pub use Prim.Native.Nat.{bit_and}
pub use Prim.Native.String.{String}
pub use mathlib.Core.Path.{◌≡◌, refl, sym, ap, ◌∙◌, subst}
pub use mathlib.Core.Logic.{◌≢◌, ◌↔◌, ◌⊎◌, inl, inr, ite, dite}
pub use mathlib.Core.Bool.{Bool, true, false, not, ◌&&◌, ◌||◌}
pub use mathlib.Core.Option.{Option, none, some}
pub use mathlib.Core.List.{List, [], ◌∷◌, ◌++◌, map}
pub use native.Mathlib.Omega.{arith}
unfoldable pub use native.Mathlib.Decide.{dec_lt}
pub use native.Mathlib.Nat.{le_trans, le_refl}
