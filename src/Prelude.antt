-- ===== src/Prelude.antt =====
-- Names that every module shares: the library's, passed on, and those of the children.
pub mod Tests
pub mod Lists
pub mod Slices
pub mod Words
pub mod Outcome
pub mod Text
pub mod Digits
pub use Tests.*
pub use Lists.*
pub use Slices.*
pub use Words.*
pub use Outcome.*
unfoldable pub use Text.*
pub use Prim.Native.Nat.{ℕ, zero, suc, ◌+◌, ◌-◌, ◌*◌, ◌/◌, ◌%◌, ◌^◌, ◌≤◌, ◌<◌, min}
pub use mathlib.Core.Path.{◌≡◌, refl, sym, ap, ap₂, ◌∙◌, subst, fun_ext}
pub use mathlib.Core.Logic.{◌≢◌, ◌↔◌, ◌⊎◌, inl, inr}
pub use mathlib.Core.Bool.{Bool, true, false, not, ◌&&◌, ◌||◌}
pub use mathlib.Core.Option.{Option, none, some}
pub use mathlib.Core.List.{List, [], ◌∷◌, ◌++◌, map, append-nil, append_assoc, foldl}
pub use native.Mathlib.Omega.{arith}
