-- ===== src/Base.antt =====
-- The names that every other module shares: the libraries', passed on, and those of its children.
mod Tests
mod Lists
mod Eqs
mod Assoc
mod Values
mod Indexing
mod Do
mod Every
mod Text
pub use Tests.*
pub use Lists.*
pub use Eqs.*
pub use Assoc.*
pub use Values.*
pub use Indexing.*
pub use Do.*
pub use Every.*
pub use Text.*
pub use Prim.Native.Nat.{ℕ, zero, suc, ◌+◌, ◌-◌, ◌*◌, ◌/◌, ◌%◌, ◌^◌, ◌≤◌, ◌<◌, min, max}
pub use mathlib.Core.Path.{◌≡◌, refl, sym, ap, ◌∙◌, subst, fun_ext}
pub use mathlib.Core.Logic.{◌≢◌, ◌↔◌, ◌⊎◌, inl, inr}
pub use mathlib.Core.Bool.{Bool, true, false, not, ◌&&◌, ◌||◌}
pub use mathlib.Core.Option.{Option, none, some}
pub use mathlib.Core.List.{List, [], ◌∷◌, ◌++◌, map}
pub use native.Mathlib.Omega.{arith}
