-- ===== src/Common.antt =====
-- The names that every module shares: the libraries' and those of the children.
mod Tests
mod Lists
mod Text
mod Search
pub mod Number
pub use Tests.*
pub use Lists.*
pub use Search.*
unfoldable pub use Text.{equal, starts_with, find}
unfoldable pub use Number.{to_string, digit_of, strtoul}
pub use Text.{codes, equal_iff, equal_self}
pub use Prim.Native.Nat.{ℕ, zero, suc, ◌+◌, ◌-◌, ◌*◌, ◌/◌, ◌%◌, ◌^◌, ◌≤◌, ◌<◌, min}
pub use mathlib.Core.Path.{◌≡◌, refl, sym, ap, ap₂, subst, ◌∙◌}
pub use mathlib.Core.Logic.{◌≢◌, ◌↔◌, ◌⊎◌, inl, inr}
pub use mathlib.Core.Bool.{Bool, true, false, not, ◌&&◌, ◌||◌}
pub use mathlib.Core.Option.{Option, none, some}
pub use mathlib.Core.List.{List, [], ◌∷◌, ◌++◌, append-nil, append_assoc}
unfoldable pub use mathlib.Core.List.{map}
pub use native.Mathlib.Omega.{arith}

-- A text is its bytes.
abbrev pub Bytes : Type 0
Bytes = List ℕ
