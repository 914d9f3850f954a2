-- ===== src/Base.antt =====
-- Names that every part shares: the libraries', passed on, and the helpers of the children.
mod Tests
mod Lists
mod Results
mod Bytes
mod Search
mod Membership
mod Update
pub use Tests.*
pub use Lists.*
pub use Results.*
pub use Search.*
pub use Membership.*
pub use Update.*
pub use Bytes.{codes, domain, bit, same_bytes, bytes_before, same_bytes_self, same_bytes_eq}
unfoldable pub use Bytes.{be_bytes}
pub use Prim.Native.Nat.{
  ℕ, zero, suc, ◌+◌, ◌-◌, ◌*◌, ◌/◌, ◌%◌, ◌^◌, ◌≤◌, ◌<◌, min, max, compare, Ordering,
}
pub use mathlib.Core.Path.{◌≡◌, refl, sym, ap, ◌∙◌, subst}
pub use mathlib.Core.Logic.{◌≢◌, ◌↔◌, ◌⊎◌, inl, inr}
pub use mathlib.Core.Bool.{Bool, true, false, not, ◌&&◌, ◌||◌}
pub use mathlib.Core.Option.{Option, none, some}
pub use mathlib.Core.List.{List, [], ◌∷◌, ◌++◌, map}
pub use native.Mathlib.Omega.{arith}
