-- ===== src/Base.antt =====
-- The names that the other modules share: the libraries', passed on, and those of the children.
pub mod Tests
pub mod Lists
pub mod Erase
pub mod Words
pub mod Bits
pub mod Monad
pub use Tests.{ltb, leb, ◌==◌, if◌then◌else◌, Bool-cases, ==-refl, eq_of_==, ==-false, test_laws}
pub use Lists.{
  length, length-append, get_elem?, has, has-append, has-apart, Nodup, Nodup-parts, All, All-append,
  range,
}
pub use Prim.Native.Nat.{ℕ, zero, suc, ◌+◌, ◌-◌, ◌*◌, ◌/◌, ◌%◌, ◌^◌, ◌≤◌, ◌<◌}
pub use mathlib.Core.Path.{◌≡◌, refl, sym, ap, ◌∙◌}
pub use mathlib.Core.Logic.{◌≢◌, ◌↔◌, ◌⊎◌, inl, inr}
pub use mathlib.Core.Bool.{Bool, true, false, ◌&&◌, ◌||◌, not}
pub use mathlib.Core.Option.{Option, none, some}
pub use mathlib.Core.List.{List, [], ◌∷◌, ◌++◌, map}
pub use native.Mathlib.Omega.{arith}
pub use Monad.{
  Run, ok, stop, fault, out_of_fuel, Cmd, pure, and_then, ◌>>=◌, ◌>>◌, when, put_back, update,
  Returns, returns, Stops, stops,
}
pub use Erase.{
  erase, erase_absent, erase-split, erase-append, erase-append_right, All-erase, has-erase_self,
  has-erase_ne, has-erase_of, has_of-erase, Nodup-erase, Split, Split-at, Snoc, Snoc-view,
  length-le_of_Nodup,
}
