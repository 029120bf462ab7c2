-- ===== src/Prelude.antt =====
-- The names that the other modules share: the libraries' names, passed on, and those of the
-- children: Boolean tests, lists, texts as byte lists, C integers and error results.
mod Tests
mod Lists
mod Text
mod Int
mod Results
pub mod Libc
pub mod Decimal
pub use Tests.*
pub use Lists.*
pub use Text.*
pub use Int.*
pub use Results.*
unfoldable pub use Lists.{any_of, find_first}
unfoldable pub use Text.{is_blank, codes, text, split_first, streq, decimal, digits_onto}
pub use Prim.Native.Nat.{ℕ, zero, suc, ◌+◌, ◌-◌, ◌*◌, ◌/◌, ◌%◌, ◌^◌, ◌≤◌, ◌<◌}
pub use mathlib.Core.Path.{◌≡◌, refl, sym, ap, subst, ◌∙◌}
pub use mathlib.Core.Logic.{◌≢◌, ◌↔◌, ◌⊎◌, inl, inr}
pub use mathlib.Core.Bool.{Bool, true, false, false≢true, not, ◌&&◌, ◌||◌}
pub use mathlib.Core.Option.{Option, none, some}
pub use mathlib.Core.List.{Memᴰ, List, [], ◌∷◌, ◌++◌, append_assoc, append-nil}
pub use native.Mathlib.Omega.{arith}
