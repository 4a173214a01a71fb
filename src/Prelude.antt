-- ===== src/Prelude.antt =====
-- The names that the other modules share.
mod Tests
mod Lists
mod Names
mod Dicts
mod Texts
mod Sorting
mod Decimals
pub use Tests.*
pub use Lists.*
pub use Names.*
pub use Sorting.*
pub use Decimals.{Chars, split_last, number-decimal, split_last-append}
unfoldable pub use Decimals.{decimal, number}
pub use Dicts.{Dict, lookup-insert, lookup-remove, dict_laws}
unfoldable pub use Dicts.{lookup, insert, remove}
pub use Texts.{round_to-le}
unfoldable pub use Texts.{concat, join, show, round_to, tenths, hundredths, thousandths}
pub use Prim.Native.Nat.{ℕ, zero, suc, ◌+◌, ◌-◌, ◌*◌, ◌/◌, ◌%◌, ◌^◌, ◌≤◌, ◌<◌}
pub use Prim.Native.String.{String}
pub use mathlib.Core.Path.{◌≡◌, refl, sym, ap, ◌∙◌, subst}
pub use mathlib.Core.Logic.{◌≢◌, ◌↔◌, ◌⊎◌, inl, inr}
pub use mathlib.Core.Bool.{Bool, true, false, not, ◌&&◌, ◌||◌}
pub use mathlib.Core.Option.{Option, none, some}
pub use mathlib.Core.List.{List, [], ◌∷◌, ◌++◌, map, Memᴰ}
pub use native.Mathlib.Omega.{arith}
pub use text.Mathlib.Text.{◌==◌}
pub use text.Mathlib.TextEquality.{eq_iff}
pub use text.Mathlib.TextPositions.{eq_refl}
