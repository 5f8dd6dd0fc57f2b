-- ===== src/Prelude.antt =====
-- The names that the other modules share: the libraries', passed on, and those of the children.
mod Tests
mod Lists
mod Text
mod Utf8
mod Hex
pub use Tests.*
pub use Lists.*
unfoldable pub use Utf8.{runes, rune_count}
pub use Utf8.{rune_count-le-length, runes_ascii}
unfoldable pub use Hex.{table_holds, hex_digit, hex_encode}
pub use Hex.{table_holds_entry, length-hex_encode}
unfoldable pub use Text.{str_eq, has_prefix, behind, trim_prefix}
pub use Text.{
  Str, lit, in_range, str_eq→eq, str_eq_refl, str_eq_iff, has_prefix-append, behind-append,
  trim_prefix-append, append-behind, append-trim_prefix, split_apart,
}
pub use Prim.Native.Nat.{ℕ, zero, suc, ◌+◌, ◌-◌, ◌*◌, ◌/◌, ◌%◌, ◌^◌, ◌≤◌, ◌<◌}
pub use mathlib.Core.Path.{◌≡◌, refl, sym, ap, ◌∙◌}
pub use mathlib.Core.Logic.{◌≢◌, ◌↔◌, ◌⊎◌, inl, inr}
pub use mathlib.Core.Bool.{Bool, true, false, not, ◌&&◌, ◌||◌}
pub use mathlib.Core.Option.{Option, none, some}
pub use mathlib.Core.List.{List, [], ◌∷◌, ◌++◌, map, reverse}
pub use native.Mathlib.Omega.{arith}
