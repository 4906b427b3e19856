-- ===== src/Prelude.antt =====
-- The names that the other modules share: the libraries', passed on, and those of the children.
mod Tests
mod Lists
mod Texts
mod Existence
mod Parts
pub use Tests.*
pub use Lists.*
pub use Texts.{
  Text, starts_word, codes, text_eq, has_prefix, has_part, has_suffix, is_digit, is_word, is_space,
}
pub use Parts.{prefix_rest, Contains, has_part-Contains, All-select, any-select-and}
pub use Existence.{Exists, any-Exists, Exists-witness, Exists-map, Exists-All}
pub use Texts.{fold_case, join, after_prefix, text_eq_iff, has_prefix-append}
unfoldable pub use Texts.{has_word, word_from, word_here, show, trim, trim_text}
pub use Prim.Native.String.{◌++◌ as ◌<>◌}
pub use Prim.Native.Nat.{ℕ, zero, suc, ◌+◌, ◌-◌, ◌*◌, ◌≤◌, ◌<◌, min}
pub use Prim.Native.String.{String}
pub use mathlib.Core.Path.{◌≡◌, refl, sym, ap, subst, ◌∙◌}
pub use mathlib.Core.Logic.{◌≢◌, ◌↔◌, ◌⊎◌, inl, inr}
pub use mathlib.Core.Bool.{Bool, true, false, not, ◌&&◌, ◌||◌}
pub use mathlib.Core.Option.{Option, none, some}
pub use mathlib.Core.List.{List, [], ◌∷◌, ◌++◌, map, append-nil, append_assoc}
pub use native.Mathlib.Omega.{arith}
pub use text.Mathlib.Text.{◌==◌ as str_eq}
pub use text.Mathlib.TextEquality.{eq_iff}
