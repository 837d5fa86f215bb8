-- ===== src/Base.antt =====
-- What the modules share: names of the libraries, passed on, Boolean tests, results, and laws of
-- lists and of sets held as lists.
mod Tests
mod Lists
mod Results
mod Sets
pub mod Exec
mod Locks
mod Texts
mod Decimals
mod Pieces
pub use Tests.*
pub use Lists.*
pub use Results.*
unfoldable pub use Sets.{contains, insert, remove}
pub use Sets.{
  contains-insert, contains-insert_self, contains-append, contains-concat, remove-cons_self,
  insert_of_absent, contains-remove, Subset, Subset-refl, Subset-trans, Subset-cons,
}
pub use Prim.Native.Nat.{ℕ, zero, suc, ◌+◌, ◌-◌, ◌*◌, ◌%◌, ◌^◌, ◌≤◌, ◌<◌, max}
pub use Prim.Native.String.{String}
pub use mathlib.Core.Path.{◌≡◌, refl, sym, ap, subst, ◌∙◌, fun_ext, ◌≡⟨◌⟩◌, ◌∎}
pub use mathlib.Core.Logic.{◌≢◌, ◌↔◌, ◌⊎◌, inl, inr}
pub use mathlib.Core.Bool.{Bool, true, false, not, ◌&&◌, ◌||◌}
pub use mathlib.Core.Option.{Option, none, some}
pub use mathlib.Core.List.{
  List, [], ◌∷◌, ◌++◌, map, reverse, append_assoc, append-nil, map-append, reverse-append,
}
pub use native.Mathlib.Omega.{arith}
pub use text.Mathlib.TextEquality.{eq_iff}
pub use text.Mathlib.TextPositions.{eq_refl}
pub use Locks.{RwLock, unpoisoned}
unfoldable pub use Texts.{
  text_eq, starts_with, strip_prefix, split, split_once, text_lines, trim_start_matches,
  trim_end_matches,
}
pub use Texts.{
  Text, codes, cons_head, drop_last_empty, strip_return, strip_returns, slash, is_slash,
  is_whitespace, trim_matches, trim, text_eq_iff, starts_with_iff, EndsOutside,
  trim_end_matches-EndsOutside, trim_end_matches_head,
}
unfoldable pub use Decimals.{decimal}
pub use Decimals.{IsDigit, decimal-All, decimal_injective}
pub use Pieces.*
