-- ===== src/Base.antt =====
-- The names that every module shares: the libraries', passed on, and those of the children: tests
-- on native numbers, lists measured by native numbers, integers, and machine words.
mod Tests
mod Lists
mod Slices
mod Int
mod Word
mod Faults
mod Numbers
pub use Tests.*
pub use Lists.*
unfoldable pub use Slices.{slice, write_at}
pub use Slices.*
pub use Int.*
pub use Word.*
pub use Faults.*
unfoldable pub use Numbers.{is_digit, is_space, skip_spaces, read_digits, read_sign, strtoul, stoll}
pub use Prim.Native.Nat.{ℕ, zero, suc, ◌+◌, ◌-◌, ◌*◌, ◌/◌, ◌%◌, ◌^◌, ◌≤◌, ◌<◌, min, bit_and}
pub use Prim.Native.String.{String}
pub use mathlib.Core.Path.{◌≡◌, refl, sym, ap, ◌∙◌, subst, ◌≡⟨◌⟩◌, ◌∎}
pub use mathlib.Core.Logic.{◌≢◌, ◌↔◌, ◌⊎◌, inl, inr}
pub use mathlib.Core.Bool.{Bool, true, false, not, ◌&&◌, ◌||◌}
pub use mathlib.Core.Option.{Option, none, some}
pub use mathlib.Core.List.{List, [], ◌∷◌, ◌++◌, map, append-nil, append_assoc}
pub use native.Mathlib.Omega.{arith}
