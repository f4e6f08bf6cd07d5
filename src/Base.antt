-- ===== src/Base.antt =====
-- Names and lemmas that the components share: the libraries' names passed on, Boolean tests and
-- lists over the native numbers, integers, byte buffers, C strings and machine words.
mod Tests
mod Int
mod Lists
mod Buffers
mod Strings
mod Words
mod Segments
mod Cuts
mod Blocks
mod BlockCuts
mod Related
pub use Tests.*
pub use Int.*
pub use Lists.*
unfoldable pub use Buffers.*
unfoldable pub use Strings.*
unfoldable pub use Words.*
pub use Segments.*
pub use Cuts.*
pub use Blocks.*
pub use BlockCuts.*
pub use Related.*
pub use Prim.Native.Nat.{ℕ, zero, suc, ◌+◌, ◌-◌, ◌*◌, ◌/◌, ◌%◌, ◌^◌, ◌≤◌, ◌<◌, min, bit_xor}
pub use Prim.Native.String.{String}
pub use mathlib.Core.Path.{◌≡◌, refl, sym, ap, ap₂, ◌∙◌, subst, subst₂}
pub use mathlib.Core.Logic.{◌≢◌, ◌↔◌, ◌⊎◌, inl, inr}
pub use mathlib.Core.Bool.{Bool, true, false, not, ◌&&◌, ◌||◌}
pub use mathlib.Core.Option.{Option, none, some}
pub use mathlib.Core.List.{List, [], ◌∷◌, ◌++◌, map, append-nil, append_assoc}
pub use native.Mathlib.Omega.{arith}
