-- ===== src/Prelude/Text.antt =====
-- Text as the list of its character codes, where the program walks it, with the decimal digits.
mod Digits
mod Trim
mod Equal
mod Split
mod Strings
unfoldable pub use Digits.*
unfoldable pub use Trim.*
unfoldable pub use Equal.*
unfoldable pub use Split.*
unfoldable pub use Strings.*
use Prim.Native.Char.{code}
use Prim.Native.String.{String}
use Prim.Native.Nat.{ℕ}
use mathlib.Core.Bool.{Bool, ◌&&◌, ◌||◌}
use mathlib.Core.List.{List, [], ◌∷◌}
use showup.Prelude.Tests.{leb, ◌==◌}

abbrev pub codes : String → List ℕ
codes String.[] = []
codes (String.◌∷◌ c s) = code c ∷ codes s
