-- ===== src/Prelude/Text/Strings.antt =====
-- `trim`, `slice(0, n)`, `indexOf` with `slice`, and cutting characters off the end, on strings.
use Prim.Native.Char.{code}
use Prim.Native.String.{String}
use Prim.Native.Nat.{ℕ, zero, suc}
use mathlib.Core.Bool.{Bool, true, false, ◌&&◌}
use showup.Prelude.Tests.{◌==◌, if◌then◌else◌}
use showup.Prelude.Text.Trim.{is_space}

abbrev pub is_blank_text : String → Bool
is_blank_text String.[] = true
is_blank_text (String.◌∷◌ c s) = false

unfoldable pub cut_start : (ℕ → Bool) → String → String
cut_start p String.[] = String.[]
cut_start p (String.◌∷◌ c s) = if p (code c) then cut_start p s else String.◌∷◌ c s

-- `s.replace(/c+$/, "")` for the characters that satisfy `p`.
unfoldable pub cut_end : (ℕ → Bool) → String → String
cut_end p String.[] = String.[]
cut_end p (String.◌∷◌ c s) =
    let r = cut_end p s in if p (code c) && is_blank_text r then String.[] else String.◌∷◌ c r

-- `s.trim()`.
unfoldable pub trim_string : String → String
unfolding cut_start cut_end is_space
trim_string s = cut_end is_space (cut_start is_space s)

-- `s.slice(0, n)`, on characters of one code unit.
unfoldable pub first_chars : ℕ → String → String
first_chars zero s = String.[]
first_chars (suc n) String.[] = String.[]
first_chars (suc n) (String.◌∷◌ c s) = String.◌∷◌ c (first_chars n s)

-- The text in front of the first `c`, or all of it.
unfoldable pub before : ℕ → String → String
before d String.[] = String.[]
before d (String.◌∷◌ c s) =
    let rest = before d s in if code c == d then String.[] else String.◌∷◌ c rest

-- `s.startsWith(c)` for one character.
abbrev pub begins_with : ℕ → String → Bool
begins_with d String.[] = false
begins_with d (String.◌∷◌ c s) = code c == d
