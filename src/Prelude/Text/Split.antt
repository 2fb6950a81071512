-- ===== src/Prelude/Text/Split.antt =====
-- Taking text apart: `split(c)` for one character, and `startsWith`.
use Prim.Native.Nat.{ℕ}
use mathlib.Core.Path.{◌≡◌}
use mathlib.Core.Bool.{Bool, true, false, ◌&&◌, not}
use mathlib.Core.List.{List, [], ◌∷◌, ◌++◌}
use native.Mathlib.Omega.{arith}
use showup.Prelude.Tests.{◌==◌, if◌then◌else◌}
use showup.Prelude.Lists.{all}
use showup.Prelude.Text.Equal.{text_eq}

-- `c` in front of the first part.
abbrev onto_first : ℕ → List (List ℕ) → List (List ℕ)
onto_first c [] = (c ∷ []) ∷ []
onto_first c (part ∷ parts) = (c ∷ part) ∷ parts

-- `s.split(c)`.
unfoldable pub split_on : ℕ → List ℕ → List (List ℕ)
split_on c [] = [] ∷ []
split_on c (d ∷ s) = if d == c then [] ∷ split_on c s else onto_first d (split_on c s)

-- `s.startsWith(prefix)`.
unfoldable pub starts_with : List ℕ → List ℕ → Bool
starts_with s [] = true
starts_with [] (c ∷ p) = false
starts_with (d ∷ s) (c ∷ p) = d == c && starts_with s p

-- `s` has no `c`.
abbrev pub lacks : ℕ → List ℕ → Bool
lacks c s = all (λ d. not (d == c)) s

-- Two texts that end at the first `c`, each in front of a rest: one starts the other exactly when they
-- are the same.
pub starts_with-delimited :
    (c : ℕ) (a b t : List ℕ)
    → lacks c a ≡ true
    → lacks c b ≡ true
    → starts_with (b ++ c ∷ t) (a ++ c ∷ []) ≡ text_eq a b
unfolding starts_with text_eq
starts_with-delimited c [] [] t h k = ground arith
starts_with-delimited c [] (y ∷ b) t h k = ground arith
starts_with-delimited c (x ∷ a) [] t h k = ground arith
starts_with-delimited c (x ∷ a) (y ∷ b) t h k = ground (arith, starts_with-delimited c a b t)

-- They are the same text exactly when both parts are.
pub text_eq-delimited :
    (c : ℕ) (a b s t : List ℕ)
    → lacks c a ≡ true
    → lacks c b ≡ true
    → text_eq (a ++ c ∷ s) (b ++ c ∷ t) ≡ (text_eq a b && text_eq s t)
unfolding text_eq
text_eq-delimited c [] [] s t h k = ground arith
text_eq-delimited c [] (y ∷ b) s t h k = ground arith
text_eq-delimited c (x ∷ a) [] s t h k = ground arith
text_eq-delimited c (x ∷ a) (y ∷ b) s t h k = ground (arith, text_eq-delimited c a b s t)
