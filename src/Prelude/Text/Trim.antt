-- ===== src/Prelude/Text/Trim.antt =====
-- Cutting and padding text: `trim`, `replace(/c+$/, "")`, `padStart`, `padEnd`, `indexOf`.
use Prim.Native.Nat.{ℕ, suc, ◌-◌, ◌≤◌}
use mathlib.Core.Path.{◌≡◌, refl}
use mathlib.Core.Bool.{Bool, true, false, not, ◌&&◌, ◌||◌}
use mathlib.Core.Option.{Option, none, some}
use mathlib.Core.List.{List, [], ◌∷◌, ◌++◌}
use native.Mathlib.Omega.{arith}
use showup.Prelude.Tests.{leb, ◌==◌, if◌then◌else◌}
use showup.Prelude.Lists.{length, all, replicate, length-append, length-replicate}

-- The white space and line terminators that `trim` removes.
unfoldable pub is_space : ℕ → Bool
is_space c =
    leb 9 c && leb c 13
    || c == 32
    || c == 160
    || c == 0x1680
    || leb 0x2000 c && leb c 0x200a
    || c == 0x2028
    || c == 0x2029
    || c == 0x202f
    || c == 0x205f
    || c == 0x3000
    || c == 0xfeff

abbrev pub is_empty : List ℕ → Bool
is_empty [] = true
is_empty (_ ∷ _) = false

-- Drop the characters that satisfy `p` from the front, or from the end.
unfoldable pub strip_start : (ℕ → Bool) → List ℕ → List ℕ
strip_start p [] = []
strip_start p (c ∷ s) = if p c then strip_start p s else c ∷ s

unfoldable pub strip_end : (ℕ → Bool) → List ℕ → List ℕ
strip_end p [] = []
strip_end p (c ∷ s) = let r = strip_end p s in if p c && is_empty r then [] else c ∷ r

-- `s.trim()`.
unfoldable pub trim : List ℕ → List ℕ
unfolding strip_start strip_end is_space
trim s = strip_end is_space (strip_start is_space s)

-- `s.padStart(k, c)` and `s.padEnd(k, c)` for a one-character pad.
unfoldable pub pad_start : ℕ → ℕ → List ℕ → List ℕ
pad_start k c s = replicate (k - length s) c ++ s

unfoldable pub pad_end : ℕ → ℕ → List ℕ → List ℕ
pad_end k c s = s ++ replicate (k - length s) c

-- `s.indexOf(c)`; `none` is -1.
unfoldable pub index_of : ℕ → List ℕ → Option ℕ
index_of c [] = none
index_of c (d ∷ s) =
    if d == c then some 0 else elim (index_of c s) [ none ↦ none | some i ↦ some (suc i) ]

module _ (p : ℕ → Bool) where
  pub strip_end-of_none : (s : List ℕ) → all (λ c. not (p c)) s ≡ true → strip_end p s ≡ s
  unfolding strip_end
  strip_end-of_none [] h = refl
  strip_end-of_none (c ∷ s) h = ground (arith, strip_end-of_none s)

  pub strip_start-of_none : (s : List ℕ) → all (λ c. not (p c)) s ≡ true → strip_start p s ≡ s
  unfolding strip_start
  strip_start-of_none [] h = refl
  strip_start-of_none (c ∷ s) h = ground arith

  pub all-strip_end : (q : ℕ → Bool) (s : List ℕ) → all q s ≡ true → all q (strip_end p s) ≡ true
  unfolding strip_end
  all-strip_end q [] h = refl
  all-strip_end q (c ∷ s) h = ground (arith, all-strip_end q s)

  pub length-strip_end : (s : List ℕ) → length (strip_end p s) ≤ length s
  unfolding strip_end
  length-strip_end [] = omega arith
  length-strip_end (c ∷ s) = ground (arith, length-strip_end s)

pub trim-of_none : (s : List ℕ) → all (λ c. not (is_space c)) s ≡ true → trim s ≡ s
unfolding trim
trim-of_none s h = rw (strip_start-of_none is_space s h) (strip_end-of_none is_space s h)

sub_zero : (n : ℕ) → n - 0 ≡ n
sub_zero n = omega arith

sub-suc : (m n : ℕ) → suc m - suc n ≡ m - n
sub-suc m n = omega arith

pad_end-nil : (k c : ℕ) → pad_end (suc k) c [] ≡ c ∷ pad_end k c []
unfolding pad_end
pad_end-nil k c = rw (sub_zero (suc k), sub_zero k)

pad_end-cons : (k c d : ℕ) (s : List ℕ) → pad_end (suc k) c (d ∷ s) ≡ d ∷ pad_end k c s
unfolding pad_end
pad_end-cons k c d s = rw (sub-suc k (length s))

pad_end-step :
    (c d : ℕ) (s r : List ℕ)
    → pad_end (length s) c r ≡ s
    → pad_end (suc (length s)) c (if d == c && is_empty r then [] else d ∷ r) ≡ d ∷ s
pad_end-step c d s [] h = ground (arith, pad_end-nil (length s) c, pad_end-cons (length s) c d [])
pad_end-step c d s (e ∷ r) h = ground (arith, pad_end-cons (length s) c d (e ∷ r))

-- Padding puts back the copies of `c` that were cut from the end.
pub pad_end-strip_end : (c : ℕ) (s : List ℕ) → pad_end (length s) c (strip_end (λ d. d == c) s) ≡ s
unfolding strip_end
pad_end-strip_end c [] = unfold pad_end in refl
pad_end-strip_end c (d ∷ s) = pad_end-step c d s (strip_end (λ e. e == c) s) (pad_end-strip_end c s)

pub length-pad_start : (k c : ℕ) (s : List ℕ) → length s ≤ k → length (pad_start k c s) ≡ k
unfolding pad_start
length-pad_start k c s h =
    omega (arith, length-append (replicate (k - length s) c) s, length-replicate (k - length s) c)
