-- ===== src/Prelude/Text/Digits.antt =====
-- Decimal digits: `/\d/`, the number that digits spell (`BigInt`), the digits of a number
-- (`toString`), and how the two fit together.
use Prim.Native.Nat.{ℕ, zero, suc, ◌+◌, ◌-◌, ◌*◌, ◌/◌, ◌%◌, ◌^◌, ◌≤◌, ◌<◌}
use mathlib.Core.Path.{◌≡◌, refl, ap}
use mathlib.Core.Bool.{Bool, true, ◌&&◌}
use mathlib.Core.List.{List, [], ◌∷◌, ◌++◌}
use native.Mathlib.Nat.{pow-suc}
use native.Mathlib.Omega.{arith}
use showup.Prelude.Tests.{leb, ◌==◌, if◌then◌else◌}
use showup.Prelude.Lists.{length, all, replicate}

-- `/\d/` on one character.
abbrev pub is_digit : ℕ → Bool
is_digit c = leb b'0' c && leb c b'9'

-- The number that the digits `s` spell behind the number `n`.
unfoldable pub number_from : ℕ → List ℕ → ℕ
number_from n [] = n
number_from n (c ∷ s) = number_from (n * 10 + (c - b'0')) s

-- `BigInt(s)` for a text of digits; `BigInt("")` is 0.
unfoldable pub number : List ℕ → ℕ
unfolding number_from
number s = number_from 0 s

-- The digits of `n` in front of `out`; the fuel `f` exceeds the number of digits.
unfoldable pub emit : ℕ → ℕ → List ℕ → List ℕ
emit zero n out = out
emit (suc f) n out =
    let rest = emit f (n / 10) ((b'0' + n % 10) ∷ out) in if n == 0 then out else rest

-- `n.toString()`; `n` rounds are enough, since each divides by ten.
unfoldable pub to_decimal : ℕ → List ℕ
unfolding emit
to_decimal n = if n == 0 then b'0' ∷ [] else emit (suc n) n []

pub number_from-append :
    (n : ℕ) (s t : List ℕ) → number_from n (s ++ t) ≡ number_from (number_from n s) t
unfolding number_from
number_from-append n [] t = refl
number_from-append n (c ∷ s) t = number_from-append (n * 10 + (c - b'0')) s t

pub number_from-zeros : (n k : ℕ) → number_from n (replicate k b'0') ≡ n * 10 ^ k
unfolding number_from
number_from-zeros n zero = omega arith
number_from-zeros n (suc k) =
    omega (arith, number_from-zeros (n * 10 + 0) k, ap (λ (t : ℕ). n * t) (pow-suc 10 k))

-- Digits behind `n` shift `n` by their count.
pub number_from-shift : (n : ℕ) (s : List ℕ) → number_from n s ≡ n * 10 ^ length s + number_from 0 s
unfolding number_from
number_from-shift n [] = omega arith
number_from-shift n (c ∷ s) = omega (
  arith,
  number_from-shift (n * 10 + (c - b'0')) s,
  number_from-shift (0 * 10 + (c - b'0')) s,
  ap (λ (t : ℕ). n * t) (pow-suc 10 (length s)),
)

pub number_from-leading_zeros :
    (k : ℕ) (s : List ℕ) → number_from 0 (replicate k b'0' ++ s) ≡ number_from 0 s
unfolding number_from
number_from-leading_zeros zero s = refl
number_from-leading_zeros (suc k) s = number_from-leading_zeros k s

pub number_from-emit :
    (f n : ℕ) (out : List ℕ) → n < f → number_from 0 (emit f n out) ≡ number_from n out
unfolding number_from emit
number_from-emit zero n out h = absurd (omega arith)
number_from-emit (suc f) n out h =
    ground (arith, number_from-emit f (n / 10) ((b'0' + n % 10) ∷ out))

pub number-to_decimal : (n : ℕ) → number (to_decimal n) ≡ n
unfolding number to_decimal number_from
number-to_decimal n = ground (arith, number_from-emit (suc n) n [])

pub emit-digits :
    (f n : ℕ) (out : List ℕ) → all is_digit out ≡ true → all is_digit (emit f n out) ≡ true
unfolding emit
emit-digits zero n out h = h
emit-digits (suc f) n out h = ground (arith, emit-digits f (n / 10) ((b'0' + n % 10) ∷ out))

pub to_decimal-digits : (n : ℕ) → all is_digit (to_decimal n) ≡ true
unfolding to_decimal
to_decimal-digits n = ground (arith, emit-digits (suc n) n [])

pub length-emit : (f n k : ℕ) (out : List ℕ) → n < 10 ^ k → length (emit f n out) ≤ k + length out
unfolding emit
length-emit zero n k out h = omega arith
length-emit (suc f) n zero out h = ground arith
length-emit (suc f) n (suc k) out h =
    ground (arith, pow-suc 10 k, length-emit f (n / 10) k ((b'0' + n % 10) ∷ out))

-- A number below 10 ^ k has at most k digits.
pub length-to_decimal : (n k : ℕ) → n < 10 ^ k → 0 < k → length (to_decimal n) ≤ k
unfolding to_decimal
length-to_decimal n k h p = ground (arith, length-emit (suc n) n k [])

pub length-emit_le : (f n : ℕ) (out : List ℕ) → length out ≤ length (emit f n out)
unfolding emit
length-emit_le zero n out = omega arith
length-emit_le (suc f) n out = ground (arith, length-emit_le f (n / 10) ((b'0' + n % 10) ∷ out))

pub to_decimal_pos : (n : ℕ) → 0 < length (to_decimal n)
unfolding to_decimal emit
to_decimal_pos n = ground (arith, length-emit_le n (n / 10) ((b'0' + n % 10) ∷ []))
