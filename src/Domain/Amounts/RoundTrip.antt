-- ===== src/Domain/Amounts/RoundTrip.antt =====
-- Every amount is read back from its printed form.
use showup.Prelude.{
  ℕ, zero, suc, ◌+◌, ◌*◌, ◌/◌, ◌%◌, ◌<◌, ◌≤◌, ◌≡◌, refl, true, false, not, List, [], ◌∷◌, ◌++◌,
  arith, length, all, ◌==◌, Bool-cases, inl, inr, ap, ◌∙◌, ◌⊎◌, ◌-◌, replicate, sym,
}
use mathlib.Core.List.{append-nil}
use showup.Prelude.Int.{ℤ, pos, negsuc}
use showup.Prelude.Outcome.{returned}
use showup.Prelude.Text.{
  is_digit, is_space, is_empty, number, to_decimal, to_decimal-digits, to_decimal_pos,
  number-to_decimal, number_from-leading_zeros, length-to_decimal, pad_start, pad_end,
  pad_end-strip_end, length-pad_start, all-strip_end, length-strip_end,
}
use showup.Domain.Amounts.Defs.{
  amount_decimals, one_unit_in_stroops, match_unsigned, magnitude_of, to_stroops, fraction_digits,
  body_of, from_stroops,
}
use showup.Domain.Amounts.Reading.{
  digits-not_space, all-append, match_unsigned-digits, magnitude_of-whole, magnitude_of-dot,
  match_unsigned-all_digits, head-digit, read_unsigned, read_negative, dot_digits,
}

-- The seven digits before trailing zeros are dropped.
abbrev seven_digits : ℕ → List ℕ
seven_digits m = pad_start amount_decimals b'0' (to_decimal (m % one_unit_in_stroops))

length-seven_digits : (m : ℕ) → length (seven_digits m) ≡ 7
length-seven_digits m =
    length-pad_start 7 b'0' _
      (length-to_decimal (m % one_unit_in_stroops) 7 (omega arith) (omega arith))

number-seven_digits : (m : ℕ) → number (seven_digits m) ≡ m % one_unit_in_stroops
unfolding pad_start number
number-seven_digits m =
    let tail : List ℕ = to_decimal (m % one_unit_in_stroops) in
    number_from-leading_zeros (amount_decimals - length tail) tail
    ∙ number-to_decimal (m % one_unit_in_stroops)

-- Padding the printed fraction gives its value back.
number-fraction_digits :
    (m : ℕ) → number (pad_end amount_decimals b'0' (fraction_digits m)) ≡ m % one_unit_in_stroops
unfolding fraction_digits
number-fraction_digits m =
    ap number (rw (length-seven_digits m) at (pad_end-strip_end b'0' (seven_digits m)))
    ∙ number-seven_digits m

length-fraction_digits : (m : ℕ) → length (fraction_digits m) ≤ amount_decimals
unfolding fraction_digits
length-fraction_digits m =
    omega (arith, length-strip_end (λ c. c == b'0') (seven_digits m), length-seven_digits m)

zeros-digits : (k : ℕ) → all is_digit (replicate k b'0') ≡ true
zeros-digits zero = refl
zeros-digits (suc k) = zeros-digits k

seven_digits-digits : (m : ℕ) → all is_digit (seven_digits m) ≡ true
unfolding pad_start
seven_digits-digits m =
    let tail : List ℕ = to_decimal (m % one_unit_in_stroops) in
    all-append is_digit (replicate (amount_decimals - length tail) b'0') tail
      (zeros-digits (amount_decimals - length tail)) (to_decimal-digits (m % one_unit_in_stroops))

fraction_digits-digits : (m : ℕ) → all is_digit (fraction_digits m) ≡ true
unfolding fraction_digits
fraction_digits-digits m =
    all-strip_end (λ c. c == b'0') is_digit (seven_digits m) (seven_digits-digits m)

length-eq-zero : (s : List ℕ) → (length s == 0) ≡ true → s ≡ []
length-eq-zero [] h = refl
length-eq-zero (c ∷ s) h = ground arith

pub not_empty : (s : List ℕ) → 0 < length s → is_empty s ≡ false
not_empty [] h = absurd (omega arith)
not_empty (c ∷ s) h = refl

module _ (m : ℕ) where
  abbrev whole : List ℕ
  whole = to_decimal (m / one_unit_in_stroops)

  -- The printed form is digits, or digits around a dot.
  body_cases :
      ((body_of m ≡ whole) × (fraction_digits m ≡ []))
      ⊎ ((body_of m ≡ whole ++ (b'.' ∷ fraction_digits m)) × (is_empty (fraction_digits m) ≡ false))
  unfolding body_of
  body_cases = elim (Bool-cases (length (fraction_digits m) == 0)) [
    | inl none_left ↦ inl (rw none_left, length-eq-zero _ none_left)
    | inr some_left ↦ inr (rw some_left, ground arith)
  ]

  value_back :
      number whole * one_unit_in_stroops + number (pad_end amount_decimals b'0' (fraction_digits m))
      ≡ m
  value_back = omega (arith, number-to_decimal (m / one_unit_in_stroops), number-fraction_digits m)

  magnitude_of-body : magnitude_of (body_of m) ≡ returned m
  magnitude_of-body = elim body_cases [
    | inl (form, blank) ↦ rw form (
        magnitude_of-whole whole (to_decimal-digits (m / one_unit_in_stroops))
        ∙ ap returned (rw blank at value_back))
    | inr (form, _) ↦ rw form (
        magnitude_of-dot whole (fraction_digits m) (to_decimal-digits (m / one_unit_in_stroops))
          (length-fraction_digits m)
        ∙ ap returned value_back)
  ]

  whole-not_empty : is_empty whole ≡ false
  whole-not_empty = not_empty whole (to_decimal_pos (m / one_unit_in_stroops))

  whole-digits : all is_digit whole ≡ true
  whole-digits = to_decimal-digits (m / one_unit_in_stroops)

  body-not_space : all (λ c. not (is_space c)) (body_of m) ≡ true
  body-not_space = elim body_cases [
    | inl (form, _) ↦ rw form (digits-not_space whole whole-digits)
    | inr (form, _) ↦ rw form (
        all-append (λ c. not (is_space c)) whole (b'.' ∷ fraction_digits m)
          (digits-not_space whole whole-digits)
          (unfold is_space in digits-not_space (fraction_digits m) (fraction_digits-digits m)))
  ]

  body-is_display : match_unsigned false (body_of m) ≡ true
  body-is_display = elim body_cases [
    | inl (form, _) ↦ rw (form, match_unsigned-all_digits false whole whole-digits, whole-not_empty)
    | inr (form, more) ↦
        rw (form, match_unsigned-digits false whole (b'.' ∷ fraction_digits m) whole-digits)
          (rw whole-not_empty (dot_digits (fraction_digits m) more (fraction_digits-digits m)))
  ]

  body_head : (c : ℕ) (s : List ℕ) → body_of m ≡ c ∷ s → is_digit c ≡ true
  body_head c s h = elim body_cases [
    | inl (form, _) ↦
        head-digit whole [] s c whole-digits whole-not_empty (append-nil whole ∙ sym form ∙ h)
    | inr (form, _) ↦
        head-digit whole (b'.' ∷ fraction_digits m) s c whole-digits whole-not_empty (sym form ∙ h)
  ]

pub to_decimal-not_space : (n : ℕ) → all (λ c. not (is_space c)) (to_decimal n) ≡ true
to_decimal-not_space n = digits-not_space (to_decimal n) (to_decimal-digits n)

pub from_stroops-not_space : (v : ℤ) → all (λ c. not (is_space c)) (from_stroops v) ≡ true
unfolding from_stroops is_space
from_stroops-not_space (pos n) = body-not_space n
from_stroops-not_space (negsuc n) = body-not_space (suc n)

-- `toStroops(fromStroops(v))` is `v`, for every amount.
pub to_stroops-from_stroops : (v : ℤ) → to_stroops (from_stroops v) ≡ returned v
unfolding from_stroops
to_stroops-from_stroops (pos n) =
    read_unsigned (body_of n) (body_head n) (body-is_display n) (body-not_space n)
    ∙ rw (magnitude_of-body n)
to_stroops-from_stroops (negsuc n) =
    read_negative (body_of (suc n)) (body-is_display (suc n)) (body-not_space (suc n))
    ∙ rw (magnitude_of-body (suc n))
