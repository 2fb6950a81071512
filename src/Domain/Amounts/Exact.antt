-- ===== src/Domain/Amounts/Exact.antt =====
-- What `toStroops` returns on decimal text, against the digits read as one number.
use showup.Prelude.{
  ℕ, ◌+◌, ◌-◌, ◌*◌, ◌^◌, ◌≤◌, ◌≡◌, Bool, true, false, not, List, [], ◌∷◌, ◌++◌, arith, length, all,
  ltb, if◌then◌else◌, sym, ap, ◌∙◌, Bool-cases, inl, inr, length-append, length-replicate,
  replicate,
}
use showup.Prelude.Outcome.{returned, thrown}
use showup.Prelude.Text.{
  is_digit, is_space, is_empty, number, number_from, number_from-append, number_from-zeros,
  number_from-shift, pad_end,
}
use showup.Domain.Amounts.Defs.{
  amount_decimals, one_unit_in_stroops, signed, match_unsigned, magnitude_of, to_stroops,
  too_many_decimals,
}
use showup.Domain.Amounts.Reading.{
  digits-not_space, all-append, match_unsigned-digits, magnitude_of-dot, head-digit,
  magnitude_of-long, read_unsigned, read_negative, dot_digits,
}

-- The digits of both parts as one number, scaled to seven decimals.
abbrev scaled : List ℕ → List ℕ → ℕ
scaled whole fraction = number (whole ++ fraction) * 10 ^ (amount_decimals - length fraction)

module _ (whole fraction : List ℕ) (short : length fraction ≤ amount_decimals) where
  length-padded : length (pad_end amount_decimals b'0' fraction) ≡ 7
  unfolding pad_end
  length-padded = omega (
    arith,
    length-append fraction (replicate (amount_decimals - length fraction) b'0'),
    length-replicate {A = ℕ} (amount_decimals - length fraction) b'0',
  )

  number-scaled :
      number whole * one_unit_in_stroops + number (pad_end amount_decimals b'0' fraction)
      ≡ scaled whole fraction
  unfolding number pad_end
  number-scaled =
      let shifted : number_from (number whole) (pad_end amount_decimals b'0' fraction)
          ≡ number whole * 10 ^ 7 + number (pad_end amount_decimals b'0' fraction) =
        rw length-padded at
          (number_from-shift (number whole) (pad_end amount_decimals b'0' fraction)) in
      let zeros : ℕ = amount_decimals - length fraction in
      sym shifted
      ∙ number_from-append (number whole) fraction (replicate zeros b'0')
      ∙ number_from-zeros (number_from (number whole) fraction) zeros
      ∙ ap (λ (t : ℕ). t * 10 ^ zeros) (sym (number_from-append 0 whole fraction))

-- The text of a sign in front of a decimal.
abbrev pub sign_text : Bool → List ℕ
sign_text true = b'-' ∷ []
sign_text false = []

module _ (whole fraction : List ℕ) (whole_digits : all is_digit whole ≡ true)
    (fraction_digits : all is_digit fraction ≡ true) (some_whole : is_empty whole ≡ false)
    (some_fraction : is_empty fraction ≡ false) where
  abbrev decimal : List ℕ
  decimal = whole ++ (b'.' ∷ fraction)

  decimal-not_space : all (λ c. not (is_space c)) decimal ≡ true
  decimal-not_space =
      all-append (λ c. not (is_space c)) whole (b'.' ∷ fraction)
        (digits-not_space whole whole_digits)
        (unfold is_space in digits-not_space fraction fraction_digits)

  decimal-is_display : match_unsigned false decimal ≡ true
  decimal-is_display =
      rw (match_unsigned-digits false whole (b'.' ∷ fraction) whole_digits, some_whole)
        (dot_digits fraction some_fraction fraction_digits)

  magnitude_of-decimal : magnitude_of decimal ≡ (
      if ltb amount_decimals (length fraction)
      then thrown too_many_decimals
      else returned (scaled whole fraction))
  magnitude_of-decimal = elim (Bool-cases (ltb amount_decimals (length fraction))) [
    | inl long ↦ rw long (magnitude_of-long whole fraction whole_digits (ground arith))
    | inr short ↦ rw short (
        magnitude_of-dot whole fraction whole_digits (ground arith)
        ∙ ap returned (number-scaled whole fraction (ground arith)))
  ]

  -- A decimal with an optional minus sign and one or more digits on both sides of the dot is refused
  -- when it has more than seven decimals. Otherwise it is read exactly: the result is the number
  -- that all its digits spell, times ten for each decimal that is missing of seven, with the sign.
  pub to_stroops-exact :
      (negative : Bool)
      → to_stroops (sign_text negative ++ decimal) ≡ (
          if ltb amount_decimals (length fraction)
          then thrown too_many_decimals
          else returned (signed negative (scaled whole fraction)))
  to_stroops-exact true =
      read_negative decimal decimal-is_display decimal-not_space
      ∙ rw magnitude_of-decimal (ground arith)
  to_stroops-exact false =
      read_unsigned decimal (λ c r. head-digit whole (b'.' ∷ fraction) r c whole_digits some_whole)
        decimal-is_display decimal-not_space
      ∙ rw magnitude_of-decimal (ground arith)
