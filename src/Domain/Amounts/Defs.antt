-- ===== src/Domain/Amounts/Defs.antt =====
-- The functions of amounts.ts. A `TypeError` on an argument of another type is left to the types.
use showup.Prelude.{
  ℕ, suc, ◌+◌, ◌*◌, ◌/◌, ◌%◌, Bool, true, false, ◌&&◌, ◌||◌, not, Option, none, some, List, [], ◌∷◌,
  ◌++◌, length, take, drop, all, ◌==◌, ltb, if◌then◌else◌,
}
use showup.Prelude.Int.{ℤ, pos, negsuc, neg, ◌*ℤ◌, quotient, ◌-ℤ◌, ltb_ℤ}
use showup.Prelude.Outcome.{Outcome, returned, ◌>>=◌, ◌>>◌, throw_if}
use showup.Prelude.Text.{
  is_digit, number, to_decimal, trim, strip_end, pad_start, pad_end, index_of, is_empty,
}

-- `AMOUNT_DECIMALS`, `ONE_UNIT_IN_STROOPS` and `TOTAL_BPS`.
abbrev pub amount_decimals : ℕ
amount_decimals = 7

abbrev pub one_unit_in_stroops : ℕ
one_unit_in_stroops = 10_000_000

abbrev pub total_bps : ℕ
total_bps = 10_000

-- The `RangeError`s that the module throws.
pub data AmountError : Type 0 where
  empty : AmountError
  not_decimal : AmountError
  too_many_decimals : AmountError
  bps_out_of_range : AmountError

abbrev pub is_sign : ℕ → Bool
is_sign c = c == b'-' || c == b'+'

abbrev pub starts_with_char : ℕ → List ℕ → Bool
starts_with_char c [] = false
starts_with_char c (d ∷ s) = d == c

-- `\d+` up to the end of the text.
abbrev pub some_digits : List ℕ → Bool
some_digits s = not (is_empty s) && all is_digit s

-- `\d+(\.\d+)?` up to the end; `seen` says that a digit was read.
unfoldable pub match_unsigned : Bool → List ℕ → Bool
match_unsigned seen [] = seen
match_unsigned seen (c ∷ s) =
    if is_digit c then match_unsigned true s else seen && c == b'.' && some_digits s

abbrev pub drop_sign : List ℕ → List ℕ
drop_sign [] = []
drop_sign (c ∷ s) = if is_sign c then s else c ∷ s

-- `DISPLAY_AMOUNT_PATTERN`.
unfoldable pub is_display_amount : List ℕ → Bool
is_display_amount s = match_unsigned false (drop_sign s)

abbrev pub whole_part : Option ℕ → List ℕ → List ℕ
whole_part none s = s
whole_part (some i) s = take i s

abbrev pub fraction_part : Option ℕ → List ℕ → List ℕ
fraction_part none s = []
fraction_part (some i) s = drop (suc i) s

-- The tail of `toStroops`, behind the sign: the two parts around the dot, and the magnitude.
unfoldable pub magnitude_of : List ℕ → Outcome AmountError ℕ
magnitude_of unsigned = do
  let dot_index = index_of b'.' unsigned
  let whole = whole_part dot_index unsigned
  let fraction = fraction_part dot_index unsigned
  throw_if (ltb amount_decimals (length fraction)) too_many_decimals
  returned (number whole * one_unit_in_stroops + number (pad_end amount_decimals b'0' fraction))

abbrev pub signed : Bool → ℕ → ℤ
signed negative magnitude = if negative then neg (pos magnitude) else pos magnitude

-- `toStroops`.
unfoldable pub to_stroops : List ℕ → Outcome AmountError ℤ
to_stroops display = do
  let trimmed = trim display
  throw_if (is_empty trimmed) empty
  throw_if (not (is_display_amount trimmed)) not_decimal
  let negative = starts_with_char b'-' trimmed
  magnitude ← magnitude_of (drop_sign trimmed)
  returned (signed negative magnitude)

-- The digits behind the dot, with trailing zeros dropped.
unfoldable pub fraction_digits : ℕ → List ℕ
fraction_digits magnitude =
    strip_end (λ c. c == b'0')
      (pad_start amount_decimals b'0' (to_decimal (magnitude % one_unit_in_stroops)))

unfoldable pub body_of : ℕ → List ℕ
body_of magnitude =
    let whole = to_decimal (magnitude / one_unit_in_stroops) in
    let digits = fraction_digits magnitude in
    if length digits == 0 then whole else whole ++ (b'.' ∷ digits)

-- `fromStroops`.
unfoldable pub from_stroops : ℤ → List ℕ
from_stroops (pos n) = body_of n
from_stroops (negsuc n) = b'-' ∷ body_of (suc n)

pub record Legs : Type 0 where
  pub organizer : ℤ
  pub community : ℤ

-- `splitByBps`. The share is an integer: a fraction, which the code refuses, is no value here.
unfoldable pub split_by_bps : ℤ → ℤ → Outcome AmountError Legs
unfolding ◌*ℤ◌ quotient ◌-ℤ◌
split_by_bps amount organizer_bps = do
  throw_if (ltb_ℤ organizer_bps (pos 0) || ltb_ℤ (pos total_bps) organizer_bps) bps_out_of_range
  let organizer = quotient (amount *ℤ organizer_bps) total_bps
  let community = amount -ℤ organizer
  returned (record { organizer = organizer; community = community })
