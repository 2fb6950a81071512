-- ===== src/Domain/Schedule/Tests.antt =====
-- An evening in November 2023, on a clock in UTC.
use showup.Prelude.{
  ℕ, ◌+◌, ◌-◌, ◌*◌, ◌/◌, ◌%◌, Option, none, some, List, [], ◌∷◌, refl, arith, if◌then◌else◌, take,
  drop,
}
use showup.Prelude.Int.{ℤ, pos, negsuc}
use showup.Prelude.Text.{to_decimal, emit, pad_start, text_eq}
use showup.Domain.Schedule.{DateParts, to_local_date_time_value}
use showup.Domain.Schedule.Soon.{IsClockAround, StartsSoon, starting_soon_lem}

-- 2023-11-14T00:00:00Z.
abbrev midnight : ℕ
midnight = 1699920000000

abbrev minutes_of : ℤ → ℕ
minutes_of (pos n) = (n - midnight) / 60000
minutes_of (negsuc n) = 0

-- The parts of a date on this day.
abbrev local : ℤ → DateParts
local date = record {
  year = 2023;
  month = 10;
  day = 14;
  hours = minutes_of date / 60;
  minutes = minutes_of date % 60;
}

abbrev digit : ℕ → ℕ
digit c = c - b'0'

abbrev day : List ℕ
day = b'2' ∷ b'0' ∷ b'2' ∷ b'3' ∷ b'-' ∷ b'1' ∷ b'1' ∷ b'-' ∷ b'1' ∷ b'4' ∷ b'T' ∷ []

abbrev time_of : List ℕ → Option ℤ
time_of (a ∷ b ∷ colon ∷ c ∷ d ∷ []) =
    some (pos (midnight + ((digit a * 10 + digit b) * 60 + (digit c * 10 + digit d)) * 60000))
time_of _ = none

-- Texts of this day, such as 2023-11-14T22:35.
abbrev parse : List ℕ → Option ℤ
parse s = if text_eq (take 11 s) day then time_of (drop 11 s) else none

-- A start at 22:35.
clock : IsClockAround local parse 28333355
unfolding to_local_date_time_value pad_start to_decimal emit text_eq
clock = record { start_back = refl; opens_back = refl; closes_back = refl; cancels_back = refl }

-- At 22:13:20.
starting_soon_lem_example : StartsSoon local parse 1700000000000
starting_soon_lem_example = starting_soon_lem local parse 1700000000000 (omega arith) clock
