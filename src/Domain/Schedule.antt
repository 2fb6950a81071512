-- ===== src/Domain/Schedule.antt =====
-- apps/web/lib/domain/event-schedule.ts: the presets that fill in the form. Dates are milliseconds;
-- `local` gives the parts of a date on the local clock, and `date_parse` is `Date.parse`, with `none`
-- for `NaN`.
pub mod Soon
mod Tests
use showup.Prelude.{
  ℕ, suc, ◌+◌, ◌-◌, ◌/◌, ◌==◌, Option, none, some, List, [], ◌∷◌, ◌++◌, if◌then◌else◌,
}
use showup.Prelude.Int.{ℤ, pos, negsuc, neg, ◌+ℤ◌, ◌-ℤ◌, times}
use showup.Prelude.Text.{to_decimal, pad_start}

-- `EventSchedule`.
pub record EventSchedule : Type 0 where
  pub start_time : List ℕ
  pub checkin_start : List ℕ
  pub checkin_deadline : List ℕ
  pub cancellation_deadline : List ℕ

-- `MINUTE_MS`, `HOUR_MS` and `EVENT_SCHEDULE_STEP_SECONDS`.
abbrev pub minute_ms : ℕ
minute_ms = 60_000

abbrev pub hour_ms : ℕ
hour_ms = 3_600_000

abbrev pub event_schedule_step_seconds : ℕ
event_schedule_step_seconds = 300

-- What `getFullYear()`, `getMonth()` and so on give; the month counts from 0.
pub record DateParts : Type 0 where
  pub year : ℕ
  pub month : ℕ
  pub day : ℕ
  pub hours : ℕ
  pub minutes : ℕ

abbrev two_digits : ℕ → List ℕ
two_digits n = pad_start 2 b'0' (to_decimal n)

abbrev pub ceil_quotient : ℤ → ℕ → ℤ
ceil_quotient (pos m) n = pos ((m + (n - 1)) / n)
ceil_quotient (negsuc m) n = neg (pos (suc m / n))

module _ (local : ℤ → DateParts) where
  -- `toLocalDateTimeValue`.
  unfoldable pub to_local_date_time_value : ℤ → List ℕ
  to_local_date_time_value date =
      let parts = local date in
      to_decimal parts.year
      ++ b'-'
        ∷ (two_digits (parts.month + 1)
            ++ b'-'
              ∷ (two_digits parts.day
                  ++ b'T' ∷ (two_digits parts.hours ++ b':' ∷ two_digits parts.minutes)))

  -- The schedule around a start at `start_ms`.
  abbrev pub around : ℤ → EventSchedule
  around start_ms = record {
    start_time = to_local_date_time_value start_ms;
    cancellation_deadline = to_local_date_time_value (start_ms -ℤ pos 7_200_000);
    checkin_start = to_local_date_time_value (start_ms -ℤ pos 1_800_000);
    checkin_deadline = to_local_date_time_value (start_ms +ℤ pos hour_ms);
  }

  abbrev pub schedule_of : Option ℤ → Option EventSchedule
  schedule_of none = none
  schedule_of (some start_ms) = some (around start_ms)

  -- `scheduleAroundStart`.
  unfoldable pub schedule_around_start : (List ℕ → Option ℤ) → List ℕ → Option EventSchedule
  schedule_around_start date_parse start_time = schedule_of (date_parse start_time)

  -- `startingSoon`; the step is five minutes in milliseconds.
  unfoldable pub starting_soon : ℤ → List ℕ
  starting_soon now_ms =
      to_local_date_time_value (times (ceil_quotient (now_ms +ℤ pos 1_200_000) 300_000) 300_000)
