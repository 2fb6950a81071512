-- ===== src/Domain/Schedule/Soon.antt =====
-- A meeting that starts soon is open for check-in.
use showup.Prelude.{ℕ, ◌+◌, ◌-◌, ◌*◌, ◌/◌, ◌≤◌, ◌<◌, Option, some, List, ◌≡◌, ap, ◌∙◌, arith}
use showup.Prelude.Int.{ℤ, pos, ◌+ℤ◌, ◌-ℤ◌, times}
use showup.Domain.Schedule.{
  ceil_quotient, schedule_of, EventSchedule, DateParts, to_local_date_time_value,
  schedule_around_start, starting_soon, around,
}

module _ (local : ℤ → DateParts) (date_parse : List ℕ → Option ℤ) where
  -- `Date.parse` reads the local text of this minute back.
  abbrev pub IsReadBack : ℕ → Type 0
  IsReadBack m =
      date_parse (to_local_date_time_value local (pos (m * 60000))) ≡ some (pos (m * 60000))

  -- So it does for the four dates that a start at this minute shows.
  pub record IsClockAround (m : ℕ) : Type 0 where
    pub start_back : IsReadBack m
    pub opens_back : IsReadBack (m - 30)
    pub closes_back : IsReadBack (m + 60)
    pub cancels_back : IsReadBack (m - 120)

  -- A schedule whose times are read as these.
  pub record Reads (s : EventSchedule) (start opens closes cancels : ℕ) : Type 0 where
    pub start_read : date_parse s.start_time ≡ some (pos start)
    pub checkin_start_read : date_parse s.checkin_start ≡ some (pos opens)
    pub checkin_deadline_read : date_parse s.checkin_deadline ≡ some (pos closes)
    pub cancellation_read : date_parse s.cancellation_deadline ≡ some (pos cancels)

  reads_minute :
      (z : ℤ) (m : ℕ)
      → z ≡ pos (m * 60000)
      → IsReadBack m
      → date_parse (to_local_date_time_value local z) ≡ some (pos (m * 60000))
  reads_minute z m e back = rw e back

  around-Reads :
      (m : ℕ)
      → 120 ≤ m
      → IsClockAround m
      → Reads
          (around local (pos (m * 60000)))
          (m * 60000)
          ((m - 30) * 60000)
          ((m + 60) * 60000)
          ((m - 120) * 60000)
  unfolding ◌+ℤ◌ ◌-ℤ◌
  around-Reads m le clock = record {
    start_read = clock.start_back;
    checkin_start_read = reads_minute _ (m - 30) (ground arith) clock.opens_back;
    checkin_deadline_read = reads_minute _ (m + 60) (ground arith) clock.closes_back;
    cancellation_read = reads_minute _ (m - 120) (ground arith) clock.cancels_back;
  }

  -- The schedule, and its times beside the present.
  pub record StartsSoon (now : ℕ) : Type 0 where
    pub schedule : EventSchedule
    pub start : ℕ
    pub opens : ℕ
    pub closes : ℕ
    pub cancels : ℕ
    pub filled_in :
        schedule_around_start local date_parse (starting_soon local (pos now)) ≡ some schedule
    pub read : Reads schedule start opens closes cancels
    pub soon : (now + 1200000 ≤ start) × (start < now + 1500000)
    pub is_open : (opens < now) × (now < closes)
    pub in_order : (cancels < opens) × (opens < start) × (start < closes)

  -- The minute since 1970 of the first step of five minutes that is 20 minutes ahead or more.
  abbrev pub minute : ℕ → ℕ
  minute now = (now + 1200000 + 299999) / 300000 * 5

  sum : (m n : ℕ) → pos m +ℤ pos n ≡ pos (m + n)
  unfolding ◌+ℤ◌
  sum m n = ground arith

  starting_soon-minute :
      (now : ℕ)
      → starting_soon local (pos now) ≡ to_local_date_time_value local (pos (minute now * 60000))
  unfolding starting_soon
  starting_soon-minute now = ap (to_local_date_time_value local) (rounded now)
    where
      rounded :
          (now : ℕ)
          → times (ceil_quotient (pos now +ℤ pos 1200000) 300000) 300000 ≡ pos (minute now * 60000)
      rounded now = rw (sum now 1200000) (ap (λ n. pos n) (omega arith))

  -- From two hours after 1970 on, where `Date.parse` reads back the local texts of the four dates shown
  -- (the first step of five minutes that is 20 minutes ahead, 30 minutes before it, an hour after it and
  -- two hours before it): the schedule around `startingSoon` is there; it starts in 20 to 25 minutes, is
  -- open for check-in by now, and its times are in the order that the contract wants.
  pub starting_soon_lem : (now : ℕ) → 7200000 ≤ now → IsClockAround (minute now) → StartsSoon now
  unfolding schedule_around_start
  starting_soon_lem now le clock = record {
    schedule = around local (pos (minute now * 60000));
    start = minute now * 60000;
    opens = (minute now - 30) * 60000;
    closes = (minute now + 60) * 60000;
    cancels = (minute now - 120) * 60000;
    filled_in =
        ap (λ text. schedule_of local (date_parse text)) (starting_soon-minute now)
        ∙ ap (schedule_of local) clock.start_back;
    read = around-Reads (minute now) (omega arith) clock;
    soon = (omega arith, omega arith);
    is_open = (omega arith, omega arith);
    in_order = (omega arith, omega arith, omega arith);
  }
