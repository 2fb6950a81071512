-- ===== src/Domain/Amounts/Split.antt =====
-- `splitByBps` keeps every stroop, and its organizer leg is the exact share, rounded down.
use showup.Prelude.{ℕ, ◌+◌, ◌*◌, ◌/◌, ◌-◌, ◌≤◌, ◌<◌, ◌≡◌, ◌↔◌, arith, ◌⊎◌}
use showup.Prelude.Int.{ℤ, pos, ◌+ℤ◌, ◌*ℤ◌, ◌<ℤ◌, quotient, +ℤ-sub_cancel}
use showup.Prelude.Outcome.{returned, thrown}
use showup.Domain.Amounts.Defs.{total_bps, split_by_bps, bps_out_of_range, Legs}

-- Whenever the split returns, its two legs add up to exactly the amount, whatever its sign.
pub split_by_bps-conserves :
    (amount bps : ℤ) (legs : Legs)
    → split_by_bps amount bps ≡ returned legs
    → legs.organizer +ℤ legs.community ≡ amount
unfolding split_by_bps
split_by_bps-conserves amount bps legs h =
    ground (arith, +ℤ-sub_cancel amount (quotient (amount *ℤ bps) total_bps))

-- The split returns exactly when the share lies between 0 and 10000; otherwise it throws.
pub split_by_bps-throws_iff :
    (amount bps : ℤ)
    → (split_by_bps amount bps ≡ thrown bps_out_of_range)
      ↔ ((bps <ℤ pos 0) ⊎ (pos total_bps <ℤ bps))
unfolding split_by_bps
split_by_bps-throws_iff amount bps = ground arith

-- For an amount of `n` stroops and a share of `bps` between 0 and 10000 the split returns two legs
-- of no less than 0 and no more than the amount, the organizer's being n * bps / 10000 rounded
-- down, and the community's the rest.
pub split_by_bps-share :
    (n bps : ℕ)
    → bps ≤ total_bps
    → (o c : ℕ) × (split_by_bps (pos n) (pos bps)
        ≡ returned (record { organizer = pos o; community = pos c }))
      × (o * total_bps ≤ n * bps)
      × (n * bps < o * total_bps + total_bps)
      × (o + c ≡ n)
unfolding split_by_bps
split_by_bps-share n bps h =
    let most : n * bps ≤ n * total_bps = grind arith in
    (
      n * bps / total_bps,
      n - n * bps / total_bps,
      ground arith,
      omega arith,
      omega arith,
      omega arith,
    )
