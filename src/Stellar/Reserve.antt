-- ===== src/Stellar/Reserve.antt =====
-- apps/web/lib/stellar/xlm-reserve.ts: the native balance that an account may spend.
use showup.Prelude.{ℕ, ◌+◌, ◌-◌, ◌*◌, ◌≤◌, ◌<◌, ◌^◌, ◌||◌, ◌≡◌, ◌⊎◌, arith, if◌then◌else◌}
use showup.Prelude.Int.{ℤ, pos, ltb_ℤ, ◌+ℤ◌, ◌-ℤ◌, ◌*ℤ◌}
use showup.Prelude.Outcome.{Outcome, returned, thrown, ◌>>=◌, ◌>>◌, throw_if}

-- A number that should count something: a safe integer, or anything else.
pub data Count : Type 0 where
  safe : ℤ → Count
  unsafe : Count

-- `XlmReserveInput`.
pub record XlmReserveInput : Type 0 where
  pub balance : ℤ
  pub base_reserve : ℤ
  pub subentry_count : Count
  pub num_sponsoring : Count
  pub num_sponsored : Count
  pub selling_liabilities : ℤ

-- `XlmReservePosition`.
pub record XlmReservePosition : Type 0 where
  pub minimum_balance : ℤ
  pub reserve_entry_count : ℤ
  pub reserve_shortfall : ℤ
  pub spendable : ℤ

pub data ReserveError : Type 0 where
  negative_balance negative_base_reserve negative_liabilities : ReserveError
  bad_subentry_count bad_num_sponsoring bad_num_sponsored : ReserveError
  negative_entry_count negative_reserve_or_fee : ReserveError

-- `assertNonNegativeInteger`, with the count that passes.
abbrev pub count_of : Count → ReserveError → Outcome ReserveError ℕ
count_of (safe (pos n)) e = returned n
count_of _ e = thrown e

-- `a > b ? a - b : 0n`.
abbrev excess : ℤ → ℤ → ℤ
excess a b = if ltb_ℤ b a then a -ℤ b else pos 0

abbrev pub position : XlmReserveInput → ℤ → ℤ → XlmReservePosition
position input entries minimum = record {
  minimum_balance = minimum;
  reserve_entry_count = entries;
  reserve_shortfall = excess (minimum +ℤ input.selling_liabilities) input.balance;
  spendable = excess input.balance (minimum +ℤ input.selling_liabilities);
}

-- `calculateXlmReservePosition`. The sum of the counts is exact below 2 ^ 53.
unfoldable pub calculate_xlm_reserve_position :
    XlmReserveInput → Outcome ReserveError XlmReservePosition
calculate_xlm_reserve_position input = do
  throw_if (ltb_ℤ input.balance (pos 0)) negative_balance
  throw_if (ltb_ℤ input.base_reserve (pos 0)) negative_base_reserve
  throw_if (ltb_ℤ input.selling_liabilities (pos 0)) negative_liabilities
  subentries ← count_of input.subentry_count bad_subentry_count
  sponsoring ← count_of input.num_sponsoring bad_num_sponsoring
  sponsored ← count_of input.num_sponsored bad_num_sponsored
  let entries = pos (2 + subentries + sponsoring) -ℤ pos sponsored
  throw_if (ltb_ℤ entries (pos 0)) negative_entry_count
  returned (position input entries (input.base_reserve *ℤ entries))

-- `requiredForNewSubentry`.
unfoldable pub required_for_new_subentry : ℤ → ℤ → Outcome ReserveError ℤ
required_for_new_subentry base_reserve fee =
    if ltb_ℤ base_reserve (pos 0) || ltb_ℤ fee (pos 0)
    then thrown negative_reserve_or_fee
    else returned (base_reserve +ℤ fee)

module _ (balance reserve liabilities subentries sponsoring sponsored : ℕ) where
  abbrev pub account : XlmReserveInput
  account = record {
    balance = pos balance;
    base_reserve = pos reserve;
    subentry_count = safe (pos subentries);
    num_sponsoring = safe (pos sponsoring);
    num_sponsored = safe (pos sponsored);
    selling_liabilities = pos liabilities;
  }

  -- For an account without negative amounts, whose sum of counts is exact: where it is sponsored for
  -- no more entries than it has, the position is returned; its minimum balance is the base reserve
  -- for each of 2 + subentries + sponsoring - sponsored entries; what it may spend and what it lacks
  -- balance the account to the stroop against the minimum and the liabilities; and one of the two is
  -- zero.
  pub calculate_xlm_reserve_position_lem :
      sponsored ≤ 2 + subentries + sponsoring
      → 2 + subentries + sponsoring < 2 ^ 53
      → (entries spendable shortfall : ℕ) × (calculate_xlm_reserve_position account
          ≡ returned (record {
            minimum_balance = pos (reserve * entries);
            reserve_entry_count = pos entries;
            reserve_shortfall = pos shortfall;
            spendable = pos spendable;
          }))
        × (entries + sponsored ≡ 2 + subentries + sponsoring)
        × (spendable + (reserve * entries + liabilities) ≡ balance + shortfall)
        × ((spendable ≡ 0) ⊎ (shortfall ≡ 0))
  unfolding calculate_xlm_reserve_position ◌-ℤ◌ ◌+ℤ◌ ◌*ℤ◌
  calculate_xlm_reserve_position_lem h bound =
      let entries : ℕ = 2 + subentries + sponsoring - sponsored in
      let needed : ℕ = reserve * entries + liabilities in
      (
        entries,
        balance - needed,
        needed - balance,
        ground arith,
        omega arith,
        omega arith,
        ground arith,
      )
