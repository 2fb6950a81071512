-- ===== src/Stellar/Tests.antt =====
-- An account of xlm-reserve.test.ts, and the theorem on it.
use showup.Prelude.{ℕ, true, Option, some, [], ◌∷◌, ◌≡◌, ◌+◌, ◌*◌, ◌⊎◌, refl, arith}
use showup.Prelude.Int.{ℤ, pos, ◌+ℤ◌, ◌-ℤ◌, ◌*ℤ◌}
use showup.Prelude.Outcome.{Outcome, returned, thrown}
use showup.Prelude.Text.{codes, trim, index_of, number, number_from, pad_end}
use showup.Domain.Amounts.{to_stroops, is_display_amount, match_unsigned, magnitude_of}
use showup.Stellar.Assets.{
  native, credit, AccountResponse, LoadFailure, not_found, AssetsError, AccountAssets,
  empty_account, read_line, read_lines, get_account_assets,
}
use showup.Stellar.Assets.Trustline.{Told, get_account_assets-Told}
use showup.Stellar.Reserve.{
  safe, negative_entry_count, account, calculate_xlm_reserve_position,
  calculate_xlm_reserve_position_lem,
}

reserves :
    calculate_xlm_reserve_position (account 50_000_000 5_000_000 4_000_000 3 2 1)
    ≡ returned (record {
      minimum_balance = pos 30_000_000;
      reserve_entry_count = pos 6;
      reserve_shortfall = pos 0;
      spendable = pos 16_000_000;
    })
unfolding calculate_xlm_reserve_position ◌-ℤ◌ ◌+ℤ◌ ◌*ℤ◌
reserves = refl

oversponsored :
    calculate_xlm_reserve_position (account 50_000_000 5_000_000 0 0 0 3)
    ≡ thrown negative_entry_count
unfolding calculate_xlm_reserve_position ◌-ℤ◌ ◌+ℤ◌ ◌*ℤ◌
oversponsored = refl

calculate_xlm_reserve_position_lem_example :
    (entries spendable shortfall : ℕ) × (calculate_xlm_reserve_position
        (account 50_000_000 5_000_000 4_000_000 3 2 1)
      ≡ returned (record {
        minimum_balance = pos (5_000_000 * entries);
        reserve_entry_count = pos entries;
        reserve_shortfall = pos shortfall;
        spendable = pos spendable;
      }))
    × (entries + 1 ≡ 2 + 3 + 2)
    × (spendable + (5_000_000 * entries + 4_000_000) ≡ 50_000_000 + shortfall)
    × ((spendable ≡ 0) ⊎ (shortfall ≡ 0))
calculate_xlm_reserve_position_lem_example =
    calculate_xlm_reserve_position_lem 50_000_000 5_000_000 4_000_000 3 2 1 (omega arith)
      (omega arith)

abbrev holder : AccountResponse
holder = record {
  balances =
      credit "USDC" "GB" (codes "9")
      ∷ credit "USDC" "GA" (codes "2.5")
      ∷ native (codes "10") (codes "1")
      ∷ [];
  subentry_count = safe (pos 1);
  num_sponsoring = safe (pos 0);
  num_sponsored = safe (pos 0);
}

abbrev ledger : Outcome AssetsError (Option ℤ)
ledger = returned (some (pos 5_000_000))

abbrev loaded : Outcome LoadFailure AccountResponse
loaded = returned holder

abbrev held : AccountAssets
held = record {
  exists = true;
  xlm = pos 100_000_000;
  base_reserve = pos 5_000_000;
  minimum_balance = pos 15_000_000;
  native_selling_liabilities = pos 10_000_000;
  spendable_xlm = pos 75_000_000;
  usdc = pos 25_000_000;
  has_usdc_trustline = true;
}

holds : get_account_assets "USDC" "GA" loaded ledger ≡ returned held
unfolding get_account_assets read_lines read_line to_stroops calculate_xlm_reserve_position ◌-ℤ◌
    ◌+ℤ◌ ◌*ℤ◌ trim is_display_amount match_unsigned magnitude_of index_of number number_from pad_end
holds = refl

get_account_assets-Told_example :
    ((loaded ≡ thrown not_found) × (held ≡ empty_account))
    ⊎ ((account : AccountResponse) × (loaded ≡ returned account)
        × Told "USDC" "GA" account ledger held)
get_account_assets-Told_example = get_account_assets-Told "USDC" "GA" loaded ledger held holds
