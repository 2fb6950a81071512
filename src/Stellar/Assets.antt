-- ===== src/Stellar/Assets.antt =====
-- getAccountAssets and hasTrustline of apps/web/lib/stellar/horizon.ts. What Horizon answers is a
-- parameter: the account, or how loading it failed, and the base reserve of the latest ledger.
pub mod Trustline
use showup.Prelude.{
  ℕ, String, Bool, true, false, ◌&&◌, Option, none, some, List, [], ◌∷◌, str_eq, if◌then◌else◌,
}
use showup.Prelude.Int.{ℤ, pos}
use showup.Prelude.Outcome.{Outcome, returned, thrown, ◌>>=◌}
use showup.Domain.Amounts.{AmountError, to_stroops}
use showup.Stellar.Reserve.{
  Count, XlmReserveInput, XlmReservePosition, ReserveError, calculate_xlm_reserve_position,
}

-- A line of `account.balances`: XLM with its selling liabilities, a credit of four or twelve
-- characters, or a share of a liquidity pool. Amounts are texts.
pub data BalanceLine : Type 0 where
  native : List ℕ → List ℕ → BalanceLine
  credit : String → String → List ℕ → BalanceLine
  pool_share : BalanceLine

-- `Horizon.AccountResponse`, as far as it is read.
pub record AccountResponse : Type 0 where
  pub balances : List BalanceLine
  pub subentry_count : Count
  pub num_sponsoring : Count
  pub num_sponsored : Count

-- How loading an account fails: with what `isNotFound` accepts, or otherwise.
pub data LoadFailure : Type 0 where
  not_found : LoadFailure
  other_failure : String → LoadFailure

-- What `getAccountAssets` throws.
pub data AssetsError : Type 0 where
  horizon : String → AssetsError
  amount : AmountError → AssetsError
  no_latest_ledger : AssetsError
  reserve : ReserveError → AssetsError

-- `AccountAssets`.
pub record AccountAssets : Type 0 where
  pub exists : Bool
  pub xlm : ℤ
  pub base_reserve : ℤ
  pub minimum_balance : ℤ
  pub native_selling_liabilities : ℤ
  pub spendable_xlm : ℤ
  pub usdc : ℤ
  pub has_usdc_trustline : Bool

-- `EMPTY_ACCOUNT`.
abbrev pub empty_account : AccountAssets
empty_account = record {
  exists = false;
  xlm = pos 0;
  base_reserve = pos 0;
  minimum_balance = pos 0;
  native_selling_liabilities = pos 0;
  spendable_xlm = pos 0;
  usdc = pos 0;
  has_usdc_trustline = false;
}

-- The variables of the loop over the lines.
pub record Balances : Type 0 where
  pub xlm : ℤ
  pub native_selling_liabilities : ℤ
  pub usdc : ℤ
  pub has_usdc_trustline : Bool

abbrev pub no_balances : Balances
no_balances = record {
  xlm = pos 0;
  native_selling_liabilities = pos 0;
  usdc = pos 0;
  has_usdc_trustline = false;
}

abbrev pub amount_or_throw : Outcome AmountError ℤ → Outcome AssetsError ℤ
amount_or_throw (returned a) = returned a
amount_or_throw (thrown e) = thrown (amount e)

abbrev pub position_or_throw :
    Outcome ReserveError XlmReservePosition → Outcome AssetsError XlmReservePosition
position_or_throw (returned p) = returned p
position_or_throw (thrown e) = thrown (reserve e)

-- The base reserve of the latest ledger.
abbrev pub ledger_or_throw : Option ℤ → Outcome AssetsError ℤ
ledger_or_throw none = thrown no_latest_ledger
ledger_or_throw (some base_reserve) = returned base_reserve

-- `code` and `issuer` are `USDC_CODE` and `USDC_ISSUER`.
module _ (usdc_code usdc_issuer : String) where
  abbrev pub is_usdc : BalanceLine → Bool
  is_usdc (credit code issuer balance) = str_eq code usdc_code && str_eq issuer usdc_issuer
  is_usdc _ = false

  -- One round of the loop.
  unfoldable pub read_line : BalanceLine → Balances → Outcome AssetsError Balances
  read_line (native balance liabilities) b = do
    xlm ← amount_or_throw (to_stroops balance)
    selling ← amount_or_throw (to_stroops liabilities)
    returned (record b { xlm = xlm; native_selling_liabilities = selling })
  read_line (credit code issuer balance) b =
      if str_eq code usdc_code && str_eq issuer usdc_issuer
      then amount_or_throw (to_stroops balance)
        >>= (λ usdc. returned (record b { usdc = usdc; has_usdc_trustline = true }))
      else returned b
  read_line pool_share b = returned b

  unfoldable pub read_lines : List BalanceLine → Balances → Outcome AssetsError Balances
  read_lines [] b = returned b
  read_lines (line ∷ lines) b = read_line line b >>= read_lines lines

  abbrev pub account_assets :
      Outcome AssetsError (Option ℤ) → AccountResponse → Outcome AssetsError AccountAssets
  account_assets ledger account = do
    b ← read_lines account.balances no_balances
    latest ← ledger
    base_reserve ← ledger_or_throw latest
    position ← position_or_throw (
        calculate_xlm_reserve_position (record {
          balance = b.xlm;
          base_reserve = base_reserve;
          subentry_count = account.subentry_count;
          num_sponsoring = account.num_sponsoring;
          num_sponsored = account.num_sponsored;
          selling_liabilities = b.native_selling_liabilities;
        }))
    returned (record {
      exists = true;
      xlm = b.xlm;
      base_reserve = base_reserve;
      minimum_balance = position.minimum_balance;
      native_selling_liabilities = b.native_selling_liabilities;
      spendable_xlm = position.spendable;
      usdc = b.usdc;
      has_usdc_trustline = b.has_usdc_trustline;
    })

  -- `getAccountAssets`.
  unfoldable pub get_account_assets :
      Outcome LoadFailure AccountResponse
      → Outcome AssetsError (Option ℤ)
      → Outcome AssetsError AccountAssets
  get_account_assets (returned account) ledger = account_assets ledger account
  get_account_assets (thrown not_found) ledger = returned empty_account
  get_account_assets (thrown (other_failure message)) ledger = thrown (horizon message)

  -- `hasTrustline`.
  unfoldable pub has_trustline :
      Outcome LoadFailure AccountResponse
      → Outcome AssetsError (Option ℤ)
      → Outcome AssetsError Bool
  has_trustline account ledger =
      get_account_assets account ledger >>= λ assets. returned assets.has_usdc_trustline
