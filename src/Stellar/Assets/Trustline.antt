-- ===== src/Stellar/Assets/Trustline.antt =====
-- What the assets of an account tell.
use showup.Prelude.{
  ℕ, String, true, ◌||◌, Option, none, some, List, [], ◌∷◌, ◌≡◌, ◌⊎◌, refl, inl, inr, sym, ◌∙◌, ap,
  arith, any, Bool-cases, coalesce, subst, ◌&&◌, str_eq, if◌then◌else◌,
}
use showup.Prelude.Int.{ℤ, pos}
use showup.Prelude.Outcome.{Outcome, returned, thrown, >>=-returned}
use showup.Domain.Amounts.{AmountError, to_stroops}
use showup.Stellar.Reserve.{XlmReservePosition, ReserveError, calculate_xlm_reserve_position}
use showup.Stellar.Assets.{
  BalanceLine, native, credit, pool_share, AccountResponse, LoadFailure, not_found, other_failure,
  AssetsError, AccountAssets, empty_account, Balances, no_balances, amount_or_throw,
  position_or_throw, ledger_or_throw, is_usdc, read_line, read_lines, account_assets,
  get_account_assets,
}

-- The last text that `f` finds in the lines.
abbrev pub last_of : (BalanceLine → Option (List ℕ)) → List BalanceLine → Option (List ℕ)
last_of f [] = none
last_of f (line ∷ lines) = coalesce (last_of f lines) (f line)

-- `value` is the amount of a text, or `before` where there is none.
abbrev pub IsAmount : ℤ → Option (List ℕ) → ℤ → Type 0
IsAmount before none value = value ≡ before
IsAmount before (some s) value = to_stroops s ≡ returned value

IsAmount-trans :
    (a b c : ℤ) (o p : Option (List ℕ))
    → IsAmount a o b
    → IsAmount b p c
    → IsAmount a (coalesce p o) c
IsAmount-trans a b c o (some s) h k = k
IsAmount-trans a b c o none h k = subst (IsAmount a o) (sym k) h

amount-returned :
    (m : Outcome AmountError ℤ) {a : ℤ} → amount_or_throw m ≡ returned a → m ≡ returned a
amount-returned (returned b) h = ground (arith, h)
amount-returned (thrown e) h = cc

position-returned :
    (m : Outcome ReserveError XlmReservePosition) {p : XlmReservePosition}
    → position_or_throw m ≡ returned p
    → m ≡ returned p
position-returned (returned q) h = ground (arith, h)
position-returned (thrown e) h = cc

ledger-returned : (o : Option ℤ) {r : ℤ} → ledger_or_throw o ≡ returned r → o ≡ some r
ledger-returned (some q) h = ground (arith, h)
ledger-returned none h = cc

abbrev pub native_text : BalanceLine → Option (List ℕ)
native_text (native balance liabilities) = some balance
native_text _ = none

abbrev pub liabilities_text : BalanceLine → Option (List ℕ)
liabilities_text (native balance liabilities) = some liabilities
liabilities_text _ = none

module _ (usdc_code usdc_issuer : String) where
  abbrev pub usdc_text : BalanceLine → Option (List ℕ)
  usdc_text (credit code issuer balance) =
      if str_eq code usdc_code && str_eq issuer usdc_issuer then some balance else none
  usdc_text _ = none

  -- What the lines made of the variables.
  record Read (lines : List BalanceLine) (b b' : Balances) : Type 0 where
    xlm : IsAmount b.xlm (last_of native_text lines) b'.xlm
    selling :
        IsAmount b.native_selling_liabilities
          (last_of liabilities_text lines)
          b'.native_selling_liabilities
    usdc : IsAmount b.usdc (last_of usdc_text lines) b'.usdc
    trusted :
        b'.has_usdc_trustline ≡ (b.has_usdc_trustline || any (is_usdc usdc_code usdc_issuer) lines)

  record ReadLine (line : BalanceLine) (b b' : Balances) : Type 0 where
    xlm : IsAmount b.xlm (native_text line) b'.xlm
    selling :
        IsAmount b.native_selling_liabilities (liabilities_text line) b'.native_selling_liabilities
    usdc : IsAmount b.usdc (usdc_text line) b'.usdc
    trusted : b'.has_usdc_trustline ≡ (b.has_usdc_trustline || is_usdc usdc_code usdc_issuer line)

  read_line-ReadLine :
      (line : BalanceLine) (b b' : Balances)
      → read_line usdc_code usdc_issuer line b ≡ returned b'
      → ReadLine line b b'
  unfolding read_line
  read_line-ReadLine (native balance liabilities) b b' h =
      let (xlm, x, h1) = >>=-returned (amount_or_throw (to_stroops balance)) _ h in
      let (selling, l, h2) = >>=-returned (amount_or_throw (to_stroops liabilities)) _ h1 in
      record {
        xlm = amount-returned (to_stroops balance) x ∙ ground (arith, h2);
        selling = amount-returned (to_stroops liabilities) l ∙ ground (arith, h2);
        usdc = ground (arith, h2);
        trusted = ground (arith, h2);
      }
  read_line-ReadLine (credit code issuer balance) b b' h =
      elim (Bool-cases (str_eq code usdc_code && str_eq issuer usdc_issuer)) [
        | inl same ↦
            let (usdc, u, h1) =
              >>=-returned (amount_or_throw (to_stroops balance))
                (λ usdc. returned (record b { usdc = usdc; has_usdc_trustline = true }))
                (rw same at h) in
            record {
              xlm = ground (arith, h1);
              selling = ground (arith, h1);
              usdc = rw same (amount-returned (to_stroops balance) u ∙ ground (arith, h1));
              trusted = ground (arith, h1, same);
            }
        | inr differs ↦
            let kept : b ≡ b' = ground (arith, h, differs) in
            record {
              xlm = ground (arith, kept);
              selling = ground (arith, kept);
              usdc = rw differs (ground (arith, kept));
              trusted = ground (arith, kept, differs);
            }
      ]
  read_line-ReadLine pool_share b b' h = record {
    xlm = ground (arith, h);
    selling = ground (arith, h);
    usdc = ground (arith, h);
    trusted = ground (arith, h);
  }

  read_lines-Read :
      (lines : List BalanceLine) (b b' : Balances)
      → read_lines usdc_code usdc_issuer lines b ≡ returned b'
      → Read lines b b'
  unfolding read_lines
  read_lines-Read [] b b' h = record {
    xlm = ground (arith, h);
    selling = ground (arith, h);
    usdc = ground (arith, h);
    trusted = ground (arith, h);
  }
  read_lines-Read (line ∷ lines) b b' h =
      let (b1, first, rest) =
        >>=-returned (read_line usdc_code usdc_issuer line b)
          (read_lines usdc_code usdc_issuer lines) h in
      let f = read_line-ReadLine line b b1 first in
      let r = read_lines-Read lines b1 b' rest in
      record {
        xlm = IsAmount-trans b.xlm b1.xlm b'.xlm _ (last_of native_text lines) f.xlm r.xlm;
        selling =
            IsAmount-trans b.native_selling_liabilities b1.native_selling_liabilities
              b'.native_selling_liabilities _ (last_of liabilities_text lines) f.selling r.selling;
        usdc = IsAmount-trans b.usdc b1.usdc b'.usdc _ (last_of usdc_text lines) f.usdc r.usdc;
        trusted = ground (arith, f.trusted, r.trusted);
      }

  -- The assets of an account that exists.
  pub record Told (account : AccountResponse) (ledger : Outcome AssetsError (Option ℤ))
      (assets : AccountAssets) : Type 0 where
    pub position : XlmReservePosition
    pub xlm : IsAmount (pos 0) (last_of native_text account.balances) assets.xlm
    pub selling :
        IsAmount
          (pos 0)
          (last_of liabilities_text account.balances)
          assets.native_selling_liabilities
    pub usdc : IsAmount (pos 0) (last_of usdc_text account.balances) assets.usdc
    pub trusted : assets.has_usdc_trustline ≡ any (is_usdc usdc_code usdc_issuer) account.balances
    pub reserved : ledger ≡ returned (some assets.base_reserve)
    pub positioned :
        calculate_xlm_reserve_position (record {
          balance = assets.xlm;
          base_reserve = assets.base_reserve;
          subentry_count = account.subentry_count;
          num_sponsoring = account.num_sponsoring;
          num_sponsored = account.num_sponsored;
          selling_liabilities = assets.native_selling_liabilities;
        })
        ≡ returned position
    pub spendable : assets.spendable_xlm ≡ position.spendable
    pub minimum : assets.minimum_balance ≡ position.minimum_balance
    pub exists : assets.exists ≡ true

  account_assets-Told :
      (account : AccountResponse) (ledger : Outcome AssetsError (Option ℤ)) (assets : AccountAssets)
      → account_assets usdc_code usdc_issuer ledger account ≡ returned assets
      → Told account ledger assets
  account_assets-Told account ledger assets h =
      let (b, lines, h1) =
        >>=-returned (read_lines usdc_code usdc_issuer account.balances no_balances) _ h in
      let (latest, l, h2) = >>=-returned ledger _ h1 in
      let (base_reserve, r, h3) = >>=-returned (ledger_or_throw latest) _ h2 in
      let (position, p, h4) =
        >>=-returned
          (position_or_throw (
            calculate_xlm_reserve_position (record {
              balance = b.xlm;
              base_reserve = base_reserve;
              subentry_count = account.subentry_count;
              num_sponsoring = account.num_sponsoring;
              num_sponsored = account.num_sponsored;
              selling_liabilities = b.native_selling_liabilities;
            })))
          _ h3 in
      let read = read_lines-Read account.balances no_balances b lines in
      subst (Told account ledger) (ground (arith, h4)) (record {
        position = position;
        xlm = read.xlm;
        selling = read.selling;
        usdc = read.usdc;
        trusted = read.trusted;
        reserved = l ∙ ap returned (ledger-returned latest r);
        positioned = position-returned _ p;
        spendable = refl;
        minimum = refl;
        exists = refl;
      })

  -- The assets that are returned: those of the empty account where Horizon does not know the account,
  -- and otherwise those of an account that exists. Its XLM, its liabilities and its USDC are the amounts
  -- of the last lines that hold them, or nothing; it has the trustline exactly when a line is of the
  -- asset, by code and issuer; and what it may spend is the position of these amounts under the base
  -- reserve of the latest ledger.
  pub get_account_assets-Told :
      (loaded : Outcome LoadFailure AccountResponse) (ledger : Outcome AssetsError (Option ℤ))
      (assets : AccountAssets)
      → get_account_assets usdc_code usdc_issuer loaded ledger ≡ returned assets
      → ((loaded ≡ thrown not_found) × (assets ≡ empty_account))
        ⊎ ((account : AccountResponse) × (loaded ≡ returned account) × Told account ledger assets)
  unfolding get_account_assets
  get_account_assets-Told (returned account) ledger assets h =
      inr (account, refl, account_assets-Told account ledger assets h)
  get_account_assets-Told (thrown not_found) ledger assets h = inl (refl, ground (arith, h))
  get_account_assets-Told (thrown (other_failure message)) ledger assets h = cc
