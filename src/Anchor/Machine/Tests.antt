-- ===== src/Anchor/Machine/Tests.antt =====
-- A deposit from start to claim, and the theorems on the machine at its states.
use showup.Prelude.{false, none, some, List, [], ◌∷◌, ◌≡◌, ◌⊎◌, refl, is_truthy}
use showup.Prelude.Int.{pos}
use showup.Anchor.Types.{
  AnchorConfig, Price, Quote, DepositTicket, DepositStatusCode, DepositStatus,
}
use showup.Anchor.Machine.{
  DepositStateName, DepositState, DepositAction, start, discovered, priced, authenticate,
  authenticated, quoted, started, status_polled, claimed, completed, claim_required,
  initial_deposit_state, deposit_reducer, run, state_for_status,
}
use showup.Anchor.Claim.{needs_claim, is_quote_expired}
use showup.Anchor.Machine.Invariant.{Inv, run-Inv}
use showup.Anchor.Machine.Transitions.{completes_only}

abbrev config : AnchorConfig
config = record {
  home_domain = "tr-mock-anchor.fly.dev";
  network_passphrase = "Test SDF Network ; September 2015";
  signing_key = "GSIGN";
  web_auth_endpoint = "https://a/auth";
  transfer_server = "https://a/sep6";
  quote_server = "https://a/sep38";
  kyc_server = none;
  asset = record { code = "USDC"; issuer = "GISS" };
}

abbrev price : Price
price = record {
  sell_amount = "200";
  buy_amount = "4.08";
  price = "49";
  total_price = "49.01";
  sell_asset = "iso4217:TRY";
  buy_asset = "stellar:USDC:GISS";
  fee = none;
}

abbrev quote : Quote
quote = record { terms = price; id = "q1"; expires_at = pos 900 }

abbrev ticket : DepositTicket
ticket = record {
  id = "d1";
  instructions = record {
    bank_name = none;
    bank_account_number = none;
    account_holder = none;
    external_transfer_memo = none;
    all = [];
  };
  how = none;
  eta = none;
  fee_percent = none;
  more_info_url = none;
  extra_info_message = none;
}

abbrev delivered : DepositStatus
delivered = record {
  id = "d1";
  status = DepositStatusCode.completed;
  raw_status = "completed";
  pending_reason = none;
  treasury_low = false;
  claimable_balance_id = some "cb";
  stellar_transaction_id = none;
  external_transaction_id = none;
  amount_in = none;
  amount_in_asset = none;
  amount_out = none;
  amount_out_asset = none;
  amount_fee = none;
  message = none;
  more_info_url = none;
  refunds = none;
  started_at = none;
  completed_at = none;
}

abbrev opening : List DepositAction
opening =
    start (some "GACC")
    ∷ discovered config
    ∷ priced price
    ∷ authenticate
    ∷ authenticated
    ∷ quoted quote (pos 100)
    ∷ started ticket
    ∷ []

abbrev waiting : DepositState
waiting = record {
  name = DepositStateName.awaiting_bank_transfer;
  context = record {
    config = some config;
    price = some price;
    quote = some quote;
    quote_expired = false;
    expired_quote_price = none;
    ticket = some ticket;
    deposit_id = some "d1";
    status = none;
    claimable_balance_id = none;
    account = some "GACC";
    error = none;
  };
}

opens : run initial_deposit_state opening ≡ waiting
unfolding run deposit_reducer is_quote_expired
opens = refl

claims : (run waiting (status_polled delivered ∷ claimed ∷ [])).name ≡ completed
unfolding run deposit_reducer state_for_status needs_claim
claims = refl

run-Inv_example : Inv (run initial_deposit_state opening)
run-Inv_example = run-Inv opening

abbrev done : DepositState
done = record waiting { name = completed }

abbrev to_claim : DepositState
to_claim = record waiting { name = claim_required }

completes_only_example :
    ((st : DepositStatus) × (claimed ≡ status_polled st)
      × (st.status ≡ DepositStatusCode.completed)
      × (st.treasury_low ≡ false)
      × (is_truthy st.claimable_balance_id ≡ false)
      × (to_claim.context.deposit_id ≡ some st.id))
    ⊎ ((claimed ≡ claimed) × (to_claim.name ≡ claim_required))
unfolding deposit_reducer
completes_only_example = completes_only to_claim claimed (λ e. cc) refl
