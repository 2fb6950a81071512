-- ===== src/Anchor/Sep6/Tests.antt =====
-- A transaction response, three polls of a deposit, and the theorems on them.
use showup.Prelude.{ℕ, zero, suc, ◌<◌, Bool, true, false, none, some, [], ◌∷◌, ◌≡◌, refl, arith}
use showup.Prelude.Outcome.{Outcome, returned}
use showup.Anchor.Errors.{AnchorError}
use showup.Anchor.Json.{
  Json, str, end, field, get, optional_string, require_record, require_string, as_object,
}
use showup.Anchor.Types.{DepositStatusCode, DepositStatus}
use showup.Anchor.Sep6.Codes.{status_of}
use showup.Anchor.Sep6.Parsing.{
  unwrap_transaction_response, parse_deposit_transaction, parse_refunds,
}
use showup.Anchor.Sep6.Polling.{
  is_terminal_deposit_status, update, sleep, poll_rounds, poll_deposit_until_settled,
}
use showup.Anchor.Sep6.Settling.{poll_settles}

abbrev waiting : DepositStatus
waiting = record {
  id = "d1";
  status = DepositStatusCode.pending_anchor;
  raw_status = "pending_anchor";
  pending_reason = some "treasury_low";
  treasury_low = true;
  claimable_balance_id = none;
  stellar_transaction_id = none;
  external_transaction_id = none;
  amount_in = none;
  amount_in_asset = none;
  amount_out = none;
  amount_out_asset = none;
  amount_fee = none;
  message = none;
  more_info_url = none;
  refunds = none;
  started_at = none;
  completed_at = none;
}

abbrev done : DepositStatus
done = record waiting { status = DepositStatusCode.completed; raw_status = "completed" }

abbrev response : Json
response = Json.obj (
    field "transaction"
      (Json.obj (
        field "id" (str "d1") (
          field "status" (str "pending_anchor") (field "pending_reason" (str "treasury_low") end))))
      end)

parses : unwrap_transaction_response response ≡ returned waiting
unfolding unwrap_transaction_response parse_deposit_transaction require_record require_string
    optional_string get as_object parse_refunds status_of
parses = refl

-- The third poll is the first that finds the deposit settled.
abbrev statuses : ℕ → DepositStatus
statuses zero = waiting
statuses (suc zero) = waiting
statuses (suc (suc n)) = done

abbrev poll : ℕ → Outcome AnchorError DepositStatus
poll n = returned (statuses n)

abbrev never : ℕ → Bool
never n = false

unsettled : (i : ℕ) → i < 2 → is_terminal_deposit_status (statuses i) ≡ false
unfolding is_terminal_deposit_status
unsettled zero h = refl
unsettled (suc zero) h = refl
unsettled (suc (suc i)) h = absurd (omega arith)

settled : is_terminal_deposit_status (statuses 2) ≡ true
unfolding is_terminal_deposit_status
settled = refl

poll_settles_example : poll_deposit_until_settled never poll 10 ≡ record {
  events = update waiting ∷ sleep ∷ update waiting ∷ sleep ∷ update done ∷ [];
  outcome = returned done;
}
poll_settles_example =
    poll_settles never poll statuses 2 (λ i h. refl) (λ i h. refl) unsettled settled 10
      (omega arith)

gives_up : (poll_deposit_until_settled never poll 2).outcome ≡ returned waiting
unfolding poll_deposit_until_settled poll_rounds is_terminal_deposit_status
gives_up = refl
