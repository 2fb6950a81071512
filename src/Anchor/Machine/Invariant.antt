-- ===== src/Anchor/Machine/Invariant.antt =====
-- What holds of the machine's state after any sequence of actions.
use showup.Prelude.{Bool, true, false, List, [], ◌∷◌, ◌≡◌, ◌↔◌, arith, is_some}
use showup.Anchor.Machine.{
  DepositStateName, idle, discovering, error, DepositState, DepositAction, initial_deposit_state,
  deposit_reducer, run,
}

-- The states in which a deposit is open or has been delivered.
abbrev pub has_deposit : DepositStateName → Bool
has_deposit DepositStateName.awaiting_bank_transfer = true
has_deposit DepositStateName.anchor_processing = true
has_deposit DepositStateName.treasury_low = true
has_deposit DepositStateName.claim_required = true
has_deposit DepositStateName.completed = true
has_deposit _ = false

-- The states behind discovery.
abbrev pub is_configured : DepositStateName → Bool
is_configured idle = false
is_configured discovering = false
is_configured error = false
is_configured _ = true

pub record Inv (s : DepositState) : Type 0 where
  pub deposit_known : has_deposit s.name ≡ true → is_some s.context.deposit_id ≡ true
  pub config_known : is_configured s.name ≡ true → is_some s.context.config ≡ true
  pub error_shown : (s.name ≡ error) ↔ (is_some s.context.error ≡ true)
  pub expiry_of_quote : s.context.quote_expired ≡ true → is_some s.context.quote ≡ true
  pub reprice_of_quote :
      is_some s.context.expired_quote_price ≡ true → is_some s.context.quote ≡ true

initial-Inv : Inv initial_deposit_state
initial-Inv = ground arith

deposit_reducer-Inv : (s : DepositState) (a : DepositAction) → Inv s → Inv (deposit_reducer s a)
unfolding deposit_reducer
deposit_reducer-Inv s DepositAction.reset h = ground arith
deposit_reducer-Inv s _ h = ground arith

run-Inv_from : (s : DepositState) (actions : List DepositAction) → Inv s → Inv (run s actions)
unfolding run
run-Inv_from s [] h = h
run-Inv_from s (a ∷ actions) h =
    run-Inv_from (deposit_reducer s a) actions (deposit_reducer-Inv s a h)

-- After any actions from the initial state: where a deposit is open, delivered or to be claimed, its
-- id is known; past discovery the anchor's configuration is known, in every state but the error; an
-- error is held exactly in the error state; and a rate is marked as expired, or re-priced, only when
-- there is a firm quote.
pub run-Inv : (actions : List DepositAction) → Inv (run initial_deposit_state actions)
run-Inv actions = run-Inv_from initial_deposit_state actions initial-Inv
