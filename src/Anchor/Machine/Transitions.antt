-- ===== src/Anchor/Machine/Transitions.antt =====
-- Which actions can lead into, out of and around the machine's states.
use showup.Prelude.{Bool, true, false, some, ◌≡◌, ◌≢◌, ◌⊎◌, inl, String, refl, arith, is_truthy}
use showup.Prelude.Int.{ℤ}
use showup.Anchor.Types.{DepositStatusCode, Price, DepositStatus}
use showup.Anchor.Machine.{
  completed, claim_required, DepositState, DepositAction, start, resume, quote_expiry_checked,
  quote_repriced, status_polled, claimed, failed, reset, deposit_reducer, is_terminal_state,
}
use showup.Anchor.Machine.Polls.{state_for_status_lem, poll-completed}

-- The user's actions that leave a terminal state.
abbrev pub restarts : DepositAction → Bool
restarts (start _) = true
restarts (resume _ _ _ _) = true
restarts (failed _) = true
restarts reset = true
restarts _ = false

-- A finished or failed flow keeps its state under every action but a new start, a resumed deposit, a
-- reset or a failure.
pub terminal_stays :
    (s : DepositState) (a : DepositAction)
    → is_terminal_state s ≡ true
    → restarts a ≡ false
    → (deposit_reducer s a).name ≡ s.name
unfolding deposit_reducer is_terminal_state
terminal_stays s reset h k = ground arith
terminal_stays s _ h k = ground arith

-- The flow becomes completed in two ways only: by a poll of the open deposit whose status is completed
-- with a treasury that is not low and no claimable balance, or by the claim of one that was required.
pub completes_only :
    (s : DepositState) (a : DepositAction)
    → s.name ≢ completed
    → (deposit_reducer s a).name ≡ completed
    → ((st : DepositStatus) × (a ≡ status_polled st)
        × (st.status ≡ DepositStatusCode.completed)
        × (st.treasury_low ≡ false)
        × (is_truthy st.claimable_balance_id ≡ false)
        × (s.context.deposit_id ≡ some st.id))
      ⊎ ((a ≡ claimed) × (s.name ≡ claim_required))
unfolding deposit_reducer
completes_only s reset h k = ground arith
completes_only s (status_polled st) h k =
    let (same, implied) = poll-completed s st h k in
    let (calm, code, unclaimed) = (state_for_status_lem st).3.0 implied in
    inl (st, refl, code, calm, unclaimed, same)
completes_only s claimed h k = ground arith
completes_only s _ h k = ground arith

-- An expired quote never blocks: checking its expiry and re-pricing it leave the state's name, the
-- deposit, the ticket, the quote and the error as they are.
pub expiry_never_blocks :
    (s : DepositState) (now : ℤ) (quote_id : String) (price : Price)
    → let t =
        deposit_reducer
          (deposit_reducer s (quote_expiry_checked now))
          (quote_repriced quote_id price) in
      (t.name ≡ s.name)
      × (t.context.deposit_id ≡ s.context.deposit_id)
      × (t.context.ticket ≡ s.context.ticket)
      × (t.context.quote ≡ s.context.quote)
      × (t.context.error ≡ s.context.error)
unfolding deposit_reducer
expiry_never_blocks s now quote_id price = ground arith
