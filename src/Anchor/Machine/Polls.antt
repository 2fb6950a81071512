-- ===== src/Anchor/Machine/Polls.antt =====
-- What a polled status does to the machine.
use showup.Prelude.{
  String, true, false, Option, none, some, ◌≡◌, ◌≢◌, ◌↔◌, ◌⊎◌, inl, inr, refl, arith, eq_iff,
  coalesce, is_truthy,
}
use showup.Anchor.Types.{DepositStatusCode, pending_trust, refunded, expired, DepositStatus}
use showup.Anchor.Claim.{needs_claim}
use showup.Anchor.Machine.{
  error, treasury_low, claim_required, completed, DepositState, status_polled, can_accept_poll,
  polls_deposit, deposit_reducer, state_for_status, poll_error,
}

-- A poll for another deposit, without one, or in a state that takes no polls, changes nothing.
pub stale_poll_ignored :
    (s : DepositState) (st : DepositStatus)
    → ((can_accept_poll s.name ≡ false) ⊎ (s.context.deposit_id ≢ some st.id))
    → deposit_reducer s (status_polled st) ≡ s
unfolding deposit_reducer
stale_poll_ignored s st (inl h) = ground arith
stale_poll_ignored s st (inr h) = stale s.context.deposit_id refl
  where
    stale :
        (d : Option String) → s.context.deposit_id ≡ d → deposit_reducer s (status_polled st) ≡ s
    stale none e = ground arith
    stale (some id) e = ground (arith, eq_iff st.id id, h)

-- A poll of the open deposit moves to the state that its status implies, keeps the deposit, records
-- the status, and replaces the claimable balance id only by another one; only a failed, refunded or
-- expired deposit gives an error.
pub accepted_poll :
    (s : DepositState) (st : DepositStatus)
    → can_accept_poll s.name ≡ true
    → s.context.deposit_id ≡ some st.id
    → st.id ≢ ""
    → let t = deposit_reducer s (status_polled st) in
      (t.name ≡ state_for_status st)
      × (t.context.deposit_id ≡ s.context.deposit_id)
      × (t.context.status ≡ some st)
      × (t.context.claimable_balance_id
          ≡ coalesce st.claimable_balance_id s.context.claimable_balance_id)
      × (state_for_status st ≢ error → t.context.error ≡ s.context.error)
      × (state_for_status st ≡ error → t.context.error ≡ some (poll_error st))
unfolding deposit_reducer
accepted_poll s st h k n = ground (arith, eq_iff st.id "", eq_iff st.id st.id)

-- The state implied by a status: an error exactly for the three failed codes, whatever else it
-- carries; otherwise the empty treasury goes first, then a balance that waits to be claimed, so a
-- deposit counts as completed only when its code says so and nothing is left to claim.
pub state_for_status_lem :
    (st : DepositStatus)
    → ((state_for_status st ≡ error)
        ↔ ((st.status ≡ DepositStatusCode.error) ⊎ (st.status ≡ refunded) ⊎ (st.status ≡ expired)))
      × ((state_for_status st ≡ treasury_low) ↔ (
          (st.treasury_low ≡ true)
          × (st.status ≢ DepositStatusCode.error)
          × (st.status ≢ refunded)
          × (st.status ≢ expired)))
      × ((state_for_status st ≡ claim_required) ↔ (
          (st.treasury_low ≡ false)
          × ((st.status ≡ pending_trust)
              ⊎ ((st.status ≡ DepositStatusCode.completed)
                  × (is_truthy st.claimable_balance_id ≡ true)))))
      × ((state_for_status st ≡ completed) ↔ (
          (st.treasury_low ≡ false)
          × (st.status ≡ DepositStatusCode.completed)
          × (is_truthy st.claimable_balance_id ≡ false)))
unfolding state_for_status needs_claim
state_for_status_lem st = (ground arith, ground arith, ground arith, ground arith)

polls_deposit-eq :
    (d : Option String) (st : DepositStatus) → polls_deposit d st ≡ true → d ≡ some st.id
polls_deposit-eq none st h = cc
polls_deposit-eq (some id) st h = ground (arith, eq_iff st.id id)

-- A poll that completes the flow belongs to the open deposit, and its status implies completion.
pub poll-completed :
    (s : DepositState) (st : DepositStatus)
    → s.name ≢ completed
    → (deposit_reducer s (status_polled st)).name ≡ completed
    → (s.context.deposit_id ≡ some st.id) × (state_for_status st ≡ completed)
unfolding deposit_reducer
poll-completed s st h k = ground (arith, polls_deposit-eq s.context.deposit_id st)
