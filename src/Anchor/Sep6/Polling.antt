-- ===== src/Anchor/Sep6/Polling.antt =====
-- `isTerminalDepositStatus` and the loop of `pollDepositUntilSettled`.
use showup.Prelude.{ℕ, zero, suc, Bool, true, false, Option, none, some, List, [], ◌∷◌}
use showup.Prelude.Outcome.{Outcome, returned, thrown}
use showup.Anchor.Errors.{AnchorError}
use showup.Anchor.Json.{protocol_error}
use showup.Anchor.Types.{
  DepositStatusCode, completed, error, refunded, expired, pending_trust, DepositStatus,
}

abbrev is_terminal_code : DepositStatusCode → Bool
is_terminal_code completed = true
is_terminal_code error = true
is_terminal_code refunded = true
is_terminal_code expired = true
is_terminal_code pending_trust = true
is_terminal_code _ = false

-- `isTerminalDepositStatus`.
unfoldable pub is_terminal_deposit_status : DepositStatus → Bool
is_terminal_deposit_status st = is_terminal_code st.status

-- What the caller sees of the loop: the updates that it is told of, and the pauses.
pub data PollEvent : Type 0 where
  update : DepositStatus → PollEvent
  sleep : PollEvent

pub record Polled : Type 0 where
  pub events : List PollEvent
  pub outcome : Outcome AnchorError DepositStatus

abbrev pub latest_or_error : Option DepositStatus → Outcome AnchorError DepositStatus
latest_or_error none = thrown (protocol_error "The deposit was never read.")
latest_or_error (some st) = returned st

abbrev pub with_events : List PollEvent → Polled → Polled
with_events [] p = p
with_events (e ∷ es) p = let q = with_events es p in record q { events = e ∷ q.events }

-- The end of a round, behind a poll that gave `st`: the later rounds are `rest st`.
abbrev pub settle : Bool → DepositStatus → (DepositStatus → Polled) → Polled
settle true st rest = record { events = update st ∷ []; outcome = returned st }
settle false st rest = with_events (update st ∷ sleep ∷ []) (rest st)

-- One round, with the signal before it and what the poll gives.
abbrev pub poll_round :
    Bool
    → Outcome AnchorError DepositStatus
    → Option DepositStatus
    → (DepositStatus → Polled)
    → Polled
poll_round true polled latest rest = record { events = []; outcome = latest_or_error latest }
poll_round false (thrown e) latest rest = record { events = []; outcome = thrown e }
poll_round false (returned st) latest rest = settle (is_terminal_deposit_status st) st rest

-- `aborted n` says whether the signal is aborted before attempt `n`, and `poll n` is what
-- `pollDeposit` gives at that attempt.
module _ (aborted : ℕ → Bool) (poll : ℕ → Outcome AnchorError DepositStatus) where
  -- The rounds left, the number of the attempt, and the latest status.
  unfoldable pub poll_rounds : ℕ → ℕ → Option DepositStatus → Polled
  poll_rounds zero attempt latest = record { events = []; outcome = latest_or_error latest }
  poll_rounds (suc rounds) attempt latest =
      poll_round (aborted attempt) (poll attempt) latest
        (λ st. poll_rounds rounds (suc attempt) (some st))

  -- `pollDepositUntilSettled` with `maxAttempts`.
  unfoldable pub poll_deposit_until_settled : ℕ → Polled
  poll_deposit_until_settled max_attempts = poll_rounds max_attempts 0 none
