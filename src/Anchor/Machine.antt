-- ===== src/Anchor/Machine.antt =====
-- apps/web/lib/anchor/machine.ts: the reducer of the deposit flow.
pub mod Invariant
pub mod Polls
pub mod Transitions
mod Tests
use showup.Prelude.{
  String, Bool, true, false, ◌&&◌, ◌||◌, not, Option, none, some, List, [], ◌∷◌, str_eq, coalesce,
  is_truthy, is_some, if◌then◌else◌,
}
use showup.Prelude.Int.{ℤ}
use showup.Anchor.Types.{
  AnchorConfig, Price, Quote, DepositTicket, DepositStatusCode, incomplete,
  pending_user_transfer_start, refunded, expired, DepositStatus,
}
use showup.Anchor.Errors.{
  AnchorError, new_anchor_error, server_rejected, start_fresh_deposit, no_options,
}
use showup.Anchor.Claim.{needs_claim, is_quote_expired}

-- `DepositStateName`.
pub data DepositStateName : Type 0 where
  idle : DepositStateName
  discovering : DepositStateName
  pricing : DepositStateName
  authenticating : DepositStateName
  quoting : DepositStateName
  deposit_started : DepositStateName
  awaiting_bank_transfer : DepositStateName
  anchor_processing : DepositStateName
  treasury_low : DepositStateName
  completed : DepositStateName
  claim_required : DepositStateName
  error : DepositStateName

-- `DepositContext`.
pub record DepositContext : Type 0 where
  pub config : Option AnchorConfig
  pub price : Option Price
  pub quote : Option Quote
  pub quote_expired : Bool
  pub expired_quote_price : Option Price
  pub ticket : Option DepositTicket
  pub deposit_id : Option String
  pub status : Option DepositStatus
  pub claimable_balance_id : Option String
  pub account : Option String
  pub error : Option AnchorError

-- `DepositState`.
pub record DepositState : Type 0 where
  pub name : DepositStateName
  pub context : DepositContext

-- `DepositAction`.
pub data DepositAction : Type 0 where
  start : Option String → DepositAction
  resume : String → AnchorConfig → String → Option String → DepositAction
  discovered : AnchorConfig → DepositAction
  priced : Price → DepositAction
  authenticate : DepositAction
  authenticated : DepositAction
  quoted : Quote → ℤ → DepositAction
  quote_expiry_checked : ℤ → DepositAction
  quote_repriced : String → Price → DepositAction
  quote_skipped : DepositAction
  started : DepositTicket → DepositAction
  status_polled : DepositStatus → DepositAction
  claimed : DepositAction
  failed : AnchorError → DepositAction
  reset : DepositAction

abbrev pub empty_context : DepositContext
empty_context = record {
  config = none;
  price = none;
  quote = none;
  quote_expired = false;
  expired_quote_price = none;
  ticket = none;
  deposit_id = none;
  status = none;
  claimable_balance_id = none;
  account = none;
  error = none;
}

-- `initialDepositState`.
abbrev pub initial_deposit_state : DepositState
initial_deposit_state = record { name = idle; context = empty_context }

abbrev pub is_terminal_name : DepositStateName → Bool
is_terminal_name completed = true
is_terminal_name error = true
is_terminal_name _ = false

-- `isTerminalState`, `isWaitingOnAnchor` and `shouldPoll`.
unfoldable pub is_terminal_state : DepositState → Bool
is_terminal_state s = is_terminal_name s.name

abbrev waits : DepositStateName → Bool
waits anchor_processing = true
waits treasury_low = true
waits _ = false

unfoldable pub is_waiting_on_anchor : DepositState → Bool
is_waiting_on_anchor s = waits s.name

abbrev polls : DepositStateName → Bool
polls deposit_started = true
polls awaiting_bank_transfer = true
polls anchor_processing = true
polls treasury_low = true
polls _ = false

unfoldable pub should_poll : DepositState → Bool
should_poll s = polls s.name

abbrev failed_status : DepositStatusCode → Bool
failed_status DepositStatusCode.error = true
failed_status refunded = true
failed_status expired = true
failed_status _ = false

abbrev completed_status : DepositStatusCode → Bool
completed_status DepositStatusCode.completed = true
completed_status _ = false

abbrev awaiting_status : DepositStatusCode → Bool
awaiting_status pending_user_transfer_start = true
awaiting_status incomplete = true
awaiting_status _ = false

-- `stateForStatus`, its checks in the order of the source.
unfoldable pub state_for_status : DepositStatus → DepositStateName
state_for_status s =
    if failed_status s.status
    then error
    else if s.treasury_low
    then treasury_low
    else if needs_claim s
    then claim_required
    else if completed_status s.status
    then completed
    else if awaiting_status s.status
    then awaiting_bank_transfer
    else anchor_processing

abbrev is_discovering : DepositStateName → Bool
is_discovering discovering = true
is_discovering _ = false

abbrev is_pricing : DepositStateName → Bool
is_pricing pricing = true
is_pricing _ = false

abbrev is_authenticating : DepositStateName → Bool
is_authenticating authenticating = true
is_authenticating _ = false

abbrev is_quoting : DepositStateName → Bool
is_quoting quoting = true
is_quoting _ = false

abbrev is_deposit_started : DepositStateName → Bool
is_deposit_started deposit_started = true
is_deposit_started _ = false

abbrev is_claim_required : DepositStateName → Bool
is_claim_required claim_required = true
is_claim_required _ = false

abbrev is_error : DepositStateName → Bool
is_error error = true
is_error _ = false

-- `canAcceptPoll`.
abbrev pub can_accept_poll : DepositStateName → Bool
can_accept_poll awaiting_bank_transfer = true
can_accept_poll anchor_processing = true
can_accept_poll treasury_low = true
can_accept_poll claim_required = true
can_accept_poll _ = false

-- `a === b` for booleans.
abbrev same_bool : Bool → Bool → Bool
same_bool true b = b
same_bool false b = not b

-- `quote?.id !== id`, negated.
abbrev quote_has_id : Option Quote → String → Bool
quote_has_id none id = false
quote_has_id (some q) id = str_eq q.id id

-- `depositId` is set, is not empty and is the id of the status.
abbrev pub polls_deposit : Option String → DepositStatus → Bool
polls_deposit none st = false
polls_deposit (some id) st = not (str_eq id "") && str_eq st.id id

-- The context after an accepted poll.
abbrev polled_context : DepositContext → DepositStatus → DepositContext
polled_context c st = record c {
  status = some st;
  claimable_balance_id = coalesce st.claimable_balance_id c.claimable_balance_id;
}

-- The error of a deposit that the anchor could not complete.
unfoldable pub poll_error : DepositStatus → AnchorError
poll_error st =
    new_anchor_error server_rejected "The Anchor could not complete this deposit."
      (record no_options { server_message = st.message; recovery = some start_fresh_deposit })

-- The case `QUOTE_EXPIRY_CHECKED`.
abbrev check_expiry : Option Quote → DepositState → ℤ → DepositState
check_expiry none s now = s
check_expiry (some q) s now =
    if same_bool (is_quote_expired q now) s.context.quote_expired
    then s
    else record s { context = record s.context { quote_expired = is_quote_expired q now } }

-- The case `STATUS_POLLED`.
abbrev poll : DepositState → DepositStatus → DepositState
poll s st =
    if not (can_accept_poll s.name) || not (polls_deposit s.context.deposit_id st)
    then s
    else if is_error (state_for_status st)
    then record {
      name = error;
      context = record (polled_context s.context st) { error = some (poll_error st) };
    }
    else record { name = state_for_status st; context = polled_context s.context st }

-- `depositReducer`.
unfoldable pub deposit_reducer : DepositState → DepositAction → DepositState
deposit_reducer s reset = initial_deposit_state
deposit_reducer s (failed e) = record {
  name = error;
  context = record s.context { error = some e };
}
deposit_reducer s (start account) = record {
  name = discovering;
  context = record empty_context { account = coalesce account s.context.account };
}
deposit_reducer s (resume account config deposit_id claimable) = record {
  name = if is_truthy claimable then claim_required else awaiting_bank_transfer;
  context = record empty_context {
    account = some account;
    config = some config;
    deposit_id = some deposit_id;
    claimable_balance_id = claimable;
  };
}
deposit_reducer s (discovered config) =
    if not (is_discovering s.name)
    then s
    else record { name = pricing; context = record s.context { config = some config } }
deposit_reducer s (priced price) =
    if not (is_pricing s.name)
    then record s { context = record s.context { price = some price } }
    else record { name = pricing; context = record s.context { price = some price } }
deposit_reducer s authenticate =
    if not (is_pricing s.name) then s else record { name = authenticating; context = s.context }
deposit_reducer s authenticated =
    if not (is_authenticating s.name) then s else record { name = quoting; context = s.context }
deposit_reducer s (quoted quote now) = if not (is_quoting s.name) then s else record {
  name = deposit_started;
  context = record s.context {
    quote = some quote;
    quote_expired = is_quote_expired quote now;
    expired_quote_price = none;
  };
}
deposit_reducer s (quote_expiry_checked now) = check_expiry s.context.quote s now
deposit_reducer s (quote_repriced quote_id price) =
    if not s.context.quote_expired || not (quote_has_id s.context.quote quote_id)
    then s
    else record s { context = record s.context { expired_quote_price = some price } }
deposit_reducer s quote_skipped =
    if not (is_quoting s.name) then s else record { name = deposit_started; context = s.context }
deposit_reducer s (started ticket) =
    if not (is_deposit_started s.name) && not (is_quoting s.name) then s else record {
      name = awaiting_bank_transfer;
      context = record s.context { ticket = some ticket; deposit_id = some ticket.id };
    }
deposit_reducer s (status_polled st) = poll s st
deposit_reducer s claimed =
    if not (is_claim_required s.name)
    then s
    else record { name = completed; context = record s.context { claimable_balance_id = none } }

-- A run of the reducer over a sequence of actions.
unfoldable pub run : DepositState → List DepositAction → DepositState
run s [] = s
run s (a ∷ actions) = run (deposit_reducer s a) actions
