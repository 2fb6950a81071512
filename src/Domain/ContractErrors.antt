-- ===== src/Domain/ContractErrors.antt =====
-- apps/web/lib/domain/errors.ts: the contract's error codes and the copy shown for them.
pub mod Copy
pub mod UserFacing
pub mod Hash
mod Tests
use showup.Prelude.{
  ℕ, suc, String, Bool, Option, none, some, List, [], ◌∷◌, ◌++◌, ◌==◌, is_some, if◌then◌else◌,
}
use showup.Prelude.Text.{codes, to_decimal}

-- `ContractErrorCode`.
pub data ContractErrorCode : Type 0 where
  not_found : ContractErrorCode
  not_active : ContractErrorCode
  already_reserved : ContractErrorCode
  event_full : ContractErrorCode
  not_locked : ContractErrorCode
  check_in_not_open : ContractErrorCode
  check_in_window_closed : ContractErrorCode
  cancellation_deadline_passed : ContractErrorCode
  settlement_too_early : ContractErrorCode
  invalid_basis_points : ContractErrorCode
  invalid_schedule : ContractErrorCode
  invalid_amount : ContractErrorCode
  overflow : ContractErrorCode
  event_not_cancelled : ContractErrorCode

-- The value of a member of the `enum`.
abbrev pub code_value : ContractErrorCode → ℕ
code_value not_found = 1
code_value not_active = 2
code_value already_reserved = 3
code_value event_full = 4
code_value not_locked = 5
code_value check_in_not_open = 6
code_value check_in_window_closed = 7
code_value cancellation_deadline_passed = 8
code_value settlement_too_early = 9
code_value invalid_basis_points = 10
code_value invalid_schedule = 11
code_value invalid_amount = 12
code_value overflow = 13
code_value event_not_cancelled = 14

abbrev pub all_codes : List ContractErrorCode
all_codes =
    not_found ∷ not_active ∷ already_reserved ∷ event_full ∷ not_locked ∷ check_in_not_open
    ∷ check_in_window_closed ∷ cancellation_deadline_passed ∷ settlement_too_early
    ∷ invalid_basis_points ∷ invalid_schedule ∷ invalid_amount ∷ overflow ∷ event_not_cancelled ∷ []

-- The member of a list of codes with the value `n`.
unfoldable pub find_code : List ContractErrorCode → ℕ → Option ContractErrorCode
find_code [] n = none
find_code (c ∷ cs) n = if code_value c == n then some c else find_code cs n

-- The key of the tables below that is the property `n`.
unfoldable pub code_of : ℕ → Option ContractErrorCode
unfolding find_code
code_of n = find_code all_codes n

-- `isContractErrorCode`.
unfoldable pub is_contract_error_code : ℕ → Bool
is_contract_error_code n = is_some (code_of n)

-- `CONTRACT_ERROR_NAMES`.
unfoldable pub contract_error_names : ContractErrorCode → String
contract_error_names not_found = "NotFound"
contract_error_names not_active = "NotActive"
contract_error_names already_reserved = "AlreadyReserved"
contract_error_names event_full = "EventFull"
contract_error_names not_locked = "NotLocked"
contract_error_names check_in_not_open = "CheckInNotOpen"
contract_error_names check_in_window_closed = "CheckInWindowClosed"
contract_error_names cancellation_deadline_passed = "CancellationDeadlinePassed"
contract_error_names settlement_too_early = "SettlementTooEarly"
contract_error_names invalid_basis_points = "InvalidBasisPoints"
contract_error_names invalid_schedule = "InvalidSchedule"
contract_error_names invalid_amount = "InvalidAmount"
contract_error_names overflow = "Overflow"
contract_error_names event_not_cancelled = "EventNotCancelled"

-- `CONTRACT_ERROR_MESSAGES`.
unfoldable pub contract_error_messages : ContractErrorCode → String
contract_error_messages not_found = "That event or reservation was not found on-chain."
contract_error_messages not_active =
    "This event has been cancelled, so it can no longer be reserved, checked in or settled."
contract_error_messages already_reserved = "You already hold a reservation for this event."
contract_error_messages event_full =
    "The last seat was taken while your transaction was being sent. No bond was taken, though a signed transaction may still have paid a network fee."
contract_error_messages not_locked =
    "This bond has already been released — it was checked in, cancelled, refunded or settled."
contract_error_messages check_in_not_open = "Check-in has not opened yet for this event."
contract_error_messages check_in_window_closed = "The check-in window for this event has closed."
contract_error_messages cancellation_deadline_passed =
    "The cancellation window has closed, so this reservation can no longer be cancelled."
contract_error_messages settlement_too_early =
    "This reservation cannot be settled until the check-in deadline has passed."
contract_error_messages invalid_basis_points =
    "The organizer and community shares must add up to exactly 100%."
contract_error_messages invalid_schedule =
    "The schedule is out of order: the cancellation deadline, check-in window and start time do not line up."
contract_error_messages invalid_amount =
    "The bond amount, capacity, title or venue is outside the range the contract accepts."
contract_error_messages overflow =
    "The amounts in this request are too large for the contract to handle."
contract_error_messages event_not_cancelled =
    "This event is still active, so there is no cancelled-event refund to claim."

abbrev name_or_unknown : Option ContractErrorCode → String
name_or_unknown none = "Unknown"
name_or_unknown (some c) = contract_error_names c

-- `contractErrorName`.
unfoldable pub contract_error_name : ℕ → String
contract_error_name n = name_or_unknown (code_of n)

abbrev message_or_unknown : ℕ → Option ContractErrorCode → List ℕ
message_or_unknown n none =
    codes "The contract rejected this call with error code " ++ (to_decimal n ++ codes ".")
message_or_unknown n (some c) = codes (contract_error_messages c)

-- `contractErrorMessage`, as the list of its characters.
unfoldable pub contract_error_message : ℕ → List ℕ
contract_error_message n = message_or_unknown n (code_of n)
