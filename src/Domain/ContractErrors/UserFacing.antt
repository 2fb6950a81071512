-- ===== src/Domain/ContractErrors/UserFacing.antt =====
-- `userFacingError`: what is shown for a failure that crosses an SDK or network boundary.
use showup.Prelude.{ℕ, String, Bool, false, ◌||◌, Option, none, some, List, str_eq, if◌then◌else◌}
use showup.Prelude.Text.{codes}
use showup.Domain.ContractErrors.{contract_error_message}

-- A property of an unknown object: a string, a natural number, or anything else.
pub data Property : Type 0 where
  text : String → Property
  number : ℕ → Property
  other : Property

-- The properties of `ErrorLike` that `userFacingError` reads.
pub record ErrorFields : Type 0 where
  pub name : Property
  pub kind : Property
  pub code : Property
  pub user_message : Property

abbrev pub is_text : Property → String → Bool
is_text (text s) t = str_eq s t
is_text _ t = false

-- The `switch` on `value.kind`.
unfoldable pub copy_for_kind : Property → List ℕ → List ℕ
copy_for_kind kind fallback =
    if is_text kind "rejected" || is_text kind "user_rejected"
    then codes "You declined the signature. Nothing was changed on-chain."
    else if is_text kind "wrong_network"
    then codes "Your wallet is not on Stellar Testnet. Switch networks and try again."
    else if is_text kind "no_wallet"
    then codes "Freighter is not available. Install or unlock it, then try again."
    else if is_text kind "mobile_wallet_unconfigured"
    then codes "Mobile wallet connection is not configured for this deployment."
    else if is_text kind "not_connected"
    then codes "Your wallet disconnected. Reconnect and try again."
    else if is_text kind "account_changed"
    then codes
        "Your wallet is using a different account. Reconnect the intended account and try again."
    else if is_text kind "restore_required"
    then codes
        "This on-chain record needs restoration before it can be used. Refresh and try again."
    else if is_text kind "timeout"
    then codes "Stellar is taking longer than expected. Check the transaction link before retrying."
    else if is_text kind "simulation_error"
    then codes
        "The contract rejected the request before signature. Refresh the latest state and try again."
    else if is_text kind "submission_error" || is_text kind "ledger_failure"
    then codes "Stellar could not confirm this transaction. Check its status before retrying."
    else fallback

-- `value.name === "AnchorError" && typeof value.userMessage === "string"`, and then the `switch`.
abbrev anchor_or_kind : ErrorFields → Property → List ℕ → List ℕ
anchor_or_kind e (text message) fallback =
    if is_text e.name "AnchorError" then codes message else copy_for_kind e.kind fallback
anchor_or_kind e _ fallback = copy_for_kind e.kind fallback

abbrev contract_or_rest : ErrorFields → Property → List ℕ → List ℕ
contract_or_rest e (number n) fallback =
    if is_text e.name "ContractError"
    then contract_error_message n
    else anchor_or_kind e e.user_message fallback
contract_or_rest e _ fallback = anchor_or_kind e e.user_message fallback

-- `userFacingError`; `none` is a value that is no object.
unfoldable pub user_facing_error : Option ErrorFields → List ℕ → List ℕ
user_facing_error none fallback = fallback
user_facing_error (some e) fallback = contract_or_rest e e.code fallback
