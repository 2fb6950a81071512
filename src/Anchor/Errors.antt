-- ===== src/Anchor/Errors.antt =====
-- apps/web/lib/anchor/errors.ts: one error type with a recovery action.
use showup.Prelude.{
  ℕ, String, Bool, true, false, ◌&&◌, ◌||◌, not, Option, none, some, is_truthy, str_eq, get_or,
  if◌then◌else◌,
}
use showup.Prelude.Text.{codes, trim, is_empty}

-- `AnchorErrorKind`.
pub data AnchorErrorKind : Type 0 where
  unreachable : AnchorErrorKind
  authentication_required : AnchorErrorKind
  server_rejected : AnchorErrorKind
  protocol : AnchorErrorKind
  challenge_invalid : AnchorErrorKind
  demo_tools_disabled : AnchorErrorKind

-- `AnchorRecovery`.
pub data AnchorRecovery : Type 0 where
  retry reauthenticate reprice wait start_fresh_deposit nothing : AnchorRecovery

-- `DEFAULT_RECOVERY`.
abbrev pub default_recovery : AnchorErrorKind → AnchorRecovery
default_recovery unreachable = retry
default_recovery authentication_required = reauthenticate
default_recovery server_rejected = retry
default_recovery protocol = retry
default_recovery challenge_invalid = nothing
default_recovery demo_tools_disabled = nothing

-- `AnchorErrorOptions`, without the `cause` that is only logged.
pub record AnchorErrorOptions : Type 0 where
  pub status : Option ℕ
  pub server_message : Option String
  pub server_type : Option String
  pub endpoint : Option String
  pub recovery : Option AnchorRecovery

-- `AnchorError`.
pub record AnchorError : Type 0 where
  pub kind : AnchorErrorKind
  pub message : String
  pub status : Option ℕ
  pub server_message : Option String
  pub server_type : Option String
  pub endpoint : Option String
  pub recovery : AnchorRecovery

abbrev pub no_options : AnchorErrorOptions
no_options = record {
  status = none;
  server_message = none;
  server_type = none;
  endpoint = none;
  recovery = none;
}

-- The constructor.
unfoldable pub new_anchor_error : AnchorErrorKind → String → AnchorErrorOptions → AnchorError
new_anchor_error kind message options = record {
  kind = kind;
  message = message;
  status = options.status;
  server_message = options.server_message;
  server_type = options.server_type;
  endpoint = options.endpoint;
  recovery = get_or options.recovery (default_recovery kind);
}

-- `s.trim().length > 0`.
unfoldable pub is_blank : String → Bool
is_blank s = is_empty (trim (codes s))

abbrev pub shown : Option String → String → String
shown none message = message
shown (some s) message = if not (str_eq s "") && not (is_blank s) then s else message

-- `userMessage`.
unfoldable pub user_message : AnchorError → String
user_message e = shown e.server_message e.message

abbrev pub is_server_rejected : AnchorErrorKind → Bool
is_server_rejected server_rejected = true
is_server_rejected _ = false

abbrev pub is_authentication_required : AnchorErrorKind → Bool
is_authentication_required authentication_required = true
is_authentication_required _ = false

-- `AnchorOperation` and `OPERATION_FAILURE`.
pub data AnchorOperation : Type 0 where
  sign_in quote deposit : AnchorOperation

unfoldable pub operation_failure : AnchorOperation → String
operation_failure sign_in =
    "The Anchor did not accept the wallet sign-in. Reconnect the same wallet account and try again."
operation_failure quote =
    "The Anchor could not create a firm quote. Check the amount and request a new rate."
operation_failure deposit =
    "The Anchor could not open the deposit. Request a new quote and try again."

-- `contextualizeAnchorError`.
unfoldable pub contextualize_anchor_error : AnchorError → AnchorOperation → AnchorError
unfolding new_anchor_error
contextualize_anchor_error e operation =
    if not (is_server_rejected e.kind) || is_truthy e.server_message
    then e
    else new_anchor_error e.kind (operation_failure operation) (record {
      status = e.status;
      server_message = none;
      server_type = e.server_type;
      endpoint = e.endpoint;
      recovery = some e.recovery;
    })
