-- ===== src/Anchor/Sep6/Codes.antt =====
-- `KNOWN_STATUSES`: the status codes by their text.
use showup.Prelude.{
  String, List, [], ◌∷◌, ◌≡◌, ◌⊎◌, inr, refl, arith, str_eq, eq_iff, if◌then◌else◌,
}
use showup.Anchor.Types.{
  DepositStatusCode, incomplete, pending_user_transfer_start, pending_user_transfer_complete,
  pending_external, pending_anchor, pending_stellar, pending_trust, pending_customer_info_update,
  completed, refunded, expired, error, unknown,
}

-- The text of a code; `unknown` is the text of no known status.
abbrev pub code_text : DepositStatusCode → String
code_text incomplete = "incomplete"
code_text pending_user_transfer_start = "pending_user_transfer_start"
code_text pending_user_transfer_complete = "pending_user_transfer_complete"
code_text pending_external = "pending_external"
code_text pending_anchor = "pending_anchor"
code_text pending_stellar = "pending_stellar"
code_text pending_trust = "pending_trust"
code_text pending_customer_info_update = "pending_customer_info_update"
code_text completed = "completed"
code_text refunded = "refunded"
code_text expired = "expired"
code_text error = "error"
code_text unknown = "unknown"

-- `KNOWN_STATUSES`.
abbrev pub known_statuses : List DepositStatusCode
known_statuses =
    incomplete ∷ pending_user_transfer_start ∷ pending_user_transfer_complete ∷ pending_external
    ∷ pending_anchor ∷ pending_stellar ∷ pending_trust ∷ pending_customer_info_update ∷ completed
    ∷ refunded ∷ expired ∷ error ∷ []

-- The code in the list whose text is `raw`.
unfoldable pub find_code : List DepositStatusCode → String → DepositStatusCode
find_code [] raw = unknown
find_code (c ∷ cs) raw = if str_eq (code_text c) raw then c else find_code cs raw

-- `KNOWN_STATUSES.has(rawStatus) ? rawStatus : "unknown"`.
unfoldable pub status_of : String → DepositStatusCode
unfolding find_code
status_of raw = find_code known_statuses raw

find_code-text :
    (cs : List DepositStatusCode) (raw : String)
    → (code_text (find_code cs raw) ≡ raw) ⊎ (find_code cs raw ≡ unknown)
unfolding find_code
find_code-text [] raw = inr refl
find_code-text (c ∷ cs) raw = ground (arith, find_code-text cs raw, eq_iff (code_text c) raw)

-- A code read from a text is the code of that very text, or unknown.
pub status_of-text : (raw : String) → (code_text (status_of raw) ≡ raw) ⊎ (status_of raw ≡ unknown)
unfolding status_of
status_of-text raw = find_code-text known_statuses raw

-- Every code is read back from its text.
pub status_of-code_text : (c : DepositStatusCode) → status_of (code_text c) ≡ c
unfolding status_of
status_of-code_text incomplete = refl
status_of-code_text pending_user_transfer_start = refl
status_of-code_text pending_user_transfer_complete = refl
status_of-code_text pending_external = refl
status_of-code_text pending_anchor = refl
status_of-code_text pending_stellar = refl
status_of-code_text pending_trust = refl
status_of-code_text pending_customer_info_update = refl
status_of-code_text completed = refl
status_of-code_text refunded = refl
status_of-code_text expired = refl
status_of-code_text error = refl
status_of-code_text unknown = refl
