-- ===== src/Anchor/Sep6/Parsing.antt =====
-- The responses of the SEP-6 endpoints, from parsed JSON.
use showup.Prelude.{
  String, Bool, true, false, Option, none, some, List, [], ◌∷◌, ◌≡◌, ◌⊎◌, ◌↔◌, refl, arith, str_eq,
  eq_iff, coalesce, Option-cases, inl, inr, if◌then◌else◌,
}
use showup.Prelude.Outcome.{Outcome, returned, thrown, ◌>>=◌}
use showup.Anchor.Errors.{AnchorError}
use showup.Anchor.Json.{
  JsNumber, Json, num, arr, Items, Fields, end, field, get, optional_string, protocol_error,
  require_string, require_record, as_object, as_object?,
}
use showup.Anchor.Types.{
  InstructionField, BankInstructions, DepositTicket, DepositRefunds, DepositStatus, unknown,
}
use showup.Anchor.Sep6.Codes.{code_text, status_of, status_of-text}

-- `parseInstructionField`.
unfoldable pub parse_instruction_field : Json → Option InstructionField
parse_instruction_field value = elim (as_object value) [
  | none ↦ none
  | some fields ↦ elim (optional_string (get fields "value")) [
    | none ↦ none
    | some text ↦
        some (record { value = text; description = optional_string (get fields "description") })
  ]
]

-- The loop of `parseInstructions` over the entries.
unfoldable pub instruction_fields : Fields → List (String × InstructionField)
instruction_fields end = []
instruction_fields (field key raw fields) = elim (parse_instruction_field raw) [
  | none ↦ instruction_fields fields
  | some f ↦ (key, f) ∷ instruction_fields fields
]

-- `all[key]`.
unfoldable pub find_field : String → List (String × InstructionField) → Option InstructionField
find_field key [] = none
find_field key ((k, f) ∷ all) = if str_eq k key then some f else find_field key all

abbrev fields_of : Option Fields → List (String × InstructionField)
fields_of none = []
fields_of (some fields) = instruction_fields fields

-- `parseInstructions`.
unfoldable pub parse_instructions : Option Json → BankInstructions
parse_instructions value =
    let all = fields_of (as_object? value) in
    record {
      bank_name = find_field "bank_name" all;
      bank_account_number = find_field "bank_account_number" all;
      account_holder =
          coalesce (find_field "bank_account_holder" all) (find_field "account_holder" all);
      external_transfer_memo = find_field "external_transfer_memo" all;
      all = all;
    }

-- `typeof value === "number" ? value : undefined`.
abbrev number_field : Option Json → Option JsNumber
number_field (some (num n)) = some n
number_field _ = none

abbrev message_of : Option Fields → Option String
message_of none = none
message_of (some fields) = optional_string (get fields "message")

-- `startDeposit`, from the payload of the response on.
unfoldable pub deposit_ticket_of : Json → Outcome AnchorError DepositTicket
deposit_ticket_of value = do
  payload ← require_record value "SEP-6 deposit"
  id ← require_string payload "id" "SEP-6 deposit"
  returned (record {
    id = id;
    instructions = parse_instructions (get payload "instructions");
    how = optional_string (get payload "how");
    eta = number_field (get payload "eta");
    fee_percent = number_field (get payload "fee_percent");
    more_info_url = optional_string (get payload "more_info_url");
    extra_info_message = message_of (as_object? (get payload "extra_info"));
  })

abbrev items_of : Option Json → Option Items
items_of (some (arr items)) = some items
items_of _ = none

abbrev refunds_of : Option Fields → Option DepositRefunds
refunds_of none = none
refunds_of (some r) = some (record {
  amount_refunded = optional_string (get r "amount_refunded");
  amount_fee = optional_string (get r "amount_fee");
  payments = items_of (get r "payments");
})

-- `parseRefunds`.
unfoldable pub parse_refunds : Option Json → Option DepositRefunds
parse_refunds value = refunds_of (as_object? value)

-- `pendingReason === "treasury_low"`.
abbrev pub is_treasury_low : Option String → Bool
is_treasury_low none = false
is_treasury_low (some reason) = str_eq reason "treasury_low"

-- `parseDepositTransaction`.
unfoldable pub parse_deposit_transaction : Json → Outcome AnchorError DepositStatus
parse_deposit_transaction value = do
  tx ← require_record value "SEP-6 transaction"
  raw_status ← require_string tx "status" "SEP-6 transaction"
  let pending_reason = optional_string (get tx "pending_reason")
  id ← require_string tx "id" "SEP-6 transaction"
  returned (record {
    id = id;
    status = status_of raw_status;
    raw_status = raw_status;
    pending_reason = pending_reason;
    treasury_low = is_treasury_low pending_reason;
    claimable_balance_id = optional_string (get tx "claimable_balance_id");
    stellar_transaction_id = optional_string (get tx "stellar_transaction_id");
    external_transaction_id = optional_string (get tx "external_transaction_id");
    amount_in = optional_string (get tx "amount_in");
    amount_in_asset = optional_string (get tx "amount_in_asset");
    amount_out = optional_string (get tx "amount_out");
    amount_out_asset = optional_string (get tx "amount_out_asset");
    amount_fee = optional_string (get tx "amount_fee");
    message = optional_string (get tx "message");
    more_info_url = optional_string (get tx "more_info_url");
    refunds = parse_refunds (get tx "refunds");
    started_at = optional_string (get tx "started_at");
    completed_at = optional_string (get tx "completed_at");
  })

abbrev unwrapped : Option Json → Outcome AnchorError DepositStatus
unwrapped none =
    thrown (protocol_error "The Anchor's transaction response has no \"transaction\" wrapper.")
unwrapped (some tx) = parse_deposit_transaction tx

-- `unwrapTransactionResponse`.
unfoldable pub unwrap_transaction_response : Json → Outcome AnchorError DepositStatus
unwrap_transaction_response payload = do
  fields ← require_record payload "SEP-6 transaction"
  unwrapped (get fields "transaction")

-- Why a status was accepted.
pub record Parsed (payload : Json) (st : DepositStatus) : Type 0 where
  pub wrapper : Fields
  pub tx : Fields
  pub is_object : payload ≡ Json.obj wrapper
  pub is_wrapped : get wrapper "transaction" ≡ some (Json.obj tx)
  pub status_read : optional_string (get tx "status") ≡ some st.raw_status
  pub id_read : optional_string (get tx "id") ≡ some st.id
  pub code_faithful : (code_text st.status ≡ st.raw_status) ⊎ (st.status ≡ unknown)
  pub waits_for_treasury :
      (st.treasury_low ≡ true) ↔ (optional_string (get tx "pending_reason") ≡ some "treasury_low")
  pub claim_read : st.claimable_balance_id ≡ optional_string (get tx "claimable_balance_id")

low_iff :
    (reason : Option String) → (is_treasury_low reason ≡ true) ↔ (reason ≡ some "treasury_low")
low_iff none = ground arith
low_iff (some reason) = ground (arith, eq_iff reason "treasury_low")

transaction-Parsed :
    (payload value : Json) (wrapper : Fields) (st : DepositStatus)
    → payload ≡ Json.obj wrapper
    → get wrapper "transaction" ≡ some value
    → parse_deposit_transaction value ≡ returned st
    → Parsed payload st
unfolding parse_deposit_transaction require_record require_string
transaction-Parsed payload (Json.obj tx) wrapper st object wrapped h =
    elim (Option-cases (optional_string (get tx "status"))) [
      | inl missing ↦ absurd (ground arith)
      | inr (raw, status_read) ↦ elim (Option-cases (optional_string (get tx "id"))) [
        | inl missing ↦ absurd (ground arith)
        | inr (id, id_read) ↦ record {
          wrapper = wrapper;
          tx = tx;
          is_object = object;
          is_wrapped = wrapped;
          status_read = ground arith;
          id_read = ground arith;
          code_faithful = ground (arith, status_of-text raw);
          waits_for_treasury = ground (arith, low_iff (optional_string (get tx "pending_reason")));
          claim_read = ground arith;
        }
      ]
    ]
transaction-Parsed payload Json.null wrapper st object wrapped h = cc
transaction-Parsed payload _ wrapper st object wrapped h = cc

-- A response gives a status only if it is an object with the transaction under its wrapper, as an
-- object with a status and an id. The status is then read from there: its text is kept, its code is
-- the code of that very text or unknown, it waits for the treasury exactly when that is the pending
-- reason, and a claimable balance is carried over.
pub unwrap_transaction_response-Parsed :
    (payload : Json) (st : DepositStatus)
    → unwrap_transaction_response payload ≡ returned st
    → Parsed payload st
unfolding unwrap_transaction_response require_record
unwrap_transaction_response-Parsed (Json.obj fields) st h =
    elim (Option-cases (get fields "transaction")) [
      | inl missing ↦ absurd (ground arith)
      | inr (value, wrapped) ↦
          transaction-Parsed (Json.obj fields) value fields st refl wrapped (rw wrapped at h)
    ]
unwrap_transaction_response-Parsed Json.null st h = cc
unwrap_transaction_response-Parsed _ st h = cc
