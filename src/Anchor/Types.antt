-- ===== src/Anchor/Types.antt =====
-- apps/web/lib/anchor/types.ts: what the anchor modules exchange.
use showup.Prelude.{String, Bool, Option, List}
use showup.Prelude.Int.{ℤ}
use showup.Anchor.Json.{JsNumber, Items}

pub record Asset : Type 0 where
  pub code : String
  pub issuer : String

-- `AnchorConfig`.
pub record AnchorConfig : Type 0 where
  pub home_domain : String
  pub network_passphrase : String
  pub signing_key : String
  pub web_auth_endpoint : String
  pub transfer_server : String
  pub quote_server : String
  pub kyc_server : Option String
  pub asset : Asset

pub record FeeDetail : Type 0 where
  pub name : String
  pub amount : String
  pub description : Option String

-- `AnchorFee`.
pub record AnchorFee : Type 0 where
  pub total : String
  pub asset : String
  pub details : Option (List FeeDetail)

-- `Price`.
pub record Price : Type 0 where
  pub sell_amount : String
  pub buy_amount : String
  pub price : String
  pub total_price : String
  pub sell_asset : String
  pub buy_asset : String
  pub fee : Option AnchorFee

-- `Quote`: a price with an id and an expiry in Unix seconds.
pub record Quote : Type 0 where
  pub terms : Price
  pub id : String
  pub expires_at : ℤ

-- `InstructionField` and `BankInstructions`; `all` keeps the order in which fields were set.
pub record InstructionField : Type 0 where
  pub value : String
  pub description : Option String

pub record BankInstructions : Type 0 where
  pub bank_name : Option InstructionField
  pub bank_account_number : Option InstructionField
  pub account_holder : Option InstructionField
  pub external_transfer_memo : Option InstructionField
  pub all : List (String × InstructionField)

-- `DepositTicket`.
pub record DepositTicket : Type 0 where
  pub id : String
  pub instructions : BankInstructions
  pub how : Option String
  pub eta : Option JsNumber
  pub fee_percent : Option JsNumber
  pub more_info_url : Option String
  pub extra_info_message : Option String

-- `DepositStatusCode | "unknown"`.
pub data DepositStatusCode : Type 0 where
  incomplete : DepositStatusCode
  pending_user_transfer_start : DepositStatusCode
  pending_user_transfer_complete : DepositStatusCode
  pending_external : DepositStatusCode
  pending_anchor : DepositStatusCode
  pending_stellar : DepositStatusCode
  pending_trust : DepositStatusCode
  pending_customer_info_update : DepositStatusCode
  completed : DepositStatusCode
  refunded : DepositStatusCode
  expired : DepositStatusCode
  error : DepositStatusCode
  unknown : DepositStatusCode

-- `DepositRefunds`.
pub record DepositRefunds : Type 0 where
  pub amount_refunded : Option String
  pub amount_fee : Option String
  pub payments : Option Items

-- `DepositStatus`.
pub record DepositStatus : Type 0 where
  pub id : String
  pub status : DepositStatusCode
  pub raw_status : String
  pub pending_reason : Option String
  pub treasury_low : Bool
  pub claimable_balance_id : Option String
  pub stellar_transaction_id : Option String
  pub external_transaction_id : Option String
  pub amount_in : Option String
  pub amount_in_asset : Option String
  pub amount_out : Option String
  pub amount_out_asset : Option String
  pub amount_fee : Option String
  pub message : Option String
  pub more_info_url : Option String
  pub refunds : Option DepositRefunds
  pub started_at : Option String
  pub completed_at : Option String
