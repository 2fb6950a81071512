-- ===== src/Anchor/Calls.antt =====
-- Calls of the Anchor, over the network: apps/web/lib/anchor/sep38.ts, and the requests of sep6.ts.
pub mod Quoting
pub mod Tests
use showup.Prelude.{
  ℕ, String, Bool, true, false, not, Option, none, some, List, [], ◌∷◌, str_eq, is_truthy, get_or,
  if◌then◌else◌,
}
use showup.Prelude.Int.{ℤ, pos, floor_quotient}
use showup.Prelude.Outcome.{Outcome, returned, thrown, ◌>>=◌, ◌>>◌}
use showup.Prelude.Text.{trim_string}
use showup.Anchor.Errors.{AnchorError, new_anchor_error, demo_tools_disabled, no_options}
use showup.Anchor.Json.{
  Json, str, arr, Items, nil, cons, Fields, end, field, get, optional_string, require_string,
  require_record, as_object?, concat, protocol_error,
}
use showup.Anchor.Types.{
  AnchorConfig, FeeDetail, AnchorFee, Price, Quote, DepositTicket, DepositStatus,
}
use showup.Anchor.Request.{
  Failure, anchor, other, lift, UrlLibrary, Query, build_url, get_method, post_method, RequestInit,
  HttpRequest, Response, anchor_request,
}
use showup.Anchor.Sep6.Parsing.{deposit_ticket_of, unwrap_transaction_response}

-- `FIAT_ASSET_ID`, `DELIVERY_METHOD`, `FUNDING_METHOD` and `QUOTE_CONTEXT` of config.ts.
abbrev pub fiat_asset_id : String
fiat_asset_id = "iso4217:TRY"

abbrev pub delivery_method : String
delivery_method = "bank_account"

abbrev pub funding_method : String
funding_method = "bank_account"

abbrev pub quote_context : String
quote_context = "sep6"

-- `stellarAssetId`.
unfoldable pub stellar_asset_id : AnchorConfig → String
stellar_asset_id config = concat ("stellar:" ∷ config.asset.code ∷ ":" ∷ config.asset.issuer ∷ [])

abbrev fee_detail : Fields → Option FeeDetail
fee_detail detail = elim (optional_string (get detail "name")) [
  | none ↦ none
  | some name ↦ elim (optional_string (get detail "amount")) [
    | none ↦ none
    | some amount ↦ some (record {
      name = name;
      amount = amount;
      description = optional_string (get detail "description");
    })
  ]
]

-- The properties of an entry; reading one of `null` throws.
abbrev entry_fields : Json → Outcome Failure Fields
entry_fields Json.null = thrown (other "TypeError")
entry_fields (Json.obj fields) = returned fields
entry_fields _ = returned end

abbrev keep : Option FeeDetail → List FeeDetail → List FeeDetail
keep none details = details
keep (some d) details = d ∷ details

-- The details of a fee that have a name and an amount.
unfoldable pub fee_details : Items → Outcome Failure (List FeeDetail)
fee_details nil = returned []
fee_details (cons entry entries) = do
  detail ← entry_fields entry
  details ← fee_details entries
  returned (keep (fee_detail detail) details)

abbrev raw_details : Option Json → Items
raw_details (some (arr items)) = items
raw_details _ = nil

abbrev unless_empty : List FeeDetail → Option (List FeeDetail)
unless_empty [] = none
unless_empty (d ∷ details) = some (d ∷ details)

abbrev fee_of : Fields → Option String → Option String → Outcome Failure (Option AnchorFee)
fee_of fields (some total) (some asset) = do
  details ← fee_details (raw_details (get fields "details"))
  returned (some (record { total = total; asset = asset; details = unless_empty details }))
fee_of fields _ _ = returned none

abbrev fee_in : Option Fields → Outcome Failure (Option AnchorFee)
fee_in none = returned none
fee_in (some fields) =
    fee_of fields (optional_string (get fields "total")) (optional_string (get fields "asset"))

-- `parseFee`.
unfoldable pub parse_fee : Option Json → Outcome Failure (Option AnchorFee)
parse_fee value = fee_in (as_object? value)

-- `parsePrice`; `context` is that of the error messages.
unfoldable pub price_of : String → Fields → String → Outcome Failure Price
price_of context payload fallback_buy_asset = do
  sell_amount ← lift (require_string payload "sell_amount" context)
  buy_amount ← lift (require_string payload "buy_amount" context)
  price ← lift (require_string payload "price" context)
  total_price ← lift (require_string payload "total_price" context)
  fee ← parse_fee (get payload "fee")
  returned (record {
    sell_amount = sell_amount;
    buy_amount = buy_amount;
    price = price;
    total_price = total_price;
    sell_asset = get_or (optional_string (get payload "sell_asset")) fiat_asset_id;
    buy_asset = get_or (optional_string (get payload "buy_asset")) fallback_buy_asset;
    fee = fee;
  })

abbrev expiry : Option ℤ → ℤ
expiry none = pos 0
expiry (some millis) = floor_quotient millis 1000

abbrev parsed_date : (String → Option ℤ) → Option String → Option ℤ
parsed_date date_parse none = none
parsed_date date_parse (some text) = date_parse text

-- `parseExpiresAt`; `date_parse` is `Date.parse`, with `none` for `NaN`.
unfoldable pub parse_expires_at : (String → Option ℤ) → Option Json → ℤ
parse_expires_at date_parse value = expiry (parsed_date date_parse (optional_string value))

-- `FirmQuoteOptions`.
pub record FirmQuoteOptions : Type 0 where
  pub config : AnchorConfig
  pub token : String
  pub sell_amount : Option String
  pub buy_amount : Option String
  pub expire_after : Option String

-- `typeof amount === "string" && amount.trim().length > 0`.
abbrev pub has_amount : Option String → Bool
has_amount none = false
has_amount (some s) = not (str_eq (trim_string s) "")

-- `if (value) body[key] = value`.
abbrev pub given_field : String → Option String → Fields → Fields
given_field key none rest = rest
given_field key (some s) rest = if str_eq s "" then rest else field key (str s) rest

-- The body of the request for a quote.
unfoldable pub quote_body : FirmQuoteOptions → Json
quote_body options = Json.obj (
    field "sell_asset" (str fiat_asset_id) (
      field "buy_asset" (str (stellar_asset_id options.config)) (
        field "context" (str quote_context) (
          field "sell_delivery_method" (str delivery_method) (
            given_field "sell_amount" options.sell_amount (
              given_field "buy_amount" options.buy_amount
                (given_field "expire_after" options.expire_after end)))))))

-- `requireRecord` on a payload that may be `undefined`.
abbrev pub payload_of : Option Json → String → Outcome AnchorError Fields
payload_of none context = require_record Json.null context
payload_of (some v) context = require_record v context

abbrev pub with_json : Option Json → Json
with_json none = Json.null
with_json (some v) = v

abbrev pub public_get : RequestInit
public_get = record { method = get_method; token = none; body = none; expect_json = true }

abbrev pub get_with : String → RequestInit
get_with token = record public_get { token = some token }

abbrev pub price_query : AnchorConfig → String → String → Query
price_query config key amount =
    ("sell_asset", some fiat_asset_id)
    ∷ ("buy_asset", some (stellar_asset_id config))
    ∷ (key, some amount)
    ∷ ("context", some quote_context)
    ∷ ("sell_delivery_method", some delivery_method)
    ∷ []

-- `hasSell === hasBuy`.
abbrev pub same : Bool → Bool → Bool
same true b = b
same false b = not b

abbrev pub quote_request : FirmQuoteOptions → RequestInit
quote_request options = record {
  method = post_method;
  token = some options.token;
  body = some (quote_body options);
  expect_json = true;
}

module _ {U : Type 0} (urls : UrlLibrary U) (parse : String → Option Json)
    (date_parse : String → Option ℤ) (fetch : HttpRequest → Option Response) where
  -- A request to `base` and `path`, and its payload.
  abbrev pub send : String → String → Query → RequestInit → Outcome Failure (Option Json)
  send base path query init = do
    url ← build_url urls base path query
    anchor_request parse fetch url init

  abbrev priced : AnchorConfig → String → String → Outcome Failure Price
  priced config key amount = do
    answer ← send config.quote_server "/price" (price_query config key amount) public_get
    payload ← lift (payload_of answer "SEP-38 price")
    price_of "SEP-38 price" payload (stellar_asset_id config)

  -- `getIndicativePrice`.
  unfoldable pub get_indicative_price : AnchorConfig → String → Outcome Failure Price
  get_indicative_price config try_amount = priced config "sell_amount" try_amount

  -- `getIndicativePriceForBuyAmount`.
  unfoldable pub get_indicative_price_for_buy_amount : AnchorConfig → String → Outcome Failure Price
  get_indicative_price_for_buy_amount config usdc_amount = priced config "buy_amount" usdc_amount

  -- The quote of a response.
  unfoldable pub quote_of : FirmQuoteOptions → Option Json → Outcome Failure Quote
  quote_of options answer = do
    payload ← lift (payload_of answer "SEP-38 quote")
    id ← lift (require_string payload "id" "SEP-38 quote")
    terms ← price_of "SEP-38 quote" payload (stellar_asset_id options.config)
    returned (record {
      terms = terms;
      id = id;
      expires_at = parse_expires_at date_parse (get payload "expires_at");
    })

  -- `getFirmQuote`.
  unfoldable pub get_firm_quote : FirmQuoteOptions → Outcome Failure Quote
  get_firm_quote options =
      if same (has_amount options.sell_amount) (has_amount options.buy_amount)
      then thrown
          (anchor (protocol_error "A SEP-38 quote needs exactly one of sellAmount or buyAmount."))
      else send options.config.quote_server "/quote" [] (quote_request options) >>= quote_of options

  -- `startDeposit`; `asset_code` is `ANCHOR_ASSET_CODE`.
  unfoldable pub start_deposit :
      String
      → AnchorConfig
      → String
      → String
      → Option String
      → Option String
      → Option String
      → Outcome Failure DepositTicket
  start_deposit asset_code config token account amount quote_id memo = do
    answer ←
        send config.transfer_server "/deposit"
          ((
            "asset_code",
            some (if str_eq config.asset.code "" then asset_code else config.asset.code),
          )
            ∷ ("account", some account)
            ∷ ("funding_method", some funding_method)
            ∷ ("amount", amount)
            ∷ ("quote_id", quote_id)
            ∷ ("memo", memo)
            ∷ [])
          (get_with token)
    lift (deposit_ticket_of (with_json answer))

  -- `pollDeposit`.
  unfoldable pub poll_deposit : AnchorConfig → String → String → Outcome Failure DepositStatus
  poll_deposit config token id = do
    answer ← send config.transfer_server "/transaction" (("id", some id) ∷ []) (get_with token)
    lift (unwrap_transaction_response (with_json answer))

  -- `simulateMockBankTransfer`; `encode` is `encodeURIComponent`, and `enabled` tells whether the demo
  -- tools are, or the caller allows the call without them.
  unfoldable pub simulate_mock_bank_transfer :
      (String → String)
      → Bool
      → AnchorConfig
      → String
      → String
      → String
      → Outcome Failure (Option Json)
  simulate_mock_bank_transfer encode enabled config token id amount =
      if not enabled
      then thrown (
          anchor (
            new_anchor_error demo_tools_disabled
              "The simulated bank transfer is a demo-only tool and is currently disabled."
              no_options))
      else send config.transfer_server
          (concat ("/tx/" ∷ encode id ∷ "/simulate-bank-transfer" ∷ [])) []
          (record {
            method = post_method;
            token = some token;
            body = some (Json.obj (field "amount" (str amount) end));
            expect_json = false;
          })
