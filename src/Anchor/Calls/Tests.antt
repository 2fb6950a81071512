-- ===== src/Anchor/Calls/Tests.antt =====
-- A quote for an exact amount of USDC.
use showup.Prelude.Int.{pos}
use showup.Prelude.{String, Option, none, some, ◌≡◌, ◌≢◌, true, refl}
use showup.Prelude.Outcome.{returned}
use showup.Prelude.Text.{trim_string, cut_end}
use Prim.Native.String.{◌++◌ as str_append}
use showup.Anchor.Json.{Json, end, field, str, get, optional_string, require_string, require_record}
use showup.Anchor.Types.{AnchorConfig, Quote}
use showup.Anchor.Request.{
  UrlLibrary, HttpRequest, Response, build_url, set_parameters, anchor_request, read_response,
}
use showup.Anchor.Calls.{
  FirmQuoteOptions, has_amount, quote_body, quote_of, price_of, parse_fee, parse_expires_at,
  get_firm_quote, stellar_asset_id,
}
use showup.Anchor.Calls.Quoting.{Quoted, get_firm_quote-Quoted}

abbrev pub texts : UrlLibrary String
texts = record {
  read = λ s. some s;
  host = λ s. s;
  protocol = λ s. "https:";
  set_parameter = λ u k v. str_append u v;
  print = λ s. s;
}

abbrev pub config : AnchorConfig
config = record {
  home_domain = "anchor";
  network_passphrase = "net";
  signing_key = "GS";
  web_auth_endpoint = "https://anchor/auth";
  transfer_server = "https://anchor/sep6";
  quote_server = "https://anchor/sep38";
  kyc_server = none;
  asset = record { code = "USDC"; issuer = "GI" };
}

abbrev answer : Json
answer = Json.obj (
    field "id" (str "q1") (
      field "sell_amount" (str "200") (
        field "buy_amount" (str "4")
          (field "price" (str "49") (field "total_price" (str "50") end)))))

abbrev network : HttpRequest → Option Response
network r = some (record { ok = true; status = 201; text = returned "{...}" })

abbrev options : FirmQuoteOptions
options = record {
  config = config;
  token = "t";
  sell_amount = none;
  buy_amount = some "4";
  expire_after = none;
}

abbrev quote : Quote
quote = record {
  terms = record {
    sell_amount = "200";
    buy_amount = "4";
    price = "49";
    total_price = "50";
    sell_asset = "iso4217:TRY";
    buy_asset = "stellar:USDC:GI";
    fee = none;
  };
  id = "q1";
  expires_at = pos 0;
}

quoted : get_firm_quote texts (λ s. some answer) (λ s. none) network options ≡ returned quote
unfolding get_firm_quote quote_of build_url set_parameters anchor_request read_response
    require_string require_record optional_string get price_of parse_fee parse_expires_at
    stellar_asset_id cut_end trim_string
quoted = refl

get_firm_quote-Quoted_example :
    (has_amount options.sell_amount ≢ has_amount options.buy_amount)
    × Quoted texts (λ s. some answer) (λ s. none) network options quote
get_firm_quote-Quoted_example =
    get_firm_quote-Quoted texts (λ s. some answer) (λ s. none) network options quote quoted

-- A blank amount counts as none, and is sent all the same.
abbrev blank_sell : FirmQuoteOptions
blank_sell = record options { sell_amount = some " " }

blank_sent :
    (has_amount blank_sell.sell_amount ≢ has_amount blank_sell.buy_amount)
    × (quote_body blank_sell
        ≡ Json.obj (
            field "sell_asset" (str "iso4217:TRY") (
              field "buy_asset" (str "stellar:USDC:GI") (
                field "context" (str "sep6") (
                  field "sell_delivery_method"
                    (str "bank_account")
                    (field "sell_amount" (str " ") (field "buy_amount" (str "4") end)))))))
unfolding quote_body stellar_asset_id trim_string
blank_sent = (λ h. cc h, refl)
