-- ===== src/Anchor/Calls/Quoting.antt =====
-- What a firm quote rests on.
use showup.Prelude.{
  String, Bool, true, false, Option, none, some, [], ◌≡◌, ◌≢◌, refl, arith, sym, ◌∙◌, ap, subst,
  inl, inr, Bool-cases,
}
use showup.Prelude.Int.{ℤ}
use showup.Prelude.Outcome.{Outcome, returned, thrown, ◌>>=◌, >>=-returned}
use showup.Anchor.Errors.{AnchorError}
use showup.Anchor.Json.{Json, Fields, get, optional_string, require_string, require_record}
use showup.Anchor.Types.{Price, Quote}
use showup.Anchor.Request.{lift, UrlLibrary, build_url, HttpRequest, Response, anchor_request}
use showup.Anchor.Calls.{
  FirmQuoteOptions, has_amount, quote_request, payload_of, price_of, parse_expires_at, parse_fee,
  quote_of, send, get_firm_quote, same, stellar_asset_id,
}

lift-returned :
    {A : Type 0} (m : Outcome AnchorError A) {a : A} → lift m ≡ returned a → m ≡ returned a
lift-returned (returned b) h = cc
lift-returned (thrown e) h = cc

require_string-returned :
    (source : Fields) (key context : String) {s : String}
    → lift (require_string source key context) ≡ returned s
    → optional_string (get source key) ≡ some s
unfolding require_string
require_string-returned source key context h = ground arith

payload_of-returned :
    (answer : Option Json) (context : String) {fields : Fields}
    → payload_of answer context ≡ returned fields
    → answer ≡ some (Json.obj fields)
unfolding require_record
payload_of-returned none context h = cc
payload_of-returned (some (Json.obj fields)) context h = cc
payload_of-returned (some Json.null) context h = cc
payload_of-returned (some _) context h = cc

-- The amounts and the rates of `price` are the texts of `fields`.
pub record Priced (fields : Fields) (price : Price) : Type 0 where
  pub sell_read : optional_string (get fields "sell_amount") ≡ some price.sell_amount
  pub buy_read : optional_string (get fields "buy_amount") ≡ some price.buy_amount
  pub price_read : optional_string (get fields "price") ≡ some price.price
  pub total_read : optional_string (get fields "total_price") ≡ some price.total_price

price_of-Priced :
    (context : String) (fields : Fields) (fallback : String) (price : Price)
    → price_of context fields fallback ≡ returned price
    → Priced fields price
unfolding price_of
price_of-Priced context fields fallback p h =
    let (sell, sell_is, h2) =
      >>=-returned (lift (require_string fields "sell_amount" context)) _ h in
    let (buy, buy_is, h3) = >>=-returned (lift (require_string fields "buy_amount" context)) _ h2 in
    let (rate, rate_is, h4) = >>=-returned (lift (require_string fields "price" context)) _ h3 in
    let (total, total_is, h5) =
      >>=-returned (lift (require_string fields "total_price" context)) _ h4 in
    let (fee, fee_is, h6) = >>=-returned (parse_fee (get fields "fee")) _ h5 in
    record {
      sell_read = ground (arith, h6, require_string-returned fields "sell_amount" context sell_is);
      buy_read = ground (arith, h6, require_string-returned fields "buy_amount" context buy_is);
      price_read = ground (arith, h6, require_string-returned fields "price" context rate_is);
      total_read =
          ground (arith, h6, require_string-returned fields "total_price" context total_is);
    }

same-eq : (a b : Bool) → same a b ≡ true → a ≡ b
same-eq true b h = sym h
same-eq false true h = cc
same-eq false false h = refl

differ : (a b : Bool) → same a b ≡ false → a ≢ b
differ true b h e = cc
differ false true h e = cc
differ false false h e = cc

module _ {U : Type 0} (urls : UrlLibrary U) (parse : String → Option Json)
    (date_parse : String → Option ℤ) (fetch : HttpRequest → Option Response) where
  -- The response that a quote was read from.
  pub record Quoted (options : FirmQuoteOptions) (quote : Quote) : Type 0 where
    pub url : String
    pub fields : Fields
    pub built : build_url urls options.config.quote_server "/quote" [] ≡ returned url
    pub answered :
        anchor_request parse fetch url (quote_request options) ≡ returned (some (Json.obj fields))
    pub id_read : optional_string (get fields "id") ≡ some quote.id
    pub priced : Priced fields quote.terms
    pub expiry_read : quote.expires_at ≡ parse_expires_at date_parse (get fields "expires_at")

  quote_sent-Quoted :
      (options : FirmQuoteOptions) (quote : Quote)
      → (send urls parse date_parse fetch options.config.quote_server "/quote" []
            (quote_request options)
          >>= quote_of urls parse date_parse fetch options)
        ≡ returned quote
      → Quoted options quote
  unfolding quote_of
  quote_sent-Quoted options quote h =
      let (answer, sent, h2) =
        >>=-returned
          (send urls parse date_parse fetch options.config.quote_server "/quote" []
            (quote_request options))
          (quote_of urls parse date_parse fetch options) h in
      let (url, built, h3) =
        >>=-returned (build_url urls options.config.quote_server "/quote" []) _ sent in
      let (fields, is_object, h4) = >>=-returned (lift (payload_of answer "SEP-38 quote")) _ h2 in
      let (id, id_is, h5) = >>=-returned (lift (require_string fields "id" "SEP-38 quote")) _ h4 in
      let (terms, terms_are, h6) =
        >>=-returned (price_of "SEP-38 quote" fields (stellar_asset_id options.config)) _ h5 in
      record {
        url = url;
        fields = fields;
        built = built;
        answered =
            h3
            ∙ ap returned (payload_of-returned answer "SEP-38 quote" (lift-returned _ is_object));
        id_read = ground (arith, h6, require_string-returned fields "id" "SEP-38 quote" id_is);
        priced = subst (Priced fields) (ground (arith, h6)) (
            price_of-Priced "SEP-38 quote" fields (stellar_asset_id options.config) terms
              terms_are);
        expiry_read = ground (arith, h6);
      }

  -- A quote that is returned was asked for with exactly one amount that is not blank, and was read
  -- from an accepted response to that request, an object: its id, its amounts and its rates are the
  -- texts of that object, and its expiry is the date there, or 0.
  pub get_firm_quote-Quoted :
      (options : FirmQuoteOptions) (quote : Quote)
      → get_firm_quote urls parse date_parse fetch options ≡ returned quote
      → (has_amount options.sell_amount ≢ has_amount options.buy_amount) × Quoted options quote
  unfolding get_firm_quote
  get_firm_quote-Quoted options quote h =
      elim (Bool-cases (same (has_amount options.sell_amount) (has_amount options.buy_amount))) [
        | inl both ↦ absurd (ground (arith, both, h))
        | inr one ↦ (differ _ _ one, quote_sent-Quoted options quote (rw one at h))
      ]
