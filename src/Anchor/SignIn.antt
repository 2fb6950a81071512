-- ===== src/Anchor/SignIn.antt =====
-- apps/web/lib/anchor/sep10.ts: challenge, signature and token, over the token store. What happens
-- outside (the network, the wallet, the authenticated call) is a function of how many such steps have
-- been taken; the steps are kept, newest first.
pub mod Steps
pub mod Bounds
mod Tests
use showup.Prelude.{
  ℕ, String, Bool, true, false, not, Option, none, some, List, [], ◌∷◌, str_eq, length,
  if◌then◌else◌,
}
use showup.Prelude.Int.{ℤ}
use showup.Prelude.Outcome.{Outcome, returned, thrown}
use showup.Prelude.Text.{codes, is_empty}
use showup.Anchor.Errors.{
  AnchorError, new_anchor_error, challenge_invalid, no_options, is_authentication_required,
}
use showup.Anchor.Json.{Json, str, Fields, end, field, get, require_string, concat}
use showup.Anchor.Types.{AnchorConfig}
use showup.Anchor.Request.{
  Failure, anchor, other, lift, UrlLibrary, build_url, get_method, post_method, RequestInit,
  HttpRequest, Response, request_of, anchor_request,
}
use showup.Anchor.Calls.{payload_of, public_get}
use showup.Anchor.Tokens.{StoredToken, Tokens, Runtime, store_token, get_cached_token, clear_token}

-- A step outside.
pub data Step : Type 0 where
  request : HttpRequest → Step
  sign : String → Step
  call_with : List ℕ → Step

pub record State : Type 0 where
  pub tokens : Tokens
  pub steps : List Step

-- A computation over the state; what it throws leaves the state as it was then.
abbrev pub M : Type 0 → Type 0
M A = State → Outcome Failure A × State

abbrev pub continue : {A B : Type 0} → Outcome Failure A → (A → M B) → M B
continue (returned a) f s = f a s
continue (thrown e) f s = (thrown e, s)

infixl 5 ◌>>=◌ ◌>>◌
unfoldable pub ◌>>=◌ : {A B : Type 0} → M A → (A → M B) → M B
◌>>=◌ m f s = let (r, s') = m s in continue r f s'

abbrev pub ◌>>◌ : {B : Type 0} → M (Unit {0}) → M B → M B
m >> k = m >>= λ _. k

-- A result that needs no step.
unfoldable pub of : {A : Type 0} → Outcome Failure A → M A
of r s = (r, s)

abbrev pub pure : {A : Type 0} → A → M A
pure a = of (returned a)

-- `ChallengeResponse`.
pub record ChallengeResponse : Type 0 where
  pub transaction : String
  pub network_passphrase : String

-- `ValidatedChallenge`.
pub record ValidatedChallenge : Type 0 where
  pub xdr : String
  pub client_account_id : String
  pub matched_home_domain : String

-- What `WebAuth.readChallengeTx` gives.
pub record ReadChallenge : Type 0 where
  pub client_account_id : String
  pub matched_home_domain : String

-- `readChallengeTx`: the transaction, the signing key, the network, the home domain, the host of the
-- authentication endpoint. It throws with a message.
abbrev pub ChallengeReader : Type 0
ChallengeReader = String → String → String → String → String → Outcome String ReadChallenge

abbrev text_else : Option Json → String → String
text_else (some (str s)) otherwise = s
text_else _ otherwise = otherwise

abbrev pub invalid : {A : Type 0} → String → Outcome Failure A
invalid message = thrown (anchor (new_anchor_error challenge_invalid message no_options))

-- The account of a challenge that was read.
abbrev for_account :
    ChallengeResponse → String → Outcome String ReadChallenge → Outcome Failure ValidatedChallenge
for_account challenge account (thrown message) =
    invalid (concat ("The SEP-10 challenge failed validation: " ∷ message ∷ []))
for_account challenge account (returned read) =
    if str_eq read.client_account_id account
    then returned (record {
      xdr = challenge.transaction;
      client_account_id = read.client_account_id;
      matched_home_domain = read.matched_home_domain;
    })
    else invalid "The SEP-10 challenge was issued for a different account."

module _ {U : Type 0} (urls : UrlLibrary U) (read_challenge : ChallengeReader) where
  abbrev read_at :
      ChallengeResponse → AnchorConfig → String → Option U → Outcome Failure ValidatedChallenge
  read_at challenge config account none = thrown (other "Invalid URL")
  read_at challenge config account (some url) = for_account challenge account (
      read_challenge challenge.transaction config.signing_key config.network_passphrase
        config.home_domain (urls.host url))

  -- `validateChallenge`.
  unfoldable pub validate_challenge :
      ChallengeResponse → AnchorConfig → String → Outcome Failure ValidatedChallenge
  validate_challenge challenge config account =
      if str_eq challenge.network_passphrase config.network_passphrase
      then read_at challenge config account (urls.read config.web_auth_endpoint)
      else invalid "The SEP-10 challenge is for a different Stellar network."

-- What happens outside.
pub record World : Type 0 where
  pub fetch : ℕ → HttpRequest → Option Response
  pub wallet : ℕ → String → Outcome Failure (Option String)
  pub clock : ℕ → ℤ

-- `AuthenticateOptions`, with the configuration at hand; `none` for the time reads the clock.
pub record AuthenticateOptions : Type 0 where
  pub config : AnchorConfig
  pub now_seconds : Option ℤ
  pub force_refresh : Bool
  pub client_domain : Option String

abbrev now_of : Option ℤ → ℤ → ℤ
now_of none clock = clock
now_of (some now) clock = now

abbrev signed_or_invalid : Option String → Outcome Failure String
signed_or_invalid none = invalid "The wallet did not return a signed challenge."
signed_or_invalid (some xdr) =
    if str_eq xdr "" then invalid "The wallet did not return a signed challenge." else returned xdr

-- An `AnchorError` that says that the session has expired.
abbrev pub asks_sign_in : Failure → Bool
asks_sign_in (anchor e) = is_authentication_required e.kind
asks_sign_in (other message) = false

module _ {U : Type 0} (urls : UrlLibrary U) (parse : String → Option Json)
    (read_challenge : ChallengeReader) (runtime : Runtime) (world : World) where
  unfoldable pub fetch_json : String → RequestInit → M (Option Json)
  fetch_json url init s = (
    anchor_request parse (world.fetch (length s.steps)) url init,
    record s { steps = request (request_of url init) ∷ s.steps },
  )

  unfoldable pub ask_wallet : String → M (Option String)
  ask_wallet xdr s = (world.wallet (length s.steps) xdr, record s { steps = sign xdr ∷ s.steps })

  -- `requestChallenge`, without the memo that no caller gives.
  unfoldable pub request_challenge : AnchorConfig → String → Option String → M ChallengeResponse
  request_challenge config account client_domain = do
    url ← of (
        build_url urls config.web_auth_endpoint ""
          (("account", some account) ∷ ("memo", none) ∷ ("client_domain", client_domain) ∷ []))
    answer ← fetch_json url public_get
    payload ← of (lift (payload_of answer "SEP-10 challenge"))
    transaction ← of (lift (require_string payload "transaction" "SEP-10 challenge"))
    pure (record {
      transaction = transaction;
      network_passphrase = text_else (get payload "network_passphrase") config.network_passphrase;
    })

  -- `exchangeChallenge`.
  unfoldable pub exchange_challenge : AnchorConfig → String → M String
  exchange_challenge config signed_xdr = do
    url ← of (build_url urls config.web_auth_endpoint "" [])
    answer ← fetch_json url (record {
      method = post_method;
      token = none;
      body = some (Json.obj (field "transaction" (str signed_xdr) end));
      expect_json = true;
    })
    payload ← of (lift (payload_of answer "SEP-10 token"))
    of (lift (require_string payload "token" "SEP-10 token"))

  unfoldable pub forget : String → AnchorConfig → M (Unit {0})
  forget address config s = (
    returned tt,
    record s {
      tokens = clear_token (some (codes address)) (some (codes config.home_domain)) s.tokens;
    },
  )

  abbrev pub kept_in :
      State → Outcome AnchorError (StoredToken × Tokens) → Outcome Failure (Unit {0}) × State
  kept_in s (returned (entry, tokens)) = (returned tt, record s { tokens = tokens })
  kept_in s (thrown e) = (thrown (anchor e), s)

  unfoldable pub keep_token : String → AnchorConfig → String → M (Unit {0})
  keep_token address config token s =
      kept_in s
        (store_token runtime (codes address) (codes config.home_domain) (codes token) s.tokens)

  -- `authenticate` behind the cache.
  unfoldable pub sign_in : String → AuthenticateOptions → M (List ℕ)
  sign_in address options = do
    forget address options.config
    challenge ← request_challenge options.config address options.client_domain
    validated ← of (validate_challenge urls read_challenge challenge options.config address)
    answer ← ask_wallet validated.xdr
    signed_xdr ← of (signed_or_invalid answer)
    token ← exchange_challenge options.config signed_xdr
    keep_token address options.config token
    pure (codes token)

  abbrev or_sign_in : String → AuthenticateOptions → Option (List ℕ) → M (List ℕ)
  or_sign_in address options none = sign_in address options
  or_sign_in address options (some token) =
      if is_empty token then sign_in address options else pure token

  unfoldable pub cached : String → AuthenticateOptions → M (Option (List ℕ))
  cached address options s =
      let now = now_of options.now_seconds (world.clock (length s.steps)) in
      let (token, tokens) =
        get_cached_token (codes address) (codes options.config.home_domain) now s.tokens in
      (returned token, record s { tokens = tokens })

  -- `authenticate`.
  unfoldable pub authenticate : String → AuthenticateOptions → M (List ℕ)
  authenticate address options =
      if options.force_refresh
      then sign_in address options
      else cached address options >>= or_sign_in address options

  module _ {A : Type 0} (call : ℕ → List ℕ → Outcome Failure A) where
    unfoldable pub call_once : List ℕ → M A
    call_once token s =
        (call (length s.steps) token, record s { steps = call_with token ∷ s.steps })

    abbrev pub again : String → AuthenticateOptions → M A
    again address options = do
      forget address options.config
      refreshed ← authenticate address (record options { force_refresh = true })
      call_once refreshed

    -- `try { … } catch (error) { … }` around the call.
    abbrev pub or_again : String → AuthenticateOptions → Outcome Failure A → M A
    or_again address options (returned a) = pure a
    or_again address options (thrown e) =
        if asks_sign_in e then again address options else of (thrown e)

    abbrev pub try_call : String → AuthenticateOptions → List ℕ → M A
    try_call address options token s =
        let (r, s') = call_once token s in or_again address options r s'

    -- `withFreshToken`.
    unfoldable pub with_fresh_token : String → AuthenticateOptions → M A
    with_fresh_token address options = authenticate address options >>= try_call address options
