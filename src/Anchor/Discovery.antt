-- ===== src/Anchor/Discovery.antt =====
-- apps/web/lib/anchor/sep1.ts and the home domain of config.ts: the Anchor's configuration, read from
-- its `stellar.toml`. Parameters are the resolver of the SDK, the browser's `URL`, the texts of the
-- environment, and `toLowerCase`.
pub mod Trusted
mod Tests
use showup.Prelude.{
  ℕ, ◌+◌, String, Bool, true, false, ◌&&◌, ◌||◌, not, Option, none, some, List, [], ◌∷◌, ◌++◌, ◌==◌,
  str_eq, is_truthy, get_or, if◌then◌else◌,
}
use Prim.Native.Char.{code}
use showup.Prelude.Outcome.{Outcome, returned, thrown, ◌>>=◌, ◌>>◌, throw_if}
use showup.Prelude.Text.{trim_string, cut_end, before}
use showup.Anchor.Errors.{AnchorError, new_anchor_error, unreachable, no_options}
use showup.Anchor.Json.{concat, protocol_error}
use showup.Anchor.Types.{AnchorConfig}
use showup.Anchor.Request.{UrlLibrary}

-- A currency of a `stellar.toml`.
pub record Currency : Type 0 where
  pub code : Option String
  pub issuer : Option String

-- `StellarToml.Api.StellarToml`, as far as it is read.
pub record StellarToml : Type 0 where
  pub signing_key : Option String
  pub web_auth_endpoint : Option String
  pub transfer_server : Option String
  pub anchor_quote_server : Option String
  pub network_passphrase : Option String
  pub kyc_server : Option String
  pub currencies : List Currency

-- What the configuration is held to: `TESTNET_NETWORK_PASSPHRASE`, `ANCHOR_ASSET_CODE` and
-- `ANCHOR_ASSET_ISSUER`.
pub record Pinned : Type 0 where
  pub passphrase : String
  pub asset_code : String
  pub asset_issuer : String

-- `if (!value) missing.push(label)`.
abbrev pub missing_label : Option String → String → List String
missing_label value label = if is_truthy value then [] else label ∷ []

unfoldable pub missing_labels : StellarToml → List String
missing_labels toml =
    missing_label toml.signing_key "SIGNING_KEY"
    ++ (missing_label toml.web_auth_endpoint "WEB_AUTH_ENDPOINT"
        ++ (missing_label toml.transfer_server "TRANSFER_SERVER"
            ++ (missing_label toml.anchor_quote_server "ANCHOR_QUOTE_SERVER"
                ++ missing_label toml.network_passphrase "NETWORK_PASSPHRASE")))

-- `missing.join(", ")`.
abbrev joined : List String → String
joined [] = ""
joined (label ∷ []) = label
joined (label ∷ labels) = concat (label ∷ ", " ∷ joined labels ∷ [])

abbrev pub is_none_missing : List String → Bool
is_none_missing [] = true
is_none_missing (label ∷ labels) = false

abbrev has_code : String → Option String → Bool
has_code code none = false
has_code code (some c) = str_eq c code

-- The issuer of the first currency with this code and an issuer.
unfoldable pub issuer_of : String → List Currency → Option String
issuer_of code [] = none
issuer_of code (c ∷ currencies) = elim c.issuer [
  | none ↦ issuer_of code currencies
  | some issuer ↦ if has_code code c.code then some issuer else issuer_of code currencies
]

abbrev pub is_pinned_issuer : Pinned → Option String → Outcome AnchorError (Unit {0})
is_pinned_issuer p none = thrown (
    protocol_error
      (concat ("The Anchor's stellar.toml does not publish a " ∷ p.asset_code ∷ " issuer." ∷ [])))
is_pinned_issuer p (some issuer) =
    if str_eq issuer ""
    then thrown (
        protocol_error (
          concat
            ("The Anchor's stellar.toml does not publish a " ∷ p.asset_code ∷ " issuer." ∷ [])))
    else if str_eq issuer p.asset_issuer
    then returned tt
    else thrown (
        protocol_error
          (concat ("The Anchor publishes " ∷ p.asset_code ∷ " from an unexpected issuer." ∷ [])))

abbrev pub text_of : Option String → String
text_of none = ""
text_of (some s) = s

module _ {U : Type 0} (urls : UrlLibrary U) where
  abbrev secure_url : String → Option U → Outcome AnchorError (Unit {0})
  secure_url label none =
      thrown (protocol_error (concat ("The Anchor's " ∷ label ∷ " is not a valid URL." ∷ [])))
  secure_url label (some url) =
      if str_eq (urls.protocol url) "https:"
      then returned tt
      else thrown (
          protocol_error (
            concat (
              "The Anchor's " ∷ label
              ∷ " is not https. ShowUp will not send an authenticated request over plain http."
              ∷ [])))

  -- One round of the loop over the endpoints.
  unfoldable pub require_https : String → String → Outcome AnchorError (Unit {0})
  require_https label endpoint = secure_url label (urls.read endpoint)

  -- `parseStellarToml`.
  unfoldable pub parse_stellar_toml :
      Pinned → StellarToml → String → Outcome AnchorError AnchorConfig
  parse_stellar_toml p toml home_domain = do
    throw_if (not (is_none_missing (missing_labels toml))) (
        protocol_error (
          concat
            ("The Anchor's stellar.toml is missing " ∷ joined (missing_labels toml) ∷ "." ∷ [])))
    throw_if (not (str_eq (text_of toml.network_passphrase) p.passphrase)) (
        protocol_error (
          concat (
            "The Anchor is on \""
            ∷ text_of toml.network_passphrase
            ∷ "\". ShowUp is Testnet only."
            ∷ [])))
    is_pinned_issuer p (issuer_of p.asset_code toml.currencies)
    require_https "WEB_AUTH_ENDPOINT" (text_of toml.web_auth_endpoint)
    require_https "TRANSFER_SERVER" (text_of toml.transfer_server)
    require_https "ANCHOR_QUOTE_SERVER" (text_of toml.anchor_quote_server)
    returned (record {
      home_domain = home_domain;
      network_passphrase = text_of toml.network_passphrase;
      signing_key = text_of toml.signing_key;
      web_auth_endpoint = text_of toml.web_auth_endpoint;
      transfer_server = text_of toml.transfer_server;
      quote_server = text_of toml.anchor_quote_server;
      kyc_server = toml.kyc_server;
      asset = record { code = p.asset_code; issuer = p.asset_issuer };
    })

-- `/^https?:\/\//i` cut off the front; `lower` makes its letters lower case.
abbrev is_letter : ℕ → ℕ → Bool
is_letter c l = c == l || c + 32 == l

abbrev after_slashes : String → String → String
after_slashes s (String.◌∷◌ a (String.◌∷◌ b (String.◌∷◌ c rest))) =
    if code a == b':' && code b == b'/' && code c == b'/' then rest else s
after_slashes s _ = s

abbrev after_http : String → String → String
after_http s (String.◌∷◌ c rest) =
    if is_letter (code c) b's' then after_slashes s rest else after_slashes s (String.◌∷◌ c rest)
after_http s String.[] = s

unfoldable pub without_scheme : String → String
without_scheme (String.◌∷◌ a (String.◌∷◌ b (String.◌∷◌ c (String.◌∷◌ d rest)))) =
    let s = String.◌∷◌ a (String.◌∷◌ b (String.◌∷◌ c (String.◌∷◌ d rest))) in
    if is_letter (code a) b'h'
      && is_letter (code b) b't'
      && is_letter (code c) b't'
      && is_letter (code d) b'p'
    then after_http s rest
    else s
without_scheme s = s

module _ (lower : String → String) where
  -- `normalizeHomeDomain`.
  unfoldable pub normalize_home_domain : String → String
  normalize_home_domain input =
      lower (before b'/' (without_scheme (cut_end (λ c. c == b'/') (trim_string input))))

  abbrev configured_domain : String → String
  configured_domain text =
      if str_eq text "" then "tr-mock-anchor.fly.dev" else normalize_home_domain text

  -- `getAnchorHomeDomain`, with the text of the environment.
  unfoldable pub get_anchor_home_domain : Option String → String
  get_anchor_home_domain configured = configured_domain (trim_string (text_of configured))

-- The page's cache.
pub record Discovered : Type 0 where
  pub home_domain : String
  pub config : AnchorConfig

-- What the resolver gives: a file, an `AnchorError`, or anything else.
pub data Resolved : Type 0 where
  file : StellarToml → Resolved
  refused : AnchorError → Resolved
  failed : Resolved

module _ {U : Type 0} (urls : UrlLibrary U) (p : Pinned) (resolve : String → Resolved)
    (lower : String → String) (environment : Option String) where
  abbrev resolved : String → Resolved → Outcome AnchorError AnchorConfig
  resolved home_domain (file toml) = parse_stellar_toml urls p toml home_domain
  resolved home_domain (refused e) = thrown e
  resolved home_domain failed = thrown (
      new_anchor_error unreachable
        "Funding is temporarily unavailable — the Anchor's stellar.toml could not be read."
        (record no_options {
          endpoint = some (concat ("https://" ∷ home_domain ∷ "/.well-known/stellar.toml" ∷ []));
        }))

  abbrev pub asked_domain : Option String → String
  asked_domain input =
      if is_truthy input
      then normalize_home_domain lower (text_of input)
      else get_anchor_home_domain lower environment

  abbrev remember :
      Option Discovered
      → String
      → Outcome AnchorError AnchorConfig
      → Outcome AnchorError AnchorConfig × Option Discovered
  remember cached home_domain (returned config) =
      (returned config, some (record { home_domain = home_domain; config = config }))
  remember cached home_domain (thrown e) = (thrown e, cached)

  abbrev look_up : String → Option Discovered → Outcome AnchorError AnchorConfig × Option Discovered
  look_up home_domain none = remember none home_domain (resolved home_domain (resolve home_domain))
  look_up home_domain (some c) =
      if str_eq c.home_domain home_domain
      then (returned c.config, some c)
      else remember (some c) home_domain (resolved home_domain (resolve home_domain))

  -- `discover`, with the cache before and after it.
  unfoldable pub discover :
      Option String → Option Discovered → Outcome AnchorError AnchorConfig × Option Discovered
  discover input cached = look_up (asked_domain input) cached

-- `resetDiscoveryCache`.
unfoldable pub reset_discovery_cache : Option Discovered → Option Discovered
reset_discovery_cache cached = none
