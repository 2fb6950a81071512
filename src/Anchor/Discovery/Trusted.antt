-- ===== src/Anchor/Discovery/Trusted.antt =====
-- Which configurations discovery can give.
use showup.Prelude.{
  ◌∙◌, Bool, String, true, false, Option, none, some, List, ap, ◌++◌, ◌≡◌, refl, arith, str_eq,
  eq_iff, not, subst, Bool-cases, Option-cases, inl, inr,
}
use showup.Prelude.Outcome.{Outcome, returned, thrown, throw_if, >>=-returned}
use showup.Anchor.Errors.{AnchorError}
use showup.Anchor.Types.{AnchorConfig}
use showup.Anchor.Request.{UrlLibrary}
use showup.Anchor.Discovery.{
  StellarToml, Pinned, missing_labels, is_none_missing, missing_label, is_pinned_issuer, issuer_of,
  require_https, parse_stellar_toml, text_of, Discovered, Resolved, file, refused, failed,
  asked_domain, resolved, remember, discover,
}

not-false : (b : Bool) (e : AnchorError) {u : Unit} → throw_if (not b) e ≡ returned u → b ≡ true
not-false true e h = refl
not-false false e h = cc

returned-eq :
    (r : Outcome AnchorError AnchorConfig) {c d : AnchorConfig}
    → r ≡ returned c
    → r ≡ returned d
    → c ≡ d
returned-eq r h1 h2 = cc

-- A value that is truthy, with the text that stands for it.
abbrev IsPresent : Option String → Type 0
IsPresent value = (value ≡ some (text_of value)) × (str_eq (text_of value) "" ≡ false)

present :
    (value : Option String) (label : String) (labels : List String)
    → is_none_missing (missing_label value label ++ labels) ≡ true
    → IsPresent value × (is_none_missing labels ≡ true)
present none label labels h = cc
present (some s) label labels h = ground arith

present_last :
    (value : Option String) (label : String)
    → is_none_missing (missing_label value label) ≡ true
    → IsPresent value
present_last none label h = cc
present_last (some s) label h = ground arith

published_by_pinned :
    (p : Pinned) (issuer : Option String) {u : Unit}
    → is_pinned_issuer p issuer ≡ returned u
    → issuer ≡ some p.asset_issuer
published_by_pinned p none h = cc
published_by_pinned p (some issuer) h = ground (arith, eq_iff issuer p.asset_issuer)

module _ {U : Type 0} (urls : UrlLibrary U) (p : Pinned) where
  abbrev pub IsSecure : String → Type 0
  IsSecure endpoint = (url : U) × (urls.read endpoint ≡ some url) × (urls.protocol url ≡ "https:")

  -- A configuration that may be used: what the file says, on the pinned network, with a signing key and
  -- over https; and the asset is the pinned one, which the file issues from the pinned account.
  pub record IsTrusted (toml : StellarToml) (config : AnchorConfig) : Type 0 where
    pub published_network : toml.network_passphrase ≡ some p.passphrase
    pub published_issuer : issuer_of p.asset_code toml.currencies ≡ some p.asset_issuer
    pub published_key : toml.signing_key ≡ some config.signing_key
    pub published_auth : toml.web_auth_endpoint ≡ some config.web_auth_endpoint
    pub published_transfer : toml.transfer_server ≡ some config.transfer_server
    pub published_quote : toml.anchor_quote_server ≡ some config.quote_server
    pub on_network : config.network_passphrase ≡ p.passphrase
    pub of_asset : config.asset.code ≡ p.asset_code
    pub of_issuer : config.asset.issuer ≡ p.asset_issuer
    pub has_key : str_eq config.signing_key "" ≡ false
    pub auth_secure : IsSecure config.web_auth_endpoint
    pub transfer_secure : IsSecure config.transfer_server
    pub quote_secure : IsSecure config.quote_server

  require_https-IsSecure :
      (label endpoint : String)
      → require_https urls label endpoint ≡ returned tt
      → IsSecure endpoint
  unfolding require_https
  require_https-IsSecure label endpoint h = elim (Option-cases (urls.read endpoint)) [
    | inl e ↦ absurd (ground (arith, e, h))
    | inr (url, e) ↦ (url, e, ground (arith, e, h, eq_iff (urls.protocol url) "https:"))
  ]

  parse_stellar_toml-IsTrusted :
      (toml : StellarToml) (home_domain : String) (config : AnchorConfig)
      → parse_stellar_toml urls p toml home_domain ≡ returned config
      → IsTrusted toml config × (config.home_domain ≡ home_domain)
  unfolding parse_stellar_toml missing_labels
  parse_stellar_toml-IsTrusted toml home_domain config h =
      let (u1, complete, h1) =
        >>=-returned (throw_if (not (is_none_missing (missing_labels toml))) _) _ h in
      let (u2, on_network, h2) =
        >>=-returned (throw_if (not (str_eq (text_of toml.network_passphrase) p.passphrase)) _) _
          h1 in
      let (u3, pinned, h3) =
        >>=-returned (is_pinned_issuer p (issuer_of p.asset_code toml.currencies)) _ h2 in
      let (u4, auth, h4) =
        >>=-returned (require_https urls "WEB_AUTH_ENDPOINT" (text_of toml.web_auth_endpoint)) _
          h3 in
      let (u5, transfer, h5) =
        >>=-returned (require_https urls "TRANSFER_SERVER" (text_of toml.transfer_server)) _ h4 in
      let (u6, quoting, h6) =
        >>=-returned (require_https urls "ANCHOR_QUOTE_SERVER" (text_of toml.anchor_quote_server)) _
          h5 in
      let (key, rest1) = present toml.signing_key "SIGNING_KEY" _ (not-false _ _ complete) in
      let (auth_there, rest2) = present toml.web_auth_endpoint "WEB_AUTH_ENDPOINT" _ rest1 in
      let (transfer_there, rest3) = present toml.transfer_server "TRANSFER_SERVER" _ rest2 in
      let (quote_there, rest4) = present toml.anchor_quote_server "ANCHOR_QUOTE_SERVER" _ rest3 in
      let network_there = present_last toml.network_passphrase "NETWORK_PASSPHRASE" rest4 in
      let network : text_of toml.network_passphrase ≡ p.passphrase =
        ground (arith, on_network, eq_iff (text_of toml.network_passphrase) p.passphrase) in
      (
        subst (IsTrusted toml) (returned-eq _ refl h6) (record {
          published_network = network_there.0 ∙ ap some network;
          published_issuer = published_by_pinned p _ pinned;
          published_key = key.0;
          published_auth = auth_there.0;
          published_transfer = transfer_there.0;
          published_quote = quote_there.0;
          on_network = network;
          of_asset = refl;
          of_issuer = refl;
          has_key = key.1;
          auth_secure = require_https-IsSecure _ _ auth;
          transfer_secure = require_https-IsSecure _ _ transfer;
          quote_secure = require_https-IsSecure _ _ quoting;
        }),
        ground (arith, h6),
      )

  module _ (served : String → StellarToml → Type 0) where
    -- A configuration of this domain, from a file that the domain has served.
    abbrev pub IsPublished : String → AnchorConfig → Type 0
    IsPublished home_domain config =
        (toml : StellarToml) × served home_domain toml
        × IsTrusted toml config
        × (config.home_domain ≡ home_domain)

    -- What the cache holds.
    abbrev pub HoldsPublished : Option Discovered → Type 0
    HoldsPublished none = Unit
    HoldsPublished (some c) = IsPublished c.home_domain c.config

    abbrev pub IsPublishedResult : String → Outcome AnchorError AnchorConfig → Type 0
    IsPublishedResult home_domain (returned config) = IsPublished home_domain config
    IsPublishedResult home_domain (thrown e) = Unit

    -- What a call of `discover` gives and keeps.
    abbrev pub GivesPublished :
        String → Outcome AnchorError AnchorConfig × Option Discovered → Type 0
    GivesPublished home_domain (result, cached) =
        HoldsPublished cached × IsPublishedResult home_domain result

    module _ (resolve : String → Resolved) (lower : String → String)
        (environment : Option String) where
      parsed-IsPublished :
          (home_domain : String) (toml : StellarToml) (result : Outcome AnchorError AnchorConfig)
          → served home_domain toml
          → ((config : AnchorConfig)
              → result ≡ returned config
              → IsTrusted toml config × (config.home_domain ≡ home_domain))
          → IsPublishedResult home_domain result
      parsed-IsPublished home_domain toml (returned config) was good =
          let (trusted, same) = good config refl in (toml, was, trusted, same)
      parsed-IsPublished home_domain toml (thrown e) was good = tt

      resolved-IsPublished :
          (home_domain : String) (r : Resolved)
          → ((toml : StellarToml) → r ≡ file toml → served home_domain toml)
          → IsPublishedResult home_domain (resolved urls p resolve lower environment home_domain r)
      resolved-IsPublished home_domain (file toml) was =
          parsed-IsPublished home_domain toml _ (was toml refl)
            (parse_stellar_toml-IsTrusted toml home_domain)
      resolved-IsPublished home_domain (refused e) was = tt
      resolved-IsPublished home_domain failed was = tt

      remembered :
          (cached : Option Discovered) (home_domain : String)
          (result : Outcome AnchorError AnchorConfig)
          → HoldsPublished cached
          → IsPublishedResult home_domain result
          → GivesPublished home_domain
              (remember urls p resolve lower environment cached home_domain result)
      remembered cached home_domain (returned config) held good = (good, good)
      remembered cached home_domain (thrown e) held good = (held, good)

      -- Where the file that the resolver gives counts among those that its domain has served, and the
      -- cache holds only a configuration that is published: so does the cache after `discover`, and a
      -- configuration that is returned, fetched or cached, is published by the domain that was asked for.
      -- Published is what repeats the network, the signing key and the endpoints of a file which that
      -- domain has served, where the file names the pinned network and issues the pinned asset from the
      -- pinned issuer, the key is there and the three endpoints are addresses over https.
      pub discover-IsPublished :
          (input : Option String) (cached : Option Discovered)
          → ((home_domain : String) (toml : StellarToml)
              → resolve home_domain ≡ file toml
              → served home_domain toml)
          → HoldsPublished cached
          → GivesPublished
              (asked_domain urls p resolve lower environment input)
              (discover urls p resolve lower environment input cached)
      unfolding discover
      discover-IsPublished input none was held =
          remembered none _ _ held (resolved-IsPublished _ _ (was _))
      discover-IsPublished input (some c) was held =
          let asked = asked_domain urls p resolve lower environment input in
          elim (Bool-cases (str_eq c.home_domain asked)) [
            | inl same ↦ simp same (
              held,
              subst (λ d. IsPublished d c.config) ((eq_iff c.home_domain asked).0 same) held,
            )
            | inr differs ↦
                simp differs
                  (remembered (some c) asked _ held (resolved-IsPublished asked _ (was asked)))
          ]
