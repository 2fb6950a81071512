-- ===== src/Anchor/Discovery/Tests.antt =====
-- A test Anchor, asked for by its address.
use showup.Prelude.{String, none, some, [], ◌∷◌, ◌≡◌, refl}
use showup.Anchor.Discovery.{
  StellarToml, Pinned, Resolved, file, asked_domain, discover, normalize_home_domain,
}
use showup.Anchor.Discovery.Trusted.{GivesPublished, discover-IsPublished}
use showup.Anchor.Request.{UrlLibrary}
use showup.Prelude.Text.{trim_string, cut_end, before}
use showup.Anchor.Discovery.{without_scheme}

abbrev addresses : UrlLibrary String
addresses = record {
  read = λ s. some s;
  host = λ s. s;
  protocol = λ s. "https:";
  set_parameter = λ u k v. u;
  print = λ s. s;
}

abbrev pinned : Pinned
pinned = record { passphrase = "Test"; asset_code = "USDC"; asset_issuer = "GI" }

abbrev toml : StellarToml
toml = record {
  signing_key = some "GS";
  web_auth_endpoint = some "https://a/auth";
  transfer_server = some "https://a/sep6";
  anchor_quote_server = some "https://a/sep38";
  network_passphrase = some "Test";
  kyc_server = none;
  currencies = record { code = some "USDC"; issuer = some "GI" } ∷ [];
}

abbrev resolver : String → Resolved
resolver s = file toml

-- The file that the resolver gives is the one that a domain has served.
abbrev Served : String → StellarToml → Type 0
Served home_domain t = resolver home_domain ≡ file t

discover-IsPublished_example :
    GivesPublished addresses pinned Served
      (asked_domain addresses pinned resolver (λ s. s) none (some "https://a/"))
      (discover addresses pinned resolver (λ s. s) none (some "https://a/") none)
discover-IsPublished_example =
    discover-IsPublished addresses pinned Served resolver (λ s. s) none (some "https://a/") none
      (λ home_domain t e. e) tt

normalized : normalize_home_domain (λ s. s) " https://anchor.dev/path/ " ≡ "anchor.dev"
unfolding normalize_home_domain without_scheme trim_string cut_end before
normalized = refl
