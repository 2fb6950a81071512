-- ===== src/Anchor/SignIn/Bounds.antt =====
-- What a sign-in and an authenticated call may cost.
use showup.Prelude.{
  ℕ, ◌+◌, String, Bool, true, false, Option, none, some, List, ◌≡◌, refl, arith, Option-cases, inl,
  inr, if◌then◌else◌, length, ◌∷◌, eq_iff,
}
use showup.Prelude.Outcome.{Outcome, returned, thrown, Outcome-cases}
use showup.Anchor.Json.{Json}
use showup.Anchor.Types.{AnchorConfig}
use showup.Anchor.Request.{Failure, UrlLibrary, RequestInit}
use showup.Anchor.Calls.{public_get}
use showup.Anchor.Tokens.{Runtime, StoredToken, Tokens, store_token}
use showup.Anchor.Errors.{AnchorError}
use showup.Prelude.Text.{codes, is_empty}
use showup.Anchor.SignIn.{
  State, M, ◌>>=◌, of, forget, keep_token, kept_in, cached, or_sign_in, call_once, again, or_again,
  try_call, call_with, asks_sign_in, ChallengeResponse, ValidatedChallenge, ChallengeReader,
  validate_challenge, World, AuthenticateOptions, fetch_json, ask_wallet, request_challenge,
  exchange_challenge, sign_in, authenticate, with_fresh_token,
}
use showup.Anchor.SignIn.Steps.{
  IsChallenge, Follows, Adds, Follows-trans, of-Adds, of->>=-Adds, then-Adds,
}

module _ {U : Type 0} (urls : UrlLibrary U) (parse : String → Option Json)
    (read_challenge : ChallengeReader) (runtime : Runtime) (world : World) (address : String)
    (config : AnchorConfig) where
  validate_challenge-IsChallenge :
      (challenge : ChallengeResponse) (validated : ValidatedChallenge)
      → validate_challenge urls read_challenge challenge config address ≡ returned validated
      → IsChallenge urls read_challenge config address validated.xdr
  unfolding validate_challenge
  validate_challenge-IsChallenge challenge validated h =
      elim (Option-cases (urls.read config.web_auth_endpoint)) [
        | inl e ↦ absurd (ground (arith, e, h))
        | inr (url, e) ↦
            elim (Outcome-cases (
              read_challenge challenge.transaction config.signing_key config.network_passphrase
                config.home_domain (urls.host url))) [
                  | inl (read, r) ↦ record {
                    url = url;
                    read = read;
                    endpoint_read = e;
                    accepted = ground (arith, e, r, h, eq_iff read.client_account_id address);
                    for_this_account =
                        ground (arith, e, r, h, eq_iff read.client_account_id address);
                  }
                  | inr (message, r) ↦ absurd (ground (arith, e, r, h))
                ]
      ]

  fetch_json-Adds :
      (url : String) (init : RequestInit)
      → Adds urls read_challenge config address 0 0
          (fetch_json urls parse read_challenge runtime world url init)
  unfolding fetch_json
  fetch_json-Adds url init = record {
    grows = λ s. record { signed = omega arith; called = omega arith; safe = λ h. (tt, h) };
  }

  -- `Adds` for this Anchor and account.
  abbrev Costs : {A : Type 0} → ℕ → ℕ → M A → Type 0
  Costs m n c = Adds urls read_challenge config address m n c

  free : {A : Type 0} {m n : ℕ} (r : Outcome Failure A) → Costs m n (of r)
  free {m} {n} r = of-Adds urls read_challenge config address m n r

  after :
      {A B : Type 0} (k l : ℕ) (r : Outcome Failure A) (f : A → M B)
      → ((a : A) → r ≡ returned a → Costs k l (f a))
      → Costs k l (of r >>= f)
  after k l r f g = of->>=-Adds urls read_challenge config address k l r f g

  next :
      {A B : Type 0} (m n k l : ℕ) (c : M A) (f : A → M B)
      → Costs m n c
      → ((a : A) → Costs k l (f a))
      → Costs (m + k) (n + l) (c >>= f)
  next m n k l c f h g = then-Adds urls read_challenge config address m n k l c f h g

  either :
      {A : Type 0} {m n : ℕ} (b : Bool) {c d : M A}
      → Costs m n c
      → Costs m n d
      → Costs m n (if b then c else d)
  either true p q = p
  either false p q = q

  request_challenge-Adds :
      (domain : Option String)
      → Costs 0 0 (request_challenge urls parse read_challenge runtime world config address domain)
  unfolding request_challenge
  request_challenge-Adds domain = after 0 0 _ _ λ url built.
      next 0 0 0 0 _ _ (fetch_json-Adds url public_get)
        λ answer. after 0 0 _ _ λ payload is. after 0 0 _ _ λ transaction has. free _

  exchange_challenge-Adds :
      (signed_xdr : String)
      → Costs 0 0 (exchange_challenge urls parse read_challenge runtime world config signed_xdr)
  unfolding exchange_challenge
  exchange_challenge-Adds signed_xdr = after 0 0 _ _ λ url built.
      next 0 0 0 0 _ _ (fetch_json-Adds url _) λ answer. after 0 0 _ _ λ payload is. free _

  forget-Adds : Costs 0 0 (forget urls parse read_challenge runtime world address config)
  unfolding forget
  forget-Adds = record {
    grows = λ s. record { signed = omega arith; called = omega arith; safe = λ h. h };
  }

  keep_token-Adds :
      (token : String)
      → Costs 0 0 (keep_token urls parse read_challenge runtime world address config token)
  unfolding keep_token
  keep_token-Adds token = record {
    grows = λ s.
        kept s
          (store_token runtime (codes address) (codes config.home_domain) (codes token) s.tokens);
  }
    where
      kept :
          (s : State) (r : Outcome AnchorError (StoredToken × Tokens))
          → Follows urls read_challenge config address 0 0 s
              (kept_in urls parse read_challenge runtime world s r).1
      kept s (returned (entry, tokens)) = record {
        signed = omega arith;
        called = omega arith;
        safe = λ h. h;
      }
      kept s (thrown e) = record { signed = omega arith; called = omega arith; safe = λ h. h }

  ask_wallet-Adds :
      (xdr : String)
      → IsChallenge urls read_challenge config address xdr
      → Costs 1 0 (ask_wallet urls parse read_challenge runtime world xdr)
  unfolding ask_wallet
  ask_wallet-Adds xdr valid = record {
    grows = λ s. record { signed = omega arith; called = omega arith; safe = λ h. (valid, h) };
  }

  module _ (options : AuthenticateOptions) (same : options.config ≡ config) where
    sign_in-Adds : Costs 1 0 (sign_in urls parse read_challenge runtime world address options)
    unfolding sign_in
    sign_in-Adds = rw same (
        next 0 0 1 0 _ _ forget-Adds λ u. next 0 0 1 0 _ _ (request_challenge-Adds _) λ challenge.
          after 1 0 _ _ λ validated is.
            next 1 0 0 0 _ _
              (ask_wallet-Adds validated.xdr
                (validate_challenge-IsChallenge challenge validated is))
              λ answer. after 0 0 _ _ λ signed given.
                next 0 0 0 0 _ _ (exchange_challenge-Adds signed)
                  λ token. next 0 0 0 0 _ _ (keep_token-Adds token) λ v. free _)

    cached-Adds : Costs 0 0 (cached urls parse read_challenge runtime world address options)
    unfolding cached
    cached-Adds = record {
      grows = λ s. record { signed = omega arith; called = omega arith; safe = λ h. h };
    }

    or_sign_in-Adds :
        (found : Option (List ℕ))
        → Costs 1 0 (or_sign_in urls parse read_challenge runtime world address options found)
    or_sign_in-Adds none = sign_in-Adds
    or_sign_in-Adds (some token) = either (is_empty token) sign_in-Adds (free _)

    authenticate-Adds :
        Costs 1 0 (authenticate urls parse read_challenge runtime world address options)
    unfolding authenticate
    authenticate-Adds =
        either options.force_refresh sign_in-Adds (next 0 0 1 0 _ _ cached-Adds or_sign_in-Adds)

  module _ {A : Type 0} (call : ℕ → List ℕ → Outcome Failure A) where
    call_once-Adds :
        (token : List ℕ) → Costs 0 1 (call_once urls parse read_challenge runtime world call token)
    unfolding call_once
    call_once-Adds token = record {
      grows = λ s. record { signed = omega arith; called = omega arith; safe = λ h. (tt, h) };
    }

    again-Adds :
        (options : AuthenticateOptions)
        → options.config ≡ config
        → Costs 1 1 (again urls parse read_challenge runtime world call address options)
    again-Adds options same =
        next 0 0 1 1 _ _ (rw same forget-Adds)
          λ u. next 1 0 0 1 _ _ (authenticate-Adds _ same) λ token. call_once-Adds token

    or_again-Adds :
        (options : AuthenticateOptions)
        → options.config ≡ config
        → (r : Outcome Failure A)
        → Costs 1 1 (or_again urls parse read_challenge runtime world call address options r)
    or_again-Adds options same (returned a) = free _
    or_again-Adds options same (thrown e) =
        either (asks_sign_in e) (again-Adds options same) (free _)

    try_call-Adds :
        (options : AuthenticateOptions)
        → options.config ≡ config
        → (token : List ℕ)
        → Costs 1 2 (try_call urls parse read_challenge runtime world call address options token)
    try_call-Adds options same token = record {
      grows = λ s.
          Follows-trans urls read_challenge config address 0 1 1 1 ((call_once-Adds token).grows s)
            ((or_again-Adds options same _).grows _);
    }

-- An authenticated call costs at most two signatures and is tried at most twice, whatever the network,
-- the wallet and the call do; and the wallet is asked to sign only challenges of this Anchor, its network,
-- its home domain and the host of its endpoint, for the account itself.
pub with_fresh_token_bounds :
    {U A : Type 0} (urls : UrlLibrary U) (parse : String → Option Json)
    (read_challenge : ChallengeReader) (runtime : Runtime) (world : World)
    (call : ℕ → List ℕ → Outcome Failure A) (address : String) (options : AuthenticateOptions)
    (s : State)
    → Follows urls read_challenge options.config address 2 2 s
        (with_fresh_token urls parse read_challenge runtime world call address options s).1
unfolding with_fresh_token
with_fresh_token_bounds urls parse read_challenge runtime world call address options s =
    (next urls parse read_challenge runtime world address options.config 1 0 1 2 _ _
        (authenticate-Adds urls parse read_challenge runtime world address options.config options
          refl)
        (try_call-Adds urls parse read_challenge runtime world address options.config call options
          refl)).grows
      s

-- Behind a sign-in, a call that returns, or throws anything but the Anchor's word that the session has
-- expired, is made once, and its result is passed on with no further step.
pub with_fresh_token_once :
    {U A : Type 0} (urls : UrlLibrary U) (parse : String → Option Json)
    (read_challenge : ChallengeReader) (runtime : Runtime) (world : World)
    (call : ℕ → List ℕ → Outcome Failure A) (address : String) (options : AuthenticateOptions)
    (s s' : State) (token : List ℕ)
    → authenticate urls parse read_challenge runtime world address options s ≡ (returned token, s')
    → ((e : Failure) → call (length s'.steps) token ≡ thrown e → asks_sign_in e ≡ false)
    → with_fresh_token urls parse read_challenge runtime world call address options s
      ≡ (call (length s'.steps) token, record s' { steps = call_with token ∷ s'.steps })
unfolding with_fresh_token ◌>>=◌ call_once of
with_fresh_token_once urls parse read_challenge runtime world call address options s s' token signed
      kept =
    elim (Outcome-cases (call (length s'.steps) token)) [
      | inl (a, e) ↦ rw (signed, e) refl
      | inr (e, is) ↦ rw (signed, is, kept e is) refl
    ]
