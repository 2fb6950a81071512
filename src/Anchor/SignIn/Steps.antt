-- ===== src/Anchor/SignIn/Steps.antt =====
-- How many signatures and calls a computation adds, and what it has signed.
use showup.Prelude.{ℕ, ◌+◌, ◌≤◌, String, some, List, [], ◌∷◌, ◌≡◌, refl, arith, All}
use showup.Prelude.Outcome.{Outcome, returned, thrown}
use showup.Anchor.Types.{AnchorConfig}
use showup.Anchor.Request.{Failure, UrlLibrary}
use showup.Anchor.SignIn.{
  Step, request, sign, call_with, State, M, continue, ◌>>=◌, of, ReadChallenge, ChallengeReader,
}

abbrev pub signatures : List Step → ℕ
signatures [] = 0
signatures (sign xdr ∷ steps) = signatures steps + 1
signatures (request r ∷ steps) = signatures steps
signatures (call_with token ∷ steps) = signatures steps

abbrev pub calls : List Step → ℕ
calls [] = 0
calls (sign xdr ∷ steps) = calls steps
calls (request r ∷ steps) = calls steps
calls (call_with token ∷ steps) = calls steps + 1

module _ {U : Type 0} (urls : UrlLibrary U) (read_challenge : ChallengeReader) where
  -- A challenge that may be signed: it reads as one of this Anchor for this account.
  pub record IsChallenge (config : AnchorConfig) (account xdr : String) : Type 0 where
    pub url : U
    pub read : ReadChallenge
    pub endpoint_read : urls.read config.web_auth_endpoint ≡ some url
    pub accepted :
        read_challenge xdr config.signing_key config.network_passphrase config.home_domain
          (urls.host url)
        ≡ returned read
    pub for_this_account : read.client_account_id ≡ account

  abbrev pub IsSafe : AnchorConfig → String → Step → Type 0
  IsSafe config account (sign xdr) = IsChallenge config account xdr
  IsSafe config account (request r) = Unit
  IsSafe config account (call_with token) = Unit

  module _ (config : AnchorConfig) (account : String) where
    -- `s'` follows `s` by at most `m` signatures, each of a challenge, and at most `n` calls.
    pub record Follows (m n : ℕ) (s s' : State) : Type 0 where
      pub signed : signatures s'.steps ≤ signatures s.steps + m
      pub called : calls s'.steps ≤ calls s.steps + n
      pub safe : All (IsSafe config account) s.steps → All (IsSafe config account) s'.steps

    -- Whatever state it starts from, `c` adds at most so much.
    pub record Adds {A : Type 0} (m n : ℕ) (c : M A) : Type 0 where
      pub grows : (s : State) → Follows m n s (c s).1

    pub Follows-trans :
        (m n k l : ℕ) {s s' s'' : State}
        → Follows m n s s'
        → Follows k l s' s''
        → Follows (m + k) (n + l) s s''
    Follows-trans m n k l f g = record {
      signed = omega (arith, f.signed, g.signed);
      called = omega (arith, f.called, g.called);
      safe = λ h. g.safe (f.safe h);
    }

    pub of-Adds : {A : Type 0} (m n : ℕ) (r : Outcome Failure A) → Adds m n (of r)
    unfolding of
    of-Adds m n r = record {
      grows = λ s. record { signed = omega arith; called = omega arith; safe = λ h. h };
    }

    continue-Adds :
        {A B : Type 0} (m n k l : ℕ) (r : Outcome Failure A) (f : A → M B) (s s' : State)
        → Follows m n s s'
        → ((a : A) → r ≡ returned a → Follows k l s' (f a s').1)
        → Follows (m + k) (n + l) s (continue r f s').1
    continue-Adds m n k l (returned a) f s s' h g = Follows-trans m n k l h (g a refl)
    continue-Adds m n k l (thrown e) f s s' h g = record {
      signed = omega (arith, h.signed);
      called = omega (arith, h.called);
      safe = h.safe;
    }

    -- The same, where no step is taken first.
    pub of->>=-Adds :
        {A B : Type 0} (k l : ℕ) (r : Outcome Failure A) (f : A → M B)
        → ((a : A) → r ≡ returned a → Adds k l (f a))
        → Adds k l (of r >>= f)
    unfolding of ◌>>=◌
    of->>=-Adds k l (returned a) f g = record { grows = λ s. (g a refl).grows s }
    of->>=-Adds k l (thrown e) f g = record {
      grows = λ s. record { signed = omega arith; called = omega arith; safe = λ h. h };
    }

    -- A chain, where the rest may use what the first step returned.
    pub >>=-Adds :
        {A B : Type 0} (m n k l : ℕ) (c : M A) (f : A → M B)
        → Adds m n c
        → ((a : A) (s : State) → (c s).0 ≡ returned a → Follows k l (c s).1 (f a (c s).1).1)
        → Adds (m + k) (n + l) (c >>= f)
    unfolding ◌>>=◌
    >>=-Adds m n k l c f h g = record {
      grows = λ s. continue-Adds m n k l (c s).0 f s (c s).1 (h.grows s) (λ a e. g a s e);
    }

    -- A chain, where the rest behaves so whatever the first step returned.
    pub then-Adds :
        {A B : Type 0} (m n k l : ℕ) (c : M A) (f : A → M B)
        → Adds m n c
        → ((a : A) → Adds k l (f a))
        → Adds (m + k) (n + l) (c >>= f)
    then-Adds m n k l c f h g = >>=-Adds m n k l c f h (λ a s e. (g a).grows (c s).1)
