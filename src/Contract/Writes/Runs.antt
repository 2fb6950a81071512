-- ===== src/Contract/Writes/Runs.antt =====
-- The runs that all writes share: their steps, how they return, and what they throw.
use showup.Prelude.{
  ℕ, Bool, true, false, Option, some, List, [], ◌∷◌, ◌≡◌, ◌↔◌, refl, arith, any, take, ap, ◌∙◌,
}
use showup.Prelude.Outcome.{Outcome, returned, thrown, ◌>>=◌}
use showup.Prelude.Text.{is_empty}
use showup.Contract.Calls.{
  Failure, ContractResult, ok, err, Assembled, success, unwrap_result, translate_contract_error,
  translate_contract_error_lem,
}
use showup.Contract.Writes.{
  Step, phase, sign, send, simulating, awaiting_signature, submitting, confirming, Sent, World, Run,
  hash_text, hash_of, after_simulation, submit, translated,
}

abbrev pub is_sign : Step → Bool
is_sign sign = true
is_sign _ = false

-- The steps of a run that goes all the way, in order.
abbrev pub all_steps : List Step
all_steps =
    phase simulating
    ∷ phase awaiting_signature
    ∷ sign
    ∷ phase submitting
    ∷ send
    ∷ phase confirming
    ∷ []

-- A call whose simulation succeeded with an ok result `a`.
abbrev pub Accepted : {A : Type 0} → Outcome Failure (Assembled (ContractResult A)) → A → Type 0
Accepted {A} build a =
    (tx : Assembled (ContractResult A)) × (build ≡ returned tx)
    × (tx.simulation ≡ some success)
    × (tx.result ≡ returned (ok a))

pub hash_of-returned :
    {A : Type 0} (signed : Option (List ℕ)) (sent : Sent A) (hash : List ℕ)
    → hash_of signed sent ≡ returned hash
    → (hash ≡ hash_text signed sent.response_hash) × (is_empty hash ≡ false)
unfolding hash_of
hash_of-returned signed sent hash h = ground arith

module _ (contract_code : List ℕ → Option ℕ) (stringify : Failure → List ℕ) where
  module _ {A B : Type 0} (finish : Option (List ℕ) → Sent A → Outcome Failure B)
      (w : World A) where
    abbrev pub run : Outcome Failure A → Run B
    run o = after_simulation contract_code stringify w finish o

    pub run-sign :
        (o : Outcome Failure A) → (any is_sign (run o).steps ≡ true) ↔ ((a : A) × (o ≡ returned a))
    run-sign (thrown e) = (λ h. cc, λ (a, h). cc)
    run-sign (returned a) = (λ h. (a, refl), λ h. signs w.signed)
      where
        signs :
            (s : Outcome Failure (Option (List ℕ)))
            → any is_sign (submit contract_code stringify w finish s).steps ≡ true
        signs (thrown e) = refl
        signs (returned s) = refl

    submit-steps :
        (s : Outcome Failure (Option (List ℕ))) (b : Bool)
        → w.submitted ≡ b
        → (n : ℕ) × ((submit contract_code stringify w finish s).steps ≡ take n all_steps)
    submit-steps (thrown e) b h = (3, refl)
    submit-steps (returned s) true h = (6, rw h)
    submit-steps (returned s) false h = (5, rw h)

    pub run-steps : (o : Outcome Failure A) → (n : ℕ) × ((run o).steps ≡ take n all_steps)
    run-steps (thrown e) = (1, refl)
    run-steps (returned a) = submit-steps w.signed w.submitted refl

    translated-thrown :
        (o : Outcome Failure B) (f : Failure)
        → translated contract_code stringify o ≡ thrown f
        → translate_contract_error contract_code stringify f ≡ f
    translated-thrown (returned b) f h = cc
    translated-thrown (thrown e) f h =
        ground (arith, (translate_contract_error_lem contract_code stringify e).1)

    submit-thrown :
        (s : Outcome Failure (Option (List ℕ))) (f : Failure)
        → (submit contract_code stringify w finish s).outcome ≡ thrown f
        → translate_contract_error contract_code stringify f ≡ f
    submit-thrown (thrown e) f h = translated-thrown (thrown e) f h
    submit-thrown (returned s) f h = translated-thrown (w.sent >>= λ sent. finish s sent) f h

    pub run-thrown :
        (o : Outcome Failure A) (f : Failure)
        → (run o).outcome ≡ thrown f
        → translate_contract_error contract_code stringify f ≡ f
    run-thrown (thrown e) f h = translated-thrown (thrown e) f h
    run-thrown (returned a) f h = submit-thrown w.signed f h

    -- The run returned `b`.
    abbrev pub Finished : Outcome Failure A → B → Type 0
    Finished o b =
        (a : A) × (signed : Option (List ℕ)) × (sent : Sent A) × (o ≡ returned a)
        × (w.signed ≡ returned signed)
        × (w.sent ≡ returned sent)
        × (finish signed sent ≡ returned b)

    translated-returned :
        (o : Outcome Failure B) (b : B)
        → translated contract_code stringify o ≡ returned b
        → o ≡ returned b
    translated-returned (returned c) b h = h
    translated-returned (thrown e) b h = cc

    sent-returned :
        (s : Option (List ℕ)) (o : Outcome Failure (Sent A)) (b : B)
        → (o >>= λ sent. finish s sent) ≡ returned b
        → (sent : Sent A) × (o ≡ returned sent) × (finish s sent ≡ returned b)
    sent-returned s (thrown e) b h = cc
    sent-returned s (returned sent) b h = (sent, refl, h)

    submit-returned :
        (a : A) (s : Outcome Failure (Option (List ℕ))) (b : B)
        → w.signed ≡ s
        → (submit contract_code stringify w finish s).outcome ≡ returned b
        → Finished (returned a) b
    submit-returned a (thrown e) b p h = cc
    submit-returned a (returned s) b p h =
        let (sent, q, f) =
          sent-returned s w.sent b (translated-returned (w.sent >>= λ sent. finish s sent) b h) in
        (a, s, sent, refl, p, q, f)

    pub run-returned : (o : Outcome Failure A) (b : B) → (run o).outcome ≡ returned b → Finished o b
    run-returned (thrown e) b h = cc
    run-returned (returned a) b h = submit-returned a w.signed b refl h

  pub ok_result :
      {A : Type 0} {B : Type 0} (o : Outcome Failure (ContractResult A)) (k : A → Outcome Failure B)
      (b : B)
      → (o >>= λ r. unwrap_result contract_code stringify r >>= λ a. k a) ≡ returned b
      → (a : A) × (o ≡ returned (ok a)) × (k a ≡ returned b)
  unfolding unwrap_result
  ok_result (thrown e) k b h = cc
  ok_result (returned (err m)) k b h = cc
  ok_result (returned (ok a)) k b h = (a, refl, h)

  abbrev pub with_hash : List ℕ → ℕ → Outcome Failure (ℕ × List ℕ)
  with_hash text n = returned (n, text)

  pub created :
      (signed : Option (List ℕ)) (sent : Sent ℕ) (o : Outcome Failure (List ℕ)) (id : ℕ)
      (hash : List ℕ)
      → (o >>= λ text.
          sent.result >>= λ r. unwrap_result contract_code stringify r >>= λ n. with_hash text n)
        ≡ returned (id, hash)
      → (o ≡ returned hash) × (sent.result ≡ returned (ok id))
  created signed sent (thrown e) id hash h = cc
  created signed sent (returned text) id hash h =
      let (n, p, q) = ok_result sent.result (with_hash text) (id, hash) h in
      (
        ap (λ (o : Outcome Failure (ℕ × List ℕ)). second o) q,
        p ∙ ap (λ (o : Outcome Failure (ℕ × List ℕ)). first o) q,
      )
    where
      second : Outcome Failure (ℕ × List ℕ) → Outcome Failure (List ℕ)
      second (returned (n, t)) = returned t
      second (thrown e) = thrown e

      first : Outcome Failure (ℕ × List ℕ) → Outcome Failure (ContractResult ℕ)
      first (returned (n, t)) = returned (ok n)
      first (thrown e) = thrown e
