-- ===== src/Contract/Writes/Laws.antt =====
-- When a write asks for a signature, when it is confirmed, and what it throws.
use showup.Prelude.{ℕ, true, false, Option, List, ◌≡◌, ◌↔◌, any, take}
use showup.Prelude.Outcome.{Outcome, returned, thrown}
use showup.Prelude.Text.{is_empty}
use showup.Contract.Calls.{
  Failure, ContractResult, ok, Assembled, simulated, translate_contract_error,
  simulated-returned_iff,
}
use showup.Contract.Writes.{
  Sent, World, hash_text, hash_of, execute_void_write, create_event, finish_void, finish_create,
}
use showup.Contract.Writes.Runs.{
  is_sign, all_steps, Accepted, hash_of-returned, run-sign, run-steps, run-thrown, run-returned,
  ok_result, created,
}

module _ (contract_code : List ℕ → Option ℕ) (stringify : Failure → List ℕ) where
  -- The wallet is asked to sign a write exactly when its call was assembled, its simulation succeeded
  -- and the contract's result there is ok: a call that the contract rejects, or that needs archived
  -- entries restored, costs no signature.
  pub signs_iff :
      ((build : Outcome Failure (Assembled (ContractResult Unit))) (w : World Unit)
        → (any is_sign (execute_void_write contract_code stringify build w).steps ≡ true)
          ↔ ((u : Unit) × Accepted build u))
      × ((build : Outcome Failure (Assembled (ContractResult ℕ))) (w : World ℕ)
          → (any is_sign (create_event contract_code stringify build w).steps ≡ true)
            ↔ ((id : ℕ) × Accepted build id))
  unfolding execute_void_write create_event
  signs_iff = (
    λ build w. via build (
        run-sign contract_code stringify (finish_void contract_code stringify) w
          (simulated contract_code stringify build)),
    λ build w. via build (
        run-sign contract_code stringify (finish_create contract_code stringify) w
          (simulated contract_code stringify build)),
  )
    where
      via :
          {A : Type 0} {P : Type 0} (build : Outcome Failure (Assembled (ContractResult A)))
          → P ↔ ((a : A) × (simulated contract_code stringify build ≡ returned a))
          → P ↔ ((a : A) × Accepted build a)
      via build (forth, back) = (
        λ p.
            let (a, e) = forth p in
            (a, (simulated-returned_iff contract_code stringify build a).0 e),
        λ (a, e). back (a, (simulated-returned_iff contract_code stringify build a).1 e),
      )

  -- Every run is a prefix of: simulate, ask for the signature, sign, submit, send, confirm.
  pub steps_in_order :
      ((build : Outcome Failure (Assembled (ContractResult Unit))) (w : World Unit)
        → (n : ℕ) × ((execute_void_write contract_code stringify build w).steps ≡ take n all_steps))
      × ((build : Outcome Failure (Assembled (ContractResult ℕ))) (w : World ℕ)
          → (n : ℕ) × ((create_event contract_code stringify build w).steps ≡ take n all_steps))
  unfolding execute_void_write create_event
  steps_in_order = (
    λ build w.
        run-steps contract_code stringify (finish_void contract_code stringify) w
          (simulated contract_code stringify build),
    λ build w.
        run-steps contract_code stringify (finish_create contract_code stringify) w
          (simulated contract_code stringify build),
  )

  -- A write that returns a hash was accepted by its simulation, signed and sent; the confirmed
  -- contract's result is ok; and the hash is the network's, or else the signed transaction's, and is
  -- not empty.
  pub execute_void_write-confirmed :
      (build : Outcome Failure (Assembled (ContractResult Unit))) (w : World Unit) (hash : List ℕ)
      → (execute_void_write contract_code stringify build w).outcome ≡ returned hash
      → (signed : Option (List ℕ)) × (sent : Sent Unit) × ((u : Unit) × Accepted build u)
        × (w.signed ≡ returned signed)
        × (w.sent ≡ returned sent)
        × ((u : Unit) × (sent.result ≡ returned (ok u)))
        × (hash ≡ hash_text signed sent.response_hash)
        × (is_empty hash ≡ false)
  unfolding execute_void_write
  execute_void_write-confirmed build w hash h =
      let (a, signed, sent, e, p, q, f) =
        run-returned contract_code stringify (finish_void contract_code stringify) w
          (simulated contract_code stringify build) hash h in
      let (u, r, g) =
        ok_result contract_code stringify sent.result (λ u. hash_of signed sent) hash f in
      let (text, some_hash) = hash_of-returned signed sent hash g in
      (
        signed,
        sent,
        (a, (simulated-returned_iff contract_code stringify build a).0 e),
        p,
        q,
        (u, r),
        text,
        some_hash,
      )

  -- An event id that is returned is the one in the confirmed transaction's own result, whatever the
  -- simulation said it would be.
  pub create_event-confirmed :
      (build : Outcome Failure (Assembled (ContractResult ℕ))) (w : World ℕ) (id : ℕ)
      (hash : List ℕ)
      → (create_event contract_code stringify build w).outcome ≡ returned (id, hash)
      → (signed : Option (List ℕ)) × (sent : Sent ℕ) × ((guess : ℕ) × Accepted build guess)
        × (w.signed ≡ returned signed)
        × (w.sent ≡ returned sent)
        × (sent.result ≡ returned (ok id))
        × (hash ≡ hash_text signed sent.response_hash)
        × (is_empty hash ≡ false)
  unfolding create_event
  create_event-confirmed build w id hash h =
      let (a, signed, sent, e, p, q, f) =
        run-returned contract_code stringify (finish_create contract_code stringify) w
          (simulated contract_code stringify build) (id, hash) h in
      let (g, r) = created contract_code stringify signed sent (hash_of signed sent) id hash f in
      let (text, some_hash) = hash_of-returned signed sent hash g in
      (
        signed,
        sent,
        (a, (simulated-returned_iff contract_code stringify build a).0 e),
        p,
        q,
        r,
        text,
        some_hash,
      )

  -- What a write without a value throws is translated already: were there a contract's code in its
  -- text, it would be the contract error with that code.
  pub execute_void_write-throws :
      (build : Outcome Failure (Assembled (ContractResult Unit))) (w : World Unit) (f : Failure)
      → (execute_void_write contract_code stringify build w).outcome ≡ thrown f
      → translate_contract_error contract_code stringify f ≡ f
  unfolding execute_void_write
  execute_void_write-throws build w f h =
      run-thrown contract_code stringify (finish_void contract_code stringify) w
        (simulated contract_code stringify build) f h

  -- What the creation of an event throws is translated already, too.
  pub create_event-throws :
      (build : Outcome Failure (Assembled (ContractResult ℕ))) (w : World ℕ) (f : Failure)
      → (create_event contract_code stringify build w).outcome ≡ thrown f
      → translate_contract_error contract_code stringify f ≡ f
  unfolding create_event
  create_event-throws build w f h =
      run-thrown contract_code stringify (finish_create contract_code stringify) w
        (simulated contract_code stringify build) f h
