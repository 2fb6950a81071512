-- ===== src/Contract/Writes.antt =====
-- The writes of apps/web/lib/contract/index.ts: simulated, signed, sent and confirmed. A run is what
-- the caller sees of it: its phases, the request to the wallet, and how it ends.
pub mod Runs
pub mod Laws
mod Tests
use showup.Prelude.{
  ℕ, ◌+◌, ◌/◌, ◌%◌, ◌<◌, Bool, true, false, not, Option, none, some, List, [], ◌∷◌, ◌++◌, ◌≡◌, ◌≢◌,
  ◌⊎◌, ◌↔◌, inl, inr, refl, arith, ltb, if◌then◌else◌, any, Bool-cases,
}
use showup.Prelude.Outcome.{Outcome, returned, thrown, ◌>>=◌}
use showup.Prelude.Text.{is_empty, pad_start}
use showup.Contract.Calls.{
  Failure, contract_error, no_hash, ContractResult, ok, err, Assembled, success, unwrap_result,
  simulated, translate_contract_error, simulated-returned_iff, translate_contract_error_lem,
}

-- `TxPhase`.
pub data TxPhase : Type 0 where
  simulating awaiting_signature submitting confirming : TxPhase

-- A phase that the caller is told of, or a call of the wallet or of the network.
pub data Step : Type 0 where
  phase : TxPhase → Step
  sign : Step
  send : Step

-- `SentTransaction<T>`: the hash of the network's first answer, and the getter of the result.
pub record Sent (A : Type 0) : Type 0 where
  pub response_hash : Option (List ℕ)
  pub result : Outcome Failure (ContractResult A)

-- What the wallet and the network do in a run: `tx.sign()`, with the bytes of the signed transaction's
-- hash where there is one, and `tx.send()`, with whether it calls `onSubmitted`.
pub record World (A : Type 0) : Type 0 where
  pub signed : Outcome Failure (Option (List ℕ))
  pub submitted : Bool
  pub sent : Outcome Failure (Sent A)

pub record Run (B : Type 0) : Type 0 where
  pub steps : List Step
  pub outcome : Outcome Failure B

abbrev hex_digit : ℕ → ℕ
hex_digit n = if ltb n 10 then b'0' + n else 87 + n

-- `byte.toString(16)`.
abbrev to_base_16 : ℕ → List ℕ
to_base_16 b = if ltb b 16 then hex_digit b ∷ [] else hex_digit (b / 16) ∷ hex_digit (b % 16) ∷ []

-- `toHex`.
unfoldable pub to_hex : List ℕ → List ℕ
to_hex [] = []
to_hex (b ∷ bytes) = pad_start 2 b'0' (to_base_16 b) ++ to_hex bytes

abbrev pub signed_hash : Option (List ℕ) → List ℕ
signed_hash none = []
signed_hash (some bytes) = to_hex bytes

abbrev pub hash_text : Option (List ℕ) → Option (List ℕ) → List ℕ
hash_text signed none = signed_hash signed
hash_text signed (some hash) = hash

-- The hash of the network's answer, or else of the signed transaction; an empty one throws.
unfoldable pub hash_of : {A : Type 0} → Option (List ℕ) → Sent A → Outcome Failure (List ℕ)
hash_of signed sent =
    if is_empty (hash_text signed sent.response_hash)
    then thrown no_hash
    else returned (hash_text signed sent.response_hash)

module _ (contract_code : List ℕ → Option ℕ) (stringify : Failure → List ℕ) where
  abbrev pub translated : {B : Type 0} → Outcome Failure B → Outcome Failure B
  translated (returned b) = returned b
  translated (thrown e) = thrown (translate_contract_error contract_code stringify e)

  abbrev pub confirm_steps : Bool → List Step
  confirm_steps true = phase confirming ∷ []
  confirm_steps false = []

  -- Behind the signature.
  abbrev pub submit :
      {A B : Type 0}
      → World A
      → (Option (List ℕ) → Sent A → Outcome Failure B)
      → Outcome Failure (Option (List ℕ))
      → Run B
  submit w finish (thrown e) = record {
    steps = phase simulating ∷ phase awaiting_signature ∷ sign ∷ [];
    outcome = translated (thrown e);
  }
  submit w finish (returned signed) = record {
    steps =
        phase simulating
        ∷ phase awaiting_signature
        ∷ sign
        ∷ phase submitting
        ∷ send
        ∷ confirm_steps w.submitted;
    outcome = translated (w.sent >>= λ sent. finish signed sent);
  }

  -- Behind the simulation, whose value is dropped.
  abbrev pub after_simulation :
      {A B : Type 0}
      → World A
      → (Option (List ℕ) → Sent A → Outcome Failure B)
      → Outcome Failure A
      → Run B
  after_simulation w finish (thrown e) = record {
    steps = phase simulating ∷ [];
    outcome = translated (thrown e);
  }
  after_simulation w finish (returned a) = submit w finish w.signed

  -- The result of a write with no value is unwrapped before its hash is read.
  abbrev pub finish_void : Option (List ℕ) → Sent Unit → Outcome Failure (List ℕ)
  finish_void signed sent =
      sent.result >>= λ r. unwrap_result contract_code stringify r >>= λ u. hash_of signed sent

  -- `executeVoidWrite`: the hash.
  unfoldable pub execute_void_write :
      Outcome Failure (Assembled (ContractResult Unit)) → World Unit → Run (List ℕ)
  execute_void_write build w =
      after_simulation w finish_void (simulated contract_code stringify build)

  -- `createEvent` reads the hash first, and then unwraps the event's id.
  abbrev pub finish_create : Option (List ℕ) → Sent ℕ → Outcome Failure (ℕ × List ℕ)
  finish_create signed sent = hash_of signed sent >>= λ hash.
      sent.result >>= λ r. unwrap_result contract_code stringify r >>= λ id. returned (id, hash)

  -- `createEvent`: the event's id and the hash.
  unfoldable pub create_event :
      Outcome Failure (Assembled (ContractResult ℕ)) → World ℕ → Run (ℕ × List ℕ)
  create_event build w = after_simulation w finish_create (simulated contract_code stringify build)
