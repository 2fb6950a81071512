-- ===== src/Contract/Calls.antt =====
-- The reads of apps/web/lib/contract/index.ts, and the translation of what they throw
-- (apps/web/lib/contract/errors.ts).
use showup.Prelude.{
  ℕ, Option, none, some, List, ◌≡◌, ◌⊎◌, inl, inr, ◌↔◌, refl, arith, Option-cases, ap,
}
use showup.Prelude.Outcome.{Outcome, returned, thrown, ◌>>=◌}
use showup.Domain.Types.{EventView, ReservationView}
use showup.Contract.ErrorCode.{extract_contract_error_code}
use showup.Contract.Mappers.{
  GeneratedEvent, GeneratedReservation, GeneratedConfig, ContractConfig, to_event_view,
  to_reservation_view, to_contract_config,
}

-- What a call throws: a `ContractError`, one of the errors of this layer, or what the SDK or the
-- wallet threw, told apart by its text.
pub data Failure : Type 0 where
  contract_error : ℕ → Failure
  not_simulated : Failure
  restore_required : Failure
  simulation_failed : List ℕ → Failure
  returned_error : Option (List ℕ) → Failure
  no_hash : Failure
  foreign : List ℕ → Failure

-- A simulation's response, as `isSimulationError` and then `isSimulationRestore` tell it apart.
pub data Simulation : Type 0 where
  failed : List ℕ → Simulation
  restore : Simulation
  success : Simulation

-- `AssembledTransaction<T>`; `result` is a getter, which may throw.
pub record Assembled (A : Type 0) : Type 0 where
  pub simulation : Option Simulation
  pub result : Outcome Failure A

-- `Result<T>` of the bindings; an error has the text of its `message`, where that is a string.
pub data ContractResult (A : Type 0) : Type 0 where
  ok : A → ContractResult A
  err : Option (List ℕ) → ContractResult A

abbrev simulation_failure : List ℕ → Option ℕ → Failure
simulation_failure text none = simulation_failed text
simulation_failure text (some code) = contract_error code

abbrev pub of_simulation : {A : Type 0} → Option Simulation → Outcome Failure A → Outcome Failure A
of_simulation none result = thrown not_simulated
of_simulation (some (failed text)) result =
    thrown (simulation_failure text (extract_contract_error_code text))
of_simulation (some restore) result = thrown restore_required
of_simulation (some success) result = result

-- `readSimulation`.
unfoldable pub read_simulation : {A : Type 0} → Assembled A → Outcome Failure A
read_simulation tx = of_simulation tx.simulation tx.result

-- `contract_code` reads a message as a base64 `ScError` of a contract: `xdr.ScError.fromXDR` with its
-- type and its code. `stringify` is the text of a thrown value.
module _ (contract_code : List ℕ → Option ℕ) (stringify : Failure → List ℕ) where
  -- `contractCodeFromResultError`.
  abbrev pub contract_code_from_result_error : Option (List ℕ) → Option ℕ
  contract_code_from_result_error none = none
  contract_code_from_result_error (some message) = contract_code message

  abbrev pub result_failure : Option (List ℕ) → Option ℕ → Failure
  result_failure message none = returned_error message
  result_failure message (some code) = contract_error code

  -- `unwrapResult`.
  unfoldable pub unwrap_result : {A : Type 0} → ContractResult A → Outcome Failure A
  unwrap_result (ok a) = returned a
  unwrap_result (err message) =
      thrown (result_failure message (contract_code_from_result_error message))

  abbrev pub code_or_value : Failure → Option ℕ → Failure
  code_or_value value none = value
  code_or_value value (some code) = contract_error code

  -- `translateContractError`, with `contractErrorFrom`.
  unfoldable pub translate_contract_error : Failure → Failure
  translate_contract_error (contract_error code) = contract_error code
  translate_contract_error value =
      code_or_value value (extract_contract_error_code (stringify value))

  -- `try { … } catch (error) { throw translateContractError(error); }`.
  abbrev pub caught : {A : Type 0} → Outcome Failure A → Outcome Failure A
  caught (returned a) = returned a
  caught (thrown e) = thrown (translate_contract_error e)

  -- What a call with a `Result` says under simulation.
  unfoldable pub simulated :
      {A : Type 0} → Outcome Failure (Assembled (ContractResult A)) → Outcome Failure A
  simulated build = build >>= λ tx. read_simulation tx >>= λ r. unwrap_result r

  -- `getConfig`, behind the call of the bindings.
  unfoldable pub get_config :
      Outcome Failure (Assembled GeneratedConfig) → Outcome Failure ContractConfig
  get_config call =
      caught (call >>= λ tx. read_simulation tx >>= λ c. returned (to_contract_config c))

  module _ (to_number : ℕ → ℕ) where
    -- `getEventCount`.
    unfoldable pub get_event_count : Outcome Failure (Assembled ℕ) → Outcome Failure ℕ
    get_event_count call =
        caught (call >>= λ tx. read_simulation tx >>= λ n. returned (to_number n))

    -- `getEvent`.
    unfoldable pub get_event :
        Outcome Failure (Assembled (ContractResult GeneratedEvent)) → Outcome Failure EventView
    get_event call = caught (simulated call >>= λ e. returned (to_event_view to_number e))

    abbrev pub reservation_or_null : Option GeneratedReservation → Option ReservationView
    reservation_or_null none = none
    reservation_or_null (some r) = some (to_reservation_view to_number r)

    -- `getReservation`.
    unfoldable pub get_reservation :
        Outcome Failure (Assembled (Option GeneratedReservation))
        → Outcome Failure (Option ReservationView)
    get_reservation call =
        caught (call >>= λ tx. read_simulation tx >>= λ r. returned (reservation_or_null r))

  accepted :
      {A : Type 0} (s : Option Simulation) (r : Outcome Failure (ContractResult A)) (a : A)
      → (of_simulation s r >>= λ x. unwrap_result x) ≡ returned a
      → (s ≡ some success) × (r ≡ returned (ok a))
  unfolding unwrap_result
  accepted none r a h = cc
  accepted (some (failed text)) r a h = cc
  accepted (some restore) r a h = cc
  accepted (some success) (thrown e) a h = cc
  accepted (some success) (returned (err m)) a h = cc
  accepted (some success) (returned (ok b)) a h = (refl, cc)

  -- A value is read only off a call that was assembled and whose simulation succeeded: not off one
  -- that was not simulated, that failed, or that needs archived entries restored; and with a `Result`
  -- only off one that is ok.
  pub simulated-returned_iff :
      {A : Type 0} (build : Outcome Failure (Assembled (ContractResult A))) (a : A)
      → (simulated build ≡ returned a) ↔ (
          (tx : Assembled (ContractResult A)) × (build ≡ returned tx)
          × (tx.simulation ≡ some success)
          × (tx.result ≡ returned (ok a)))
  unfolding simulated read_simulation unwrap_result
  simulated-returned_iff (thrown e) a = (λ h. cc, λ (tx, b, s, r). cc)
  simulated-returned_iff (returned tx) a = (
    λ h. let (s, r) = accepted tx.simulation tx.result a h in (tx, refl, s, r),
    λ (t, b, s, r). ground arith,
  )

  translate-cases :
      (value : Failure)
      → (translate_contract_error value ≡ value)
        ⊎ ((code : ℕ) × (extract_contract_error_code (stringify value) ≡ some code)
            × (translate_contract_error value ≡ contract_error code))
  unfolding translate_contract_error
  translate-cases (contract_error code) = inl refl
  translate-cases value = elim (Option-cases (extract_contract_error_code (stringify value))) [
    | inl no_code ↦ inl (rw no_code)
    | inr (code, e) ↦ inr (code, e, rw e)
  ]

  -- Translation keeps a contract error, turns an error whose text has a code into the contract error
  -- with that code and leaves any other as it is; so a second `catch` changes nothing.
  pub translate_contract_error_lem :
      (value : Failure)
      → ((translate_contract_error value ≡ value)
          ⊎ ((code : ℕ) × (extract_contract_error_code (stringify value) ≡ some code)
              × (translate_contract_error value ≡ contract_error code)))
        × (translate_contract_error (translate_contract_error value)
            ≡ translate_contract_error value)
  translate_contract_error_lem value = (
    translate-cases value,
    elim (translate-cases value) [
      | inl same ↦ ap translate_contract_error same
      | inr (code, e, to_code) ↦ rw to_code (unfold translate_contract_error in refl)
    ],
  )
