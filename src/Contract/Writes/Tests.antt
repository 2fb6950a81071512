-- ===== src/Contract/Writes/Tests.antt =====
-- A write that is confirmed, one that its simulation rejects, and the theorems on them.
use showup.Prelude.{ℕ, true, false, Option, none, some, List, [], ◌∷◌, ◌≡◌, ◌↔◌, refl, any}
use showup.Prelude.Outcome.{Outcome, returned, thrown}
use showup.Prelude.Text.{codes, is_empty, pad_start, number, number_from, strip_start, is_space}
use showup.Contract.ErrorCode.{extract_contract_error_code, match_at}
use showup.Contract.Calls.{
  Failure, contract_error, foreign, failed, success, ContractResult, ok, Assembled, unwrap_result,
  read_simulation, simulated, translate_contract_error,
}
use showup.Contract.Writes.{
  phase, simulating, World, to_hex, hash_of, execute_void_write, create_event,
}
use showup.Contract.Writes.Runs.{is_sign, all_steps, Accepted}
use showup.Contract.Writes.Laws.{signs_iff, execute_void_write-confirmed}

abbrev no_code : List ℕ → Option ℕ
no_code s = none

abbrev text_of : Failure → List ℕ
text_of (foreign s) = s
text_of _ = []

abbrev accepted : {A : Type 0} → A → Outcome Failure (Assembled (ContractResult A))
accepted a = returned (record { simulation = some success; result = returned (ok a) })

abbrev rejected : {A : Type 0} → Outcome Failure (Assembled (ContractResult A))
rejected = returned (record {
  simulation = some (failed (codes "host: Error(Contract, #4)"));
  result = thrown (foreign []);
})

-- The network's answer has no hash, so that of the signed transaction is used.
abbrev confirms : {A : Type 0} → A → World A
confirms a = record {
  signed = returned (some (10 ∷ 255 ∷ []));
  submitted = true;
  sent = returned (record { response_hash = none; result = returned (ok a) });
}

reserves :
    execute_void_write no_code text_of (accepted tt) (confirms tt)
    ≡ record { steps = all_steps; outcome = returned (codes "0aff") }
unfolding execute_void_write simulated read_simulation unwrap_result hash_of to_hex pad_start
reserves = refl

full :
    execute_void_write no_code text_of rejected (confirms tt)
    ≡ record { steps = phase simulating ∷ []; outcome = thrown (contract_error 4) }
unfolding execute_void_write simulated read_simulation unwrap_result translate_contract_error
    extract_contract_error_code match_at strip_start is_space number number_from
full = refl

creates :
    (create_event no_code text_of (accepted 7) (confirms 8)).outcome ≡ returned (8, codes "0aff")
unfolding create_event simulated read_simulation unwrap_result hash_of to_hex pad_start
creates = refl

signs_iff_example :
    (any is_sign (execute_void_write no_code text_of (accepted tt) (confirms tt)).steps ≡ true)
    ↔ ((u : Unit) × Accepted (accepted tt) u)
signs_iff_example = (signs_iff no_code text_of).0 (accepted tt) (confirms tt)

reserves_outcome :
    (execute_void_write no_code text_of (accepted tt) (confirms tt)).outcome
    ≡ returned (codes "0aff")
unfolding execute_void_write simulated read_simulation unwrap_result hash_of to_hex pad_start
reserves_outcome = refl

execute_void_write-confirmed_example : is_empty (codes "0aff") ≡ false
execute_void_write-confirmed_example =
    (execute_void_write-confirmed no_code text_of (accepted tt) (confirms tt) (codes "0aff")
      reserves_outcome).7

full_outcome :
    (execute_void_write no_code text_of rejected (confirms tt)).outcome ≡ thrown (contract_error 4)
unfolding execute_void_write simulated read_simulation unwrap_result translate_contract_error
    extract_contract_error_code match_at strip_start is_space number number_from
full_outcome = refl
