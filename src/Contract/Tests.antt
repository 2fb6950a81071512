-- ===== src/Contract/Tests.antt =====
-- A contract error's text as the SDK writes it.
use showup.Prelude.{◌≡◌, refl, some, none}
use showup.Prelude.Text.{codes, number, number_from, strip_start, is_space}
use showup.Contract.ErrorCode.{extract_contract_error_code, match_at}

finds_code : extract_contract_error_code (codes "host Error(Contract,  #14) Event") ≡ some 14
unfolding extract_contract_error_code match_at number number_from strip_start is_space
finds_code = refl

no_digits : extract_contract_error_code (codes "Error(Contract, #)") ≡ none
unfolding extract_contract_error_code match_at number number_from strip_start is_space
no_digits = refl
