-- ===== src/Domain/ContractErrors/Copy.antt =====
-- The tables of names and messages tell the codes apart.
use showup.Prelude.{
  ℕ, zero, suc, String, true, Option, none, some, List, [], ◌∷◌, ◌≡◌, ◌↔◌, inl, inr, refl, sym, ap,
  ◌∙◌, Bool-cases, ==_iff, arith, ◌==◌, str_eq, if◌then◌else◌, Option-cases, ◌≤◌,
}
use showup.Domain.ContractErrors.{
  ContractErrorCode, not_found, not_active, already_reserved, event_full, not_locked,
  check_in_not_open, check_in_window_closed, cancellation_deadline_passed, settlement_too_early,
  invalid_basis_points, invalid_schedule, invalid_amount, overflow, event_not_cancelled, code_value,
  all_codes, find_code, code_of, is_contract_error_code, contract_error_names,
  contract_error_messages,
}

-- Each value is found again.
code_of-value : (c : ContractErrorCode) → code_of (code_value c) ≡ some c
unfolding code_of
code_of-value not_found = refl
code_of-value not_active = refl
code_of-value already_reserved = refl
code_of-value event_full = refl
code_of-value not_locked = refl
code_of-value check_in_not_open = refl
code_of-value check_in_window_closed = refl
code_of-value cancellation_deadline_passed = refl
code_of-value settlement_too_early = refl
code_of-value invalid_basis_points = refl
code_of-value invalid_schedule = refl
code_of-value invalid_amount = refl
code_of-value overflow = refl
code_of-value event_not_cancelled = refl

some-eq : {A : Type 0} {a b : A} → some a ≡ some b → a ≡ b
some-eq h = cc

find_code-value :
    (cs : List ContractErrorCode) (n : ℕ) (c : ContractErrorCode)
    → find_code cs n ≡ some c
    → code_value c ≡ n
unfolding find_code
find_code-value [] n c h = cc
find_code-value (d ∷ cs) n c h = elim (Bool-cases (code_value d == n)) [
  | inl same ↦ ap code_value (sym (some-eq (rw same at h))) ∙ (==_iff (code_value d) n).0 same
  | inr other ↦ find_code-value cs n c (rw other at h)
]

-- The code whose message, or name, is the text.
find_text :
    (ContractErrorCode → String) → List ContractErrorCode → String → Option ContractErrorCode
find_text table [] s = none
find_text table (c ∷ cs) s = if str_eq (table c) s then some c else find_text table cs s

message_back :
    (c : ContractErrorCode)
    → find_text contract_error_messages all_codes (contract_error_messages c) ≡ some c
unfolding find_text contract_error_messages
message_back not_found = refl
message_back not_active = refl
message_back already_reserved = refl
message_back event_full = refl
message_back not_locked = refl
message_back check_in_not_open = refl
message_back check_in_window_closed = refl
message_back cancellation_deadline_passed = refl
message_back settlement_too_early = refl
message_back invalid_basis_points = refl
message_back invalid_schedule = refl
message_back invalid_amount = refl
message_back overflow = refl
message_back event_not_cancelled = refl

name_back :
    (c : ContractErrorCode)
    → find_text contract_error_names all_codes (contract_error_names c) ≡ some c
unfolding find_text contract_error_names
name_back not_found = refl
name_back not_active = refl
name_back already_reserved = refl
name_back event_full = refl
name_back not_locked = refl
name_back check_in_not_open = refl
name_back check_in_window_closed = refl
name_back cancellation_deadline_passed = refl
name_back settlement_too_early = refl
name_back invalid_basis_points = refl
name_back invalid_schedule = refl
name_back invalid_amount = refl
name_back overflow = refl
name_back event_not_cancelled = refl

code_range : (c : ContractErrorCode) → (1 ≤ code_value c) × (code_value c ≤ 14)
code_range not_found = omega arith
code_range _ = omega arith

is_code-range : (n : ℕ) → is_contract_error_code n ≡ true → (1 ≤ n) × (n ≤ 14)
unfolding is_contract_error_code code_of
is_code-range n h = elim (Option-cases (code_of n)) [
  | inl missing ↦ absurd (unfold find_code in cc (missing, h))
  | inr (c, found) ↦ rw (find_code-value all_codes n c found) at (code_range c)
]

range-is_code : (n : ℕ) → 1 ≤ n → n ≤ 14 → is_contract_error_code n ≡ true
unfolding is_contract_error_code code_of
range-is_code zero h k = absurd (omega arith)
range-is_code (suc zero) h k = refl
range-is_code (suc (suc zero)) h k = refl
range-is_code (suc (suc (suc zero))) h k = refl
range-is_code (suc (suc (suc (suc zero)))) h k = refl
range-is_code (suc (suc (suc (suc (suc zero))))) h k = refl
range-is_code (suc (suc (suc (suc (suc (suc zero)))))) h k = refl
range-is_code (suc (suc (suc (suc (suc (suc (suc zero))))))) h k = refl
range-is_code (suc (suc (suc (suc (suc (suc (suc (suc zero)))))))) h k = refl
range-is_code (suc (suc (suc (suc (suc (suc (suc (suc (suc zero))))))))) h k = refl
range-is_code (suc (suc (suc (suc (suc (suc (suc (suc (suc (suc zero)))))))))) h k = refl
range-is_code (suc (suc (suc (suc (suc (suc (suc (suc (suc (suc (suc zero))))))))))) h k = refl
range-is_code (suc (suc (suc (suc (suc (suc (suc (suc (suc (suc (suc (suc zero)))))))))))) h k =
    refl
range-is_code (suc (suc (suc (suc (suc (suc (suc (suc (suc (suc (suc (suc (suc zero))))))))))))) h
      k =
    refl
range-is_code
      (suc (suc (suc (suc (suc (suc (suc (suc (suc (suc (suc (suc (suc (suc zero)))))))))))))) h k =
    refl
range-is_code
      (suc (suc (suc (suc (suc (suc (suc (suc (suc (suc (suc (suc (suc (suc (suc n))))))))))))))) h
      k =
    absurd (omega arith)

-- A number is one of the contract's codes exactly when it lies between 1 and 14, and then it is the
-- value of the code found for it.
pub is_contract_error_code_iff :
    (n : ℕ)
    → ((is_contract_error_code n ≡ true) ↔ ((1 ≤ n) × (n ≤ 14)))
      × ((c : ContractErrorCode) → (code_of n ≡ some c) ↔ (code_value c ≡ n))
is_contract_error_code_iff n = (
  (is_code-range n, λ (low, high). range-is_code n low high),
  λ c. (unfold code_of in find_code-value all_codes n c, λ e. rw e at (code_of-value c)),
)

-- No two codes share their copy or their name.
pub copy_injective :
    (c d : ContractErrorCode)
    → (contract_error_messages c ≡ contract_error_messages d → c ≡ d)
      × (contract_error_names c ≡ contract_error_names d → c ≡ d)
copy_injective c d = (
  λ h.
      some-eq (
        sym (message_back c) ∙ ap (find_text contract_error_messages all_codes) h ∙ message_back d),
  λ h. some-eq (sym (name_back c) ∙ ap (find_text contract_error_names all_codes) h ∙ name_back d),
)
