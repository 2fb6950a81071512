-- ===== src/Contract/ErrorCode.antt =====
-- apps/web/lib/stellar/contract-error-code.ts: the code of a contract error out of the text of what
-- was thrown.
use showup.Prelude.{
  ℕ, ◌<◌, ◌^◌, Bool, true, false, ◌&&◌, not, Option, none, some, List, [], ◌∷◌, ◌++◌, ◌≡◌, refl,
  arith, all, ◌==◌, if◌then◌else◌, coalesce, ◌∙◌, ap, length,
}
use showup.Prelude.Text.{
  codes, is_digit, is_empty, is_space, strip_start, number, to_decimal, to_decimal-digits,
  to_decimal_pos, number-to_decimal,
}

-- What is left of `s` behind the literal `p`.
abbrev pub strip_prefix : List ℕ → List ℕ → Option (List ℕ)
strip_prefix [] s = some s
strip_prefix (p ∷ ps) [] = none
strip_prefix (p ∷ ps) (c ∷ s) = if p == c then strip_prefix ps s else none

-- `\d+` at the front of a text, and what stands behind it.
abbrev pub digits_of : List ℕ → List ℕ
digits_of [] = []
digits_of (c ∷ s) = if is_digit c then c ∷ digits_of s else []

abbrev pub after_digits : List ℕ → List ℕ
after_digits [] = []
after_digits (c ∷ s) = if is_digit c then after_digits s else c ∷ s

abbrev pub closes : List ℕ → Bool
closes [] = false
closes (c ∷ s) = c == b')'

abbrev pub code_digits : Option (List ℕ) → Option ℕ
code_digits none = none
code_digits (some s) =
    if not (is_empty (digits_of s)) && closes (after_digits s)
    then some (number (digits_of s))
    else none

abbrev pub behind_contract : Option (List ℕ) → Option ℕ
behind_contract none = none
behind_contract (some s) = code_digits (strip_prefix (b'#' ∷ []) (strip_start is_space s))

-- `CONTRACT_ERROR_PATTERN` at the front of a text. `parseInt` is exact below 2 ^ 53, and so at the
-- codes, which are 32-bit numbers.
unfoldable pub match_at : List ℕ → Option ℕ
match_at s = behind_contract (strip_prefix (codes "Error(Contract,") s)

-- `extractContractErrorCode` on the text that `stringify` gives: the leftmost match.
unfoldable pub extract_contract_error_code : List ℕ → Option ℕ
extract_contract_error_code [] = none
extract_contract_error_code (c ∷ s) = coalesce (match_at (c ∷ s)) (extract_contract_error_code s)

abbrev pub not_capital_e : ℕ → Bool
not_capital_e c = not (c == b'E')

match_at-other : (c : ℕ) (s : List ℕ) → not_capital_e c ≡ true → match_at (c ∷ s) ≡ none
unfolding match_at
match_at-other c s h = ground arith

extract-behind :
    (before s : List ℕ)
    → all not_capital_e before ≡ true
    → extract_contract_error_code (before ++ s) ≡ extract_contract_error_code s
unfolding extract_contract_error_code
extract-behind [] s h = refl
extract-behind (c ∷ before) s h =
    ground (arith, match_at-other c (before ++ s), extract-behind before s)

extract-none : (s : List ℕ) → all not_capital_e s ≡ true → extract_contract_error_code s ≡ none
unfolding extract_contract_error_code
extract-none [] p = refl
extract-none (c ∷ s) p = ground (arith, match_at-other c s, extract-none s)

digits_of-closed :
    (d after : List ℕ)
    → all is_digit d ≡ true
    → (digits_of (d ++ (b')' ∷ after)) ≡ d) × (after_digits (d ++ (b')' ∷ after)) ≡ b')' ∷ after)
digits_of-closed [] after h = (refl, refl)
digits_of-closed (c ∷ d) after h = ground (arith, digits_of-closed d after)

code_digits-closed :
    (d after : List ℕ)
    → all is_digit d ≡ true
    → is_empty d ≡ false
    → code_digits (some (d ++ (b')' ∷ after))) ≡ some (number d)
code_digits-closed d after h k =
    let (front, back) = digits_of-closed d after h in rw (front, back) (rw k)

-- The text that the SDK writes for a contract error with code `n`.
abbrev pub sdk_text : ℕ → List ℕ → List ℕ
sdk_text n after = codes "Error(Contract, #" ++ (to_decimal n ++ (b')' ∷ after))

match_at-sdk_text : (n : ℕ) (after : List ℕ) → match_at (sdk_text n after) ≡ some n
unfolding match_at strip_start is_space
match_at-sdk_text n after =
    code_digits-closed (to_decimal n) after (to_decimal-digits n)
      (not_nil (to_decimal n) (to_decimal_pos n))
    ∙ ap (λ k. some k) (number-to_decimal n)
  where
    not_nil : (s : List ℕ) → 0 < length s → is_empty s ≡ false
    not_nil [] p = absurd (omega arith)
    not_nil (c ∷ s) p = refl

-- The code of a 32-bit number is recovered from the SDK's text for it wherever it stands in a text,
-- behind anything without a capital E; and a text without a capital E has no code.
pub extract_contract_error_code_lem :
    (before after : List ℕ) (n : ℕ)
    → n < 2 ^ 32
    → all not_capital_e before ≡ true
    → (extract_contract_error_code (before ++ sdk_text n after) ≡ some n)
      × (extract_contract_error_code before ≡ none)
extract_contract_error_code_lem before after n bound h = (
  extract-behind before (sdk_text n after) h
      ∙ (unfold extract_contract_error_code in rw (match_at-sdk_text n after)),
  extract-none before h,
)
