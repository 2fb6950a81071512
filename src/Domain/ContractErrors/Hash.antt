-- ===== src/Domain/ContractErrors/Hash.antt =====
-- `transactionHashFromError`: a transaction hash out of an error and its chain of causes. Objects are
-- numbered, since an error may be its own cause.
use showup.Prelude.{
  ℕ, zero, suc, ◌+◌, ◌<◌, Bool, true, ◌&&◌, ◌||◌, Option, none, some, List, [], ◌∷◌, ◌≡◌, ◌⊎◌, inl,
  inr, refl, arith, all, any, map, length, leb, ◌==◌, if◌then◌else◌, Option-cases, Bool-cases,
  coalesce, ap,
}

-- What a property of an unknown object holds: a text, another object, or anything else.
pub data Value : Type 0 where
  text : List ℕ → Value
  object : ℕ → Value
  other : Value

-- The properties of `ErrorLike` that hold a hash or the next error.
pub record ErrorLike : Type 0 where
  pub hash : Value
  pub transaction_hash : Value
  pub send_transaction_response : Value
  pub cause : Value

-- `/[0-9a-f]/i`.
abbrev pub is_hex : ℕ → Bool
is_hex c = leb b'0' c && leb c b'9' || leb b'a' c && leb c b'f' || leb b'A' c && leb c b'F'

-- `TRANSACTION_HASH`.
unfoldable pub is_transaction_hash : List ℕ → Bool
is_transaction_hash s = length s == 64 && all is_hex s

-- `toLowerCase` on ASCII.
abbrev pub to_lower : ℕ → ℕ
to_lower c = if leb b'A' c && leb c b'Z' then c + 32 else c

abbrev candidate : Value → Option (List ℕ)
candidate (text s) = if is_transaction_hash s then some s else none
candidate _ = none

abbrev pub is_lower_hex : ℕ → Bool
is_lower_hex c = leb b'0' c && leb c b'9' || leb b'a' c && leb c b'f'

lower-length : (s : List ℕ) → length (map to_lower s) ≡ length s
lower-length [] = refl
lower-length (c ∷ s) = ap suc (lower-length s)

lower-all_hex : (s : List ℕ) → all is_hex s ≡ true → all is_lower_hex (map to_lower s) ≡ true
lower-all_hex [] h = refl
lower-all_hex (c ∷ s) h = ground (arith, lower-all_hex s)

lower-hex :
    (s : List ℕ)
    → is_transaction_hash s ≡ true
    → (length (map to_lower s) ≡ 64) × (all is_lower_hex (map to_lower s) ≡ true)
unfolding is_transaction_hash
lower-hex s h = ground (arith, lower-length s, lower-all_hex s)

candidate-is_hash :
    (v : Value) (raw : List ℕ) → candidate v ≡ some raw → is_transaction_hash raw ≡ true
candidate-is_hash (text s) raw h = ground arith
candidate-is_hash (object i) raw h = cc
candidate-is_hash other raw h = cc

coalesce-cases :
    {A : Type 0} (a b : Option A) (x : A) → coalesce a b ≡ some x → (a ≡ some x) ⊎ (b ≡ some x)
coalesce-cases none b x h = inr h
coalesce-cases (some a) b x h = inl h

module _ (heap : ℕ → ErrorLike) where
  -- `value.sendTransactionResponse?.hash`.
  abbrev response_hash : Value → Value
  response_hash (object i) = (heap i).hash
  response_hash _ = other

  -- The first of the three candidates that is a hash.
  unfoldable pub hash_at : ℕ → Option (List ℕ)
  hash_at i = coalesce (candidate (heap i).hash) (
      coalesce (candidate (heap i).transaction_hash)
        (candidate (response_hash (heap i).send_transaction_response)))

  -- The loop, with the rounds left, the objects seen, and the current value.
  unfoldable pub find_hash : ℕ → List ℕ → Value → Option (List ℕ)
  find_hash zero seen current = none
  find_hash (suc rounds) seen (object i) =
      let next = find_hash rounds (i ∷ seen) (heap i).cause in
      if any (λ j. j == i) seen
      then none
      else elim (hash_at i) [ none ↦ next | some hash ↦ some (map to_lower hash) ]
  find_hash (suc rounds) seen _ = none

  -- `transactionHashFromError`.
  unfoldable pub transaction_hash_from_error : Value → Option (List ℕ)
  transaction_hash_from_error e = find_hash 4 [] e

  -- The error `d` steps down the chain of causes.
  abbrev pub cause_at : ℕ → Value → Value
  cause_at zero v = v
  cause_at (suc d) (object i) = cause_at d (heap i).cause
  cause_at (suc d) _ = other

  -- Where a hash was found.
  abbrev pub FoundAt : ℕ → Value → List ℕ → ℕ → Type 0
  FoundAt rounds v hash d =
      (d < rounds)
      × ((i : ℕ) × (raw : List ℕ) × (cause_at d v ≡ object i)
          × (hash_at i ≡ some raw)
          × (hash ≡ map to_lower raw))

  find_hash-FoundAt :
      (rounds : ℕ) (seen : List ℕ) (v : Value) (hash : List ℕ)
      → find_hash rounds seen v ≡ some hash
      → (d : ℕ) × FoundAt rounds v hash d
  unfolding find_hash
  find_hash-FoundAt zero seen v hash h = cc
  find_hash-FoundAt (suc rounds) seen (text s) hash h = cc
  find_hash-FoundAt (suc rounds) seen other hash h = cc
  find_hash-FoundAt (suc rounds) seen (object i) hash h =
      elim (Bool-cases (any (λ j. j == i) seen)) [
        | inl again ↦ absurd (ground arith)
        | inr fresh ↦ elim (Option-cases (hash_at i)) [
          | inl none_here ↦
              let (d, (lt, (j, raw, at, found, e))) =
                find_hash-FoundAt rounds (i ∷ seen) (heap i).cause hash (ground arith) in
              (suc d, (omega arith, (j, raw, at, found, e)))
          | inr (raw, here) ↦ (0, (omega arith, (i, raw, refl, here, ground arith)))
        ]
      ]

  hash_at-is_hash : (i : ℕ) (raw : List ℕ) → hash_at i ≡ some raw → is_transaction_hash raw ≡ true
  unfolding hash_at
  hash_at-is_hash i raw h =
      let own : Value = (heap i).hash in
      let tx : Value = (heap i).transaction_hash in
      let response : Value = response_hash (heap i).send_transaction_response in
      elim (coalesce-cases (candidate own) (coalesce (candidate tx) (candidate response)) raw h) [
        | inl e ↦ candidate-is_hash own raw e
        | inr rest ↦ elim (coalesce-cases (candidate tx) (candidate response) raw rest) [
          | inl e ↦ candidate-is_hash tx raw e
          | inr e ↦ candidate-is_hash response raw e
        ]
      ]

  -- A hash that is returned comes from the error itself or from one of its next three causes, and is
  -- 64 lower case hexadecimal digits, whatever the case it was written in.
  pub transaction_hash_from_error_sound :
      (v : Value) (hash : List ℕ)
      → transaction_hash_from_error v ≡ some hash
      → (length hash ≡ 64) × (all is_lower_hex hash ≡ true) × ((d : ℕ) × FoundAt 4 v hash d)
  unfolding transaction_hash_from_error
  transaction_hash_from_error_sound v hash h =
      let (d, (lt, (i, raw, at, found, e))) = find_hash-FoundAt 4 [] v hash h in
      let (long, low) = lower-hex raw (hash_at-is_hash i raw found) in
      (rw e long, rw e low, (d, (lt, (i, raw, at, found, e))))
