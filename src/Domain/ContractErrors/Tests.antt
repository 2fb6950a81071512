-- ===== src/Domain/ContractErrors/Tests.antt =====
-- A hash in the cause of an error.
use showup.Prelude.{ℕ, zero, suc, [], ◌∷◌, ◌≡◌, refl, some, length, replicate}
use showup.Domain.ContractErrors.Hash.{
  text, object, other, ErrorLike, is_transaction_hash, hash_at, find_hash,
  transaction_hash_from_error, transaction_hash_from_error_sound,
}

-- Error 0 has no hash, and error 1 is its cause.
abbrev heap : ℕ → ErrorLike
heap zero = record {
  hash = text (b'a' ∷ []);
  transaction_hash = other;
  send_transaction_response = other;
  cause = object 1;
}
heap (suc n) = record {
  hash = other;
  transaction_hash = text (replicate 64 b'A');
  send_transaction_response = other;
  cause = object 0;
}

finds : transaction_hash_from_error heap (object 0) ≡ some (replicate 64 b'a')
unfolding transaction_hash_from_error find_hash hash_at is_transaction_hash
finds = refl

transaction_hash_from_error_sound_example : length {A = ℕ} (replicate 64 b'a') ≡ 64
transaction_hash_from_error_sound_example =
    (transaction_hash_from_error_sound heap (object 0) (replicate 64 b'a') finds).0
