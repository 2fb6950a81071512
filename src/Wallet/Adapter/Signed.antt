-- ===== src/Wallet/Adapter/Signed.antt =====
-- What a signature and a connection rest on.
use showup.Prelude.{
  ℕ, String, false, Option, none, some, List, ◌≡◌, ◌⊎◌, inl, refl, arith, not, str_eq, eq_iff,
}
use showup.Prelude.Outcome.{Outcome, returned, thrown, throw_if, >>=-returned}
use showup.Wallet.Adapter.{
  Thrown, KitRuntime, SignedTransaction, WalletTransport, freighter_extension, wallet_connect,
  testnet_network_passphrase, assert_testnet, caught, read_network, is_freighter_available,
  connect_freighter, connect_on, connect_with, connect, wallet, no_wallet, signing_address,
  given_address, same_signer, sign_with, sign_transaction,
}

-- A transaction that the wallet signed: on Testnet, for the address that was asked for, or the wallet's
-- own where none was, and by that address if the wallet names its signer.
pub record Signing (lower : List ℕ → List ℕ) (runtime : KitRuntime) (xdr : String)
    (expected : Option String) (signed_xdr : String) : Type 0 where
  pub address : String
  pub signed : SignedTransaction
  pub on_testnet : read_network lower runtime ≡ returned testnet_network_passphrase
  pub asked_for : signing_address lower runtime expected ≡ returned (some address)
  pub not_blank : str_eq address "" ≡ false
  pub by_wallet : runtime.sign_transaction xdr testnet_network_passphrase address ≡ returned signed
  pub by_signer :
      (signed.signer_address ≡ none)
      ⊎ (signed.signer_address ≡ some "")
      ⊎ (signed.signer_address ≡ some address)
  pub unchanged : signed.signed_tx_xdr ≡ signed_xdr

module _ (lower : List ℕ → List ℕ) where
  caught-returned :
      {A : Type 0} (m : Outcome Thrown A) {a : A} → caught lower m ≡ returned a → m ≡ returned a
  caught-returned (returned b) h = cc
  caught-returned (thrown e) h = cc

  assert_testnet-returned :
      (network : String) {u : Unit {0}}
      → assert_testnet network ≡ returned u
      → network ≡ testnet_network_passphrase
  assert_testnet-returned network h = ground (arith, h, eq_iff network testnet_network_passphrase)

  given_address-returned :
      (found : Option String) {address : String}
      → given_address lower found ≡ returned address
      → (found ≡ some address) × (str_eq address "" ≡ false)
  given_address-returned none h = cc
  given_address-returned (some found) h = (ground (arith, h), ground (arith, h))

  same_signer-returned :
      (signer : Option String) (address : String) {u : Unit {0}}
      → same_signer lower signer address ≡ returned u
      → (signer ≡ none) ⊎ (signer ≡ some "") ⊎ (signer ≡ some address)
  same_signer-returned none address h = inl refl
  same_signer-returned (some signer) address h =
      ground (arith, h, eq_iff signer "", eq_iff signer address)

  sign_with-Signing :
      (runtime : KitRuntime) (xdr : String) (expected : Option String) (signed_xdr : String)
      → sign_with lower xdr expected runtime ≡ returned signed_xdr
      → Signing lower runtime xdr expected signed_xdr
  sign_with-Signing runtime xdr expected signed_xdr h =
      let (network, read, h1) = >>=-returned (read_network lower runtime) _ h in
      let (u, testnet, h2) = >>=-returned (assert_testnet network) _ h1 in
      let (found, asked, h3) = >>=-returned (signing_address lower runtime expected) _ h2 in
      let (address, given, h4) = >>=-returned (given_address lower found) _ h3 in
      let (signed, by_wallet, h5) =
        >>=-returned (runtime.sign_transaction xdr testnet_network_passphrase address) _ h4 in
      let (w, same, h6) = >>=-returned (same_signer lower signed.signer_address address) _ h5 in
      let (is, not_blank) = given_address-returned found given in
      record {
        address = address;
        signed = signed;
        on_testnet = rw (assert_testnet-returned network testnet) at read;
        asked_for = rw is at asked;
        not_blank = not_blank;
        by_wallet = by_wallet;
        by_signer = same_signer-returned signed.signer_address address same;
        unchanged = ground (arith, h6);
      }

  -- A signature that `signTransaction` passes on is of a loaded wallet on Testnet, for this transaction
  -- and the Testnet network, by the address that the caller expects or, where it expects none, that the
  -- wallet has; a wallet that names another signer is refused.
  pub sign_transaction-Signing :
      (loaded : Outcome Thrown KitRuntime) (xdr : String) (expected : Option String)
      (signed_xdr : String)
      → sign_transaction lower loaded xdr expected ≡ returned signed_xdr
      → (runtime : KitRuntime) × (loaded ≡ returned runtime)
        × Signing lower runtime xdr expected signed_xdr
  unfolding sign_transaction
  sign_transaction-Signing loaded xdr expected signed_xdr h =
      let (runtime, is, h1) =
        >>=-returned loaded (sign_with lower xdr expected) (caught-returned _ h) in
      (runtime, is, sign_with-Signing runtime xdr expected signed_xdr h1)

  freighter_returned :
      (runtime : KitRuntime) (address : String)
      → connect_freighter lower runtime ≡ returned address
      → (runtime.fetch_address ≡ returned address)
        × (read_network lower runtime ≡ returned testnet_network_passphrase)
  freighter_returned runtime address h =
      let (found, there, h1) = >>=-returned (is_freighter_available runtime) _ h in
      let (u, some_found, h2) = >>=-returned (throw_if (not found) (wallet no_wallet)) _ h1 in
      let (fetched, fetches, h3) = >>=-returned runtime.fetch_address _ h2 in
      let (network, read, h4) = >>=-returned (read_network lower runtime) _ h3 in
      let (w, testnet, h5) = >>=-returned (assert_testnet network) _ h4 in
      (ground (arith, fetches, h5), rw (assert_testnet-returned network testnet) at read)

  connect_on-returned :
      (t : WalletTransport) (runtime : KitRuntime) (address : String)
      → runtime.transport ≡ t
      → connect_on lower t runtime ≡ returned address
      → (runtime.fetch_address ≡ returned address)
        × (read_network lower runtime ≡ returned testnet_network_passphrase)
  unfolding read_network
  connect_on-returned wallet_connect runtime address mobile h =
      let (u, waited, h1) = >>=-returned runtime.ready (λ u. runtime.fetch_address) h in
      (h1, rw mobile refl)
  connect_on-returned freighter_extension runtime address desktop h =
      freighter_returned runtime address h

  -- An address that `connect` gives is the one that the wallet of a loaded kit gave, on Testnet.
  pub connect-returned :
      (loaded : Outcome Thrown KitRuntime) (address : String)
      → connect lower loaded ≡ returned address
      → (runtime : KitRuntime) × (loaded ≡ returned runtime)
        × (runtime.fetch_address ≡ returned address)
        × (read_network lower runtime ≡ returned testnet_network_passphrase)
  unfolding connect
  connect-returned loaded address h =
      let (runtime, is, h1) = >>=-returned loaded (connect_with lower) (caught-returned _ h) in
      let (fetched, testnet) = connect_on-returned runtime.transport runtime address refl h1 in
      (runtime, is, fetched, testnet)
