-- ===== src/Wallet/Adapter/Tests.antt =====
-- A Freighter wallet on Testnet, and one that signs with another account.
use showup.Prelude.{ℕ, String, true, false, none, some, List, ◌≡◌, refl}
use showup.Prelude.Outcome.{Outcome, returned, thrown}
use showup.Prelude.Text.{starts_with}
use showup.Wallet.Adapter.{
  Thrown, account_changed, rejected, plain, KitRuntime, freighter_extension,
  testnet_network_passphrase, is_freighter_available, get_error_details, includes, error_of,
  to_wallet_error, read_address, read_network, connect, sign_transaction,
}
use showup.Wallet.Adapter.Signed.{Signing, sign_transaction-Signing, connect-returned}

abbrev lower : List ℕ → List ℕ
lower s = s

abbrev freighter : String → KitRuntime
freighter signer = record {
  transport = freighter_extension;
  get_address = returned "GA";
  fetch_address = returned "GA";
  get_network = returned testnet_network_passphrase;
  available = returned false;
  available_again = returned true;
  ready = returned tt;
  sign_transaction = λ xdr network address.
      returned (record { signed_tx_xdr = "signed"; signer_address = some signer });
}

abbrev loaded : Outcome Thrown KitRuntime
loaded = returned (freighter "GA")

signs : sign_transaction lower loaded "xdr" none ≡ returned "signed"
unfolding sign_transaction read_network read_address
signs = refl

refuses :
    sign_transaction lower (returned (freighter "GB")) "xdr" (some "GA")
    ≡ thrown (account_changed "GB" "GA")
unfolding sign_transaction read_network to_wallet_error
refuses = refl

declined : to_wallet_error lower (plain none (some "sorry, user declined")) ≡ rejected
unfolding to_wallet_error get_error_details error_of includes starts_with
declined = refl

connects : connect lower loaded ≡ returned "GA"
unfolding connect is_freighter_available read_network
connects = refl

sign_transaction-Signing_example :
    (runtime : KitRuntime) × (loaded ≡ returned runtime) × Signing lower runtime "xdr" none "signed"
sign_transaction-Signing_example = sign_transaction-Signing lower loaded "xdr" none "signed" signs

connect-returned_example :
    (runtime : KitRuntime) × (loaded ≡ returned runtime)
    × (runtime.fetch_address ≡ returned "GA")
    × (read_network lower runtime ≡ returned testnet_network_passphrase)
connect-returned_example = connect-returned lower loaded "GA" connects
