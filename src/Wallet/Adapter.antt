-- ===== src/Wallet/Adapter.antt =====
-- apps/web/lib/wallet/wallets-kit-adapter.ts and port.ts: how a wallet connects, is read and signs. The
-- wallet kit and Freighter answer with a value or throw; `lower` is `toLowerCase` on codes, and `ready`
-- is the outcome of the wait for WalletConnect.
pub mod Signed
mod Tests
use showup.Prelude.{
  ℕ, String, Bool, true, false, ◌&&◌, ◌||◌, not, Option, none, some, List, [], ◌∷◌, ◌==◌, str_eq,
  is_truthy, if◌then◌else◌,
}
use showup.Prelude.Int.{ℤ, pos, negsuc}
use showup.Prelude.Outcome.{Outcome, returned, thrown, ◌>>=◌, ◌>>◌, throw_if}
use showup.Prelude.Text.{codes, starts_with}

-- `WalletError`; the cause of an unknown error is left out.
pub data WalletError : Type 0 where
  no_wallet mobile_wallet_unconfigured rejected not_connected unknown : WalletError
  wrong_network : String → String → WalletError
  account_changed : String → String → WalletError

-- A thrown value: what `isWalletError` accepts, an `Error` with its message, another object with the
-- code and the message it has as a number and a text, or anything else.
pub data Thrown : Type 0 where
  wallet : WalletError → Thrown
  error : String → Thrown
  plain : Option ℤ → Option String → Thrown
  anything : Thrown

abbrev text_or_empty : Option String → List ℕ
text_or_empty none = []
text_or_empty (some s) = codes s

-- `getErrorDetails`: the code and the message.
unfoldable pub get_error_details : Thrown → Option ℤ × List ℕ
get_error_details (error message) = (none, codes message)
get_error_details (plain code message) = (code, text_or_empty message)
get_error_details _ = (none, [])

-- `s.includes(part)`.
unfoldable pub includes : List ℕ → List ℕ → Bool
includes s [] = true
includes [] (c ∷ part) = false
includes (d ∷ s) (c ∷ part) = starts_with (d ∷ s) (c ∷ part) || includes s (c ∷ part)

abbrev says : List ℕ → String → Bool
says message part = includes message (codes part)

-- `code === -(n + 1)`.
abbrev has_code : Option ℤ → ℕ → Bool
has_code (some (negsuc m)) n = m == n
has_code _ n = false

-- Which error the details tell.
unfoldable pub error_of : Option ℤ → List ℕ → WalletError
error_of code message =
    if has_code code 3
      || has_code code 0 && says message "closed the modal"
      || says message "user rejected"
      || says message "user declined"
    then rejected
    else if has_code code 2 && says message "set the wallet"
        || has_code code 0 && says message "no wallet has been connected"
    then not_connected
    else if says message "freighter is not connected"
        || says message "extension not found"
        || says message "not installed"
    then no_wallet
    else unknown

abbrev pub testnet_network_passphrase : String
testnet_network_passphrase = "Test SDF Network ; September 2015"

-- `assertTestnet`.
abbrev pub assert_testnet : String → Outcome Thrown (Unit {0})
assert_testnet network =
    throw_if (not (str_eq network testnet_network_passphrase))
      (wallet (wrong_network network testnet_network_passphrase))

pub data WalletTransport : Type 0 where
  freighter_extension wallet_connect : WalletTransport

pub record SignedTransaction : Type 0 where
  pub signed_tx_xdr : String
  pub signer_address : Option String

-- The runtime: its transport, what the kit answers, and Freighter's two answers to `isAvailable()`.
pub record KitRuntime : Type 0 where
  pub transport : WalletTransport
  pub get_address : Outcome Thrown String
  pub fetch_address : Outcome Thrown String
  pub get_network : Outcome Thrown String
  pub available : Outcome Thrown Bool
  pub available_again : Outcome Thrown Bool
  pub ready : Outcome Thrown (Unit {0})
  pub sign_transaction : String → String → String → Outcome Thrown SignedTransaction

-- `isFreighterAvailable`: one retry.
unfoldable pub is_freighter_available : KitRuntime → Outcome Thrown Bool
is_freighter_available runtime =
    runtime.available >>= λ found. if found then returned true else runtime.available_again

module _ (lower : List ℕ → List ℕ) where
  -- `toWalletError`.
  unfoldable pub to_wallet_error : Thrown → WalletError
  to_wallet_error (wallet e) = e
  to_wallet_error e = let (code, message) = get_error_details e in error_of code (lower message)

  -- `catch (error) { throw toWalletError(error); }`
  abbrev pub caught : {A : Type 0} → Outcome Thrown A → Outcome WalletError A
  caught (returned a) = returned a
  caught (thrown e) = thrown (to_wallet_error e)

  abbrev again : {A : Type 0} → Outcome WalletError A → Outcome Thrown A
  again (returned a) = returned a
  again (thrown e) = thrown (wallet e)

  abbrev pub missing_or_thrown : WalletError → Outcome Thrown (Option String)
  missing_or_thrown no_wallet = returned none
  missing_or_thrown not_connected = returned none
  missing_or_thrown e = thrown (wallet e)

  abbrev address_of : Outcome Thrown String → Outcome Thrown (Option String)
  address_of (returned address) = returned (if str_eq address "" then none else some address)
  address_of (thrown e) = missing_or_thrown (to_wallet_error e)

  -- `readAddress`.
  unfoldable pub read_address : KitRuntime → Outcome Thrown (Option String)
  read_address runtime = address_of runtime.get_address

  -- `readNetwork`.
  unfoldable pub read_network : KitRuntime → Outcome Thrown String
  read_network runtime = elim runtime.transport [
    | wallet_connect ↦ returned testnet_network_passphrase
    | freighter_extension ↦ again (caught runtime.get_network)
  ]

  abbrev pub connect_freighter : KitRuntime → Outcome Thrown String
  connect_freighter runtime = do
    found ← is_freighter_available runtime
    throw_if (not found) (wallet no_wallet)
    address ← runtime.fetch_address
    network ← read_network runtime
    assert_testnet network
    returned address

  abbrev pub connect_on : WalletTransport → KitRuntime → Outcome Thrown String
  connect_on wallet_connect runtime = runtime.ready >> runtime.fetch_address
  connect_on freighter_extension runtime = connect_freighter runtime

  abbrev pub connect_with : KitRuntime → Outcome Thrown String
  connect_with runtime = connect_on runtime.transport runtime

  -- `connect()`; `loaded` is what `loadKit()` gives.
  unfoldable pub connect : Outcome Thrown KitRuntime → Outcome WalletError String
  connect loaded = caught (loaded >>= connect_with)

  -- `expectedAddress ?? (await readAddress(runtime))`.
  abbrev pub signing_address : KitRuntime → Option String → Outcome Thrown (Option String)
  signing_address runtime (some expected) = returned (some expected)
  signing_address runtime none = read_address runtime

  -- `if (!address)`.
  abbrev pub given_address : Option String → Outcome Thrown String
  given_address none = thrown (wallet not_connected)
  given_address (some address) =
      if str_eq address "" then thrown (wallet not_connected) else returned address

  -- `if (signerAddress && signerAddress !== address)`.
  abbrev pub same_signer : Option String → String → Outcome Thrown (Unit {0})
  same_signer none address = returned tt
  same_signer (some signer) address =
      throw_if (not (str_eq signer "") && not (str_eq signer address))
        (wallet (account_changed signer address))

  abbrev pub sign_with : String → Option String → KitRuntime → Outcome Thrown String
  sign_with xdr expected runtime = do
    network ← read_network runtime
    assert_testnet network
    found ← signing_address runtime expected
    address ← given_address found
    signed ← runtime.sign_transaction xdr testnet_network_passphrase address
    same_signer signed.signer_address address
    returned signed.signed_tx_xdr

  -- `signTransaction`.
  unfoldable pub sign_transaction :
      Outcome Thrown KitRuntime → String → Option String → Outcome WalletError String
  sign_transaction loaded xdr expected = caught (loaded >>= sign_with xdr expected)
