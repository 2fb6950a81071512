-- ===== src/Bond/Host.antt =====
-- What the contract relies on outside its own code: the host's storage, the settlement token, and the
-- invocation that it runs in. Each is an interface with the laws that its documentation states.
use showup.Prelude.{
  ℕ, ◌+◌, String, Bool, ◌&&◌, not, Option, none, some, ◌≡◌, str_eq, ◌==◌, if◌then◌else◌,
}
use showup.Prelude.Int.{ℤ, pos, negsuc}
use showup.Prelude.Outcome.{Outcome, returned, thrown, throw_if}
use showup.Bond.Types.{Config, Event, Reservation, Error}

-- `env.storage()`: the instance entries, and the persistent entries under `DataKey::Event` and
-- `DataKey::Reservation`. Extending a time to live changes no value.
pub record HostStorage (S : Type 0) : Type 0 where
  pub read_config : S → Option Config
  pub write_config : S → Config → S
  pub read_count : S → Option ℕ
  pub write_count : S → ℕ → S
  pub read_event : S → ℕ → Option Event
  pub write_event : S → ℕ → Event → S
  pub read_reservation : S → ℕ → String → Option Reservation
  pub write_reservation : S → ℕ → String → Reservation → S

-- A read gives the last write under the same key, and no write touches another key.
pub record IsStorage {S : Type 0} (h : HostStorage S) : Type 0 where
  pub config_after_config : (s : S) (c : Config) → h.read_config (h.write_config s c) ≡ some c
  pub count_after_config : (s : S) (c : Config) → h.read_count (h.write_config s c) ≡ h.read_count s
  pub event_after_config :
      (s : S) (c : Config) (j : ℕ) → h.read_event (h.write_config s c) j ≡ h.read_event s j
  pub reservation_after_config :
      (s : S) (c : Config) (j : ℕ) (q : String)
      → h.read_reservation (h.write_config s c) j q ≡ h.read_reservation s j q
  pub config_after_count : (s : S) (n : ℕ) → h.read_config (h.write_count s n) ≡ h.read_config s
  pub config_after_event :
      (s : S) (id : ℕ) (e : Event) → h.read_config (h.write_event s id e) ≡ h.read_config s
  pub config_after_reservation :
      (s : S) (id : ℕ) (p : String) (r : Reservation)
      → h.read_config (h.write_reservation s id p r) ≡ h.read_config s
  pub count_after_count : (s : S) (n : ℕ) → h.read_count (h.write_count s n) ≡ some n
  pub count_after_event :
      (s : S) (id : ℕ) (e : Event) → h.read_count (h.write_event s id e) ≡ h.read_count s
  pub count_after_reservation :
      (s : S) (id : ℕ) (p : String) (r : Reservation)
      → h.read_count (h.write_reservation s id p r) ≡ h.read_count s
  pub event_after_count : (s : S) (n j : ℕ) → h.read_event (h.write_count s n) j ≡ h.read_event s j
  pub event_after_event :
      (s : S) (id : ℕ) (e : Event) (j : ℕ)
      → h.read_event (h.write_event s id e) j ≡ (if id == j then some e else h.read_event s j)
  pub event_after_reservation :
      (s : S) (id : ℕ) (p : String) (r : Reservation) (j : ℕ)
      → h.read_event (h.write_reservation s id p r) j ≡ h.read_event s j
  pub reservation_after_count :
      (s : S) (n j : ℕ) (q : String)
      → h.read_reservation (h.write_count s n) j q ≡ h.read_reservation s j q
  pub reservation_after_event :
      (s : S) (id : ℕ) (e : Event) (j : ℕ) (q : String)
      → h.read_reservation (h.write_event s id e) j q ≡ h.read_reservation s j q
  pub reservation_after_reservation :
      (s : S) (id : ℕ) (p : String) (r : Reservation) (j : ℕ) (q : String)
      → h.read_reservation (h.write_reservation s id p r) j q
        ≡ (if id == j && str_eq p q then some r else h.read_reservation s j q)

-- The settlement token, `TokenClient`: a transfer that fails aborts the invocation.
pub record Token (T : Type 0) : Type 0 where
  pub balance : T → String → ℕ
  pub transfer : T → String → String → ℤ → Option T

-- A transfer that succeeds moves an amount that is not negative, and nothing else.
pub record IsToken {T : Type 0} (t : Token T) : Type 0 where
  pub moves_nothing_negative : (l : T) (a b : String) (n : ℕ) → t.transfer l a b (negsuc n) ≡ none
  pub moves :
      (l l' : T) (a b : String) (n : ℕ) (x : String)
      → t.transfer l a b (pos n) ≡ some l'
      → t.balance l' x + (if str_eq a x then n else 0)
        ≡ t.balance l x + (if str_eq b x then n else 0)

-- The invocation: who has authorized it, and the ledger's time.
pub record Invocation : Type 0 where
  pub authorized : String → Bool
  pub timestamp : ℕ

-- How an invocation fails: with an error of the contract, or by a panic of the contract or the host.
pub data Abort : Type 0 where
  contract : Error → Abort
  panic : Abort

-- `address.require_auth()`.
abbrev pub require_auth : Invocation → String → Outcome Abort (Unit {0})
require_auth env address = throw_if (not (env.authorized address)) panic

-- `option.ok_or(error)?`.
abbrev pub ok_or : {A : Type 0} → Option A → Error → Outcome Abort A
ok_or none error = thrown (contract error)
ok_or (some a) error = returned a

-- `if condition { return Err(error); }`.
abbrev pub err_if : Bool → Error → Outcome Abort (Unit {0})
err_if condition error = throw_if condition (contract error)
