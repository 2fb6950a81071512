-- ===== src/Bond/Storage.antt =====
-- contracts/showup-bond/src/storage.rs: the entries that the contract keeps. The reads of the instance
-- panic when it is archived.
use showup.Prelude.{ℕ, String, Option, none, some}
use showup.Prelude.Outcome.{Outcome, returned, thrown}
use showup.Bond.Types.{Config, Event, Reservation, not_found}
use showup.Bond.Host.{HostStorage, Abort, contract}

-- `panic_with_error!(env, Error::NotFound)`.
abbrev pub or_panic : {A : Type 0} → Option A → Outcome Abort A
or_panic none = thrown (contract not_found)
or_panic (some a) = returned a

module _ {S : Type 0} (h : HostStorage S) where
  abbrev pub set_config : S → Config → S
  set_config s config = h.write_config s config

  abbrev pub get_config : S → Outcome Abort Config
  get_config s = or_panic (h.read_config s)

  abbrev pub set_event_count : S → ℕ → S
  set_event_count s n = h.write_count s n

  abbrev pub get_event_count : S → Outcome Abort ℕ
  get_event_count s = or_panic (h.read_count s)

  abbrev pub set_event : S → Event → S
  set_event s event = h.write_event s event.id event

  abbrev pub get_event : S → ℕ → Option Event
  get_event s id = h.read_event s id

  abbrev pub set_reservation : S → Reservation → S
  set_reservation s r = h.write_reservation s r.event_id r.participant r

  abbrev pub get_reservation : S → ℕ → String → Option Reservation
  get_reservation s id p = h.read_reservation s id p
