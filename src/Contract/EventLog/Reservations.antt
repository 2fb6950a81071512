-- ===== src/Contract/EventLog/Reservations.antt =====
-- `listEventReservations`: the participants that the log names, each read back from the contract.
use showup.Prelude.{
  ℕ, ◌+◌, String, Bool, ◌&&◌, Option, none, some, List, [], ◌∷◌, ◌++◌, str_eq, if◌then◌else◌, any,
  map, ◌==◌,
}
use showup.Prelude.Outcome.{Outcome, returned, thrown, ◌>>=◌}
use showup.Domain.Types.{ReservationView}
use showup.Contract.Mappers.{GeneratedReservation}
use showup.Contract.Calls.{
  Failure, not_simulated, simulation_failed, restore_required, Simulation, failed, restore, success,
  Assembled, caught, reservation_or_null,
}
use showup.Contract.EventLog.Entries.{bond_locked, ShowUpContractEvent, seat_event}
use showup.Contract.EventLog.Pages.{EventLogSnapshot, EventLogRetention}

-- `EventReservationList`.
pub record EventReservationList : Type 0 where
  pub reservations : List ReservationView
  pub history_complete : Bool
  pub unreadable : ℕ
  pub retention : EventLogRetention

-- `Set.add`: at the end, unless it is there.
abbrev pub has : String → List String → Bool
has p set = any (λ q. str_eq q p) set

abbrev pub add : String → List String → List String
add p set = if has p set then set else set ++ (p ∷ [])

-- The participant of a locked bond.
abbrev pub locked_by : ShowUpContractEvent → Option String
locked_by (seat_event bond_locked m id p a) = some p
locked_by _ = none

abbrev pub add_locked : Option String → List String → List String
add_locked none set = set
add_locked (some p) set = add p set

-- The set of participants, from a set on.
unfoldable pub participants_from : List ShowUpContractEvent → List String → List String
participants_from [] set = set
participants_from (e ∷ es) set = participants_from es (add_locked (locked_by e) set)

-- The two counts of the loop over `Promise.allSettled`.
pub record Tally : Type 0 where
  pub reservations : List ReservationView
  pub unreadable : ℕ

abbrev pub count_one : Outcome Failure (Option ReservationView) → Tally → Tally
count_one (returned (some v)) t = record t { reservations = t.reservations ++ (v ∷ []) }
count_one _ t = record t { unreadable = t.unreadable + 1 }

unfoldable pub tally : List (Outcome Failure (Option ReservationView)) → Tally → Tally
tally [] t = t
tally (o ∷ os) t = tally os (count_one o t)

abbrev of_current_simulation :
    {A : Type 0} → Option Simulation → Outcome Failure A → Outcome Failure A
of_current_simulation none result = thrown not_simulated
of_current_simulation (some (failed text)) result = thrown (simulation_failed text)
of_current_simulation (some restore) result = thrown restore_required
of_current_simulation (some success) result = result

-- `call` is the simulated `get_reservation` of a participant; the other parameters are those of
-- `translate_contract_error` and `to_reservation_view`.
module _ (contract_code : List ℕ → Option ℕ) (stringify : Failure → List ℕ) (to_number : ℕ → ℕ)
    (call : String → Outcome Failure (Assembled (Option GeneratedReservation))) where
  -- `readCurrentReservation`.
  unfoldable pub read_current_reservation : String → Outcome Failure (Option ReservationView)
  read_current_reservation p = caught contract_code stringify (
      call p >>= λ tx. of_current_simulation tx.simulation tx.result >>= λ r.
      returned (reservation_or_null contract_code stringify to_number r))

  abbrev pub tally_of : EventLogSnapshot → Tally
  tally_of log =
      tally (map read_current_reservation (participants_from log.entries []))
        (record { reservations = []; unreadable = 0 })

  -- `listEventReservations`, behind the log.
  unfoldable pub list_event_reservations : EventLogSnapshot → EventReservationList
  list_event_reservations log = record {
    reservations = (tally_of log).reservations;
    history_complete = log.history_complete && (tally_of log).unreadable == 0;
    unreadable = (tally_of log).unreadable;
    retention = log.retention;
  }
