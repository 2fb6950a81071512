-- ===== src/Contract/EventLog/Tests.antt =====
-- A log of two seats and a foreign event, and the theorems on it.
use showup.Prelude.{
  ℕ, zero, suc, String, true, false, Option, none, some, List, [], ◌∷◌, ◌≡◌, ◌↔◌, ◌<◌, refl, In,
  replicate, length, ltb, arith, ◌+◌, any, str_eq, if◌then◌else◌,
}
use showup.Prelude.Int.{pos}
use showup.Prelude.Outcome.{Outcome, returned, ◌>>=◌}
use showup.Contract.Mappers.{GeneratedReservation, ReservationTag}
use showup.Contract.Calls.{Failure, foreign, Assembled, restore, success}
use showup.Contract.EventLog.Entries.{
  LogFailure, bigint, text, end, prop, Metadata, bond_locked, ShowUpContractEvent, seat_event,
  RawEvent, require_big_int, require_string, map_event, entry_of, entries_of,
}
use showup.Contract.EventLog.Kept.{IsEntryOf, entries_of_iff}
use showup.Contract.EventLog.Pages.{
  EventLogRetention, Page, EventLogSnapshot, is_created, read_event_log, read_event_log_lem,
  gathered, same_cursor, cursor_at,
}
use showup.Contract.EventLog.Reservations.{
  EventReservationList, participants_from, list_event_reservations,
}
use showup.Contract.EventLog.Tally.{list_event_reservations_lem}

abbrev at_ledger : ℕ → Metadata
at_ledger n = record {
  id = "e";
  ledger = n;
  ledger_closed_at = "t";
  transaction_index = 0;
  operation_index = 0;
  tx_hash = "h";
}

abbrev locked : ℕ → String → RawEvent
locked id p = record {
  metadata = at_ledger 9;
  in_successful_contract_call = true;
  parsed = some (record {
    name = "BondLocked";
    fields =
        prop "event_id" (bigint (pos id))
          (prop "participant" (text p) (prop "amount" (bigint (pos 25)) end));
  });
}

abbrev seat_of : ℕ → String → ShowUpContractEvent
seat_of id p = seat_event bond_locked (at_ledger 9) (pos id) p (pos 25)

reads_log :
    entries_of 7 (locked 7 "GA" ∷ locked 8 "GB" ∷ locked 7 "GC" ∷ [])
    ≡ returned (seat_of 7 "GA" ∷ seat_of 7 "GC" ∷ [])
unfolding entries_of entry_of map_event require_big_int require_string
reads_log = refl

entries_of_iff_example : In (seat_of 7 "GC") (seat_of 7 "GA" ∷ seat_of 7 "GC" ∷ []) ↔ (
    (raw : RawEvent) × In raw (locked 7 "GA" ∷ locked 8 "GB" ∷ locked 7 "GC" ∷ [])
    × IsEntryOf 7 raw (seat_of 7 "GC"))
entries_of_iff_example =
    entries_of_iff 7 (locked 7 "GA" ∷ locked 8 "GB" ∷ locked 7 "GC" ∷ [])
      (seat_of 7 "GA" ∷ seat_of 7 "GC" ∷ []) (seat_of 7 "GC") reads_log

abbrev retention : EventLogRetention
retention = record {
  oldest_ledger = 1;
  latest_ledger = 9;
  oldest_ledger_close_time = "a";
  latest_ledger_close_time = "b";
}

-- A full page, and then one of a single event.
abbrev pages : ℕ → Page
pages zero = record { events = replicate 100 (locked 7 "GA"); cursor = "c1"; retention = retention }
pages (suc n) = record { events = locked 7 "GB" ∷ []; cursor = "c2"; retention = retention }

first_full : (n : ℕ) → n < 1 → ltb (length (pages n).events) 100 ≡ false
first_full zero h = refl
first_full (suc n) h = absurd (omega arith)

abbrev get_events : ℕ → Option String → Outcome LogFailure Page
get_events n cursor = returned (pages n)

first_moves :
    (n : ℕ) → n < 1 → same_cursor (pages n).cursor (cursor_at get_events pages 1 n) ≡ false
first_moves zero h = refl
first_moves (suc n) h = absurd (omega arith)

read_event_log_lem_example :
    read_event_log get_events 5 7
    ≡ some (
        entries_of 7 (gathered get_events pages 1 0 1) >>= λ entries. returned (record {
          entries = entries;
          history_complete = any is_created entries;
          retention = retention;
        }))
read_event_log_lem_example =
    read_event_log_lem get_events pages 1 (λ n h. refl) first_full first_moves refl 5 7
      (omega arith)

abbrev no_code : List ℕ → Option ℕ
no_code s = none

abbrev text_of : Failure → List ℕ
text_of (foreign s) = s
text_of _ = []

abbrev call : String → Outcome Failure (Assembled (Option GeneratedReservation))
call p = returned (record {
  simulation = some (if str_eq p "GA" then success else restore);
  result = returned (
      some (record {
        amount = pos 25;
        event_id = 7;
        participant = p;
        reserved_at = 500;
        status = ReservationTag.locked;
      }));
})

abbrev log : EventLogSnapshot
log = record {
  entries = seat_of 7 "GA" ∷ seat_of 7 "GC" ∷ seat_of 7 "GA" ∷ [];
  history_complete = true;
  retention = retention;
}

list_event_reservations_lem_example :
    let r : EventReservationList = list_event_reservations no_code text_of (λ n. n) call log in
    length r.reservations + r.unreadable ≡ length (participants_from log.entries [])
list_event_reservations_lem_example =
    (list_event_reservations_lem no_code text_of (λ n. n) call log).2
