-- ===== src/Bond/Lifecycle.antt =====
-- The life of a reservation: locked once, closed at most once, and never touched again.
pub mod Steps
pub mod Final
use showup.Prelude.{
  ℕ, ◌≤◌, ◌<◌, String, Bool, true, false, ◌&&◌, Option, none, some, ◌≡◌, str_eq, ◌==◌,
  if◌then◌else◌,
}
use showup.Bond.Types.{
  EventStatus, active, Event, ReservationStatus, locked, attended, refunded, no_show_settled,
  Reservation,
}
use showup.Bond.Host.{Invocation}
use showup.Bond.Entry.{reservation_of}

-- Who may close the reservation of `p` under which status, and when.
abbrev pub Permitted : Invocation → Event → String → ReservationStatus → Type 0
Permitted env e p locked = ⊥
Permitted env e p attended =
    (env.authorized e.verifier ≡ true)
    × (e.status ≡ active)
    × (e.checkin_start ≤ env.timestamp)
    × (env.timestamp ≤ e.checkin_deadline)
Permitted env e p ReservationStatus.cancelled =
    (env.authorized p ≡ true) × (e.status ≡ active) × (env.timestamp ≤ e.cancellation_deadline)
Permitted env e p refunded = e.status ≡ EventStatus.cancelled
Permitted env e p no_show_settled = (e.status ≡ active) × (e.checkin_deadline < env.timestamp)

-- The reservations of the contract, by event and participant.
abbrev pub Reservations : Type 0
Reservations = ℕ → String → Option Reservation

abbrev pub put : ℕ → String → Reservation → Reservations → Reservations
put id p r rs j q = if id == j && str_eq p q then some r else rs j q

-- One step of the reservations, while the events are `events`.
pub data Step (env : Invocation) (events : ℕ → Option Event)
    : Reservations → Reservations → Type 0 where
  stays :
      {rs rs' : Reservations} → ((j : ℕ) (q : String) → rs' j q ≡ rs j q) → Step env events rs rs'
  locks :
      {rs rs' : Reservations} (id : ℕ) (p : String) (e : Event)
      → events id ≡ some e
      → rs id p ≡ none
      → env.authorized p ≡ true
      → e.status ≡ active
      → env.timestamp < e.checkin_deadline
      → e.reserved_count < e.capacity
      → ((j : ℕ) (q : String) → rs' j q ≡ put id p (reservation_of id p e env.timestamp) rs j q)
      → Step env events rs rs'
  closes :
      {rs rs' : Reservations} (id : ℕ) (p : String) (e : Event) (r : Reservation)
      (end : ReservationStatus)
      → events id ≡ some e
      → rs id p ≡ some r
      → r.status ≡ locked
      → Permitted env e p end
      → ((j : ℕ) (q : String) → rs' j q ≡ put id p (record r { status = end }) rs j q)
      → Step env events rs rs'
