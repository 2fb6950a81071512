-- ===== src/Bond/Invariant.antt =====
-- What holds of every state that the contract can get to.
pub mod Closing
pub mod Opening
pub mod Listing
pub mod Seating
pub mod Paying
pub mod Reached
pub mod Covered
use showup.Prelude.{
  ℕ, ◌+◌, ◌≤◌, ◌<◌, String, Bool, true, false, ◌&&◌, not, Option, none, some, ◌≡◌, str_eq, ◌==◌, In,
  if◌then◌else◌,
}
use showup.Prelude.Int.{ℤ, pos, above, ◌<ℤ◌}
use showup.Bond.Types.{Event, Reservation, ReservationStatus}
use showup.Bond.Host.{HostStorage, Token}
use showup.Bond.Entry.{State, is_locked}
use showup.Bond.Runs.{Seat, seat, seats_of}
use showup.Bond.Sums.{weigh, Distinct}

abbrev pub is_given_up : ReservationStatus → Bool
is_given_up ReservationStatus.cancelled = true
is_given_up _ = false

-- What the contract holds for a reservation: the bond, while it is locked.
abbrev pub held_for : Option Reservation → ℕ
held_for none = 0
held_for (some r) = if is_locked r.status then above r.amount else 0

-- A reservation takes a seat until it is cancelled.
abbrev pub taken_by : Option Reservation → ℕ
taken_by none = 0
taken_by (some r) = if is_given_up r.status then 0 else 1

module _ {S T : Type 0} (h : HostStorage S) (t : Token T) (self : String) where
  abbrev pub held : S → Seat → ℕ
  held store (seat id p) = held_for (h.read_reservation store id p)

  abbrev pub taken : S → ℕ → Seat → ℕ
  taken store id (seat j p) = if id == j then taken_by (h.read_reservation store j p) else 0

  -- A stored event.
  pub record IsStored (s : State S T) (id : ℕ) (e : Event) : Type 0 where
    pub under_its_id : e.id ≡ id
    pub bond_positive : pos 0 <ℤ e.bond_amount
    pub all_shared : e.organizer_bps + e.community_bps ≡ 10000
    pub seats_counted : e.reserved_count ≡ weigh (taken s.store id) (seats_of s.published)
    pub within_capacity : e.reserved_count ≤ e.capacity

  pub record Inv (s : State S T) : Type 0 where
    pub distinct : Distinct (seats_of s.published)
    pub solvent : weigh (held s.store) (seats_of s.published) ≤ t.balance s.ledger self
    pub has_reservation :
        (id : ℕ) (p : String)
        → In (seat id p) (seats_of s.published)
        → (r : Reservation) × (h.read_reservation s.store id p ≡ some r)
    pub has_event :
        (id : ℕ) (p : String)
        → In (seat id p) (seats_of s.published)
        → (e : Event) × (h.read_event s.store id ≡ some e)
    pub reservation_known :
        (id : ℕ) (p : String) (r : Reservation)
        → h.read_reservation s.store id p ≡ some r
        → In (seat id p) (seats_of s.published)
          × (r.event_id ≡ id)
          × (r.participant ≡ p)
          × (pos 0 <ℤ r.amount)
    pub event_stored : (id : ℕ) (e : Event) → h.read_event s.store id ≡ some e → IsStored s id e
    pub ids_counted :
        (id n : ℕ) (e : Event)
        → h.read_count s.store ≡ some n
        → h.read_event s.store id ≡ some e
        → id ≤ n
