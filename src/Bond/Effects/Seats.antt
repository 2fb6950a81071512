-- ===== src/Bond/Effects/Seats.antt =====
-- What `reserve` and `cancel_reservation` have found and done, when they have returned.
use showup.Prelude.{
  Option-cases, inl, inr, ℕ, ◌+◌, ◌-◌, ◌≤◌, ◌<◌, String, true, none, some, ◌∷◌, ◌≡◌, arith,
}
use showup.Prelude.Outcome.{returned}
use showup.Bond.Types.{
  active, Event, ReservationStatus, locked, Reservation, bond_locked, reservation_cancelled,
}
use showup.Bond.Host.{HostStorage, Token, Invocation}
use showup.Bond.Entry.{State, reservation_of, reserve, cancel_reservation}

module _ {S T : Type 0} (h : HostStorage S) (t : Token T) (self : String) (byte_length : String → ℕ)
    (env : Invocation) where
  -- `reserve` found a free seat, and took the bond for it.
  pub record Reserved (id : ℕ) (p : String) (s s' : State S T) : Type 0 where
    pub event : Event
    pub authorized : env.authorized p ≡ true
    pub found : h.read_event s.store id ≡ some event
    pub is_active : event.status ≡ active
    pub open_still : env.timestamp < event.checkin_deadline
    pub has_room : event.reserved_count < event.capacity
    pub is_new : h.read_reservation s.store id p ≡ none
    pub paid : t.transfer s.ledger p self event.bond_amount ≡ some s'.ledger
    pub stored :
        s'.store
        ≡ h.write_reservation
            (h.write_event s.store event.id
              (record event { reserved_count = event.reserved_count + 1 }))
            id
            p
            (reservation_of id p event env.timestamp)
    pub logged : s'.published ≡ bond_locked id p event.bond_amount ∷ s.published

  pub reserve-Reserved :
      (id : ℕ) (p : String) (s s' : State S T)
      → reserve h t self byte_length env id p s ≡ returned s'
      → Reserved id p s s'
  unfolding reserve
  reserve-Reserved id p s s' e = elim (Option-cases (h.read_event s.store id)) [
    | inl missing ↦ absurd (ground arith)
    | inr (event, found) ↦ elim (Option-cases (t.transfer s.ledger p self event.bond_amount)) [
      | inl refused ↦ absurd (ground arith)
      | inr (ledger, paid) ↦ record {
        event = event;
        authorized = ground arith;
        found = found;
        is_active = ground arith;
        open_still = ground arith;
        has_room = ground arith;
        is_new = ground arith;
        paid = ground arith;
        stored = ground arith;
        logged = ground arith;
      }
    ]
  ]

  -- `cancel_reservation` released the bond and freed the seat.
  pub record SeatCancelled (id : ℕ) (p : String) (s s' : State S T) : Type 0 where
    pub reservation : Reservation
    pub event : Event
    pub found : h.read_reservation s.store id p ≡ some reservation
    pub was_locked : reservation.status ≡ locked
    pub of_event : h.read_event s.store id ≡ some event
    pub authorized : env.authorized p ≡ true
    pub is_active : event.status ≡ active
    pub in_time : env.timestamp ≤ event.cancellation_deadline
    pub some_reserved : 1 ≤ event.reserved_count
    pub paid : t.transfer s.ledger self p reservation.amount ≡ some s'.ledger
    pub stored :
        s'.store
        ≡ h.write_reservation
            (h.write_event s.store event.id
              (record event { reserved_count = event.reserved_count - 1 }))
            reservation.event_id
            reservation.participant
            (record reservation { status = ReservationStatus.cancelled })
    pub logged : s'.published ≡ reservation_cancelled id p reservation.amount ∷ s.published

  pub cancel_reservation-SeatCancelled :
      (id : ℕ) (p : String) (s s' : State S T)
      → cancel_reservation h t self byte_length env id p s ≡ returned s'
      → SeatCancelled id p s s'
  unfolding cancel_reservation
  cancel_reservation-SeatCancelled id p s s' e =
      elim (Option-cases (h.read_reservation s.store id p)) [
        | inl missing ↦ absurd (ground arith)
        | inr (r, found) ↦ elim (Option-cases (h.read_event s.store id)) [
          | inl missing ↦ absurd (ground arith)
          | inr (event, of_event) ↦ elim (Option-cases (t.transfer s.ledger self p r.amount)) [
            | inl refused ↦ absurd (ground arith)
            | inr (ledger, paid) ↦ record {
              reservation = r;
              event = event;
              found = found;
              was_locked = ground arith;
              of_event = of_event;
              authorized = ground arith;
              is_active = ground arith;
              in_time = ground arith;
              some_reserved = ground arith;
              paid = ground arith;
              stored = ground arith;
              logged = ground arith;
            }
          ]
        ]
      ]
