-- ===== src/Bond/Agreement/Closing.antt =====
-- `canCancelReservation` and `canCheckIn`, and the entry points they are for.
use showup.Prelude.{
  ℕ, ◌-◌, ◌≤◌, String, Bool, true, ◌&&◌, Option, none, some, leb, ◌≡◌, ◌↔◌, refl, sym, ◌∙◌, arith,
}
use showup.Prelude.Outcome.{returned}
use showup.Bond.Types.{
  Config, Event, EventStatus, Reservation, ReservationStatus, active, locked, attended,
}
use showup.Bond.Host.{HostStorage, IsStorage, Token, Invocation}
use showup.Bond.Entry.{State, is_active, is_locked, cancel_reservation, check_in}
use showup.Bond.Effects.Seats.{cancel_reservation-SeatCancelled}
use showup.Bond.Effects.Releases.{check_in-CheckedIn}
use showup.Bond.Returns.{cancel_reservation-returns, check_in-returns}
use showup.Bond.Invariant.{Inv}
use showup.Bond.Invariant.Closing.{some-eq}
use showup.Bond.Invariant.Covered.{counted}
use showup.Bond.Agreement.{
  IsDecoded, IsDecodedOption, reservation_view, IsExact, IsPayable, is_held, shown_number,
  shown_active, shown_lock,
}
use showup.Bond.Agreement.Reserving.{config_stays}
use showup.Contract.Mappers.{GeneratedEvent, GeneratedReservation, to_event_view}
use showup.Domain.Eligibility.{can_cancel_reservation, can_check_in}

pub held-some :
    (o : Option Reservation)
    → is_held o ≡ true
    → (r : Reservation) × (o ≡ some r) × (r.status ≡ locked)
held-some none e = absurd (ground arith)
held-some (some r) e = (r, refl, ground arith)

pub held_of :
    (o : Option Reservation) (r : Reservation) → o ≡ some r → r.status ≡ locked → is_held o ≡ true
held_of o r found is_locked = rw found (ground arith)

pub is_active_of : (status : EventStatus) → status ≡ active → is_active status ≡ true
is_active_of status e = rw e refl

leb-true : {m n : ℕ} → m ≤ n → leb m n ≡ true
leb-true le = ground arith

pub and_three : (a b c : Bool) → ((a && b && c) ≡ true) ↔ ((a ≡ true) × (b ≡ true) × (c ≡ true))
and_three a b c = ground arith

and_four :
    (a b c d : Bool)
    → ((a && b && c && d) ≡ true) ↔ ((a ≡ true) × (b ≡ true) × (c ≡ true) × (d ≡ true))
and_four a b c d = ground arith

-- The transfer that a stored reservation allows.
pub pays_out :
    {T : Type 0} (t : Token T) (self : String) (ledger : T) (to : Reservation → String)
    (o : Option Reservation) (r : Reservation)
    → IsPayable t self ledger to o
    → o ≡ some r
    → (l : T) × (t.transfer ledger self (to r) r.amount ≡ some l)
pays_out t self ledger to o r payable found = rw found at payable

module _ (to_number : ℕ → ℕ) (exact : IsExact to_number) (now : ℕ) (e : Event) (g : GeneratedEvent)
    (r : Option Reservation) (o : Option GeneratedReservation) (d : IsDecoded e g)
    (dr : IsDecodedOption r o) where
  can_cancel_reservation_shown :
      can_cancel_reservation (to_event_view to_number g) (reservation_view to_number o) now
      ≡ (is_held r && is_active e.status && leb now e.cancellation_deadline)
  unfolding can_cancel_reservation to_event_view
  can_cancel_reservation_shown =
      rw
        (
          shown_active g.status e.status d.status,
          shown_lock to_number r o dr,
          shown_number to_number exact g.cancellation_deadline e.cancellation_deadline
              d.cancellation_deadline d.cancellation_deadline_exact,
        )
        refl

  can_check_in_shown :
      can_check_in (to_event_view to_number g) (reservation_view to_number o) now
      ≡ (is_held r && is_active e.status && leb e.checkin_start now && leb now e.checkin_deadline)
  unfolding can_check_in to_event_view
  can_check_in_shown =
      rw
        (
          shown_active g.status e.status d.status,
          shown_lock to_number r o dr,
          shown_number to_number exact g.checkin_start e.checkin_start d.checkin_start
              d.checkin_start_exact,
          shown_number to_number exact g.checkin_deadline e.checkin_deadline d.checkin_deadline
              d.checkin_deadline_exact,
        )
        refl

module _ {S T : Type 0} (h : HostStorage S) (t : Token T) (self : String) (byte_length : String → ℕ)
    (laws : IsStorage h) (to_number : ℕ → ℕ) (exact : IsExact to_number) (env : Invocation)
    (s : State S T) (id : ℕ) (p : String) (e : Event) (g : GeneratedEvent)
    (o : Option GeneratedReservation) (config : Config) (found : h.read_event s.store id ≡ some e)
    (d : IsDecoded e g) (dr : IsDecodedOption (h.read_reservation s.store id p) o)
    (configured : h.read_config s.store ≡ some config) where
  abbrev stored : Option Reservation
  stored = h.read_reservation s.store id p

  -- Where the invariant holds, for a stored event with times that `Number` keeps, a contract with a
  -- configuration, a participant who authorizes, and a bond that can be transferred back to the
  -- participant if there is a reservation: `canCancelReservation` holds of what the application is shown
  -- exactly when `cancel_reservation` returns.
  pub can_cancel_reservation_iff :
      Inv h t self s
      → IsPayable t self s.ledger (λ r. p) stored
      → env.authorized p ≡ true
      → (can_cancel_reservation
            (to_event_view to_number g)
            (reservation_view to_number o)
            env.timestamp
          ≡ true)
        ↔ ((s' : State S T) × (cancel_reservation h t self byte_length env id p s ≡ returned s'))
  unfolding cancel_reservation
  can_cancel_reservation_iff inv payable auth = (
    λ offered.
        let (has, is, in_time) =
          (and_three (is_held stored) (is_active e.status)
              (leb env.timestamp e.cancellation_deadline)).0
            (sym (can_cancel_reservation_shown to_number exact env.timestamp e g stored o d dr)
              ∙ offered) in
        let (r, held, is_locked) = held-some stored has in
        let (l, paid) = pays_out t self s.ledger (λ r. p) stored r payable held in
        cancel_reservation-returns h t self byte_length env s id p e r config l held is_locked found
          auth is in_time (counted h t self s inv id p r held is_locked e found)
          (config_stays h t self byte_length laws to_number exact s.store e.id r.event_id
              r.participant (record e { reserved_count = e.reserved_count - 1 })
              (record r { status = ReservationStatus.cancelled })
            ∙ configured)
          paid,
    λ returns.
        let c =
          cancel_reservation-SeatCancelled h t self byte_length env id p s (returns.0)
            (returns.1) in
        let same : c.event ≡ e = some-eq (sym c.of_event ∙ found) in
        can_cancel_reservation_shown to_number exact env.timestamp e g stored o d dr
        ∙ (and_three (is_held stored) (is_active e.status)
              (leb env.timestamp e.cancellation_deadline)).1
            (
              held_of stored c.reservation c.found c.was_locked,
              is_active_of e.status (rw same at c.is_active),
              leb-true (rw same at c.in_time),
            ),
  )

  -- For a stored event with times that `Number` keeps, a contract with a configuration, a verifier who
  -- authorizes, and a bond that can be transferred to the participant if there is a reservation:
  -- `canCheckIn` holds of what the application is shown exactly when `check_in` returns.
  pub can_check_in_iff :
      IsPayable t self s.ledger (λ r. r.participant) stored
      → env.authorized e.verifier ≡ true
      → (can_check_in (to_event_view to_number g) (reservation_view to_number o) env.timestamp
          ≡ true)
        ↔ ((s' : State S T) × (check_in h t self byte_length env id p s ≡ returned s'))
  unfolding check_in
  can_check_in_iff payable auth = (
    λ offered.
        let (has, is, opened, in_time) =
          (and_four (is_held stored) (is_active e.status) (leb e.checkin_start env.timestamp)
              (leb env.timestamp e.checkin_deadline)).0
            (sym (can_check_in_shown to_number exact env.timestamp e g stored o d dr) ∙ offered) in
        let (r, held, is_locked) = held-some stored has in
        let (l, paid) = pays_out t self s.ledger (λ r. r.participant) stored r payable held in
        check_in-returns h t self byte_length env s id p e r config l held is_locked found auth is
          opened in_time
          (laws.config_after_reservation s.store r.event_id r.participant
              (record r { status = attended })
            ∙ configured)
          paid,
    λ returns.
        let c = check_in-CheckedIn h t self byte_length env id p s (returns.0) (returns.1) in
        let same : c.event ≡ e = some-eq (sym c.released.of_event ∙ found) in
        can_check_in_shown to_number exact env.timestamp e g stored o d dr
        ∙ (and_four (is_held stored) (is_active e.status) (leb e.checkin_start env.timestamp)
              (leb env.timestamp e.checkin_deadline)).1
            (
              held_of stored c.reservation c.released.found c.released.was_locked,
              is_active_of e.status (rw same at c.is_active),
              leb-true (rw same at c.opened),
              leb-true (rw same at c.in_time),
            ),
  )
