-- ===== src/Bond/Agreement/Refunding.antt =====
-- `canClaimCancelledRefund` and `claim_cancelled_event_refund`.
use showup.Prelude.{
  ℕ, String, Bool, true, false, ◌&&◌, not, Option, some, ◌≡◌, ◌↔◌, refl, sym, ◌∙◌, arith,
}
use showup.Prelude.Outcome.{returned}
use showup.Bond.Types.{Config, Event, EventStatus, Reservation, refunded}
use showup.Bond.Host.{HostStorage, IsStorage, Token, Invocation}
use showup.Bond.Entry.{State, is_active, claim_cancelled_event_refund}
use showup.Bond.Effects.Releases.{claim_cancelled_event_refund-Claimed}
use showup.Bond.Returns.{claim_cancelled_event_refund-returns}
use showup.Bond.Invariant.Closing.{some-eq}
use showup.Bond.Agreement.{
  IsDecoded, IsDecodedOption, reservation_view, IsExact, IsPayable, is_held, shown_cancelled,
  shown_lock,
}
use showup.Bond.Agreement.Closing.{held-some, held_of, pays_out}
use showup.Contract.Mappers.{GeneratedEvent, GeneratedReservation, to_event_view}
use showup.Domain.Eligibility.{can_claim_cancelled_refund}

is_cancelled_of :
    (status : EventStatus) → status ≡ EventStatus.cancelled → not (is_active status) ≡ true
is_cancelled_of status e = rw e refl

not-true : {b : Bool} → not b ≡ true → b ≡ false
not-true {b = b} e = ground arith

and_two : (a b : Bool) → ((a && b) ≡ true) ↔ ((a ≡ true) × (b ≡ true))
and_two a b = ground arith

module _ (to_number : ℕ → ℕ) (exact : IsExact to_number) (now : ℕ) (e : Event) (g : GeneratedEvent)
    (r : Option Reservation) (o : Option GeneratedReservation) (d : IsDecoded e g)
    (dr : IsDecodedOption r o) where
  can_claim_cancelled_refund_shown :
      can_claim_cancelled_refund (to_event_view to_number g) (reservation_view to_number o) now
      ≡ (is_held r && not (is_active e.status))
  unfolding can_claim_cancelled_refund to_event_view
  can_claim_cancelled_refund_shown =
      rw (shown_cancelled g.status e.status d.status, shown_lock to_number r o dr) refl

module _ {S T : Type 0} (h : HostStorage S) (t : Token T) (self : String) (byte_length : String → ℕ)
    (laws : IsStorage h) (to_number : ℕ → ℕ) (exact : IsExact to_number) (env : Invocation)
    (s : State S T) (id : ℕ) (p : String) (e : Event) (g : GeneratedEvent)
    (o : Option GeneratedReservation) (config : Config) (found : h.read_event s.store id ≡ some e)
    (d : IsDecoded e g) (dr : IsDecodedOption (h.read_reservation s.store id p) o)
    (configured : h.read_config s.store ≡ some config) where
  abbrev stored : Option Reservation
  stored = h.read_reservation s.store id p

  -- For a bond that can be transferred to the participant if there is a reservation,
  -- `canClaimCancelledRefund` holds of what the application is shown exactly when
  -- `claim_cancelled_event_refund` returns, whoever invokes it.
  pub can_claim_cancelled_refund_iff :
      IsPayable t self s.ledger (λ r. r.participant) stored
      → (can_claim_cancelled_refund
            (to_event_view to_number g)
            (reservation_view to_number o)
            env.timestamp
          ≡ true)
        ↔ ((s' : State S T) × (claim_cancelled_event_refund h t self byte_length env id p s
              ≡ returned s'))
  unfolding claim_cancelled_event_refund
  can_claim_cancelled_refund_iff payable = (
    λ offered.
        let (has, cancelled) = (and_two (is_held stored) (not (is_active e.status))).0 (
          sym (can_claim_cancelled_refund_shown to_number exact env.timestamp e g stored o d dr)
          ∙ offered) in
        let (r, held, is_locked) = held-some stored has in
        let (l, paid) = pays_out t self s.ledger (λ r. r.participant) stored r payable held in
        claim_cancelled_event_refund-returns h t self byte_length env s id p e r config l held
          is_locked found (not-true cancelled)
          (laws.config_after_reservation s.store r.event_id r.participant
              (record r { status = refunded })
            ∙ configured)
          paid,
    λ returns.
        let c =
          claim_cancelled_event_refund-Claimed h t self byte_length env id p s (returns.0)
            (returns.1) in
        let same : c.event ≡ e = some-eq (sym c.released.of_event ∙ found) in
        can_claim_cancelled_refund_shown to_number exact env.timestamp e g stored o d dr
        ∙ (and_two (is_held stored) (not (is_active e.status))).1 (
          held_of stored c.reservation c.released.found c.released.was_locked,
          is_cancelled_of e.status (rw same at c.is_cancelled),
        ),
  )
