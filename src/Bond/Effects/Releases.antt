-- ===== src/Bond/Effects/Releases.antt =====
-- What `check_in` and `claim_cancelled_event_refund` have found and done, when they have returned.
use showup.Prelude.{Option-cases, inl, inr, ℕ, ◌≤◌, String, true, some, ◌∷◌, ◌≡◌, arith}
use showup.Prelude.Outcome.{returned}
use showup.Bond.Types.{
  EventStatus, active, Event, ReservationStatus, locked, attended, refunded, Reservation,
  checked_in, refund_claimed,
}
use showup.Bond.Host.{HostStorage, Token, Invocation}
use showup.Bond.Entry.{State, check_in, claim_cancelled_event_refund}

module _ {S T : Type 0} (h : HostStorage S) (t : Token T) (self : String) (byte_length : String → ℕ)
    (env : Invocation) where
  -- A locked reservation was released to its holder under the status `end`, in an event as required.
  pub record Released (end : ReservationStatus) (id : ℕ) (p : String) (s s' : State S T)
      (reservation : Reservation) (event : Event) : Type 0 where
    pub found : h.read_reservation s.store id p ≡ some reservation
    pub was_locked : reservation.status ≡ locked
    pub of_event : h.read_event s.store id ≡ some event
    pub paid : t.transfer s.ledger self reservation.participant reservation.amount ≡ some s'.ledger
    pub stored :
        s'.store
        ≡ h.write_reservation s.store reservation.event_id reservation.participant
            (record reservation { status = end })

  -- `check_in` released the bond within the window.
  pub record CheckedIn (id : ℕ) (p : String) (s s' : State S T) : Type 0 where
    pub reservation : Reservation
    pub event : Event
    pub released : Released attended id p s s' reservation event
    pub authorized : env.authorized event.verifier ≡ true
    pub is_active : event.status ≡ active
    pub opened : event.checkin_start ≤ env.timestamp
    pub in_time : env.timestamp ≤ event.checkin_deadline
    pub logged :
        s'.published ≡ checked_in id reservation.participant reservation.amount ∷ s.published

  pub check_in-CheckedIn :
      (id : ℕ) (p : String) (s s' : State S T)
      → check_in h t self byte_length env id p s ≡ returned s'
      → CheckedIn id p s s'
  unfolding check_in
  check_in-CheckedIn id p s s' e = elim (Option-cases (h.read_reservation s.store id p)) [
    | inl missing ↦ absurd (ground arith)
    | inr (r, found) ↦ elim (Option-cases (h.read_event s.store id)) [
      | inl missing ↦ absurd (ground arith)
      | inr (event, of_event) ↦
          elim (Option-cases (t.transfer s.ledger self r.participant r.amount)) [
            | inl refused ↦ absurd (ground arith)
            | inr (ledger, paid) ↦ record {
              reservation = r;
              event = event;
              released = record {
                found = found;
                was_locked = ground arith;
                of_event = of_event;
                paid = ground arith;
                stored = ground arith;
              };
              authorized = ground arith;
              is_active = ground arith;
              opened = ground arith;
              in_time = ground arith;
              logged = ground arith;
            }
          ]
    ]
  ]

  -- `claim_cancelled_event_refund` released the bond of a cancelled event.
  pub record Claimed (id : ℕ) (p : String) (s s' : State S T) : Type 0 where
    pub reservation : Reservation
    pub event : Event
    pub released : Released refunded id p s s' reservation event
    pub is_cancelled : event.status ≡ EventStatus.cancelled
    pub logged :
        s'.published ≡ refund_claimed id reservation.participant reservation.amount ∷ s.published

  pub claim_cancelled_event_refund-Claimed :
      (id : ℕ) (p : String) (s s' : State S T)
      → claim_cancelled_event_refund h t self byte_length env id p s ≡ returned s'
      → Claimed id p s s'
  unfolding claim_cancelled_event_refund
  claim_cancelled_event_refund-Claimed id p s s' e =
      elim (Option-cases (h.read_reservation s.store id p)) [
        | inl missing ↦ absurd (ground arith)
        | inr (r, found) ↦ elim (Option-cases (h.read_event s.store id)) [
          | inl missing ↦ absurd (ground arith)
          | inr (event, of_event) ↦
              elim (Option-cases (t.transfer s.ledger self r.participant r.amount)) [
                | inl refused ↦ absurd (ground arith)
                | inr (ledger, paid) ↦ record {
                  reservation = r;
                  event = event;
                  released = record {
                    found = found;
                    was_locked = ground arith;
                    of_event = of_event;
                    paid = ground arith;
                    stored = ground arith;
                  };
                  is_cancelled = ground arith;
                  logged = ground arith;
                }
              ]
        ]
      ]
