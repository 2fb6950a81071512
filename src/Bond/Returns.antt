-- ===== src/Bond/Returns.antt =====
-- When an entry point returns: its guards pass, its reads find something and its transfers succeed.
use showup.Prelude.{ℕ, ◌-◌, ◌≤◌, String, true, false, some, ltb, leb, ◌≡◌, inl, inr, arith}
use showup.Prelude.Int.{ℤ, pos, ◌-ℤ◌, ◌*ℤ◌, quotient}
use showup.Prelude.Outcome.{returned, Outcome-cases}
use showup.Bond.Types.{
  Config, Event, Reservation, ReservationStatus, locked, attended, refunded, no_show_settled,
}
use showup.Bond.Host.{HostStorage, Token, Invocation}
use showup.Bond.Entry.{
  State, is_active, cancel_reservation, check_in, claim_cancelled_event_refund, settle_no_show,
  checked_i128,
}

module _ {S T : Type 0} (h : HostStorage S) (t : Token T) (self : String) (byte_length : String → ℕ)
    (env : Invocation) (s : State S T) (id : ℕ) (p : String) (e : Event) (r : Reservation)
    (config : Config) (l : T) (found : h.read_reservation s.store id p ≡ some r)
    (was_locked : r.status ≡ locked) (of_event : h.read_event s.store id ≡ some e) where
  pub cancel_reservation-returns :
      env.authorized p ≡ true
      → is_active e.status ≡ true
      → leb env.timestamp e.cancellation_deadline ≡ true
      → 1 ≤ e.reserved_count
      → h.read_config (
          h.write_reservation
            (h.write_event s.store e.id (record e { reserved_count = e.reserved_count - 1 }))
            r.event_id
            r.participant
            (record r { status = ReservationStatus.cancelled }))
        ≡ some config
      → t.transfer s.ledger self p r.amount ≡ some l
      → (s' : State S T) × (cancel_reservation h t self byte_length env id p s ≡ returned s')
  unfolding cancel_reservation
  cancel_reservation-returns auth is_active in_time counted configured paid =
      elim (Outcome-cases (cancel_reservation h t self byte_length env id p s)) [
        | inl returns ↦ returns
        | inr (x, fails) ↦ absurd (ground arith)
      ]

  pub check_in-returns :
      env.authorized e.verifier ≡ true
      → is_active e.status ≡ true
      → leb e.checkin_start env.timestamp ≡ true
      → leb env.timestamp e.checkin_deadline ≡ true
      → h.read_config
          (h.write_reservation s.store r.event_id r.participant (record r { status = attended }))
        ≡ some config
      → t.transfer s.ledger self r.participant r.amount ≡ some l
      → (s' : State S T) × (check_in h t self byte_length env id p s ≡ returned s')
  unfolding check_in
  check_in-returns auth is_active opened in_time configured paid =
      elim (Outcome-cases (check_in h t self byte_length env id p s)) [
        | inl returns ↦ returns
        | inr (x, fails) ↦ absurd (ground arith)
      ]

  pub claim_cancelled_event_refund-returns :
      is_active e.status ≡ false
      → h.read_config
          (h.write_reservation s.store r.event_id r.participant (record r { status = refunded }))
        ≡ some config
      → t.transfer s.ledger self r.participant r.amount ≡ some l
      → (s' : State S T) × (claim_cancelled_event_refund h t self byte_length env id p s
          ≡ returned s')
  unfolding claim_cancelled_event_refund
  claim_cancelled_event_refund-returns is_cancelled configured paid =
      elim (Outcome-cases (claim_cancelled_event_refund h t self byte_length env id p s)) [
        | inl returns ↦ returns
        | inr (x, fails) ↦ absurd (ground arith)
      ]

  pub settle_no_show-returns :
      (product organizer community : ℤ) (between : T)
      → is_active e.status ≡ true
      → ltb e.checkin_deadline env.timestamp ≡ true
      → checked_i128 (r.amount *ℤ pos e.organizer_bps) ≡ some product
      → checked_i128 (quotient product 10000) ≡ some organizer
      → checked_i128 (r.amount -ℤ organizer) ≡ some community
      → h.read_config (
          h.write_reservation s.store r.event_id r.participant
            (record r { status = no_show_settled }))
        ≡ some config
      → t.transfer s.ledger self e.organizer organizer ≡ some between
      → t.transfer between self config.community_pool community ≡ some l
      → (s' : State S T) × (settle_no_show h t self byte_length env id p s ≡ returned s')
  unfolding settle_no_show
  settle_no_show-returns product organizer community between is_active late e1 e2 e3 configured paid
        rest =
      elim (Outcome-cases (settle_no_show h t self byte_length env id p s)) [
        | inl returns ↦ returns
        | inr (x, fails) ↦ absurd (ground arith)
      ]
