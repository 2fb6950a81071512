-- ===== src/Domain/Eligibility/Laws.antt =====
-- How the five predicates divide the life of a reservation.
use showup.Prelude.{ℕ, ◌<◌, ◌≡◌, ◌≢◌, ◌↔◌, true, false, Option, none, some, arith}
use showup.Domain.Types.{active, cancelled, EventView, locked, ReservationView}
use showup.Domain.Eligibility.{
  can_reserve, can_cancel_reservation, can_check_in, can_settle_no_show, can_claim_cancelled_refund,
}

-- No two of check-in, settlement and the refund of a cancelled event are open at once, and a new
-- reservation is open together with none of the other four.
pub actions_exclusive :
    (e : EventView) (r : Option ReservationView) (now : ℕ)
    → ¬ ((can_check_in e r now ≡ true) × (can_settle_no_show e r now ≡ true))
      × ¬ ((can_check_in e r now ≡ true) × (can_claim_cancelled_refund e r now ≡ true))
      × ¬ ((can_settle_no_show e r now ≡ true) × (can_claim_cancelled_refund e r now ≡ true))
      × (can_reserve e r now ≡ true
          → (can_cancel_reservation e r now ≡ false)
            × (can_check_in e r now ≡ false)
            × (can_settle_no_show e r now ≡ false)
            × (can_claim_cancelled_refund e r now ≡ false))
unfolding can_reserve can_cancel_reservation can_check_in can_settle_no_show
    can_claim_cancelled_refund
actions_exclusive e none now = ground arith
actions_exclusive e (some r) now = ground arith

-- A locked bond can always leave: once check-in is over, settlement is open exactly when the event is
-- active, and the refund exactly when it is cancelled.
pub locked_way_out :
    (e : EventView) (r : ReservationView) (now : ℕ)
    → r.status ≡ locked
    → e.checkin_deadline < now
    → ((can_settle_no_show e (some r) now ≡ true) ↔ (e.status ≡ active))
      × ((can_claim_cancelled_refund e (some r) now ≡ true) ↔ (e.status ≡ cancelled))
unfolding can_settle_no_show can_claim_cancelled_refund
locked_way_out e r now h late = ground arith

-- A reservation that has left the locked state allows no action at all, at any time.
pub terminal_allows_nothing :
    (e : EventView) (r : ReservationView) (now : ℕ)
    → r.status ≢ locked
    → (can_reserve e (some r) now ≡ false)
      × (can_cancel_reservation e (some r) now ≡ false)
      × (can_check_in e (some r) now ≡ false)
      × (can_settle_no_show e (some r) now ≡ false)
      × (can_claim_cancelled_refund e (some r) now ≡ false)
unfolding can_reserve can_cancel_reservation can_check_in can_settle_no_show
    can_claim_cancelled_refund
terminal_allows_nothing e r now h = ground arith
