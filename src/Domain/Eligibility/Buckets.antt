-- ===== src/Domain/Eligibility/Buckets.antt =====
-- apps/web/lib/domain/reservation-buckets.ts: the group in which a reservation is shown.
use showup.Prelude.{ℕ, ◌≤◌, ◌≡◌, ◌↔◌, ◌⊎◌, true, some, arith, ltb, if◌then◌else◌}
use showup.Domain.Types.{
  active, EventView, ReservationStatus, locked, refunded, no_show_settled, ReservationView,
}
use showup.Domain.Eligibility.{
  is_cancelled, can_cancel_reservation, can_check_in, can_settle_no_show,
  can_claim_cancelled_refund,
}

-- `ReservationBucket`.
pub data ReservationBucket : Type 0 where
  upcoming attended cancelled no_show : ReservationBucket

-- The `switch` on the reservation's status.
abbrev bucket_of : ReservationStatus → EventView → ℕ → ReservationBucket
bucket_of ReservationStatus.attended event now = ReservationBucket.attended
bucket_of ReservationStatus.cancelled event now = ReservationBucket.cancelled
bucket_of refunded event now = ReservationBucket.cancelled
bucket_of no_show_settled event now = no_show
bucket_of locked event now =
    if is_cancelled event.status
    then ReservationBucket.cancelled
    else if ltb event.checkin_deadline now
    then no_show
    else upcoming

-- `reservationBucket`.
unfoldable pub reservation_bucket : EventView → ReservationView → ℕ → ReservationBucket
reservation_bucket event reservation now = bucket_of reservation.status event now

-- A reservation is shown as a no-show exactly when it is settled as one or can be; it is shown as
-- upcoming exactly when it is locked, its event is active and check-in is not over.
pub bucket_iff :
    (e : EventView) (r : ReservationView) (now : ℕ)
    → ((reservation_bucket e r now ≡ no_show)
        ↔ ((r.status ≡ no_show_settled) ⊎ (can_settle_no_show e (some r) now ≡ true)))
      × ((reservation_bucket e r now ≡ upcoming)
          ↔ ((r.status ≡ locked) × (e.status ≡ active) × (now ≤ e.checkin_deadline)))
unfolding reservation_bucket can_settle_no_show
bucket_iff e r now = ground arith

-- A reservation that can be checked in is shown as upcoming, one whose cancelled event refunds it as
-- cancelled; one that can be cancelled is upcoming, where cancellation ends before check-in does.
pub bucket_of_action :
    (e : EventView) (r : ReservationView) (now : ℕ)
    → (can_check_in e (some r) now ≡ true → reservation_bucket e r now ≡ upcoming)
      × (can_claim_cancelled_refund e (some r) now ≡ true
          → reservation_bucket e r now ≡ ReservationBucket.cancelled)
      × (e.cancellation_deadline ≤ e.checkin_deadline
          → can_cancel_reservation e (some r) now ≡ true
          → reservation_bucket e r now ≡ upcoming)
unfolding reservation_bucket can_check_in can_claim_cancelled_refund can_cancel_reservation
bucket_of_action e r now = ground arith
