-- ===== src/Domain/Eligibility.antt =====
-- apps/web/lib/domain/eligibility.ts: which actions the application offers, at a ledger time.
pub mod Laws
pub mod Buckets
mod Tests
use showup.Prelude.{ℕ, Bool, true, false, ◌&&◌, Option, none, some, ltb, leb}
use showup.Domain.Types.{
  EventStatus, active, cancelled, EventView, ReservationStatus, locked, ReservationView,
}

abbrev pub is_active : EventStatus → Bool
is_active active = true
is_active cancelled = false

abbrev pub is_cancelled : EventStatus → Bool
is_cancelled active = false
is_cancelled cancelled = true

abbrev pub is_locked : ReservationStatus → Bool
is_locked locked = true
is_locked _ = false

abbrev pub is_null : Option ReservationView → Bool
is_null none = true
is_null (some _) = false

-- `reservation !== null && reservation.status === "locked"`.
abbrev pub holds_lock : Option ReservationView → Bool
holds_lock none = false
holds_lock (some r) = is_locked r.status

-- `canReserve`.
unfoldable pub can_reserve : EventView → Option ReservationView → ℕ → Bool
can_reserve event reservation now =
    is_active event.status
    && ltb now event.checkin_deadline
    && ltb event.reserved_count event.capacity
    && is_null reservation

-- `canCancelReservation`.
unfoldable pub can_cancel_reservation : EventView → Option ReservationView → ℕ → Bool
can_cancel_reservation event reservation now =
    holds_lock reservation && is_active event.status && leb now event.cancellation_deadline

-- `canCheckIn`.
unfoldable pub can_check_in : EventView → Option ReservationView → ℕ → Bool
can_check_in event reservation now =
    holds_lock reservation
    && is_active event.status
    && leb event.checkin_start now
    && leb now event.checkin_deadline

-- `canSettleNoShow`.
unfoldable pub can_settle_no_show : EventView → Option ReservationView → ℕ → Bool
can_settle_no_show event reservation now =
    holds_lock reservation && is_active event.status && ltb event.checkin_deadline now

-- `canClaimCancelledRefund`.
unfoldable pub can_claim_cancelled_refund : EventView → Option ReservationView → ℕ → Bool
can_claim_cancelled_refund event reservation now =
    holds_lock reservation && is_cancelled event.status
