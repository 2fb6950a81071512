-- ===== src/Bond/Agreement.antt =====
-- The application's predicates of apps/web/lib/domain/eligibility.ts against the contract's guards. The
-- application sees the contract's values through the generated bindings and the mappers.
pub mod Creating
pub mod Reserving
pub mod Closing
mod Refunding
pub mod Settling
pub mod Due
use showup.Prelude.{
  ℕ, ◌-◌, ◌*◌, ◌/◌, ◌<◌, ◌^◌, String, Bool, false, not, is_some, Option, none, some, ◌≡◌, refl,
  arith,
}
use showup.Bond.Types.{Config, Event, EventStatus, Reservation, ReservationStatus}
use showup.Contract.Mappers.{
  EventTag, ReservationTag, GeneratedEvent, GeneratedReservation, to_event_status,
  to_reservation_status, to_reservation_view,
}
use showup.Prelude.Int.{pos, above}
use showup.Bond.Host.{Token}
use showup.Bond.Entry
use showup.Domain.Eligibility
use showup.Domain.Types.{ReservationView}

abbrev pub event_tag : EventStatus → EventTag
event_tag EventStatus.active = EventTag.active
event_tag EventStatus.cancelled = EventTag.cancelled

abbrev pub reservation_tag : ReservationStatus → ReservationTag
reservation_tag ReservationStatus.locked = ReservationTag.locked
reservation_tag ReservationStatus.attended = ReservationTag.attended
reservation_tag ReservationStatus.cancelled = ReservationTag.cancelled
reservation_tag ReservationStatus.refunded = ReservationTag.refunded
reservation_tag ReservationStatus.no_show_settled = ReservationTag.no_show_settled

-- The bindings read a value of the contract field by field; every time lies below 2 ^ 53.
pub record IsDecoded (e : Event) (g : GeneratedEvent) : Type 0 where
  pub capacity : g.capacity ≡ e.capacity
  pub reserved_count : g.reserved_count ≡ e.reserved_count
  pub checkin_start : g.checkin_start ≡ e.checkin_start
  pub checkin_deadline : g.checkin_deadline ≡ e.checkin_deadline
  pub cancellation_deadline : g.cancellation_deadline ≡ e.cancellation_deadline
  pub status : g.status ≡ event_tag e.status
  pub checkin_start_exact : e.checkin_start < 2 ^ 53
  pub checkin_deadline_exact : e.checkin_deadline < 2 ^ 53
  pub cancellation_deadline_exact : e.cancellation_deadline < 2 ^ 53

abbrev pub IsDecodedOption : Option Reservation → Option GeneratedReservation → Type 0
IsDecodedOption none none = Unit
IsDecodedOption none (some g) = ⊥
IsDecodedOption (some r) none = ⊥
IsDecodedOption (some r) (some g) = g.status ≡ reservation_tag r.status

abbrev pub reservation_view : (ℕ → ℕ) → Option GeneratedReservation → Option ReservationView
reservation_view to_number none = none
reservation_view to_number (some g) = some (to_reservation_view to_number g)

-- `Number` on a bigint below 2 ^ 53.
abbrev pub IsExact : (ℕ → ℕ) → Type 0
IsExact to_number = (n : ℕ) → n < 2 ^ 53 → to_number n ≡ n

module _ (to_number : ℕ → ℕ) (exact : IsExact to_number) where
  -- What a view shows of a value of the contract.
  pub shown_number : (n m : ℕ) → n ≡ m → m < 2 ^ 53 → to_number n ≡ m
  shown_number n m e fits = ground (arith, exact n (rw e fits))

pub shown_active :
    (tag : EventTag) (status : EventStatus)
    → tag ≡ event_tag status
    → Eligibility.is_active (to_event_status tag) ≡ Entry.is_active status
shown_active tag EventStatus.active e = rw e refl
shown_active tag EventStatus.cancelled e = rw e refl

pub shown_cancelled :
    (tag : EventTag) (status : EventStatus)
    → tag ≡ event_tag status
    → Eligibility.is_cancelled (to_event_status tag) ≡ not (Entry.is_active status)
shown_cancelled tag EventStatus.active e = rw e refl
shown_cancelled tag EventStatus.cancelled e = rw e refl

locked_tag :
    (tag : ReservationTag) (status : ReservationStatus)
    → tag ≡ reservation_tag status
    → Eligibility.is_locked (to_reservation_status tag) ≡ Entry.is_locked status
locked_tag tag ReservationStatus.locked e = rw e refl
locked_tag tag ReservationStatus.attended e = rw e refl
locked_tag tag ReservationStatus.cancelled e = rw e refl
locked_tag tag ReservationStatus.refunded e = rw e refl
locked_tag tag ReservationStatus.no_show_settled e = rw e refl

pub shown_null :
    (to_number : ℕ → ℕ) (r : Option Reservation) (o : Option GeneratedReservation)
    → IsDecodedOption r o
    → Eligibility.is_null (reservation_view to_number o) ≡ not (is_some r)
shown_null to_number none none d = refl
shown_null to_number none (some g) d = absurd d
shown_null to_number (some r) none d = absurd d
shown_null to_number (some r) (some g) d = refl

-- `none` holds no lock.
abbrev pub is_held : Option Reservation → Bool
is_held none = false
is_held (some r) = Entry.is_locked r.status

pub shown_lock :
    (to_number : ℕ → ℕ) (r : Option Reservation) (o : Option GeneratedReservation)
    → IsDecodedOption r o
    → Eligibility.holds_lock (reservation_view to_number o) ≡ is_held r
unfolding to_reservation_view
shown_lock to_number none none d = refl
shown_lock to_number none (some g) d = absurd d
shown_lock to_number (some r) none d = absurd d
shown_lock to_number (some r) (some g) d = locked_tag g.status r.status d

-- The contract can transfer the bond of the stored reservation to this account.
abbrev pub IsPayable :
    {T : Type 0} → Token T → String → T → (Reservation → String) → Option Reservation → Type 0
IsPayable t self ledger to none = Unit
IsPayable {T = T} t self ledger to (some r) =
    (l : T) × (t.transfer ledger self (to r) r.amount ≡ some l)

-- The share of the organizer, and what is left for the pool.
abbrev pub organizer_share : Event → Reservation → ℕ
organizer_share e r = above r.amount * e.organizer_bps / 10000

abbrev pub pool_share : Event → Reservation → ℕ
pool_share e r = above r.amount - organizer_share e r

-- The contract can transfer the two shares of the stored reservation, one after the other.
abbrev pub IsSplittable :
    {T : Type 0} → Token T → String → T → Event → Config → Option Reservation → Type 0
IsSplittable t self ledger e config none = Unit
IsSplittable {T = T} t self ledger e config (some r) =
    (between l : T) × (t.transfer ledger self e.organizer (pos (organizer_share e r))
      ≡ some between)
    × (t.transfer between self config.community_pool (pos (pool_share e r)) ≡ some l)
