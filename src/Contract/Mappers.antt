-- ===== src/Contract/Mappers.antt =====
-- apps/web/lib/contract/mappers.ts: the generated bindings' types and the application's views.
use showup.Prelude.{ℕ, String, ◌≡◌, refl, ◌<◌, ◌^◌, arith}
use showup.Prelude.Int.{ℤ}
use showup.Domain.Schemas.{CreateEventInput}
use showup.Domain.Types.{EventStatus, ReservationStatus, EventView, ReservationView}

-- The generated `EventStatus` and `ReservationStatus`.
pub data EventTag : Type 0 where
  active cancelled : EventTag

pub data ReservationTag : Type 0 where
  locked attended cancelled refunded no_show_settled : ReservationTag

-- The generated `Event`; its times are 64-bit numbers.
pub record GeneratedEvent : Type 0 where
  pub bond_amount : ℤ
  pub cancellation_deadline : ℕ
  pub capacity : ℕ
  pub checkin_deadline : ℕ
  pub checkin_start : ℕ
  pub community_bps : ℕ
  pub id : ℕ
  pub organizer : String
  pub organizer_bps : ℕ
  pub reserved_count : ℕ
  pub start_time : ℕ
  pub status : EventTag
  pub title : String
  pub venue : String
  pub verifier : String

-- The generated `Reservation`.
pub record GeneratedReservation : Type 0 where
  pub amount : ℤ
  pub event_id : ℕ
  pub participant : String
  pub reserved_at : ℕ
  pub status : ReservationTag

-- The generated `Config`, and `ContractConfig`.
pub record GeneratedConfig : Type 0 where
  pub community_pool : String
  pub token : String

pub record ContractConfig : Type 0 where
  pub token : String
  pub community_pool : String

-- `toEventStatus`.
abbrev pub to_event_status : EventTag → EventStatus
to_event_status EventTag.active = EventStatus.active
to_event_status EventTag.cancelled = EventStatus.cancelled

-- `toReservationStatus`.
abbrev pub to_reservation_status : ReservationTag → ReservationStatus
to_reservation_status ReservationTag.locked = ReservationStatus.locked
to_reservation_status ReservationTag.attended = ReservationStatus.attended
to_reservation_status ReservationTag.cancelled = ReservationStatus.cancelled
to_reservation_status ReservationTag.refunded = ReservationStatus.refunded
to_reservation_status ReservationTag.no_show_settled = ReservationStatus.no_show_settled

-- `toContractConfig`.
abbrev pub to_contract_config : GeneratedConfig → ContractConfig
to_contract_config c = record { token = c.token; community_pool = c.community_pool }

-- The arguments of the generated `create_event`, and `toCreateEventArgs`.
pub record CreateEventArgs : Type 0 where
  pub organizer : String
  pub title : String
  pub venue : String
  pub bond_amount : ℤ
  pub capacity : ℤ
  pub start_time : ℕ
  pub checkin_start : ℕ
  pub checkin_deadline : ℕ
  pub cancellation_deadline : ℕ
  pub organizer_bps : ℕ
  pub community_bps : ℕ

unfoldable pub to_create_event_args : CreateEventInput → CreateEventArgs
to_create_event_args input = record {
  organizer = input.organizer;
  title = input.title;
  venue = input.venue;
  bond_amount = input.bond_amount;
  capacity = input.capacity;
  start_time = input.start_time;
  checkin_start = input.checkin_start;
  checkin_deadline = input.checkin_deadline;
  cancellation_deadline = input.cancellation_deadline;
  organizer_bps = input.organizer_bps;
  community_bps = input.community_bps;
}

-- `to_number` is `Number` on a bigint, which rounds from 2 ^ 53 on.
module _ (to_number : ℕ → ℕ) where
  -- `toEventView`.
  unfoldable pub to_event_view : GeneratedEvent → EventView
  to_event_view e = record {
    id = e.id;
    organizer = e.organizer;
    verifier = e.verifier;
    title = e.title;
    venue = e.venue;
    bond_amount = e.bond_amount;
    capacity = e.capacity;
    reserved_count = e.reserved_count;
    start_time = to_number e.start_time;
    checkin_start = to_number e.checkin_start;
    checkin_deadline = to_number e.checkin_deadline;
    cancellation_deadline = to_number e.cancellation_deadline;
    organizer_bps = e.organizer_bps;
    community_bps = e.community_bps;
    status = to_event_status e.status;
  }

  -- `toReservationView`.
  unfoldable pub to_reservation_view : GeneratedReservation → ReservationView
  to_reservation_view r = record {
    event_id = r.event_id;
    participant = r.participant;
    amount = r.amount;
    reserved_at = to_number r.reserved_at;
    status = to_reservation_status r.status;
  }

-- The status of a view back as a tag.
abbrev pub status_tag : ReservationStatus → ReservationTag
status_tag ReservationStatus.locked = ReservationTag.locked
status_tag ReservationStatus.attended = ReservationTag.attended
status_tag ReservationStatus.cancelled = ReservationTag.cancelled
status_tag ReservationStatus.refunded = ReservationTag.refunded
status_tag ReservationStatus.no_show_settled = ReservationTag.no_show_settled

-- Where `Number` is exact below 2 ^ 53, a reservation locked before then is recovered from its view:
-- no field is lost, swapped or merged, its status included.
pub to_reservation_view_lem :
    (to_number : ℕ → ℕ)
    → ((n : ℕ) → n < 2 ^ 53 → to_number n ≡ n)
    → (r : GeneratedReservation) → r.reserved_at < 2 ^ 53
    → let v : ReservationView = to_reservation_view to_number r in
      r ≡ record {
        amount = v.amount;
        event_id = v.event_id;
        participant = v.participant;
        reserved_at = v.reserved_at;
        status = status_tag v.status;
      }
unfolding to_reservation_view
to_reservation_view_lem to_number exact r h = λ i. record {
  amount = r.amount;
  event_id = r.event_id;
  participant = r.participant;
  reserved_at = back i;
  status = tag_back r.status i;
}
  where
    back : r.reserved_at ≡ to_number r.reserved_at
    back = ground (arith, exact r.reserved_at h)

    tag_back : (t : ReservationTag) → t ≡ status_tag (to_reservation_status t)
    tag_back ReservationTag.locked = refl
    tag_back ReservationTag.attended = refl
    tag_back ReservationTag.cancelled = refl
    tag_back ReservationTag.refunded = refl
    tag_back ReservationTag.no_show_settled = refl
