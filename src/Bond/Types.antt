-- ===== src/Bond/Types.antt =====
-- contracts/showup-bond/src/types.rs and events.rs: the contract's records, errors and events.
use showup.Prelude.{ℕ, String}
use showup.Prelude.Int.{ℤ}

-- `MAX_TITLE_LENGTH` and `MAX_VENUE_LENGTH`.
abbrev pub max_title_length : ℕ
max_title_length = 96

abbrev pub max_venue_length : ℕ
max_venue_length = 160

pub record Config : Type 0 where
  pub token : String
  pub community_pool : String

pub data EventStatus : Type 0 where
  active cancelled : EventStatus

pub data ReservationStatus : Type 0 where
  locked attended cancelled refunded no_show_settled : ReservationStatus

pub record Event : Type 0 where
  pub id : ℕ
  pub organizer : String
  pub verifier : String
  pub title : String
  pub venue : String
  pub bond_amount : ℤ
  pub capacity : ℕ
  pub reserved_count : ℕ
  pub start_time : ℕ
  pub checkin_start : ℕ
  pub checkin_deadline : ℕ
  pub cancellation_deadline : ℕ
  pub organizer_bps : ℕ
  pub community_bps : ℕ
  pub status : EventStatus

pub record Reservation : Type 0 where
  pub event_id : ℕ
  pub participant : String
  pub amount : ℤ
  pub reserved_at : ℕ
  pub status : ReservationStatus

pub data Error : Type 0 where
  not_found not_active already_reserved event_full not_locked check_in_not_open : Error
  check_in_window_closed cancellation_deadline_passed settlement_too_early : Error
  invalid_basis_points invalid_schedule invalid_amount overflow event_not_cancelled : Error

-- The discriminants of `Error`.
abbrev pub error_code : Error → ℕ
error_code not_found = 1
error_code not_active = 2
error_code already_reserved = 3
error_code event_full = 4
error_code not_locked = 5
error_code check_in_not_open = 6
error_code check_in_window_closed = 7
error_code cancellation_deadline_passed = 8
error_code settlement_too_early = 9
error_code invalid_basis_points = 10
error_code invalid_schedule = 11
error_code invalid_amount = 12
error_code overflow = 13
error_code event_not_cancelled = 14

-- The events that the contract publishes.
pub data Published : Type 0 where
  event_created : ℕ → String → ℤ → ℕ → Published
  bond_locked : ℕ → String → ℤ → Published
  reservation_cancelled : ℕ → String → ℤ → Published
  checked_in : ℕ → String → ℤ → Published
  event_cancelled : ℕ → String → Published
  refund_claimed : ℕ → String → ℤ → Published
  no_show_settled : ℕ → String → ℤ → ℤ → Published
