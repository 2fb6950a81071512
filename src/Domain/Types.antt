-- ===== src/Domain/Types.antt =====
-- apps/web/lib/domain/types.ts: the application's views of the contract's state.
use showup.Prelude.{ℕ, String}
use showup.Prelude.Int.{ℤ}

-- `EventStatus`.
pub data EventStatus : Type 0 where
  active cancelled : EventStatus

-- `ReservationStatus`.
pub data ReservationStatus : Type 0 where
  locked attended cancelled refunded no_show_settled : ReservationStatus

-- `EventView`. Amounts are integers; times are Unix seconds.
pub record EventView : Type 0 where
  pub id : ℕ
  pub organizer : String
  pub verifier : String
  pub title : String
  pub venue : String
  pub bond_amount : ℤ
  pub capacity : ℕ
  pub reserved_count : ℕ
  pub start_time : ℕ
  pub checkin_start : ℕ
  pub checkin_deadline : ℕ
  pub cancellation_deadline : ℕ
  pub organizer_bps : ℕ
  pub community_bps : ℕ
  pub status : EventStatus

-- `ReservationView`.
pub record ReservationView : Type 0 where
  pub event_id : ℕ
  pub participant : String
  pub amount : ℤ
  pub reserved_at : ℕ
  pub status : ReservationStatus
