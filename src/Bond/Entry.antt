-- ===== src/Bond/Entry.antt =====
-- The entry points of contracts/showup-bond/src/lib.rs. Each runs to its end or aborts; an invocation
-- that aborts leaves no trace, which `invoke` of Runs says.
use showup.Prelude.{
  ℕ, ◌+◌, ◌-◌, ◌^◌, ◌<◌, String, Bool, true, false, ◌||◌, not, Option, none, some, List, ◌∷◌, ltb,
  leb, ◌==◌, is_some, if◌then◌else◌,
}
use showup.Prelude.Int.{ℤ, pos, negsuc, leb_ℤ, ◌-ℤ◌, ◌*ℤ◌, quotient}
use showup.Prelude.Outcome.{Outcome, returned, thrown, ◌>>=◌, ◌>>◌}
use showup.Bond.Types.{
  max_title_length, max_venue_length, Config, EventStatus, active, Event, ReservationStatus, locked,
  attended, refunded, no_show_settled, Reservation, not_found, not_active, already_reserved,
  event_full, not_locked, check_in_not_open, check_in_window_closed, cancellation_deadline_passed,
  settlement_too_early, invalid_basis_points, invalid_schedule, invalid_amount, overflow,
  event_not_cancelled, Published, event_created, bond_locked, reservation_cancelled, checked_in,
  event_cancelled, refund_claimed,
}
use showup.Bond.Host.{HostStorage, Token, Invocation, Abort, panic, require_auth, ok_or, err_if}
use showup.Bond.Storage.{
  set_config, get_config, set_event_count, get_event_count, set_event, get_event, set_reservation,
  get_reservation,
}

-- The state that an invocation sees: storage, token ledger, and the published events, newest first.
pub record State (S T : Type 0) : Type 0 where
  pub store : S
  pub ledger : T
  pub published : List Published

-- The numbers of an i128.
abbrev pub IsI128 : ℤ → Type 0
IsI128 (pos n) = n < 2 ^ 127
IsI128 (negsuc n) = n < 2 ^ 127

-- The arguments of `create_event`: the bond is an i128, the capacity and the basis points are u32, and
-- the times are u64.
pub record NewEvent : Type 0 where
  pub organizer : String
  pub title : String
  pub venue : String
  pub bond_amount : ℤ
  pub capacity : ℕ
  pub start_time : ℕ
  pub checkin_start : ℕ
  pub checkin_deadline : ℕ
  pub cancellation_deadline : ℕ
  pub organizer_bps : ℕ
  pub community_bps : ℕ
  pub bond_i128 : IsI128 bond_amount
  pub capacity_u32 : capacity < 2 ^ 32
  pub start_u64 : start_time < 2 ^ 64
  pub checkin_start_u64 : checkin_start < 2 ^ 64
  pub deadline_u64 : checkin_deadline < 2 ^ 64
  pub cancellation_u64 : cancellation_deadline < 2 ^ 64
  pub organizer_u32 : organizer_bps < 2 ^ 32
  pub community_u32 : community_bps < 2 ^ 32

abbrev pub is_active : EventStatus → Bool
is_active active = true
is_active EventStatus.cancelled = false

abbrev pub is_locked : ReservationStatus → Bool
is_locked locked = true
is_locked _ = false

-- `checked_add` on u32 and u64.
abbrev pub checked_add : ℕ → ℕ → ℕ → Option ℕ
checked_add bound m n = if ltb (m + n) bound then some (m + n) else none

-- `checked_sub` on u32.
abbrev pub checked_sub : ℕ → ℕ → Option ℕ
checked_sub m n = if leb n m then some (m - n) else none

-- The result of an i128 operation, unless it overflows.
abbrev pub checked_i128 : ℤ → Option ℤ
checked_i128 (pos n) = if ltb n (2 ^ 127) then some (pos n) else none
checked_i128 (negsuc n) = if ltb n (2 ^ 127) then some (negsuc n) else none

abbrev pub u32_bound : ℕ
u32_bound = 2 ^ 32

abbrev pub u64_bound : ℕ
u64_bound = 2 ^ 64

-- The event that `create_event` stores.
abbrev pub event_of : NewEvent → ℕ → Event
event_of new id = record {
  id = id;
  organizer = new.organizer;
  verifier = new.organizer;
  title = new.title;
  venue = new.venue;
  bond_amount = new.bond_amount;
  capacity = new.capacity;
  reserved_count = 0;
  start_time = new.start_time;
  checkin_start = new.checkin_start;
  checkin_deadline = new.checkin_deadline;
  cancellation_deadline = new.cancellation_deadline;
  organizer_bps = new.organizer_bps;
  community_bps = new.community_bps;
  status = active;
}

-- The reservation that `reserve` stores.
abbrev pub reservation_of : ℕ → String → Event → ℕ → Reservation
reservation_of id participant event now = record {
  event_id = id;
  participant = participant;
  amount = event.bond_amount;
  reserved_at = now;
  status = locked;
}

-- `__constructor`, on the storage of a new contract.
unfoldable pub construct : {S : Type 0} → HostStorage S → Config → S → S
construct h config store = set_event_count h (set_config h store config) 0

-- `self` is the contract's address, and `byte_length` the UTF-8 length of a string.
module _ {S T : Type 0} (h : HostStorage S) (t : Token T) (self : String) (byte_length : String → ℕ)
    (env : Invocation) where
  -- `TokenClient::transfer`.
  abbrev pub pay : T → String → String → ℤ → Outcome Abort T
  pay ledger a b amount = elim (t.transfer ledger a b amount) [
    | none ↦ thrown panic
    | some after ↦ returned after
  ]

  -- `create_event`.
  unfoldable pub create_event : NewEvent → State S T → Outcome Abort (State S T × ℕ)
  create_event new s = do
    require_auth env new.organizer
    err_if
        (leb_ℤ new.bond_amount (pos 0)
          || new.capacity == 0
          || ltb max_title_length (byte_length new.title)
          || ltb max_venue_length (byte_length new.venue))
        invalid_amount
    total_bps ← ok_or (checked_add u32_bound new.organizer_bps new.community_bps) overflow
    err_if (not (total_bps == 10000)) invalid_basis_points
    err_if
        (ltb new.checkin_start new.cancellation_deadline
          || ltb new.checkin_deadline new.checkin_start
          || ltb new.start_time new.checkin_start
          || ltb new.checkin_deadline new.start_time)
        invalid_schedule
    count ← get_event_count h s.store
    event_id ← ok_or (checked_add u64_bound count 1) overflow
    returned (
      record {
        store = set_event h (set_event_count h s.store event_id) (event_of new event_id);
        ledger = s.ledger;
        published = event_created event_id new.organizer new.bond_amount new.capacity ∷ s.published;
      },
      event_id,
    )

  -- `reserve`.
  unfoldable pub reserve : ℕ → String → State S T → Outcome Abort (State S T)
  reserve event_id participant s = do
    require_auth env participant
    event ← ok_or (get_event h s.store event_id) not_found
    err_if (not (is_active event.status)) not_active
    err_if (leb event.checkin_deadline env.timestamp) check_in_window_closed
    err_if (leb event.capacity event.reserved_count) event_full
    err_if (is_some (get_reservation h s.store event_id participant)) already_reserved
    reserved_count ← ok_or (checked_add u32_bound event.reserved_count 1) overflow
    let reservation = reservation_of event_id participant event env.timestamp
    let seated = set_event h s.store (record event { reserved_count = reserved_count })
    let store = set_reservation h seated reservation
    config ← get_config h store
    ledger ← pay s.ledger participant self event.bond_amount
    returned (record {
      store = store;
      ledger = ledger;
      published = bond_locked event_id participant event.bond_amount ∷ s.published;
    })

  -- `cancel_reservation`.
  unfoldable pub cancel_reservation : ℕ → String → State S T → Outcome Abort (State S T)
  cancel_reservation event_id participant s = do
    require_auth env participant
    reservation ← ok_or (get_reservation h s.store event_id participant) not_found
    err_if (not (is_locked reservation.status)) not_locked
    event ← ok_or (get_event h s.store event_id) not_found
    err_if (not (is_active event.status)) not_active
    err_if (ltb event.cancellation_deadline env.timestamp) cancellation_deadline_passed
    reserved_count ← ok_or (checked_sub event.reserved_count 1) overflow
    let freed = set_event h s.store (record event { reserved_count = reserved_count })
    let store =
        set_reservation h freed (record reservation { status = ReservationStatus.cancelled })
    config ← get_config h store
    ledger ← pay s.ledger self participant reservation.amount
    returned (record {
      store = store;
      ledger = ledger;
      published = reservation_cancelled event_id participant reservation.amount ∷ s.published;
    })

  -- `check_in`.
  unfoldable pub check_in : ℕ → String → State S T → Outcome Abort (State S T)
  check_in event_id participant s = do
    reservation ← ok_or (get_reservation h s.store event_id participant) not_found
    err_if (not (is_locked reservation.status)) not_locked
    event ← ok_or (get_event h s.store event_id) not_found
    require_auth env event.verifier
    err_if (not (is_active event.status)) not_active
    err_if (ltb env.timestamp event.checkin_start) check_in_not_open
    err_if (ltb event.checkin_deadline env.timestamp) check_in_window_closed
    let store = set_reservation h s.store (record reservation { status = attended })
    config ← get_config h store
    ledger ← pay s.ledger self reservation.participant reservation.amount
    returned (record {
      store = store;
      ledger = ledger;
      published = checked_in event_id reservation.participant reservation.amount ∷ s.published;
    })

  -- `cancel_event`.
  unfoldable pub cancel_event : ℕ → State S T → Outcome Abort (State S T)
  cancel_event event_id s = do
    event ← ok_or (get_event h s.store event_id) not_found
    require_auth env event.organizer
    err_if (not (is_active event.status)) not_active
    returned (record {
      store = set_event h s.store (record event { status = EventStatus.cancelled });
      ledger = s.ledger;
      published = event_cancelled event_id event.organizer ∷ s.published;
    })

  -- `claim_cancelled_event_refund`.
  unfoldable pub claim_cancelled_event_refund : ℕ → String → State S T → Outcome Abort (State S T)
  claim_cancelled_event_refund event_id participant s = do
    reservation ← ok_or (get_reservation h s.store event_id participant) not_found
    err_if (not (is_locked reservation.status)) not_locked
    event ← ok_or (get_event h s.store event_id) not_found
    err_if (is_active event.status) event_not_cancelled
    let store = set_reservation h s.store (record reservation { status = refunded })
    config ← get_config h store
    ledger ← pay s.ledger self reservation.participant reservation.amount
    returned (record {
      store = store;
      ledger = ledger;
      published = refund_claimed event_id reservation.participant reservation.amount ∷ s.published;
    })

  -- `settle_no_show`.
  unfoldable pub settle_no_show : ℕ → String → State S T → Outcome Abort (State S T)
  settle_no_show event_id participant s = do
    reservation ← ok_or (get_reservation h s.store event_id participant) not_found
    err_if (not (is_locked reservation.status)) not_locked
    event ← ok_or (get_event h s.store event_id) not_found
    err_if (not (is_active event.status)) not_active
    err_if (leb env.timestamp event.checkin_deadline) settlement_too_early
    product ← ok_or (checked_i128 (reservation.amount *ℤ pos event.organizer_bps)) overflow
    organizer_amount ← ok_or (checked_i128 (quotient product 10000)) overflow
    community_amount ← ok_or (checked_i128 (reservation.amount -ℤ organizer_amount)) overflow
    let store = set_reservation h s.store (record reservation { status = no_show_settled })
    config ← get_config h store
    paid ← pay s.ledger self event.organizer organizer_amount
    ledger ← pay paid self config.community_pool community_amount
    returned (record {
      store = store;
      ledger = ledger;
      published =
          Published.no_show_settled event_id reservation.participant organizer_amount
            community_amount
          ∷ s.published;
    })
