-- ===== src/Bond/Tests.antt =====
-- A meeting with a bond of 33 stroops, two guests and one of them absent; and the theorems on it.
pub mod Runs
pub mod Offers
use showup.Prelude.{
  ℕ, String, Bool, true, false, Option, none, some, List, [], ◌∷◌, ◌≡◌, refl, str_eq, if◌then◌else◌,
  arith,
}
use showup.Prelude.Int.{ℤ, pos, ◌*ℤ◌, quotient, ◌-ℤ◌}
use showup.Prelude.Outcome.{returned}
use showup.Bond.Types.{Config, Event, Reservation, locked, attended}
use showup.Bond.Host.{Invocation}
use showup.Bond.Entry.{
  State, NewEvent, event_of, reservation_of, construct, create_event, reserve, cancel_reservation,
  check_in, cancel_event, claim_cancelled_event_refund, settle_no_show,
}
use showup.Bond.Runs.{
  Operation, create, reserve_seat, check_in_seat, settle_seat, cancel_meeting, perform, invoke,
  IsDeployed, Reach, deployed, invoked,
}
use showup.Bond.Invariant.{Inv}
use showup.Bond.Invariant.Reached.{Reach-Inv}
use showup.Bond.Sample.{Memory, memory, memory-IsStorage, Accounts, accounts, accounts-IsToken}

abbrev pub bytes : String → ℕ
bytes s = 5

abbrev pub here : String
here = "contract"

abbrev pub by : String → ℕ → Invocation
by who now = record { authorized = str_eq who; timestamp = now }

abbrev pub settings : Config
settings = record { token = "usdc"; community_pool = "pool" }

abbrev pub blank : Memory
blank = record { config = none; count = none; event = λ j. none; reservation = λ j q. none }

abbrev pub meetup : NewEvent
meetup = record {
  organizer = "olga";
  title = "Rust";
  venue = "Hall";
  bond_amount = pos 33;
  capacity = 2;
  start_time = 110;
  checkin_start = 100;
  checkin_deadline = 200;
  cancellation_deadline = 90;
  organizer_bps = 8000;
  community_bps = 2000;
  bond_i128 = omega arith;
  capacity_u32 = omega arith;
  start_u64 = omega arith;
  checkin_start_u64 = omega arith;
  deadline_u64 = omega arith;
  cancellation_u64 = omega arith;
  organizer_u32 = omega arith;
  community_u32 = omega arith;
}

abbrev pub World : Type 0
World = State Memory Accounts

abbrev pub start : World
start = record {
  store = construct memory settings blank;
  ledger = λ x. if str_eq x here then 0 else 100;
  published = [];
}

abbrev pub step : Invocation → Operation → World → World
step = invoke memory accounts here bytes

abbrev pub announced : World
announced = step (by "olga" 10) (create meetup) start

abbrev pub one_guest : World
one_guest = step (by "anna" 20) (reserve_seat 1 "anna") announced

abbrev pub two_guests : World
two_guests = step (by "bert" 30) (reserve_seat 1 "bert") one_guest

abbrev pub attended_one : World
attended_one = step (by "olga" 150) (check_in_seat 1 "anna") two_guests

abbrev pub all_closed : World
all_closed = step (by "olga" 201) (settle_seat 1 "bert") attended_one

balances :
    (all_closed.ledger "anna" ≡ 100)
    × (all_closed.ledger "bert" ≡ 67)
    × (all_closed.ledger "olga" ≡ 126)
    × (all_closed.ledger "pool" ≡ 107)
    × (all_closed.ledger here ≡ 0)
unfolding invoke perform create_event reserve check_in settle_no_show construct ◌*ℤ◌ quotient ◌-ℤ◌
balances = (refl, refl, refl, refl, refl)

start-IsDeployed : IsDeployed memory accounts here bytes start
unfolding construct
start-IsDeployed = record {
  blank = blank;
  config = settings;
  no_event = λ j. refl;
  no_reservation = λ j q. refl;
  stored = refl;
  nothing_published = refl;
}

pub two_guests-Reach : Reach memory accounts here bytes two_guests
two_guests-Reach =
    invoked (by "bert" 30) (reserve_seat 1 "bert")
      (invoked (by "anna" 20) (reserve_seat 1 "anna")
        (invoked (by "olga" 10) (create meetup) (deployed start-IsDeployed) refl refl) refl refl)
      refl refl

pub attended_one-Reach : Reach memory accounts here bytes attended_one
attended_one-Reach = invoked (by "olga" 150) (check_in_seat 1 "anna") two_guests-Reach refl refl

Reach-Inv_example : Inv memory accounts here two_guests
Reach-Inv_example =
    Reach-Inv memory accounts here bytes memory-IsStorage accounts-IsToken two_guests
      two_guests-Reach

-- The states that the other examples start from.
pub two_guests-Inv : Inv memory accounts here two_guests
two_guests-Inv =
    Reach-Inv memory accounts here bytes memory-IsStorage accounts-IsToken two_guests
      two_guests-Reach

pub attended_one-Inv : Inv memory accounts here attended_one
attended_one-Inv =
    Reach-Inv memory accounts here bytes memory-IsStorage accounts-IsToken attended_one
      attended_one-Reach

-- What is stored then.
abbrev pub meeting : Event
meeting = record (event_of meetup 1) { reserved_count = 2 }

abbrev pub annas : Reservation
annas = reservation_of 1 "anna" meeting 20

abbrev pub berts : Reservation
berts = reservation_of 1 "bert" meeting 30

pub meeting_stored :
    (memory.read_event two_guests.store 1 ≡ some meeting)
    × (memory.read_event attended_one.store 1 ≡ some meeting)
unfolding invoke perform create_event reserve check_in construct
meeting_stored = (refl, refl)

pub seats_stored :
    (memory.read_reservation two_guests.store 1 "anna" ≡ some annas)
    × (memory.read_reservation two_guests.store 1 "bert" ≡ some berts)
    × (memory.read_reservation attended_one.store 1 "anna"
        ≡ some (record annas { status = attended }))
unfolding invoke perform create_event reserve check_in construct
seats_stored = (refl, refl, refl)

pub configured :
    (memory.read_config two_guests.store ≡ some settings)
    × (memory.read_config attended_one.store ≡ some settings)
unfolding invoke perform create_event reserve check_in construct
configured = (refl, refl)
