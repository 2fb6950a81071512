-- ===== src/Bond/Tests/Offers.antt =====
-- What the application offers for the meeting, and that the contract accepts exactly that.
use showup.Prelude.{ℕ, Option, none, some, true, ◌≡◌, ◌↔◌, refl, arith}
use showup.Prelude.Int.{pos}
use showup.Prelude.Outcome.{returned}
use showup.Bond.Entry.{
  NewEvent, create_event, reserve, cancel_reservation, check_in, settle_no_show, construct,
  event_of,
}
use showup.Bond.Runs.{invoke, perform}
use showup.Bond.Agreement.Creating.{IsEncoded, create_event_input_iff}
use showup.Domain.Schemas.{create_event_input}
use showup.Domain.Schemas.Filled.{as_fields}
use showup.Domain.Schemas.Tests.{draft, draft_fields, bytes as four}
use showup.Bond.Agreement.{IsDecoded, reservation_view}
use showup.Bond.Agreement.Reserving.{can_reserve_iff}
use showup.Bond.Agreement.Closing.{can_cancel_reservation_iff, can_check_in_iff}
use showup.Bond.Agreement.Settling.{can_settle_no_show_iff, IsSmall}
use showup.Bond.Agreement.Due.{WayOut, bond_has_way_out}
use showup.Bond.Sample.{memory, memory-IsStorage, Accounts, accounts, accounts-IsToken}
use showup.Bond.Tests.{
  bytes, here, by, settings, World, start, announced, two_guests, meetup, meeting, annas,
  two_guests-Inv, meeting_stored, seats_stored, configured,
}
use showup.Contract.Mappers.{
  EventTag, ReservationTag, GeneratedEvent, GeneratedReservation, to_event_view,
  to_create_event_args,
}
use showup.Domain.Eligibility.{
  can_reserve, can_cancel_reservation, can_check_in, can_settle_no_show,
}

abbrev same : ℕ → ℕ
same n = n

abbrev generated : ℕ → GeneratedEvent
generated count = record {
  bond_amount = pos 33;
  cancellation_deadline = 90;
  capacity = 2;
  checkin_deadline = 200;
  checkin_start = 100;
  community_bps = 2000;
  id = 1;
  organizer = "olga";
  organizer_bps = 8000;
  reserved_count = count;
  start_time = 110;
  status = EventTag.active;
  title = "Rust";
  venue = "Hall";
  verifier = "olga";
}

abbrev annas_generated : Option GeneratedReservation
annas_generated = some (record {
  amount = pos 33;
  event_id = 1;
  participant = "anna";
  reserved_at = 20;
  status = ReservationTag.locked;
})

decoded : (n : ℕ) → IsDecoded (record (event_of meetup 1) { reserved_count = n }) (generated n)
decoded n = record {
  capacity = refl;
  reserved_count = refl;
  checkin_start = refl;
  checkin_deadline = refl;
  cancellation_deadline = refl;
  status = refl;
  checkin_start_exact = omega arith;
  checkin_deadline_exact = omega arith;
  cancellation_deadline_exact = omega arith;
}

opened :
    (memory.read_event announced.store 1 ≡ some (event_of meetup 1))
    × (memory.read_reservation announced.store 1 "anna" ≡ none)
    × (memory.read_config announced.store ≡ some settings)
unfolding invoke perform create_event construct
opened = (refl, refl, refl)

paying : (l : Accounts) × (accounts.transfer announced.ledger "anna" here (pos 33) ≡ some l)
unfolding invoke perform create_event construct
paying = (_, refl)

can_reserve_iff_example :
    (can_reserve (to_event_view same (generated 0)) (reservation_view same none) 20 ≡ true) ↔ (
      (s' : World) × (reserve memory accounts here bytes (by "anna" 20) 1 "anna" announced
        ≡ returned s'))
can_reserve_iff_example =
    can_reserve_iff memory accounts here bytes memory-IsStorage same (λ n small. refl)
      (by "anna" 20) announced 1 "anna" (event_of meetup 1) (generated 0) none settings (paying.0)
      refl (opened.0) (omega arith) (decoded 0) (rw opened.1 tt) (opened.2) (paying.1)

-- What the contract can transfer once both guests have reserved.
given_back : (l : Accounts) × (accounts.transfer two_guests.ledger here "anna" (pos 33) ≡ some l)
unfolding invoke perform create_event reserve construct
given_back = (_, refl)

split :
    (between l : Accounts) × (accounts.transfer two_guests.ledger here "olga" (pos 26)
      ≡ some between)
    × (accounts.transfer between here "pool" (pos 7) ≡ some l)
unfolding invoke perform create_event reserve construct
split = (_, _, refl, refl)

can_cancel_reservation_iff_example :
    (can_cancel_reservation
        (to_event_view same (generated 2))
        (reservation_view same annas_generated)
        80
      ≡ true)
    ↔ ((s' : World) × (cancel_reservation memory accounts here bytes
            (by "anna" 80)
            1
            "anna"
            two_guests
          ≡ returned s'))
can_cancel_reservation_iff_example =
    can_cancel_reservation_iff memory accounts here bytes memory-IsStorage same (λ n small. refl)
      (by "anna" 80) two_guests 1 "anna" meeting (generated 2) annas_generated settings
      (meeting_stored.0) (decoded 2) (rw seats_stored.0 refl) (configured.0) two_guests-Inv
      (rw seats_stored.0 given_back) refl

can_check_in_iff_example :
    (can_check_in (to_event_view same (generated 2)) (reservation_view same annas_generated) 150
      ≡ true)
    ↔ ((s' : World) × (check_in memory accounts here bytes (by "olga" 150) 1 "anna" two_guests
          ≡ returned s'))
can_check_in_iff_example =
    can_check_in_iff memory accounts here bytes memory-IsStorage same (λ n small. refl)
      (by "olga" 150) two_guests 1 "anna" meeting (generated 2) annas_generated settings
      (meeting_stored.0) (decoded 2) (rw seats_stored.0 refl) (configured.0)
      (rw seats_stored.0 given_back) refl

annas-IsSmall : IsSmall meeting (memory.read_reservation two_guests.store 1 "anna")
annas-IsSmall = rw seats_stored.0 (omega arith, omega arith)

can_settle_no_show_iff_example :
    (can_settle_no_show
        (to_event_view same (generated 2))
        (reservation_view same annas_generated)
        201
      ≡ true)
    ↔ ((s' : World) × (settle_no_show memory accounts here bytes
            (by "anyone" 201)
            1
            "anna"
            two_guests
          ≡ returned s'))
can_settle_no_show_iff_example =
    can_settle_no_show_iff memory accounts here bytes (by "anyone" 201) two_guests 1 "anna" meeting
      settings memory-IsStorage two_guests-Inv (meeting_stored.0) (configured.0) annas-IsSmall same
      (generated 2) annas_generated (λ n small. refl) (decoded 2) (rw seats_stored.0 refl)
      (rw seats_stored.0 split)

bond_has_way_out_example :
    WayOut memory accounts here bytes (by "anyone" 201) two_guests 1 "anna" meeting settings annas
bond_has_way_out_example =
    bond_has_way_out memory accounts here bytes (by "anyone" 201) two_guests 1 "anna" meeting
      settings memory-IsStorage two_guests-Inv (meeting_stored.0) (configured.0) annas-IsSmall
      accounts-IsToken annas (seats_stored.0) refl (omega arith)

abbrev drafted : NewEvent
drafted = record {
  organizer = draft.organizer;
  title = "Rust";
  venue = "Hall";
  bond_amount = draft.bond_amount;
  capacity = 20;
  start_time = 7200;
  checkin_start = 5400;
  checkin_deadline = 10800;
  cancellation_deadline = 3600;
  organizer_bps = 8000;
  community_bps = 2000;
  bond_i128 = omega arith;
  capacity_u32 = omega arith;
  start_u64 = omega arith;
  checkin_start_u64 = omega arith;
  deadline_u64 = omega arith;
  cancellation_u64 = omega arith;
  organizer_u32 = omega arith;
  community_u32 = omega arith;
}

draft-IsEncoded : IsEncoded (to_create_event_args draft) drafted
unfolding to_create_event_args
draft-IsEncoded = record {
  organizer = refl;
  title = refl;
  venue = refl;
  bond_amount = refl;
  capacity = refl;
  start_time = refl;
  checkin_start = refl;
  checkin_deadline = refl;
  cancellation_deadline = refl;
  organizer_bps = refl;
  community_bps = refl;
}

first_count : memory.read_count start.store ≡ some 0
unfolding construct
first_count = refl

create_event_input_iff_example : (create_event_input four (as_fields draft) ≡ some draft) ↔ (
    (out : World × ℕ) × (create_event memory accounts here four
        (by draft.organizer 10)
        drafted
        start
      ≡ returned out))
create_event_input_iff_example =
    create_event_input_iff four memory accounts here (by draft.organizer 10) start drafted 0
      (as_fields draft) draft draft_fields draft-IsEncoded refl first_count (omega arith)
