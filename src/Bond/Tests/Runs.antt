-- ===== src/Bond/Tests/Runs.antt =====
-- Steps, final reservations and payments in the runs of the meeting.
use showup.Prelude.{◌+◌, String, some, List, [], ◌∷◌, ◌≡◌, inl, refl, arith}
use showup.Prelude.Int.{pos, above, ◌*ℤ◌, quotient, ◌-ℤ◌}
use showup.Prelude.Outcome.{returned}
use showup.Bond.Types.{attended}
use showup.Bond.Entry.{create_event, reserve, check_in, settle_no_show, construct}
use showup.Bond.Host.{Invocation}
use showup.Bond.Runs.{Operation, check_in_seat, cancel_meeting, claim_refund, invoke, perform}
use showup.Bond.Lifecycle.Steps.{StepOf, invoke-Step}
use showup.Bond.Lifecycle.Final.{invoke_all, closed_for_good}
use showup.Bond.Payments.{at, release_pays, settle_no_show-pays}
use showup.Bond.Sample.{memory, memory-IsStorage, accounts, accounts-IsToken}
use showup.Bond.Tests.{
  bytes, here, by, settings, start, meetup, announced, two_guests, attended_one, all_closed,
  meeting, annas, berts, two_guests-Inv, attended_one-Inv, meeting_stored, seats_stored, configured,
}
use showup.Domain.Amounts.{split_by_bps, Legs}

invoke-Step_example :
    StepOf memory
      (by "olga" 150)
      two_guests
      (invoke memory accounts here bytes (by "olga" 150) (check_in_seat 1 "anna") two_guests)
invoke-Step_example =
    invoke-Step memory accounts here bytes memory-IsStorage accounts-IsToken (by "olga" 150)
      (check_in_seat 1 "anna") two_guests refl two_guests-Inv

-- The organizer cancels, and a guest who was there tries to take the bond again.
abbrev more : List (Invocation × Operation)
more = (by "olga" 160, cancel_meeting 1) ∷ (by "anna" 170, claim_refund 1 "anna") ∷ []

closed_for_good_example :
    memory.read_reservation (invoke_all memory accounts here bytes more attended_one).store 1 "anna"
    ≡ some (record annas { status = attended })
closed_for_good_example =
    closed_for_good memory accounts here bytes memory-IsStorage accounts-IsToken more attended_one 1
      "anna" (record annas { status = attended }) (refl, (refl, tt)) attended_one-Inv
      (seats_stored.2) (λ e. absurd (ground arith))

announcing :
    create_event memory accounts here bytes (by "olga" 10) meetup start ≡ returned (announced, 1)
unfolding invoke perform create_event construct
announcing = refl

checking_in :
    check_in memory accounts here bytes (by "olga" 150) 1 "anna" two_guests ≡ returned attended_one
unfolding invoke perform create_event reserve check_in construct
checking_in = refl

release_pays_example :
    attended_one.ledger "anna" + at here "anna" 33 ≡ two_guests.ledger "anna" + at "anna" "anna" 33
release_pays_example =
    release_pays memory accounts here bytes memory-IsStorage accounts-IsToken (by "olga" 150)
      two_guests attended_one two_guests-Inv 1 "anna" annas (seats_stored.0) (inl checking_in)
      "anna"

settling :
    settle_no_show memory accounts here bytes (by "olga" 201) 1 "bert" attended_one
    ≡ returned all_closed
unfolding invoke perform create_event reserve check_in settle_no_show construct ◌*ℤ◌ quotient ◌-ℤ◌
settling = refl

berts_seat : memory.read_reservation attended_one.store 1 "bert" ≡ some berts
unfolding invoke perform create_event reserve check_in construct
berts_seat = refl

settle_no_show-pays_example :
    (legs : Legs) × (split_by_bps (pos 33) (pos 8000) ≡ returned legs)
    × (above legs.organizer + above legs.community ≡ 33)
    × ((x : String)
        → all_closed.ledger x + at here x 33
          ≡ attended_one.ledger x
            + at "olga" x (above legs.organizer)
            + at "pool" x (above legs.community))
settle_no_show-pays_example =
    settle_no_show-pays memory accounts here bytes memory-IsStorage accounts-IsToken (by "olga" 201)
      attended_one all_closed attended_one-Inv 1 "bert" berts berts_seat meeting settings
      (meeting_stored.1) (configured.1) settling
