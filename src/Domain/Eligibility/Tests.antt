-- ===== src/Domain/Eligibility/Tests.antt =====
-- The predicates and the theorems on them at a concrete event.
use showup.Prelude.{◌≡◌, refl, true, none}
use showup.Prelude.Int.{pos}
use showup.Domain.Types.{EventView, active, ReservationView, locked, attended}
use showup.Domain.Eligibility.{can_reserve}
use showup.Domain.Eligibility.Buckets.{reservation_bucket, no_show}

abbrev meetup : EventView
meetup = record {
  id = 7;
  organizer = "GORG";
  verifier = "GORG";
  title = "Meetup";
  venue = "Istanbul";
  bond_amount = pos 250_000_000;
  capacity = 10;
  reserved_count = 1;
  start_time = 2000;
  checkin_start = 1500;
  checkin_deadline = 5000;
  cancellation_deadline = 1000;
  organizer_bps = 8000;
  community_bps = 2000;
  status = active;
}

abbrev seat : ReservationView
seat = record {
  event_id = 7;
  participant = "GPAR";
  amount = pos 250_000_000;
  reserved_at = 500;
  status = locked;
}

abbrev used_seat : ReservationView
used_seat = record seat { status = attended }

reserves_before_deadline : can_reserve meetup none 4999 ≡ true
unfolding can_reserve
reserves_before_deadline = refl

shows_no_show : reservation_bucket meetup seat 5001 ≡ no_show
unfolding reservation_bucket
shows_no_show = refl
