-- ===== src/Domain/Tests.antt =====
-- Event ids and settled reads at concrete inputs.
use showup.Prelude.{ℕ, none, some, List, [], ◌∷◌}
use showup.Prelude.Int.{pos}
use showup.Domain.Types.{EventView, active, ReservationView, locked}
use showup.Domain.ReservationResults.{Settled, fulfilled, rejected}

abbrev event : ℕ → EventView
event id = record {
  id = id;
  organizer = "GORG";
  verifier = "GORG";
  title = "Meetup";
  venue = "Istanbul";
  bond_amount = pos 250_000_000;
  capacity = 10;
  reserved_count = 1;
  start_time = 2000;
  checkin_start = 1500;
  checkin_deadline = 5000;
  cancellation_deadline = 1000;
  organizer_bps = 8000;
  community_bps = 2000;
  status = active;
}

abbrev seat : ReservationView
seat = record {
  event_id = 8;
  participant = "GPAR";
  amount = pos 250_000_000;
  reserved_at = 500;
  status = locked;
}

abbrev results : List Settled
results = fulfilled none ∷ fulfilled (some seat) ∷ rejected ∷ []
