-- ===== src/Contract/EventList/Tests.antt =====
-- Three events of which the second is missing, and the theorems on their listing.
use showup.Prelude.{
  ℕ, Option, none, some, List, [], ◌∷◌, ◌≡◌, refl, inl, inr, map, All, if◌then◌else◌, ◌==◌,
}
use showup.Prelude.Int.{pos}
use showup.Prelude.Outcome.{Outcome, returned, thrown, ◌>>=◌}
use showup.Domain.Types.{EventView, active}
use showup.Contract.Calls.{Failure, contract_error}
use showup.Contract.EventList.{finite, list_counted, list_events}
use showup.Contract.EventList.Laws.{IsReadable, found, newest, list_events_lem}

abbrev event : ℕ → EventView
event id = record {
  id = id;
  organizer = "GORG";
  verifier = "GORG";
  title = "Meetup";
  venue = "Istanbul";
  bond_amount = pos 250_000_000;
  capacity = 10;
  reserved_count = 1;
  start_time = 2000;
  checkin_start = 1500;
  checkin_deadline = 5000;
  cancellation_deadline = 1000;
  organizer_bps = 8000;
  community_bps = 2000;
  status = active;
}

abbrev get_event : ℕ → Outcome Failure EventView
get_event id = if id == 2 then thrown (contract_error 1) else returned (event id)

-- Promises that are taken in order.
abbrev promise_all :
    List (Outcome Failure (Option EventView)) → Outcome Failure (List (Option EventView))
promise_all [] = returned []
promise_all (o ∷ os) = o >>= λ v. promise_all os >>= λ vs. returned (v ∷ vs)

promise_all-values :
    (vs : List (Option EventView)) → promise_all (map (λ v. returned v) vs) ≡ returned vs
promise_all-values [] = refl
promise_all-values (v ∷ vs) = rw (promise_all-values vs)

promise_all-one :
    (o : Outcome Failure (Option EventView)) (r : Outcome Failure (List (Option EventView)))
    (vs : List (Option EventView))
    → (o >>= λ v. r >>= λ rest. returned (v ∷ rest)) ≡ returned vs
    → (v : Option EventView) × (rest : List (Option EventView)) × (o ≡ returned v)
      × (r ≡ returned rest)
      × (v ∷ rest ≡ vs)
promise_all-one (thrown e) r vs h = cc
promise_all-one (returned v) (thrown e) vs h = cc
promise_all-one (returned v) (returned rest) vs h = (v, rest, refl, refl, cc)

promise_all-settled :
    (os : List (Outcome Failure (Option EventView))) (vs : List (Option EventView))
    → promise_all os ≡ returned vs
    → os ≡ map (λ v. returned v) vs
promise_all-settled [] [] h = refl
promise_all-settled [] (v ∷ vs) h = cc
promise_all-settled (o ∷ os) vs h =
    let (v, rest, p, q, e) = promise_all-one o (promise_all os) vs h in
    rw (← e) (λ i. p i ∷ promise_all-settled os rest q i)

lists_two :
    list_events promise_all get_event (returned 3) (some (finite (pos 2))) ≡ returned (event 3 ∷ [])
unfolding list_events list_counted
lists_two = refl

three-IsReadable : All (λ id. IsReadable (get_event id)) (newest get_event promise_all none 3)
three-IsReadable = (inl (event 3, refl), (inr refl, (inl (event 1, refl), tt)))

list_events_lem_example :
    list_events promise_all get_event (returned 3) none
    ≡ returned (found get_event (newest get_event promise_all none 3))
list_events_lem_example =
    (list_events_lem get_event promise_all none 3 0 (promise_all-values, promise_all-settled)
      three-IsReadable).0
