-- ===== src/Domain/ReservationResults.antt =====
-- apps/web/lib/domain/reservation-results.ts: the readable reservations out of settled reads.
use showup.Prelude.{
  ℕ, zero, suc, ◌+◌, ◌≡◌, refl, Option, none, some, List, [], ◌∷◌, ◌++◌, arith, get_elem?, drop,
  inl, inr, ◌⊎◌, ◌∙◌, sym,
}
use mathlib.Core.List.{append_assoc, append-nil}
use showup.Domain.Types.{EventView, ReservationView}

-- `PromiseSettledResult<ReservationView | null>`.
pub data Settled : Type 0 where
  fulfilled : Option ReservationView → Settled
  rejected : Settled

-- `ReadableReservation`.
pub record ReadableReservation : Type 0 where
  pub event : EventView
  pub reservation : ReservationView

pub record Collected : Type 0 where
  pub items : List ReadableReservation
  pub unreadable : ℕ

-- The body of the `forEach`: one event and `results[index]`, which may be missing.
abbrev pub collect_one : EventView → Option Settled → Collected → Collected
collect_one event none c = record c { unreadable = c.unreadable + 1 }
collect_one event (some rejected) c = record c { unreadable = c.unreadable + 1 }
collect_one event (some (fulfilled none)) c = c
collect_one event (some (fulfilled (some r))) c = record c {
  items = c.items ++ (record { event = event; reservation = r } ∷ []);
}

-- The loop, from an index on.
unfoldable pub collect_from : ℕ → List EventView → List Settled → Collected → Collected
collect_from index [] results c = c
collect_from index (event ∷ events) results c =
    collect_from (suc index) events results (collect_one event (get_elem? results index) c)

-- `collectReservationResults`.
unfoldable pub collect_reservation_results : List EventView → List Settled → Collected
collect_reservation_results events results =
    collect_from 0 events results (record { items = []; unreadable = 0 })

-- The same, described on the two lists side by side.
unfoldable pub readable : List EventView → List Settled → List ReadableReservation
readable [] results = []
readable (e ∷ es) [] = []
readable (e ∷ es) (fulfilled (some r) ∷ rs) = record { event = e; reservation = r } ∷ readable es rs
readable (e ∷ es) (_ ∷ rs) = readable es rs

-- How many of the events have a rejected or missing result.
unfoldable pub failures : List EventView → List Settled → ℕ
failures [] results = 0
failures (e ∷ es) [] = suc (failures es [])
failures (e ∷ es) (rejected ∷ rs) = suc (failures es rs)
failures (e ∷ es) (fulfilled _ ∷ rs) = failures es rs

drop_cases :
    (i : ℕ) (results : List Settled)
    → ((drop i results ≡ []) × (drop (suc i) results ≡ []) × (get_elem? results i ≡ none))
      ⊎ ((x : Settled) × (drop i results ≡ x ∷ drop (suc i) results)
          × (get_elem? results i ≡ some x))
drop_cases zero [] = inl (refl, refl, refl)
drop_cases (suc i) [] = inl (refl, refl, refl)
drop_cases zero (x ∷ results) = inr (x, refl, refl)
drop_cases (suc i) (x ∷ results) = drop_cases i results

-- What a run from `index` adds to `c`.
abbrev added : List EventView → List Settled → Collected → Collected
added es rs c = record {
  items = c.items ++ readable es rs;
  unreadable = c.unreadable + failures es rs;
}

added-step :
    (e : EventView) (es : List EventView) (x : Settled) (rs : List Settled) (c : Collected)
    → added es rs (collect_one e (some x) c) ≡ added (e ∷ es) (x ∷ rs) c
unfolding readable failures
added-step e es rejected rs c =
    λ i. record { items = c.items ++ readable es rs; unreadable = shift i }
  where
    shift : c.unreadable + 1 + failures es rs ≡ c.unreadable + suc (failures es rs)
    shift = omega arith
added-step e es (fulfilled none) rs c = refl
added-step e es (fulfilled (some r)) rs c = λ i. record {
  items = append_assoc c.items (record { event = e; reservation = r } ∷ []) (readable es rs) i;
  unreadable = c.unreadable + failures es rs;
}

readable-nil : (es : List EventView) → readable es [] ≡ []
unfolding readable
readable-nil [] = refl
readable-nil (e ∷ es) = refl

added-missing :
    (e : EventView) (es : List EventView) (c : Collected)
    → added es [] (collect_one e none c) ≡ added (e ∷ es) [] c
unfolding readable failures
added-missing e es c = λ i. record { items = c.items ++ readable-nil es i; unreadable = shift i }
  where
    shift : c.unreadable + 1 + failures es [] ≡ c.unreadable + suc (failures es [])
    shift = omega arith

collect_from-added :
    (index : ℕ) (es : List EventView) (results : List Settled) (c : Collected)
    → collect_from index es results c ≡ added es (drop index results) c
unfolding collect_from
collect_from-added index [] results c =
    unfold readable failures in
    λ i. record { items = sym (append-nil c.items) i; unreadable = same i }
  where
    same : c.unreadable ≡ c.unreadable + failures [] (drop index results)
    same = unfold failures in omega arith
collect_from-added index (e ∷ es) results c = elim (drop_cases index results) [
  | inl (here, later, lookup) ↦
      rw (lookup, here)
        (collect_from-added (suc index) es results (collect_one e none c)
          ∙ rw later (added-missing e es c))
  | inr (x, here, lookup) ↦
      rw (lookup, here)
        (collect_from-added (suc index) es results (collect_one e (some x) c)
          ∙ added-step e es x (drop (suc index) results) c)
]

-- The loop by index pairs each event with its own result: the readable reservations are returned in
-- the order of the events, and the rejected and missing results are counted.
pub collect_reservation_results_lem :
    (events : List EventView) (results : List Settled)
    → collect_reservation_results events results
      ≡ record { items = readable events results; unreadable = failures events results }
unfolding collect_reservation_results
collect_reservation_results_lem events results =
    collect_from-added 0 events results (record { items = []; unreadable = 0 })
    ∙ (λ i. record { items = readable events results; unreadable = same i })
  where
    same : 0 + failures events results ≡ failures events results
    same = omega arith
