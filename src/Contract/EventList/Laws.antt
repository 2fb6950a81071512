-- ===== src/Contract/EventList/Laws.antt =====
-- Which events are listed, in which order, and which errors are let through.
use showup.Prelude.{
  ℕ, zero, suc, ◌-◌, ◌≤◌, false, Option, none, some, List, [], ◌∷◌, ◌≡◌, ◌⊎◌, inl, inr, refl, arith,
  map, ltb, ◌==◌, if◌then◌else◌, length, get_elem?, All, ap, ==_iff, Bool-cases,
}
use showup.Prelude.Int.{pos, negsuc}
use showup.Prelude.Outcome.{Outcome, returned, thrown, ◌>>=◌}
use showup.Domain.Types.{EventView}
use showup.Contract.Calls.{Failure, contract_error}
use showup.Contract.EventList.{
  Limit, finite, not_finite, take_of, ids_from, read_or_missing, present, list_counted, list_events,
}

-- An outcome that is an event, or that says the contract has no such event.
abbrev pub IsReadable : Outcome Failure EventView → Type 0
IsReadable o = ((v : EventView) × (o ≡ returned v)) ⊎ (o ≡ thrown (contract_error 1))

abbrev pub found_one : Outcome Failure EventView → List EventView → List EventView
found_one (returned v) rest = v ∷ rest
found_one (thrown e) rest = rest

take_of_le : (limit : Option Limit) (count : ℕ) → take_of limit count ≤ count
take_of_le none count = omega arith
take_of_le (some not_finite) count = omega arith
take_of_le (some (finite (pos n))) count = ground arith
take_of_le (some (finite (negsuc n))) count = omega arith

ids_from-length : (count take : ℕ) → length (ids_from count take) ≡ take
ids_from-length count zero = refl
ids_from-length count (suc take) = ap suc (ids_from-length (count - 1) take)

ids_from-get :
    (count take i : ℕ)
    → get_elem? (ids_from count take) i ≡ (if ltb i take then some (count - i) else none)
ids_from-get count zero i = ground arith
ids_from-get count (suc take) zero = ground arith
ids_from-get count (suc take) (suc i) = ground (arith, ids_from-get (count - 1) take i)

module _ (get_event : ℕ → Outcome Failure EventView) where
  -- The events that are there, in the order of the ids.
  abbrev pub found : List ℕ → List EventView
  found [] = []
  found (id ∷ ids) = found_one (get_event id) (found ids)

  abbrev missing : Outcome Failure EventView → Option EventView
  missing (returned v) = some v
  missing (thrown e) = none

  abbrev views : List ℕ → List (Option EventView)
  views ids = map (λ id. missing (get_event id)) ids

  read-readable :
      (o : Outcome Failure EventView) → IsReadable o → read_or_missing o ≡ returned (missing o)
  read-readable (returned v) r = refl
  read-readable (thrown e) (inl (v, h)) = cc
  read-readable (thrown e) (inr h) = ground arith

  reads :
      (ids : List ℕ)
      → All (λ id. IsReadable (get_event id)) ids
      → map (λ id. read_or_missing (get_event id)) ids ≡ map (λ v. returned v) (views ids)
  reads [] h = refl
  reads (id ∷ ids) (r, h) = λ i. read-readable (get_event id) r i ∷ reads ids h i

  present-one :
      (o : Outcome Failure EventView) (ids : List ℕ)
      → present (views ids) ≡ found ids
      → present (missing o ∷ views ids) ≡ found_one o (found ids)
  present-one (returned v) ids h = ap (λ (l : List EventView). v ∷ l) h
  present-one (thrown e) ids h = h

  present-views : (ids : List ℕ) → present (views ids) ≡ found ids
  present-views [] = refl
  present-views (id ∷ ids) = present-one (get_event id) ids (present-views ids)

  IsReadable-read :
      (o : Outcome Failure EventView) (v : Option EventView)
      → read_or_missing o ≡ returned v
      → IsReadable o
  IsReadable-read (returned w) v h = inl (w, refl)
  IsReadable-read (thrown (contract_error code)) v h = inr (ground arith)
  IsReadable-read (thrown e) v h = cc

  IsReadable-reads :
      (ids : List ℕ) (vs : List (Option EventView))
      → map (λ id. read_or_missing (get_event id)) ids ≡ map (λ v. returned v) vs
      → All (λ id. IsReadable (get_event id)) ids
  IsReadable-reads [] vs h = tt
  IsReadable-reads (id ∷ ids) [] h = cc
  IsReadable-reads (id ∷ ids) (v ∷ vs) h =
      (IsReadable-read (get_event id) v (cc), IsReadable-reads ids vs (cc))

  module _
      (promise_all : List (Outcome Failure (Option EventView))
        → Outcome Failure (List (Option EventView))) where
    -- `Promise.all` resolves with the values, in order, exactly when every promise resolves.
    abbrev pub IsPromiseAll : Type 0
    IsPromiseAll =
        ((vs : List (Option EventView)) → promise_all (map (λ v. returned v) vs) ≡ returned vs)
        × ((os : List (Outcome Failure (Option EventView))) (vs : List (Option EventView))
            → promise_all os ≡ returned vs
            → os ≡ map (λ v. returned v) vs)

    abbrev pub newest : Option Limit → ℕ → List ℕ
    newest limit count = ids_from count (take_of limit count)

    counted :
        (limit : Option Limit) (count : ℕ)
        → IsPromiseAll
        → All (λ id. IsReadable (get_event id)) (newest limit count)
        → list_counted promise_all get_event limit count ≡ returned (found (newest limit count))
    unfolding list_counted
    counted limit count (resolves, rejects) h = elim (Bool-cases (take_of limit count == 0)) [
      | inl nothing ↦
          let z : take_of limit count ≡ 0 = (==_iff (take_of limit count) 0).0 nothing in
          rw z (ground arith)
      | inr some_taken ↦
          let le : take_of limit count ≤ count = take_of_le limit count in
          let some_count : (count == 0) ≡ false = ground (arith, le) in
          let all_read : promise_all
                (map (λ id. read_or_missing (get_event id)) (newest limit count))
              ≡ returned (views (newest limit count)) =
            rw (reads (newest limit count) h) (resolves (views (newest limit count))) in
          rw (some_count, some_taken)
            (rw all_read
              (ap (λ (l : List EventView). returned l) (present-views (newest limit count))))
    ]

    -- Where every id asked for reads back or is unknown to the contract, the listing returns the events
    -- that read back, in the order of the ids count, count - 1, count - 2, …; as many ids as the limit
    -- allows, and no more than there are.
    pub list_events_lem :
        (limit : Option Limit) (count i : ℕ)
        → IsPromiseAll
        → All (λ id. IsReadable (get_event id)) (newest limit count)
        → (list_events promise_all get_event (returned count) limit
            ≡ returned (found (newest limit count)))
          × (length (newest limit count) ≡ take_of limit count)
          × (take_of limit count ≤ count)
          × (get_elem? (newest limit count) i
              ≡ (if ltb i (take_of limit count) then some (count - i) else none))
    unfolding list_events
    list_events_lem limit count i p h = (
      counted limit count p h,
      ids_from-length count (take_of limit count),
      take_of_le limit count,
      ids_from-get count (take_of limit count) i,
    )

    bound-returned :
        (o : Outcome Failure (List (Option EventView))) (events : List EventView)
        → (o >>= λ settled. returned (present settled)) ≡ returned events
        → (vs : List (Option EventView)) × (o ≡ returned vs)
    bound-returned (returned vs) events h = (vs, refl)
    bound-returned (thrown e) events h = cc

    -- A listing that returns was given every id that it asked for: each read back, or is unknown to the
    -- contract. Any other failure of a single read is not passed over.
    pub list_events_sound :
        (limit : Option Limit) (count : ℕ) (events : List EventView)
        → IsPromiseAll
        → list_events promise_all get_event (returned count) limit ≡ returned events
        → All (λ id. IsReadable (get_event id)) (newest limit count)
    unfolding list_events list_counted
    list_events_sound limit count events p h = elim (Bool-cases (take_of limit count == 0)) [
      | inl nothing ↦
          let z : take_of limit count ≡ 0 = (==_iff (take_of limit count) 0).0 nothing in rw z tt
      | inr some_taken ↦
          let some_count : (count == 0) ≡ false = ground (arith, take_of_le limit count) in
          let (vs, e) =
            bound-returned
              (promise_all (map (λ id. read_or_missing (get_event id)) (newest limit count))) events
              (rw (some_count, some_taken) at h) in
          IsReadable-reads (newest limit count) vs
            (p.1 (map (λ id. read_or_missing (get_event id)) (newest limit count)) vs e)
    ]
