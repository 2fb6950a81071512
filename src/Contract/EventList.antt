-- ===== src/Contract/EventList.antt =====
-- `listEvents` of apps/web/lib/contract/index.ts: the newest events, missing ones left out.
pub mod Laws
mod Tests
use showup.Prelude.{
  ℕ, zero, suc, ◌+◌, ◌-◌, ◌≤◌, ◌<◌, Bool, true, false, Option, none, some, List, [], ◌∷◌, ◌≡◌, ◌≢◌,
  ◌⊎◌, inl, inr, refl, arith, map, ltb, leb, ◌==◌, if◌then◌else◌, length, get_elem?, All,
}
use showup.Prelude.Int.{ℤ, pos, negsuc}
use showup.Prelude.Outcome.{Outcome, returned, thrown, ◌>>=◌}
use showup.Domain.Types.{EventView}
use showup.Contract.Calls.{Failure, contract_error}

-- A `limit` that is a number: finite, with its `Math.floor`, or not.
pub data Limit : Type 0 where
  finite : ℤ → Limit
  not_finite : Limit

-- `Math.max(0, Math.min(Math.floor(limit), count))`.
abbrev clamp : ℤ → ℕ → ℕ
clamp (pos n) count = if ltb n count then n else count
clamp (negsuc n) count = 0

-- How many events are taken.
abbrev pub take_of : Option Limit → ℕ → ℕ
take_of none count = count
take_of (some not_finite) count = count
take_of (some (finite n)) count = clamp n count

-- `take` ids from `count` downwards; the loop's `id > count - take` ends it after `take` rounds.
abbrev pub ids_from : ℕ → ℕ → List ℕ
ids_from count zero = []
ids_from count (suc take) = count ∷ ids_from (count - 1) take

-- `isNotFound`, and the `catch` of one read.
abbrev pub missing_or_throw : Failure → Outcome Failure (Option EventView)
missing_or_throw (contract_error code) =
    if code == 1 then returned none else thrown (contract_error code)
missing_or_throw e = thrown e

abbrev pub read_or_missing : Outcome Failure EventView → Outcome Failure (Option EventView)
read_or_missing (returned v) = returned (some v)
read_or_missing (thrown e) = missing_or_throw e

-- The filter at the end.
abbrev pub present : List (Option EventView) → List EventView
present [] = []
present (none ∷ vs) = present vs
present (some v ∷ vs) = v ∷ present vs

-- `promise_all` is `Promise.all`, and `get_event` what `getEvent` gives for an id.
module _
    (promise_all : List (Outcome Failure (Option EventView))
      → Outcome Failure (List (Option EventView)))
    (get_event : ℕ → Outcome Failure EventView) where
  -- Behind the count.
  unfoldable pub list_counted : Option Limit → ℕ → Outcome Failure (List EventView)
  list_counted limit count =
      if count == 0
      then returned []
      else if take_of limit count == 0
      then returned []
      else promise_all
          (map (λ id. read_or_missing (get_event id)) (ids_from count (take_of limit count)))
        >>= λ settled. returned (present settled)

  -- `listEvents`.
  unfoldable pub list_events : Outcome Failure ℕ → Option Limit → Outcome Failure (List EventView)
  list_events event_count limit = event_count >>= λ count. list_counted limit count
