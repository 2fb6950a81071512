-- ===== src/Bond/Lifecycle/Final.antt =====
-- A closed reservation is final.
use showup.Prelude.{
  ℕ, String, false, ◌&&◌, Option, List, [], ◌∷◌, some, ◌≡◌, ◌≢◌, inl, inr, refl, ◌∙◌, arith, eq_iff,
  str_eq, ◌==◌, Bool-cases,
}
use showup.Bond.Types.{Event, Reservation, locked}
use showup.Bond.Host.{HostStorage, IsStorage, Token, IsToken, Invocation}
use showup.Bond.Entry.{State}
use showup.Bond.Runs.{Operation, invoke}
use showup.Bond.Invariant.{Inv}
use showup.Bond.Invariant.Reached.{invoke-Inv}
use showup.Bond.Lifecycle.{Reservations, put, Step, stays, locks, closes}
use showup.Bond.Lifecycle.Steps.{invoke-Step}

put-other :
    (id j : ℕ) (p q : String) (r : Reservation) (rs : Reservations)
    → (id == j && str_eq p q) ≡ false
    → put id p r rs j q ≡ rs j q
put-other id j p q r rs other = rw other refl

-- No step touches a reservation that is not locked.
Step-closed :
    (env : Invocation) (events : ℕ → Option Event) (rs rs' : Reservations) (j : ℕ) (q : String)
    (x : Reservation)
    → Step env events rs rs'
    → rs j q ≡ some x
    → x.status ≢ locked
    → rs' j q ≡ some x
Step-closed env events rs rs' j q x (stays same) found closed = same j q ∙ found
Step-closed env events rs rs' j q x (locks id p e _ free _ _ _ _ after) found closed =
    elim (Bool-cases (id == j && str_eq p q)) [
      | inl here ↦ absurd (ground (arith, eq_iff p q, free, found))
      | inr there ↦ after j q ∙ put-other id j p q _ rs there ∙ found
    ]
Step-closed env events rs rs' j q x (closes id p e r end _ of was_locked _ after) found closed =
    elim (Bool-cases (id == j && str_eq p q)) [
      | inl here ↦ absurd (ground (arith, eq_iff p q, of, found, was_locked, closed))
      | inr there ↦ after j q ∙ put-other id j p q _ rs there ∙ found
    ]

module _ {S T : Type 0} (h : HostStorage S) (t : Token T) (self : String)
    (byte_length : String → ℕ) where
  -- A sequence of invocations, each with its operation.
  unfoldable pub invoke_all : List (Invocation × Operation) → State S T → State S T
  invoke_all [] s = s
  invoke_all ((env, op) ∷ calls) s = invoke_all calls (invoke h t self byte_length env op s)

  -- The contract authorizes none of the invocations.
  abbrev pub NoneBySelf : List (Invocation × Operation) → Type 0
  NoneBySelf [] = Unit
  NoneBySelf ((env, op) ∷ calls) = (env.authorized self ≡ false) × NoneBySelf calls

  -- Where the invariant holds, a reservation that is no longer locked stays exactly as it is through
  -- every sequence of invocations of any operations that the contract does not authorize itself.
  pub closed_for_good :
      IsStorage h
      → IsToken t
      → (calls : List (Invocation × Operation)) (s : State S T) (id : ℕ) (p : String)
        (r : Reservation)
      → NoneBySelf calls
      → Inv h t self s
      → h.read_reservation s.store id p ≡ some r
      → r.status ≢ locked
      → h.read_reservation (invoke_all calls s).store id p ≡ some r
  unfolding invoke_all
  closed_for_good laws token [] s id p r no_self inv found closed = found
  closed_for_good laws token ((env, op) ∷ calls) s id p r (no_self, more) inv found closed =
      closed_for_good laws token calls (invoke h t self byte_length env op s) id p r more
        (invoke-Inv h t self byte_length laws token env op s no_self inv)
        (Step-closed env (h.read_event s.store) (h.read_reservation s.store) _ id p r
          (invoke-Step h t self byte_length laws token env op s no_self inv) found closed)
        closed
