-- ===== src/Bond/Invariant/Reached.antt =====
-- Every state that the contract can get to satisfies the invariant.
use showup.Prelude.{ℕ, ◌≤◌, String, false, ◌≡◌, inl, inr, refl, subst, arith}
use showup.Prelude.Outcome.{returned, Outcome-cases}
use showup.Bond.Host.{HostStorage, IsStorage, Token, IsToken, Invocation}
use showup.Bond.Entry.{State, create_event}
use showup.Bond.Effects.Seats.{reserve-Reserved, cancel_reservation-SeatCancelled}
use showup.Bond.Effects.Releases.{check_in-CheckedIn, claim_cancelled_event_refund-Claimed}
use showup.Bond.Effects.Settlement.{settle_no_show-Settled}
use showup.Bond.Effects.Events.{cancel_event-EventCancelled, create_event-Created}
use showup.Bond.Runs.{
  Operation, create, reserve_seat, cancel_seat, check_in_seat, cancel_meeting, claim_refund,
  settle_seat, perform, invoke, Reach, deployed, invoked, received,
}
use showup.Bond.Invariant.{Inv}
use showup.Bond.Invariant.Closing.{Closed-Inv}
use showup.Bond.Invariant.Opening.{SameSeats-Inv, deployed-Inv}
use showup.Bond.Invariant.Listing.{EventCancelled-Inv, Created-Inv}
use showup.Bond.Invariant.Seating.{Reserved-Inv}
use showup.Bond.Invariant.Paying.{
  CheckedIn-Closed, Claimed-Closed, SeatCancelled-Closed, Settled-Closed,
}

module _ {S T : Type 0} (h : HostStorage S) (t : Token T) (self : String) (byte_length : String → ℕ)
    (laws : IsStorage h) (token : IsToken t) where
  perform-Inv :
      (env : Invocation) (op : Operation) (s s' : State S T)
      → env.authorized self ≡ false
      → perform h t self byte_length env op s ≡ returned s'
      → Inv h t self s
      → Inv h t self s'
  unfolding perform
  perform-Inv env (create new) s s' no_self e inv =
      elim (Outcome-cases (create_event h t self byte_length env new s)) [
        | inl ((s2, id), e2) ↦
            let same : s2 ≡ s' = ground arith in
            subst (λ x. Inv h t self x) same
              (Created-Inv h t self laws byte_length env new s s2 id
                (create_event-Created h t self byte_length env new s s2 id e2) inv)
        | inr (x, failed) ↦ absurd (ground arith)
      ]
  perform-Inv env (reserve_seat id p) s s' no_self e inv =
      Reserved-Inv h t self laws token byte_length env no_self id p s s'
        (reserve-Reserved h t self byte_length env id p s s' e) inv
  perform-Inv env (cancel_seat id p) s s' no_self e inv =
      let c = cancel_reservation-SeatCancelled h t self byte_length env id p s s' e in
      Closed-Inv h t self s s' id p _ _ _ _ inv
        (SeatCancelled-Closed h t self laws token byte_length env id p s s' inv c)
  perform-Inv env (check_in_seat id p) s s' no_self e inv =
      let c = check_in-CheckedIn h t self byte_length env id p s s' e in
      Closed-Inv h t self s s' id p _ _ _ _ inv
        (CheckedIn-Closed h t self laws token byte_length env id p s s' inv c)
  perform-Inv env (cancel_meeting id) s s' no_self e inv =
      EventCancelled-Inv h t self laws byte_length env id s s'
        (cancel_event-EventCancelled h t self byte_length env id s s' e) inv
  perform-Inv env (claim_refund id p) s s' no_self e inv =
      let c = claim_cancelled_event_refund-Claimed h t self byte_length env id p s s' e in
      Closed-Inv h t self s s' id p _ _ _ _ inv
        (Claimed-Closed h t self laws token byte_length env id p s s' inv c)
  perform-Inv env (settle_seat id p) s s' no_self e inv =
      let c = settle_no_show-Settled h t self byte_length env id p s s' e in
      Closed-Inv h t self s s' id p _ _ _ _ inv
        (Settled-Closed h t self laws token byte_length env id p s s' inv c)

  -- An invocation keeps the invariant, whether it returns or aborts.
  pub invoke-Inv :
      (env : Invocation) (op : Operation) (s : State S T)
      → env.authorized self ≡ false
      → Inv h t self s
      → Inv h t self (invoke h t self byte_length env op s)
  unfolding invoke
  invoke-Inv env op s no_self inv = elim (Outcome-cases (perform h t self byte_length env op s)) [
    | inl (s', e) ↦ rw e (perform-Inv env op s s' no_self e inv)
    | inr (x, e) ↦ rw e inv
  ]

  received-Inv :
      (s : State S T) (l : T)
      → t.balance s.ledger self ≤ t.balance l self
      → Inv h t self s
      → Inv h t self (record s { ledger = l })
  received-Inv s l more inv =
      SameSeats-Inv h t self s (record s { ledger = l })
        (record { reservations = λ j q. refl; seats = refl; balance = more }) (λ j. refl) refl inv

  -- In every state that a deployed contract gets to, the invariant holds: its token balance covers the
  -- locked bonds; no seat is sold twice; every event counts exactly its reservations that were not
  -- cancelled, within its capacity, has a positive bond and shares of 10000 basis points, and lies under
  -- its own id, at most the count; and every reservation lies under its own key, with a positive amount
  -- and an event.
  pub Reach-Inv : (s : State S T) → Reach h t self byte_length s → Inv h t self s
  Reach-Inv s (deployed d) = deployed-Inv h t self laws byte_length s d
  Reach-Inv s (invoked {s = before} env op r no_self same) =
      subst (λ x. Inv h t self x) same (invoke-Inv env op before no_self (Reach-Inv before r))
  Reach-Inv s (received {s = before} l r more same) =
      subst (λ x. Inv h t self x) same (received-Inv before l more (Reach-Inv before r))
