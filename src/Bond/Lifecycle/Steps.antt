-- ===== src/Bond/Lifecycle/Steps.antt =====
-- Every invocation is a step in the life of the reservations.
use showup.Prelude.{ℕ, String, false, ◌≡◌, inl, inr, refl, arith}
use showup.Prelude.Outcome.{returned, Outcome-cases}
use showup.Bond.Types.{Event, ReservationStatus, Reservation}
use showup.Bond.Host.{HostStorage, IsStorage, Token, IsToken, Invocation}
use showup.Bond.Entry.{State, create_event}
use showup.Bond.Effects.Seats.{reserve-Reserved, cancel_reservation-SeatCancelled}
use showup.Bond.Effects.Releases.{check_in-CheckedIn, claim_cancelled_event_refund-Claimed}
use showup.Bond.Effects.Settlement.{settle_no_show-Settled}
use showup.Bond.Effects.Events.{cancel_event-EventCancelled, create_event-Created}
use showup.Bond.Runs.{
  Operation, create, reserve_seat, cancel_seat, check_in_seat, cancel_meeting, claim_refund,
  settle_seat, perform, invoke,
}
use showup.Bond.Invariant.{Inv}
use showup.Bond.Invariant.Closing.{Closed}
use showup.Bond.Invariant.Listing.{created-same}
use showup.Bond.Invariant.Seating
use showup.Bond.Invariant.Paying.{
  CheckedIn-Closed, Claimed-Closed, SeatCancelled-Closed, Settled-Closed,
}
use showup.Bond.Lifecycle.{Permitted, Step, stays, locks, closes}

-- What an invocation does to the reservations of a state.
abbrev pub StepOf : {S T : Type 0} → HostStorage S → Invocation → State S T → State S T → Type 0
StepOf h env s s' =
    Step env (h.read_event s.store) (h.read_reservation s.store) (h.read_reservation s'.store)

module _ {S T : Type 0} (h : HostStorage S) (t : Token T) (self : String) (byte_length : String → ℕ)
    (laws : IsStorage h) (token : IsToken t) where
  Closed-Step :
      (env : Invocation) (s s' : State S T) (id : ℕ) (p : String) (r : Reservation) (e : Event)
      (end : ReservationStatus) (count : ℕ)
      → Closed h t self s s' id p r e end count
      → Permitted env e p end
      → StepOf h env s s'
  Closed-Step env s s' id p r e end count c permitted =
      closes id p e r end c.of_event c.found c.was_locked permitted c.reservations

  perform-Step :
      (env : Invocation) (op : Operation) (s s' : State S T)
      → env.authorized self ≡ false
      → perform h t self byte_length env op s ≡ returned s'
      → Inv h t self s
      → StepOf h env s s'
  unfolding perform
  perform-Step env (create new) s s' no_self e inv =
      elim (Outcome-cases (create_event h t self byte_length env new s)) [
        | inl ((s2, id), e2) ↦
            let same : s2 ≡ s' = ground arith in
            let c = create_event-Created h t self byte_length env new s s2 id e2 in
            stays (λ j q.
              rw (← same)
                ((created-same h t self laws byte_length env new s s2 id c inv).reservations j q))
        | inr (x, failed) ↦ absurd (ground arith)
      ]
  perform-Step env (reserve_seat id p) s s' no_self e inv =
      let c = reserve-Reserved h t self byte_length env id p s s' e in
      locks id p c.event c.found c.is_new c.authorized c.is_active c.open_still c.has_room
        (Seating.reservations h t self laws token byte_length env no_self id p s s' c inv)
  perform-Step env (cancel_seat id p) s s' no_self e inv =
      let c = cancel_reservation-SeatCancelled h t self byte_length env id p s s' e in
      Closed-Step env s s' id p _ _ _ _
        (SeatCancelled-Closed h t self laws token byte_length env id p s s' inv c)
        (c.authorized, c.is_active, c.in_time)
  perform-Step env (check_in_seat id p) s s' no_self e inv =
      let c = check_in-CheckedIn h t self byte_length env id p s s' e in
      Closed-Step env s s' id p _ _ _ _
        (CheckedIn-Closed h t self laws token byte_length env id p s s' inv c)
        (c.authorized, c.is_active, c.opened, c.in_time)
  perform-Step env (cancel_meeting id) s s' no_self e inv =
      let c = cancel_event-EventCancelled h t self byte_length env id s s' e in
      stays (λ j q. rw c.stored (laws.reservation_after_event s.store c.event.id _ j q))
  perform-Step env (claim_refund id p) s s' no_self e inv =
      let c = claim_cancelled_event_refund-Claimed h t self byte_length env id p s s' e in
      Closed-Step env s s' id p _ _ _ _
        (Claimed-Closed h t self laws token byte_length env id p s s' inv c) c.is_cancelled
  perform-Step env (settle_seat id p) s s' no_self e inv =
      let c = settle_no_show-Settled h t self byte_length env id p s s' e in
      Closed-Step env s s' id p _ _ _ _
        (Settled-Closed h t self laws token byte_length env id p s s' inv c)
        (c.is_active, c.too_late)

  -- Where the invariant holds and the contract authorizes nothing itself, an invocation of any operation
  -- is one step in the life of the reservations: none changes; or a missing one is locked, of an active
  -- event with a free seat before its deadline, by its participant; or a locked one is closed under a
  -- status that `Permitted` allows to this invocation, for this event and at this time. No other
  -- reservation changes.
  pub invoke-Step :
      (env : Invocation) (op : Operation) (s : State S T)
      → env.authorized self ≡ false
      → Inv h t self s
      → StepOf h env s (invoke h t self byte_length env op s)
  unfolding invoke
  invoke-Step env op s no_self inv = elim (Outcome-cases (perform h t self byte_length env op s)) [
    | inl (s', e) ↦ rw e (perform-Step env op s s' no_self e inv)
    | inr (x, e) ↦ rw e (stays (λ j q. refl))
  ]
