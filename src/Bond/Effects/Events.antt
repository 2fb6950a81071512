-- ===== src/Bond/Effects/Events.antt =====
-- What `create_event` and `cancel_event` have found and done, when they have returned.
use showup.Prelude.{
  Option-cases, inl, inr, ℕ, ◌+◌, ◌≤◌, ◌<◌, ◌^◌, String, true, some, ◌∷◌, ◌≡◌, arith,
}
use showup.Prelude.Int.{pos, ◌<ℤ◌}
use showup.Prelude.Outcome.{returned}
use showup.Bond.Types.{EventStatus, active, Event, Published, event_created}
use showup.Bond.Host.{HostStorage, Token, Invocation}
use showup.Bond.Entry.{State, NewEvent, event_of, cancel_event, create_event}

module _ {S T : Type 0} (h : HostStorage S) (t : Token T) (self : String) (byte_length : String → ℕ)
    (env : Invocation) where
  -- `cancel_event` cancelled an active event, and did nothing else.
  pub record EventCancelled (id : ℕ) (s s' : State S T) : Type 0 where
    pub event : Event
    pub of_event : h.read_event s.store id ≡ some event
    pub authorized : env.authorized event.organizer ≡ true
    pub is_active : event.status ≡ active
    pub stored :
        s'.store ≡ h.write_event s.store event.id (record event { status = EventStatus.cancelled })
    pub unpaid : s'.ledger ≡ s.ledger
    pub logged : s'.published ≡ Published.event_cancelled id event.organizer ∷ s.published

  pub cancel_event-EventCancelled :
      (id : ℕ) (s s' : State S T)
      → cancel_event h t self byte_length env id s ≡ returned s'
      → EventCancelled id s s'
  unfolding cancel_event
  cancel_event-EventCancelled id s s' e = elim (Option-cases (h.read_event s.store id)) [
    | inl missing ↦ absurd (ground arith)
    | inr (event, of_event) ↦ record {
      event = event;
      of_event = of_event;
      authorized = ground arith;
      is_active = ground arith;
      stored = ground arith;
      unpaid = ground arith;
      logged = ground arith;
    }
  ]

  -- `create_event` stored an active event with no seat taken, under the next id.
  pub record Created (new : NewEvent) (s s' : State S T) (id : ℕ) : Type 0 where
    pub count : ℕ
    pub authorized : env.authorized new.organizer ≡ true
    pub counted : h.read_count s.store ≡ some count
    pub next_id : id ≡ count + 1
    pub id_fits : id < 2 ^ 64
    pub bond_positive : pos 0 <ℤ new.bond_amount
    pub has_capacity : 0 < new.capacity
    pub all_shared : new.organizer_bps + new.community_bps ≡ 10000
    pub scheduled :
        (new.cancellation_deadline ≤ new.checkin_start)
        × (new.checkin_start ≤ new.start_time)
        × (new.start_time ≤ new.checkin_deadline)
    pub stored : s'.store ≡ h.write_event (h.write_count s.store id) id (event_of new id)
    pub unpaid : s'.ledger ≡ s.ledger
    pub logged :
        s'.published ≡ event_created id new.organizer new.bond_amount new.capacity ∷ s.published

  -- When `create_event` returns, the organizer authorized it, the bond is positive, there is a seat, the
  -- shares add up to 10000 without overflow, the times are in order, and an active event with no seat
  -- taken lies under the next id, which fits 64 bits; the ledger did not move.
  pub create_event-Created :
      (new : NewEvent) (s s' : State S T) (id : ℕ)
      → create_event h t self byte_length env new s ≡ returned (s', id)
      → Created new s s' id
  unfolding create_event
  create_event-Created new s s' id e = elim (Option-cases (h.read_count s.store)) [
    | inl archived ↦ absurd (ground arith)
    | inr (count, counted) ↦ record {
      count = count;
      authorized = ground arith;
      counted = counted;
      next_id = ground arith;
      id_fits = ground arith;
      bond_positive = ground arith;
      has_capacity = ground arith;
      all_shared = ground arith;
      scheduled = ground arith;
      stored = ground arith;
      unpaid = ground arith;
      logged = ground arith;
    }
  ]
