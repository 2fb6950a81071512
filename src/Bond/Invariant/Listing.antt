-- ===== src/Bond/Invariant/Listing.antt =====
-- The invariant when an event is created or cancelled.
use showup.Prelude.{
  ℕ, ◌≤◌, String, false, some, List, [], ◌∷◌, ◌≡◌, inl, inr, refl, sym, ap, ◌∙◌, subst, arith, ◌==◌,
  ==_iff, In, if◌then◌else◌, Bool-cases,
}
use showup.Bond.Types.{Event, EventStatus}
use showup.Bond.Host.{HostStorage, IsStorage, Token, Invocation}
use showup.Bond.Entry.{State, NewEvent, event_of}
use showup.Bond.Effects.Events.{EventCancelled, Created}
use showup.Bond.Runs.{Seat, seat, seats_of}
use showup.Bond.Sums.{weigh}
use showup.Bond.Invariant.{taken, IsStored, Inv}
use showup.Bond.Invariant.Closing.{some-eq}
use showup.Bond.Invariant.Opening.{SameSeats, stored-same, weigh-held, weigh-taken}

module _ {S T : Type 0} (h : HostStorage S) (t : Token T) (self : String) (laws : IsStorage h)
    (byte_length : String → ℕ) (env : Invocation) where
  -- Cancelling an event keeps the invariant.
  pub EventCancelled-Inv :
      (id : ℕ) (s s' : State S T)
      → EventCancelled h t self byte_length env id s s'
      → Inv h t self s
      → Inv h t self s'
  EventCancelled-Inv id s s' c inv =
      let e : Event = c.event in
      let own : IsStored h t self s id e = inv.event_stored id e c.of_event in
      let e' : Event = record e { status = EventStatus.cancelled } in
      let same : SameSeats h t self s s' = record {
        reservations = λ j q. rw c.stored (laws.reservation_after_event s.store e.id e' j q);
        seats = ap seats_of c.logged;
        balance = rw c.unpaid (omega arith);
      } in
      let events : (j : ℕ)
          → h.read_event s'.store j ≡ (if id == j then some e' else h.read_event s.store j) =
        λ j. rw (c.stored, laws.event_after_event s.store e.id e' j, own.under_its_id) refl in
      let count : h.read_count s'.store ≡ h.read_count s.store =
        rw c.stored (laws.count_after_event s.store e.id e') in
      record {
        distinct = rw same.seats inv.distinct;
        solvent = rw same.seats (
            omega (
              arith,
              weigh-held h t self s s' same (seats_of s.published),
              inv.solvent,
              same.balance,
            ));
        has_reservation = λ j q m.
            let (x, found) = inv.has_reservation j q (rw same.seats at m) in
            (x, same.reservations j q ∙ found);
        has_event = λ j q m. elim (Bool-cases (id == j)) [
          | inl here ↦ (e', rw (events j, here) refl)
          | inr there ↦
              let (f, found) = inv.has_event j q (rw same.seats at m) in
              (f, rw (events j, there) found)
        ];
        reservation_known = λ j q x found.
            rw same.seats (inv.reservation_known j q x (sym (same.reservations j q) ∙ found));
        event_stored = λ j f found. elim (Bool-cases (id == j)) [
          | inl here ↦
              let at : id ≡ j = (==_iff id j).0 here in
              let is : e' ≡ f = some-eq (rw (events j, here) at found) in
              subst (λ i. IsStored h t self s' i f) at
                (subst (λ g. IsStored h t self s' id g) is
                  (stored-same h t self s s' same id e e' own refl refl refl refl refl))
          | inr there ↦
              stored-same h t self s s' same j f f
                (inv.event_stored j f (rw (events j, there) at found)) refl refl refl refl refl
        ];
        ids_counted = λ j n f counted found. elim (Bool-cases (id == j)) [
          | inl here ↦
              let le : id ≤ n = inv.ids_counted id n e (sym count ∙ counted) c.of_event in
              ground arith
          | inr there ↦ inv.ids_counted j n f (sym count ∙ counted) (rw (events j, there) at found)
        ];
      }

  module _ (new : NewEvent) (s s' : State S T) (id : ℕ)
      (c : Created h t self byte_length env new s s' id) (inv : Inv h t self s) where
    -- No event is stored under an id beyond the count.
    is_fresh : (e : Event) → ¬ (h.read_event s.store id ≡ some e)
    is_fresh e found =
        let le : id ≤ c.count = inv.ids_counted id c.count e c.counted found in
        absurd (omega (arith, c.next_id))

    other_event : (j : ℕ) (p : String) → In (seat j p) (seats_of s.published) → (id == j) ≡ false
    other_event j p m =
        let (e, found) = inv.has_event j p m in
        elim (Bool-cases (id == j)) [
          | inl here ↦ absurd (is_fresh e (rw (← (==_iff id j).0 here) at found))
          | inr there ↦ there
        ]

    none_taken :
        (ks : List Seat)
        → ((j : ℕ) (p : String) → In (seat j p) ks → (id == j) ≡ false)
        → weigh (taken h t self s.store id) ks ≡ 0
    none_taken [] other = refl
    none_taken (seat j p ∷ ks) other =
        rw (other j p (inl refl)) (omega (arith, none_taken ks (λ i q m. other i q (inr m))))

    pub created-same : SameSeats h t self s s'
    created-same = record {
      reservations = λ j q.
          rw
            (
              c.stored,
              laws.reservation_after_event (h.write_count s.store id) id (event_of new id) j q,
            )
            (laws.reservation_after_count s.store id j q);
      seats = ap seats_of c.logged;
      balance = rw c.unpaid (omega arith);
    }

    created-events :
        (j : ℕ)
        → h.read_event s'.store j
          ≡ (if id == j then some (event_of new id) else h.read_event s.store j)
    created-events j =
        rw
          (
            c.stored,
            laws.event_after_event (h.write_count s.store id) id (event_of new id) j,
            laws.event_after_count s.store id j,
          )
          refl

    created-count : h.read_count s'.store ≡ some id
    created-count =
        rw (c.stored, laws.count_after_event (h.write_count s.store id) id (event_of new id))
          (laws.count_after_count s.store id)

    created-stored : IsStored h t self s' id (event_of new id)
    created-stored = record {
      under_its_id = refl;
      bond_positive = c.bond_positive;
      all_shared = c.all_shared;
      seats_counted = rw created-same.seats (
          omega (
            arith,
            weigh-taken h t self s s' created-same id (seats_of s.published),
            none_taken (seats_of s.published) other_event,
          ));
      within_capacity = omega arith;
    }

    -- Creating an event keeps the invariant.
    pub Created-Inv : Inv h t self s'
    Created-Inv =
        let same : SameSeats h t self s s' = created-same in
        record {
          distinct = rw same.seats inv.distinct;
          solvent = rw same.seats (
              omega (
                arith,
                weigh-held h t self s s' same (seats_of s.published),
                inv.solvent,
                same.balance,
              ));
          has_reservation = λ j q m.
              let (x, found) = inv.has_reservation j q (rw same.seats at m) in
              (x, same.reservations j q ∙ found);
          has_event = λ j q m.
              let before = rw same.seats at m in
              let (f, found) = inv.has_event j q before in
              (f, rw (created-events j, other_event j q before) found);
          reservation_known = λ j q x found.
              rw same.seats (inv.reservation_known j q x (sym (same.reservations j q) ∙ found));
          event_stored = λ j f found. elim (Bool-cases (id == j)) [
            | inl here ↦
                let at : id ≡ j = (==_iff id j).0 here in
                let is : event_of new id ≡ f = some-eq (rw (created-events j, here) at found) in
                subst (λ i. IsStored h t self s' i f) at
                  (subst (λ g. IsStored h t self s' id g) is created-stored)
            | inr there ↦
                stored-same h t self s s' same j f f
                  (inv.event_stored j f (rw (created-events j, there) at found)) refl refl refl refl
                  refl
          ];
          ids_counted = λ j n f counted found.
              let at_id : id ≡ n = some-eq (sym created-count ∙ counted) in
              elim (Bool-cases (id == j)) [
                | inl here ↦ ground (arith, at_id)
                | inr there ↦ omega (
                  arith,
                  at_id,
                  c.next_id,
                  inv.ids_counted j c.count f c.counted (rw (created-events j, there) at found),
                )
              ];
        }
