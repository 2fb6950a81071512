-- ===== src/Bond/Invariant/Opening.antt =====
-- The invariant of a contract just deployed, and when no reservation and no seat changes.
use showup.Prelude.{
  ℕ, ◌+◌, ◌≤◌, String, Option, none, some, List, [], ◌∷◌, ◌≡◌, refl, sym, ap, ◌∙◌, arith, ◌==◌,
  if◌then◌else◌,
}
use showup.Bond.Types.{Event, Reservation}
use showup.Bond.Host.{HostStorage, IsStorage, Token}
use showup.Bond.Entry.{State, construct}
use showup.Bond.Runs.{Seat, seat, seats_of, IsDeployed}
use showup.Bond.Sums.{weigh}
use showup.Bond.Invariant.{held_for, taken_by, held, taken, IsStored, Inv}

pub none-some : {A : Type 0} (a : A) → ¬ (none ≡ some a)
none-some a e = cc

module _ {S T : Type 0} (h : HostStorage S) (t : Token T) (self : String) where
  -- Two states with the same reservations and seats.
  pub record SameSeats (s s' : State S T) : Type 0 where
    pub reservations :
        (j : ℕ) (q : String) → h.read_reservation s'.store j q ≡ h.read_reservation s.store j q
    pub seats : seats_of s'.published ≡ seats_of s.published
    pub balance : t.balance s.ledger self ≤ t.balance s'.ledger self

  module _ (s s' : State S T) (same : SameSeats s s') where
    pub weigh-held :
        (ks : List Seat) → weigh (held h t self s'.store) ks ≡ weigh (held h t self s.store) ks
    weigh-held [] = refl
    weigh-held (seat j q ∷ ks) = omega (arith, weigh-held ks, ap held_for (same.reservations j q))

    pub weigh-taken :
        (i : ℕ) (ks : List Seat)
        → weigh (taken h t self s'.store i) ks ≡ weigh (taken h t self s.store i) ks
    weigh-taken i [] = refl
    weigh-taken i (seat j q ∷ ks) = omega (
      arith,
      weigh-taken i ks,
      ap (λ (o : Option Reservation). if i == j then taken_by o else 0) (same.reservations j q),
    )

    pub stored-same :
        (id : ℕ) (e f : Event)
        → IsStored h t self s id e
        → f.id ≡ e.id
        → f.bond_amount ≡ e.bond_amount
        → f.organizer_bps + f.community_bps ≡ e.organizer_bps + e.community_bps
        → f.reserved_count ≡ e.reserved_count
        → f.capacity ≡ e.capacity
        → IsStored h t self s' id f
    stored-same id e f i same_id bond shares count capacity = record {
      under_its_id = same_id ∙ i.under_its_id;
      bond_positive = rw bond i.bond_positive;
      all_shared = shares ∙ i.all_shared;
      seats_counted =
          rw same.seats (count ∙ i.seats_counted ∙ sym (weigh-taken id (seats_of s.published)));
      within_capacity = omega (arith, i.within_capacity, count, capacity);
    }

    -- Where the events are as they were, so is the invariant.
    pub SameSeats-Inv :
        ((j : ℕ) → h.read_event s'.store j ≡ h.read_event s.store j)
        → h.read_count s'.store ≡ h.read_count s.store
        → Inv h t self s
        → Inv h t self s'
    SameSeats-Inv events count inv = record {
      distinct = rw same.seats inv.distinct;
      solvent =
          rw same.seats
            (omega (arith, weigh-held (seats_of s.published), inv.solvent, same.balance));
      has_reservation = λ j q m.
          let (x, found) = inv.has_reservation j q (rw same.seats at m) in
          (x, same.reservations j q ∙ found);
      has_event =
          λ j q m. let (f, found) = inv.has_event j q (rw same.seats at m) in (f, events j ∙ found);
      reservation_known = λ j q x found.
          rw same.seats (inv.reservation_known j q x (sym (same.reservations j q) ∙ found));
      event_stored = λ j f found.
          stored-same j f f (inv.event_stored j f (sym (events j) ∙ found)) refl refl refl refl
            refl;
      ids_counted = λ j n f counted found.
          inv.ids_counted j n f (sym count ∙ counted) (sym (events j) ∙ found);
    }

  -- A contract that was just deployed has nothing stored.
  pub deployed-Inv :
      IsStorage h
      → (byte_length : String → ℕ) (s : State S T) → IsDeployed h t self byte_length s
      → Inv h t self s
  unfolding construct
  deployed-Inv laws byte_length s d =
      let no_seat : seats_of s.published ≡ [] = ap seats_of d.nothing_published in
      let no_reservation : (j : ℕ) (q : String) → h.read_reservation s.store j q ≡ none = λ j q.
        rw
          (
            d.stored,
            laws.reservation_after_count (h.write_config d.blank d.config) 0 j q,
            laws.reservation_after_config d.blank d.config j q,
          )
          (d.no_reservation j q) in
      let no_event : (j : ℕ) → h.read_event s.store j ≡ none = λ j.
        rw
          (
            d.stored,
            laws.event_after_count (h.write_config d.blank d.config) 0 j,
            laws.event_after_config d.blank d.config j,
          )
          (d.no_event j) in
      record {
        distinct = rw no_seat tt;
        solvent = rw no_seat (omega arith);
        has_reservation = λ j q m. absurd (rw no_seat at m);
        has_event = λ j q m. absurd (rw no_seat at m);
        reservation_known = λ j q x found. absurd (none-some x (sym (no_reservation j q) ∙ found));
        event_stored = λ j f found. absurd (none-some f (sym (no_event j) ∙ found));
        ids_counted = λ j n f counted found. absurd (none-some f (sym (no_event j) ∙ found));
      }
