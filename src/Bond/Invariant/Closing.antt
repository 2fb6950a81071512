-- ===== src/Bond/Invariant/Closing.antt =====
-- The invariant when a locked reservation is closed: by check-in, refund, settlement or cancellation.
use showup.Prelude.{
  ℕ, ◌+◌, ◌≤◌, String, true, false, ◌&&◌, some, List, ◌≡◌, ◌≢◌, inl, inr, refl, sym, ap, ◌∙◌, subst,
  arith, str_eq, eq_iff, ◌==◌, ==_iff, In, if◌then◌else◌, Bool-cases,
}
use showup.Prelude.Int.{pos, above, ◌<ℤ◌}
use showup.Bond.Types.{Event, Reservation, ReservationStatus, locked}
use showup.Bond.Host.{HostStorage, Token}
use showup.Bond.Entry.{State, is_locked}
use showup.Bond.Runs.{Seat, seat, seats_of}
use showup.Bond.Sums.{weigh, other_key, weigh-at}
use showup.Bond.Invariant.{is_given_up, held, taken, IsStored, Inv}

pub some-eq : {A : Type 0} {a b : A} → some a ≡ some b → a ≡ b
some-eq h = cc

module _ {S T : Type 0} (h : HostStorage S) (t : Token T) (self : String) where
  -- `s'` is `s` with the reservation `r` of `p` for the event `e` closed under the status `end`, with
  -- `count` seats taken, and with the bond paid out.
  pub record Closed (s s' : State S T) (id : ℕ) (p : String) (r : Reservation) (e : Event)
      (end : ReservationStatus) (count : ℕ) : Type 0 where
    pub found : h.read_reservation s.store id p ≡ some r
    pub was_locked : r.status ≡ locked
    pub of_event : h.read_event s.store id ≡ some e
    pub is_closed : is_locked end ≡ false
    pub reservations :
        (j : ℕ) (q : String)
        → h.read_reservation s'.store j q ≡ (
            if id == j && str_eq p q
            then some (record r { status = end })
            else h.read_reservation s.store j q)
    pub events :
        (j : ℕ)
        → h.read_event s'.store j
          ≡ (if id == j then some (record e { reserved_count = count }) else h.read_event s.store j)
    pub same_count : h.read_count s'.store ≡ h.read_count s.store
    pub same_seats : seats_of s'.published ≡ seats_of s.published
    pub seats_left : count + (if is_given_up end then 1 else 0) ≡ e.reserved_count
    pub paid : t.balance s.ledger self ≤ t.balance s'.ledger self + above r.amount

  module _ (s s' : State S T) (id : ℕ) (p : String) (r : Reservation) (e : Event)
      (end : ReservationStatus) (count : ℕ) (inv : Inv h t self s)
      (c : Closed s s' id p r e end count) where
    abbrev k : Seat
    k = seat id p

    abbrev ks : List Seat
    ks = seats_of s.published

    is_seat : In k ks
    is_seat = (inv.reservation_known id p r c.found).0

    held-same : (x : Seat) → x ≢ k → held h t self s'.store x ≡ held h t self s.store x
    held-same (seat j q) ne = rw (c.reservations j q, other_key id j p q ne) refl

    taken-same :
        (i : ℕ) (x : Seat) → x ≢ k → taken h t self s'.store i x ≡ taken h t self s.store i x
    taken-same i (seat j q) ne = rw (c.reservations j q, other_key id j p q ne) refl

    self_key : (id == id && str_eq p p) ≡ true
    self_key = ground (arith, eq_iff p p)

    held-before : held h t self s.store k ≡ above r.amount
    held-before = rw c.found (ground (arith, c.was_locked))

    held-after : held h t self s'.store k ≡ 0
    held-after = rw (c.reservations id p, self_key) (ground (arith, c.is_closed))

    solvent-after : weigh (held h t self s'.store) ks ≤ t.balance s'.ledger self
    solvent-after = omega (
      arith,
      weigh-at (held h t self s.store) (held h t self s'.store) k held-same ks inv.distinct is_seat,
      held-before,
      held-after,
      inv.solvent,
      c.paid,
    )

    taken-before : taken h t self s.store id k ≡ 1
    taken-before = ground (arith, c.found, c.was_locked)

    taken-after : taken h t self s'.store id k ≡ (if is_given_up end then 0 else 1)
    taken-after = ground (arith, c.reservations id p, eq_iff p p)

    taken-elsewhere : (store : S) (j : ℕ) → j ≢ id → taken h t self store j k ≡ 0
    taken-elsewhere store j ne = ground (arith, ne)

    taken-moves :
        (j : ℕ)
        → weigh (taken h t self s'.store j) ks + taken h t self s.store j k
          ≡ weigh (taken h t self s.store j) ks + taken h t self s'.store j k
    taken-moves j =
        weigh-at (taken h t self s.store j) (taken h t self s'.store j) k (taken-same j) ks
          inv.distinct is_seat

    own : IsStored h t self s id e
    own = inv.event_stored id e c.of_event

    given_up-le : (if is_given_up end then 1 else 0) + (if is_given_up end then 0 else 1) ≡ 1
    given_up-le = ground arith

    seats-after : count ≡ weigh (taken h t self s'.store id) ks
    seats-after = omega (
      arith,
      taken-moves id,
      taken-before,
      taken-after,
      given_up-le,
      own.seats_counted,
      c.seats_left,
    )

    own-after : IsStored h t self s' id (record e { reserved_count = count })
    own-after = record {
      under_its_id = own.under_its_id;
      bond_positive = own.bond_positive;
      all_shared = own.all_shared;
      seats_counted = rw c.same_seats seats-after;
      within_capacity = omega (arith, own.within_capacity, c.seats_left);
    }

    other-after :
        (j : ℕ) (f : Event) → j ≢ id → h.read_event s.store j ≡ some f → IsStored h t self s' j f
    other-after j f ne found =
        let i : IsStored h t self s j f = inv.event_stored j f found in
        record {
          under_its_id = i.under_its_id;
          bond_positive = i.bond_positive;
          all_shared = i.all_shared;
          seats_counted = rw c.same_seats (
              omega (
                arith,
                taken-moves j,
                taken-elsewhere s.store j ne,
                taken-elsewhere s'.store j ne,
                i.seats_counted,
              ));
          within_capacity = i.within_capacity;
        }

    event-after : (j : ℕ) (f : Event) → h.read_event s'.store j ≡ some f → IsStored h t self s' j f
    event-after j f found = elim (Bool-cases (id == j)) [
      | inl here ↦
          let at : id ≡ j = (==_iff id j).0 here in
          let same : record e { reserved_count = count } ≡ f =
            some-eq (rw (c.events j, here) at found) in
          subst (λ i. IsStored h t self s' i f) at
            (subst (λ g. IsStored h t self s' id g) same own-after)
      | inr there ↦ other-after j f (λ e. absurd (ground arith)) (rw (c.events j, there) at found)
    ]

    reservation-after :
        (j : ℕ) (q : String) (r' : Reservation)
        → h.read_reservation s'.store j q ≡ some r'
        → In (seat j q) ks × (r'.event_id ≡ j) × (r'.participant ≡ q) × (pos 0 <ℤ r'.amount)
    reservation-after j q r' found = elim (Bool-cases (id == j && str_eq p q)) [
      | inl here ↦
          let (m, at_id, of_p, positive) = inv.reservation_known id p r c.found in
          let at : id ≡ j = ground arith in
          let who : p ≡ q = ground (arith, eq_iff p q) in
          let same : record r { status = end } ≡ r' =
            some-eq (rw (c.reservations j q, here) at found) in
          (
            subst (λ a. In (seat a q) ks) at (subst (λ b. In (seat id b) ks) who m),
            ap (λ (x : Reservation). x.event_id) (sym same) ∙ at_id ∙ at,
            ap (λ (x : Reservation). x.participant) (sym same) ∙ of_p ∙ who,
            subst (λ (x : Reservation). pos 0 <ℤ x.amount) same positive,
          )
      | inr there ↦ inv.reservation_known j q r' (rw (c.reservations j q, there) at found)
    ]

    has_reservation-after :
        (j : ℕ) (q : String)
        → In (seat j q) ks
        → (x : Reservation) × (h.read_reservation s'.store j q ≡ some x)
    has_reservation-after j q m = elim (Bool-cases (id == j && str_eq p q)) [
      | inl here ↦ (record r { status = end }, rw (c.reservations j q, here) refl)
      | inr there ↦
          let (x, found) = inv.has_reservation j q m in (x, rw (c.reservations j q, there) found)
    ]

    has_event-after :
        (j : ℕ) (q : String) → In (seat j q) ks → (f : Event) × (h.read_event s'.store j ≡ some f)
    has_event-after j q m = elim (Bool-cases (id == j)) [
      | inl here ↦ (record e { reserved_count = count }, rw (c.events j, here) refl)
      | inr there ↦ let (f, found) = inv.has_event j q m in (f, rw (c.events j, there) found)
    ]

    counted-after :
        (j n : ℕ) (f : Event)
        → h.read_count s'.store ≡ some n
        → h.read_event s'.store j ≡ some f
        → j ≤ n
    counted-after j n f counted found = elim (Bool-cases (id == j)) [
      | inl here ↦
          let le : id ≤ n = inv.ids_counted id n e (rw c.same_count at counted) c.of_event in
          ground arith
      | inr there ↦
          inv.ids_counted j n f (rw c.same_count at counted) (rw (c.events j, there) at found)
    ]

    -- Closing a locked reservation keeps the invariant.
    pub Closed-Inv : Inv h t self s'
    Closed-Inv = record {
      distinct = rw c.same_seats inv.distinct;
      solvent = rw c.same_seats solvent-after;
      has_reservation = λ j q m. has_reservation-after j q (rw c.same_seats at m);
      has_event = λ j q m. has_event-after j q (rw c.same_seats at m);
      reservation_known = λ j q x found. rw c.same_seats (reservation-after j q x found);
      event_stored = event-after;
      ids_counted = counted-after;
    }
