-- ===== src/Bond/Invariant/Seating.antt =====
-- The invariant when a seat is reserved.
use showup.Prelude.{
  ℕ, ◌+◌, ◌≤◌, String, true, false, ◌&&◌, Option, some, List, ◌∷◌, ◌≡◌, ◌≢◌, inl, inr, refl, sym,
  ap, ◌∙◌, subst, arith, str_eq, eq_iff, ◌==◌, ==_iff, In, if◌then◌else◌, Bool-cases,
}
use showup.Prelude.Int.{ℤ, pos, negsuc, above, ◌<ℤ◌}
use showup.Bond.Types.{Event, Reservation}
use showup.Bond.Host.{HostStorage, IsStorage, Token, IsToken, Invocation}
use showup.Bond.Entry.{State, reservation_of}
use showup.Bond.Effects.Seats.{Reserved}
use showup.Bond.Runs.{Seat, seat, seats_of}
use showup.Bond.Sums.{weigh, other_key, weigh-outside}
use showup.Bond.Invariant.{held_for, taken_by, held, taken, IsStored, Inv}
use showup.Bond.Invariant.Closing.{some-eq}
use showup.Bond.Invariant.Opening.{none-some}

pub above-pos : (z : ℤ) → pos 0 <ℤ z → z ≡ pos (above z)
above-pos (pos n) positive = refl
above-pos (negsuc n) positive = absurd (ground arith)

module _ {S T : Type 0} (h : HostStorage S) (t : Token T) (self : String) (laws : IsStorage h)
    (token : IsToken t) (byte_length : String → ℕ) (env : Invocation)
    (no_self : env.authorized self ≡ false) (id : ℕ) (p : String) (s s' : State S T)
    (c : Reserved h t self byte_length env id p s s') (inv : Inv h t self s) where
  abbrev ks : List Seat
  ks = seats_of s.published

  abbrev e : Event
  e = c.event

  abbrev seated : Event
  seated = record e { reserved_count = e.reserved_count + 1 }

  abbrev opened : Reservation
  opened = reservation_of id p e env.timestamp

  own : IsStored h t self s id e
  own = inv.event_stored id e c.found

  is_other : p ≢ self
  is_other same = cc (same, c.authorized, no_self)

  new_seat : ¬ In (seat id p) ks
  new_seat m = let (x, found) = inv.has_reservation id p m in none-some x (sym c.is_new ∙ found)

  seats : seats_of s'.published ≡ seat id p ∷ ks
  seats = ap seats_of c.logged

  pub reservations :
      (j : ℕ) (q : String)
      → h.read_reservation s'.store j q
        ≡ (if id == j && str_eq p q then some opened else h.read_reservation s.store j q)
  reservations j q =
      rw
        (
          c.stored,
          laws.reservation_after_reservation (h.write_event s.store c.event.id seated) id p opened j
              q,
          laws.reservation_after_event s.store c.event.id seated j q,
        )
        refl

  events :
      (j : ℕ) → h.read_event s'.store j ≡ (if id == j then some seated else h.read_event s.store j)
  events j =
      rw
        (
          c.stored,
          laws.event_after_reservation (h.write_event s.store c.event.id seated) id p opened j,
          laws.event_after_event s.store c.event.id seated j,
          own.under_its_id,
        )
        refl

  count : h.read_count s'.store ≡ h.read_count s.store
  count =
      rw
        (
          c.stored,
          laws.count_after_reservation (h.write_event s.store c.event.id seated) id p opened,
        )
        (laws.count_after_event s.store c.event.id seated)

  amount : e.bond_amount ≡ pos (above e.bond_amount)
  amount = above-pos e.bond_amount own.bond_positive

  received : t.balance s'.ledger self ≡ t.balance s.ledger self + above e.bond_amount
  received =
      let paid : t.transfer s.ledger p self (pos (above e.bond_amount)) ≡ some s'.ledger =
        rw (← amount) c.paid in
      ground (
        arith,
        token.moves s.ledger s'.ledger p self (above e.bond_amount) self paid,
        eq_iff p self,
        eq_iff self self,
        is_other,
      )

  held-same : (x : Seat) → x ≢ seat id p → held h t self s'.store x ≡ held h t self s.store x
  held-same (seat j q) ne = rw (reservations j q, other_key id j p q ne) refl

  taken-same :
      (i : ℕ) (x : Seat) → x ≢ seat id p → taken h t self s'.store i x ≡ taken h t self s.store i x
  taken-same i (seat j q) ne = rw (reservations j q, other_key id j p q ne) refl

  self_key : (id == id && str_eq p p) ≡ true
  self_key = ground (arith, eq_iff p p)

  found-after : h.read_reservation s'.store id p ≡ some opened
  found-after = rw (reservations id p, self_key) refl

  solvent-after : weigh (held h t self s'.store) (seat id p ∷ ks) ≤ t.balance s'.ledger self
  solvent-after = omega (
    arith,
    ap held_for found-after,
    weigh-outside (held h t self s.store) (held h t self s'.store) (seat id p) held-same ks
        new_seat,
    inv.solvent,
    received,
  )

  taken-after :
      (j : ℕ)
      → weigh (taken h t self s'.store j) (seat id p ∷ ks)
        ≡ (if j == id then 1 else 0) + weigh (taken h t self s.store j) ks
  taken-after j = omega (
    arith,
    ap (λ (o : Option Reservation). if j == id then taken_by o else 0) found-after,
    weigh-outside (taken h t self s.store j) (taken h t self s'.store j) (seat id p) (taken-same j)
        ks new_seat,
  )

  own-after : IsStored h t self s' id seated
  own-after = record {
    under_its_id = own.under_its_id;
    bond_positive = own.bond_positive;
    all_shared = own.all_shared;
    seats_counted = rw seats (ground (arith, taken-after id, own.seats_counted));
    within_capacity = omega (arith, c.has_room);
  }

  other-after :
      (j : ℕ) (f : Event) → j ≢ id → h.read_event s.store j ≡ some f → IsStored h t self s' j f
  other-after j f ne found =
      let i : IsStored h t self s j f = inv.event_stored j f found in
      record {
        under_its_id = i.under_its_id;
        bond_positive = i.bond_positive;
        all_shared = i.all_shared;
        seats_counted = rw seats (ground (arith, taken-after j, i.seats_counted, ne));
        within_capacity = i.within_capacity;
      }

  event-after : (j : ℕ) (f : Event) → h.read_event s'.store j ≡ some f → IsStored h t self s' j f
  event-after j f found = elim (Bool-cases (id == j)) [
    | inl here ↦
        let at : id ≡ j = (==_iff id j).0 here in
        let same : seated ≡ f = some-eq (rw (events j, here) at found) in
        subst (λ i. IsStored h t self s' i f) at
          (subst (λ g. IsStored h t self s' id g) same own-after)
    | inr there ↦ other-after j f (λ e. absurd (ground arith)) (rw (events j, there) at found)
  ]

  reservation-after :
      (j : ℕ) (q : String) (x : Reservation)
      → h.read_reservation s'.store j q ≡ some x
      → In (seat j q) (seat id p ∷ ks)
        × (x.event_id ≡ j)
        × (x.participant ≡ q)
        × (pos 0 <ℤ x.amount)
  reservation-after j q x found = elim (Bool-cases (id == j && str_eq p q)) [
    | inl here ↦
        let at : id ≡ j = ground arith in
        let who : p ≡ q = ground (arith, eq_iff p q) in
        let same : opened ≡ x = some-eq (rw (reservations j q, here) at found) in
        (
          inl (ap (λ a. seat a p) at ∙ ap (λ b. seat j b) who),
          ap (λ (y : Reservation). y.event_id) (sym same) ∙ at,
          ap (λ (y : Reservation). y.participant) (sym same) ∙ who,
          subst (λ (y : Reservation). pos 0 <ℤ y.amount) same own.bond_positive,
        )
    | inr there ↦
        let (m, at_id, of_p, positive) =
          inv.reservation_known j q x (rw (reservations j q, there) at found) in
        (inr m, at_id, of_p, positive)
  ]

  has_reservation-after :
      (j : ℕ) (q : String)
      → In (seat j q) (seat id p ∷ ks)
      → (x : Reservation) × (h.read_reservation s'.store j q ≡ some x)
  has_reservation-after j q m = elim (Bool-cases (id == j && str_eq p q)) [
    | inl here ↦ (opened, rw (reservations j q, here) refl)
    | inr there ↦ elim m [
      | inl e ↦ absurd (ground (arith, eq_iff p q, e))
      | inr m ↦
          let (x, found) = inv.has_reservation j q m in (x, rw (reservations j q, there) found)
    ]
  ]

  has_event-after :
      (j : ℕ) (q : String)
      → In (seat j q) (seat id p ∷ ks)
      → (f : Event) × (h.read_event s'.store j ≡ some f)
  has_event-after j q m = elim (Bool-cases (id == j)) [
    | inl here ↦ (seated, rw (events j, here) refl)
    | inr there ↦ elim m [
      | inl e ↦ absurd (ground (arith, e))
      | inr m ↦ let (f, found) = inv.has_event j q m in (f, rw (events j, there) found)
    ]
  ]

  counted-after :
      (j n : ℕ) (f : Event)
      → h.read_count s'.store ≡ some n
      → h.read_event s'.store j ≡ some f
      → j ≤ n
  counted-after j n f counted found = elim (Bool-cases (id == j)) [
    | inl here ↦
        let le : id ≤ n = inv.ids_counted id n c.event (rw count at counted) c.found in ground arith
    | inr there ↦ inv.ids_counted j n f (rw count at counted) (rw (events j, there) at found)
  ]

  -- Taking a bond for a seat keeps the invariant.
  pub Reserved-Inv : Inv h t self s'
  Reserved-Inv = record {
    distinct = rw seats (new_seat, inv.distinct);
    solvent = rw seats solvent-after;
    has_reservation = λ j q m. has_reservation-after j q (rw seats at m);
    has_event = λ j q m. has_event-after j q (rw seats at m);
    reservation_known = λ j q x found. rw seats (reservation-after j q x found);
    event_stored = event-after;
    ids_counted = counted-after;
  }
