-- ===== src/Bond/Invariant/Paying.antt =====
-- The invariant when a bond is released or settled: what each such entry point did is a `Closed`.
use showup.Prelude.{
  ℕ, ◌+◌, ◌-◌, ◌≤◌, String, false, ◌&&◌, some, ◌≡◌, inl, inr, refl, ap, arith, str_eq, ◌==◌, ==_iff,
  if◌then◌else◌, Bool-cases,
}
use showup.Prelude.Int.{ℤ, pos, negsuc, above}
use showup.Bond.Types.{Event, Reservation, ReservationStatus, attended, refunded, no_show_settled}
use showup.Bond.Host.{HostStorage, IsStorage, Token, IsToken, Invocation}
use showup.Bond.Entry.{State, is_locked}
use showup.Bond.Effects.Seats.{SeatCancelled}
use showup.Bond.Effects.Releases.{Released, CheckedIn, Claimed}
use showup.Bond.Effects.Settlement.{Settled}
use showup.Bond.Runs.{seats_of}
use showup.Bond.Shares
use showup.Bond.Invariant.{is_given_up, Inv, IsStored}
use showup.Bond.Invariant.Closing.{Closed}

-- A transfer moves at most its amount out of an account.
pub transfer-le :
    {T : Type 0} (t : Token T)
    → IsToken t
    → (l l' : T) (a b : String) (z : ℤ) (x : String) → t.transfer l a b z ≡ some l'
    → t.balance l x ≤ t.balance l' x + above z
transfer-le t token l l' a b (pos n) x paid = ground (arith, token.moves l l' a b n x paid)
transfer-le t token l l' a b (negsuc n) x paid =
    absurd (ground (arith, token.moves_nothing_negative l a b n))

module _ {S T : Type 0} (h : HostStorage S) (t : Token T) (self : String) (laws : IsStorage h)
    (token : IsToken t) (byte_length : String → ℕ) (env : Invocation) (id : ℕ) (p : String)
    (s s' : State S T) (inv : Inv h t self s) where
  -- A reservation that is stored again under its own key, in events that did not change.
  stored-reservations :
      (r r' : Reservation)
      → h.read_reservation s.store id p ≡ some r
      → s'.store ≡ h.write_reservation s.store r.event_id r.participant r'
      → (j : ℕ) (q : String)
      → h.read_reservation s'.store j q
        ≡ (if id == j && str_eq p q then some r' else h.read_reservation s.store j q)
  stored-reservations r r' found stored j q =
      let (m, at_id, of_p, positive) = inv.reservation_known id p r found in
      rw
        (
          stored,
          laws.reservation_after_reservation s.store r.event_id r.participant r' j q,
          at_id,
          of_p,
        )
        refl

  stored-events :
      (i : ℕ) (q : String) (r' : Reservation) (e : Event)
      → h.read_event s.store id ≡ some e
      → s'.store ≡ h.write_reservation s.store i q r'
      → (j : ℕ) → h.read_event s'.store j ≡ (if id == j then some e else h.read_event s.store j)
  stored-events i q r' e of_event stored j =
      let same : h.read_event s'.store j ≡ h.read_event s.store j =
        rw stored (laws.event_after_reservation s.store i q r' j) in
      elim (Bool-cases (id == j)) [
        | inl here ↦ rw (here, same, ← (==_iff id j).0 here) of_event
        | inr there ↦ rw there same
      ]

  -- A release closes the reservation.
  Released-Closed :
      (end : ReservationStatus) (r : Reservation) (e : Event)
      → Released h t self byte_length env end id p s s' r e
      → is_locked end ≡ false
      → is_given_up end ≡ false
      → seats_of s'.published ≡ seats_of s.published
      → Closed h t self s s' id p r e end e.reserved_count
  Released-Closed end r e c closed stays seats = record {
    found = c.found;
    was_locked = c.was_locked;
    of_event = c.of_event;
    is_closed = closed;
    reservations = stored-reservations r (record r { status = end }) c.found c.stored;
    events =
        stored-events r.event_id r.participant (record r { status = end }) e c.of_event c.stored;
    same_count =
        rw c.stored (
          laws.count_after_reservation s.store r.event_id r.participant
            (record r { status = end }));
    same_seats = seats;
    seats_left = rw stays (omega arith);
    paid = transfer-le t token s.ledger s'.ledger self r.participant r.amount self c.paid;
  }

  -- A check-in closes the reservation as attended.
  pub CheckedIn-Closed :
      (c : CheckedIn h t self byte_length env id p s s')
      → Closed h t self s s' id p c.reservation c.event attended c.event.reserved_count
  CheckedIn-Closed c =
      Released-Closed attended c.reservation c.event c.released refl refl (ap seats_of c.logged)

  -- A refund closes the reservation as refunded.
  pub Claimed-Closed :
      (c : Claimed h t self byte_length env id p s s')
      → Closed h t self s s' id p c.reservation c.event refunded c.event.reserved_count
  Claimed-Closed c =
      Released-Closed refunded c.reservation c.event c.released refl refl (ap seats_of c.logged)

  -- A cancelled seat is closed and given back.
  pub SeatCancelled-Closed :
      (c : SeatCancelled h t self byte_length env id p s s')
      → Closed h t self s s' id p c.reservation c.event ReservationStatus.cancelled
          (c.event.reserved_count - 1)
  SeatCancelled-Closed c =
      let r : Reservation = c.reservation in
      let e : Event = c.event in
      let r' : Reservation = record r { status = ReservationStatus.cancelled } in
      let e' : Event = record e { reserved_count = e.reserved_count - 1 } in
      let freed : S = h.write_event s.store e.id e' in
      let (m, at_id, of_p, positive) = inv.reservation_known id p r c.found in
      let own : IsStored h t self s id e = inv.event_stored id e c.of_event in
      record {
        found = c.found;
        was_locked = c.was_locked;
        of_event = c.of_event;
        is_closed = refl;
        reservations = λ j q.
            rw
              (
                c.stored,
                laws.reservation_after_reservation freed r.event_id r.participant r' j q,
                at_id,
                of_p,
                laws.reservation_after_event s.store e.id e' j q,
              )
              refl;
        events = λ j.
            rw
              (
                c.stored,
                laws.event_after_reservation freed r.event_id r.participant r' j,
                laws.event_after_event s.store e.id e' j,
                own.under_its_id,
              )
              refl;
        same_count =
            rw (c.stored, laws.count_after_reservation freed r.event_id r.participant r')
              (laws.count_after_event s.store e.id e');
        same_seats = ap seats_of c.logged;
        seats_left = omega (arith, c.some_reserved);
        paid = transfer-le t token s.ledger s'.ledger self p r.amount self c.paid;
      }

  -- A settlement closes the reservation as a no-show.
  pub Settled-Closed :
      (c : Settled h t self byte_length env id p s s')
      → Closed h t self s s' id p c.reservation c.event no_show_settled c.event.reserved_count
  Settled-Closed c =
      let r : Reservation = c.reservation in
      let e : Event = c.event in
      let r' : Reservation = record r { status = no_show_settled } in
      let own : IsStored h t self s id e = inv.event_stored id e c.of_event in
      let (m, at_id, of_p, positive) = inv.reservation_known id p r c.found in
      let whole : above c.organizer_amount + above c.community_amount ≡ above r.amount =
        Shares.whole r.amount e.organizer_bps c.organizer_amount c.community_amount positive
          (omega (arith, own.all_shared)) c.organizer_share c.community_share in
      record {
        found = c.found;
        was_locked = c.was_locked;
        of_event = c.of_event;
        is_closed = refl;
        reservations = stored-reservations r r' c.found c.stored;
        events = stored-events r.event_id r.participant r' e c.of_event c.stored;
        same_count = rw c.stored (laws.count_after_reservation s.store r.event_id r.participant r');
        same_seats = ap seats_of c.logged;
        seats_left = omega arith;
        paid = omega (
          arith,
          whole,
          transfer-le t token s.ledger c.ledger self e.organizer c.organizer_amount self
              c.organizer_paid,
          transfer-le t token c.ledger s'.ledger self c.config.community_pool c.community_amount
              self c.community_paid,
        );
      }
