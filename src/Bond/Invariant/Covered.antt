-- ===== src/Bond/Invariant/Covered.antt =====
-- What the invariant says of one locked reservation: its bond is covered, and its seat is counted.
use showup.Prelude.{ℕ, ◌≤◌, String, some, List, [], ◌∷◌, ◌≡◌, inl, inr, In, ap, arith}
use showup.Prelude.Int.{above}
use showup.Bond.Types.{Event, Reservation, locked}
use showup.Bond.Host.{HostStorage, Token}
use showup.Bond.Entry.{State}
use showup.Bond.Runs.{Seat, seat, seats_of}
use showup.Bond.Sums.{weigh}
use showup.Bond.Invariant.{held, taken, held_for, Inv, IsStored}

weigh-le : (w : Seat → ℕ) (k : Seat) (ks : List Seat) → In k ks → w k ≤ weigh w ks
weigh-le w k [] m = absurd m
weigh-le w k (x ∷ ks) (inl e) = omega (arith, ap w e)
weigh-le w k (x ∷ ks) (inr m) = omega (arith, weigh-le w k ks m)

module _ {S T : Type 0} (h : HostStorage S) (t : Token T) (self : String) (s : State S T)
    (inv : Inv h t self s) (id : ℕ) (p : String) (r : Reservation)
    (found : h.read_reservation s.store id p ≡ some r) (is_locked : r.status ≡ locked) where
  is_seat : In (seat id p) (seats_of s.published)
  is_seat = (inv.reservation_known id p r found).0

  -- The contract's balance covers the bond.
  pub covered : above r.amount ≤ t.balance s.ledger self
  covered = omega (
    arith,
    weigh-le (held h t self s.store) (seat id p) (seats_of s.published) is_seat,
    inv.solvent,
    ap held_for found,
    amount,
  )
    where
      amount : held_for (some r) ≡ above r.amount
      amount = ground arith

  -- The seat is counted.
  pub counted : (e : Event) → h.read_event s.store id ≡ some e → 1 ≤ e.reserved_count
  counted e of_event =
      let one : taken h t self s.store id (seat id p) ≡ 1 = ground arith in
      let own : IsStored h t self s id e = inv.event_stored id e of_event in
      omega (
        arith,
        weigh-le (taken h t self s.store id) (seat id p) (seats_of s.published) is_seat,
        one,
        own.seats_counted,
      )
