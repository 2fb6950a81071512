-- ===== src/Bond/Payments.antt =====
-- What the closing of a reservation pays, and to whom.
use showup.Prelude.{
  ℕ, ◌+◌, ◌≤◌, String, Bool, true, false, some, ◌≡◌, ◌⊎◌, inl, inr, refl, sym, ◌∙◌, arith, str_eq,
  if◌then◌else◌,
}
use showup.Prelude.Int.{ℤ, pos, negsuc, above, ◌*ℤ◌, ◌-ℤ◌, quotient}
use showup.Prelude.Outcome.{returned}
use showup.Bond.Types.{Config, Event, Reservation}
use showup.Bond.Host.{HostStorage, IsStorage, Token, IsToken, Invocation}
use showup.Bond.Entry.{
  State, cancel_reservation, check_in, claim_cancelled_event_refund, settle_no_show,
}
use showup.Bond.Effects.Seats.{cancel_reservation-SeatCancelled}
use showup.Bond.Effects.Releases.{check_in-CheckedIn, claim_cancelled_event_refund-Claimed}
use showup.Bond.Effects.Settlement.{settle_no_show-Settled}
use showup.Bond.Shares
use showup.Bond.Invariant.{Inv, IsStored}
use showup.Bond.Invariant.Closing.{some-eq}
use showup.Domain.Amounts.{split_by_bps, Legs}

-- The amount that a transfer from or to `a` moves, on the account `x`.
abbrev pub at : String → String → ℕ → ℕ
at a x n = if str_eq a x then n else 0

transfer-moves :
    {T : Type 0} (t : Token T)
    → IsToken t
    → (l l' : T) (a b : String) (z : ℤ) (x : String) → t.transfer l a b z ≡ some l'
    → t.balance l' x + at a x (above z) ≡ t.balance l x + at b x (above z)
transfer-moves t token l l' a b (pos n) x paid = token.moves l l' a b n x paid
transfer-moves t token l l' a b (negsuc n) x paid =
    absurd (ground (arith, token.moves_nothing_negative l a b n))

two_moves :
    (own : Bool) (l m l' o c a to_o to_c : ℕ)
    → o + c ≡ a
    → m + (if own then o else 0) ≡ l + to_o
    → l' + (if own then c else 0) ≡ m + to_c
    → l' + (if own then a else 0) ≡ l + to_o + to_c
two_moves true l m l' o c a to_o to_c whole first second = omega arith
two_moves false l m l' o c a to_o to_c whole first second = omega arith

split_legs :
    (z : ℤ) (b : ℕ)
    → b ≤ 10000
    → split_by_bps z (pos b)
      ≡ returned (record {
        organizer = quotient (z *ℤ pos b) 10000;
        community = z -ℤ quotient (z *ℤ pos b) 10000;
      })
unfolding split_by_bps
split_legs z b le = ground arith

module _ {S T : Type 0} (h : HostStorage S) (t : Token T) (self : String) (byte_length : String → ℕ)
    (laws : IsStorage h) (token : IsToken t) (env : Invocation) (s s' : State S T)
    (inv : Inv h t self s) (id : ℕ) (p : String) (r : Reservation)
    (found : h.read_reservation s.store id p ≡ some r) where
  of_participant : r.participant ≡ p
  of_participant = let (m, at_id, of_p, positive) = inv.reservation_known id p r found in of_p

  released :
      (q : String) (r2 : Reservation) (x : String)
      → h.read_reservation s.store id p ≡ some r2
      → q ≡ p
      → t.transfer s.ledger self q r2.amount ≡ some s'.ledger
      → t.balance s'.ledger x + at self x (above r.amount)
        ≡ t.balance s.ledger x + at p x (above r.amount)
  released q r2 x found2 is paid =
      let same : r2 ≡ r = some-eq (sym found2 ∙ found) in
      transfer-moves t token s.ledger s'.ledger self p r.amount x (rw (is, same) at paid)

  -- Where the invariant holds, when `check_in`, `cancel_reservation` or `claim_cancelled_event_refund`
  -- returns, exactly the bond has moved from the contract to the participant: no other balance changed.
  pub release_pays :
      (check_in h t self byte_length env id p s ≡ returned s')
        ⊎ (cancel_reservation h t self byte_length env id p s ≡ returned s')
        ⊎ (claim_cancelled_event_refund h t self byte_length env id p s ≡ returned s')
      → (x : String)
      → t.balance s'.ledger x + at self x (above r.amount)
        ≡ t.balance s.ledger x + at p x (above r.amount)
  release_pays (inl e) x =
      let c = check_in-CheckedIn h t self byte_length env id p s s' e in
      let same : c.reservation ≡ r = some-eq (sym c.released.found ∙ found) in
      released c.reservation.participant c.reservation x c.released.found (rw same of_participant)
        c.released.paid
  release_pays (inr (inl e)) x =
      let c = cancel_reservation-SeatCancelled h t self byte_length env id p s s' e in
      released p c.reservation x c.found refl c.paid
  release_pays (inr (inr e)) x =
      let c = claim_cancelled_event_refund-Claimed h t self byte_length env id p s s' e in
      let same : c.reservation ≡ r = some-eq (sym c.released.found ∙ found) in
      released c.reservation.participant c.reservation x c.released.found (rw same of_participant)
        c.released.paid

  -- Where the invariant holds, when `settle_no_show` returns, the application's `splitByBps` gives the two
  -- legs that were paid: they add up to the bond, the organizer got the one, the community pool the
  -- other, the contract paid both, and no other balance changed.
  pub settle_no_show-pays :
      (e : Event) (config : Config)
      → h.read_event s.store id ≡ some e
      → h.read_config s.store ≡ some config
      → settle_no_show h t self byte_length env id p s ≡ returned s'
      → (legs : Legs) × (split_by_bps r.amount (pos e.organizer_bps) ≡ returned legs)
        × (above legs.organizer + above legs.community ≡ above r.amount)
        × ((x : String)
            → t.balance s'.ledger x + at self x (above r.amount)
              ≡ t.balance s.ledger x
                + at e.organizer x (above legs.organizer)
                + at config.community_pool x (above legs.community))
  settle_no_show-pays e config of_event configured returns =
      let c = settle_no_show-Settled h t self byte_length env id p s s' returns in
      let same : c.reservation ≡ r = some-eq (sym c.found ∙ found) in
      let same_event : c.event ≡ e = some-eq (sym c.of_event ∙ of_event) in
      let same_config : c.config ≡ config = some-eq (
        sym c.configured
        ∙ laws.config_after_reservation s.store c.reservation.event_id c.reservation.participant _
        ∙ configured) in
      let own : IsStored h t self s id e = inv.event_stored id e of_event in
      let (m, at_id, of_p, positive) = inv.reservation_known id p r found in
      let le : e.organizer_bps ≤ 10000 = omega (arith, own.all_shared) in
      let o : ℤ = quotient (r.amount *ℤ pos e.organizer_bps) 10000 in
      let o_is : c.organizer_amount ≡ o = rw (same, same_event) at c.organizer_share in
      let c_is : c.community_amount ≡ r.amount -ℤ o = rw (same, o_is) at c.community_share in
      let whole : above o + above (r.amount -ℤ o) ≡ above r.amount =
        Shares.whole r.amount e.organizer_bps o (r.amount -ℤ o) positive le refl refl in
      let first : t.transfer s.ledger self e.organizer o ≡ some c.ledger =
        rw (same_event, o_is) at c.organizer_paid in
      let second : t.transfer c.ledger self config.community_pool (r.amount -ℤ o) ≡ some s'.ledger =
        rw (same_config, c_is) at c.community_paid in
      (
        record { organizer = o; community = r.amount -ℤ o },
        split_legs r.amount e.organizer_bps le,
        whole,
        λ x.
            two_moves (str_eq self x) _ _ _ _ _ _ _ _ whole
              (transfer-moves t token s.ledger c.ledger self e.organizer o x first)
              (transfer-moves t token c.ledger s'.ledger self config.community_pool (r.amount -ℤ o)
                x second),
      )
