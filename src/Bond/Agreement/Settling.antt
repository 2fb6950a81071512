-- ===== src/Bond/Agreement/Settling.antt =====
-- `canSettleNoShow` and `settle_no_show`.
use showup.Prelude.{
  ℕ, ◌-◌, ◌*◌, ◌/◌, ◌<◌, ◌^◌, ◌≤◌, String, true, ◌&&◌, Option, none, some, ltb, ◌≡◌, ◌↔◌, refl, sym,
  ◌∙◌, arith,
}
use showup.Prelude.Int.{pos, above}
use showup.Prelude.Outcome.{returned}
use showup.Bond.Types.{Config, Event, Reservation, locked, no_show_settled}
use showup.Bond.Host.{HostStorage, IsStorage, Token, Invocation}
use showup.Bond.Entry.{State, is_active, settle_no_show}
use showup.Bond.Effects.Settlement.{settle_no_show-Settled}
use showup.Bond.Returns.{settle_no_show-returns}
use showup.Bond.Shares.{product_fits, quotient_fits, rest_fits}
use showup.Bond.Invariant.{Inv, IsStored}
use showup.Bond.Invariant.Closing.{some-eq}
use showup.Bond.Agreement.{
  IsDecoded, IsDecodedOption, reservation_view, IsExact, IsSplittable, is_held, shown_number,
  shown_active, shown_lock,
}
use showup.Bond.Agreement.Closing.{held-some, held_of, is_active_of, and_three}
use showup.Contract.Mappers.{GeneratedEvent, GeneratedReservation, to_event_view}
use showup.Domain.Eligibility.{can_settle_no_show}

pub ltb-true : {m n : ℕ} → m < n → ltb m n ≡ true
ltb-true less = ground arith

can_settle_no_show_shown :
    (to_number : ℕ → ℕ)
    → IsExact to_number
    → (now : ℕ) (e : Event) (g : GeneratedEvent) (r : Option Reservation)
      (o : Option GeneratedReservation)
    → IsDecoded e g
    → IsDecodedOption r o
    → can_settle_no_show (to_event_view to_number g) (reservation_view to_number o) now
      ≡ (is_held r && is_active e.status && ltb e.checkin_deadline now)
unfolding can_settle_no_show to_event_view
can_settle_no_show_shown to_number exact now e g r o d dr =
    rw
      (
        shown_active g.status e.status d.status,
        shown_lock to_number r o dr,
        shown_number to_number exact g.checkin_deadline e.checkin_deadline d.checkin_deadline
            d.checkin_deadline_exact,
      )
      refl

-- The settlement of a reservation computes in an i128.
abbrev pub IsSmall : Event → Option Reservation → Type 0
IsSmall e none = Unit
IsSmall e (some r) = (above r.amount < 2 ^ 127) × (above r.amount * e.organizer_bps < 2 ^ 127)

module _ {S T : Type 0} (h : HostStorage S) (t : Token T) (self : String) (byte_length : String → ℕ)
    (env : Invocation) (s : State S T) (id : ℕ) (p : String) (e : Event) (config : Config) where
  module _ (laws : IsStorage h) (inv : Inv h t self s) (found : h.read_event s.store id ≡ some e)
      (configured : h.read_config s.store ≡ some config)
      (small : IsSmall e (h.read_reservation s.store id p)) where
    -- A settlement that can be paid goes through.
    pub settles :
        (r : Reservation)
        → IsSplittable t self s.ledger e config (h.read_reservation s.store id p)
        → h.read_reservation s.store id p ≡ some r
        → r.status ≡ locked
        → is_active e.status ≡ true
        → ltb e.checkin_deadline env.timestamp ≡ true
        → (s' : State S T) × (settle_no_show h t self byte_length env id p s ≡ returned s')
    settles r splittable held is_locked is late =
        let (m, at_id, of_p, positive) = inv.reservation_known id p r held in
        let own : IsStored h t self s id e = inv.event_stored id e found in
        let a : ℕ = above r.amount in
        let b : ℕ = e.organizer_bps in
        let (fits, product_small) = rw held at small in
        let le : b ≤ 10000 = omega (arith, own.all_shared) in
        let (between, l, paid, rest) = rw held at splittable in
        settle_no_show-returns h t self byte_length env s id p e r config l held is_locked found
          (pos (a * b)) (pos (a * b / 10000)) (pos (a - a * b / 10000)) between is late
          (product_fits r.amount b positive product_small) (quotient_fits (a * b) product_small)
          (rest_fits r.amount b positive le fits)
          (laws.config_after_reservation s.store r.event_id r.participant
              (record r { status = no_show_settled })
            ∙ configured)
          paid rest

    -- Where the invariant holds, for a stored event with times that `Number` keeps and a contract with a
    -- configuration, and, if there is a reservation, a bond that fits an i128 when multiplied by the
    -- basis points and two shares that can be transferred one after the other: `canSettleNoShow` holds of
    -- what the application is shown exactly when `settle_no_show` returns, whoever invokes it.
    pub can_settle_no_show_iff :
        (to_number : ℕ → ℕ) (g : GeneratedEvent) (o : Option GeneratedReservation)
        → IsExact to_number
        → IsDecoded e g
        → IsDecodedOption (h.read_reservation s.store id p) o
        → IsSplittable t self s.ledger e config (h.read_reservation s.store id p)
        → (can_settle_no_show
              (to_event_view to_number g)
              (reservation_view to_number o)
              env.timestamp
            ≡ true)
          ↔ ((s' : State S T) × (settle_no_show h t self byte_length env id p s ≡ returned s'))
    can_settle_no_show_iff to_number g o exact d dr splittable = (
      λ offered.
          let (has, is, late) =
            (and_three (is_held (h.read_reservation s.store id p)) (is_active e.status)
                (ltb e.checkin_deadline env.timestamp)).0
              (sym (can_settle_no_show_shown to_number exact env.timestamp e g _ o d dr)
                ∙ offered) in
          let (r, held, is_locked) = held-some (h.read_reservation s.store id p) has in
          settles r splittable held is_locked is late,
      λ returns.
          let c = settle_no_show-Settled h t self byte_length env id p s (returns.0) (returns.1) in
          let same : c.event ≡ e = some-eq (sym c.of_event ∙ found) in
          can_settle_no_show_shown to_number exact env.timestamp e g _ o d dr
          ∙ (and_three (is_held (h.read_reservation s.store id p)) (is_active e.status)
                (ltb e.checkin_deadline env.timestamp)).1
              (
                held_of (h.read_reservation s.store id p) c.reservation c.found c.was_locked,
                is_active_of e.status (rw same at c.is_active),
                ltb-true (rw same at c.too_late),
              ),
    )
