-- ===== src/Bond/Agreement/Reserving.antt =====
-- `canReserve` and `reserve`.
use showup.Prelude.{
  ℕ, ◌+◌, ◌<◌, ◌^◌, String, true, ◌&&◌, not, is_some, Option, some, ltb, ◌≡◌, ◌↔◌, inl, inr, refl,
  sym, ◌∙◌, arith,
}
use showup.Prelude.Outcome.{returned, Outcome-cases}
use showup.Bond.Types.{Config, Event, Reservation}
use showup.Bond.Host.{HostStorage, IsStorage, Token, Invocation}
use showup.Bond.Entry.{State, is_active, reserve, reservation_of}
use showup.Bond.Effects.Seats.{reserve-Reserved}
use showup.Bond.Invariant.Closing.{some-eq}
use showup.Bond.Agreement.{
  IsDecoded, IsDecodedOption, reservation_view, IsExact, shown_number, shown_active, shown_null,
}
use showup.Contract.Mappers.{GeneratedEvent, GeneratedReservation, to_event_view}
use showup.Domain.Eligibility.{can_reserve}

module _ {S T : Type 0} (h : HostStorage S) (t : Token T) (self : String) (byte_length : String → ℕ)
    (laws : IsStorage h) (to_number : ℕ → ℕ) (exact : IsExact to_number) where
  -- The reads of `reserve` behind its writes.
  pub config_stays :
      (s : S) (i j : ℕ) (q : String) (e : Event) (r : Reservation)
      → h.read_config (h.write_reservation (h.write_event s i e) j q r) ≡ h.read_config s
  config_stays s i j q e r =
      rw (laws.config_after_reservation (h.write_event s i e) j q r) (laws.config_after_event s i e)

  can_reserve_shown :
      (now : ℕ) (e : Event) (g : GeneratedEvent) (r : Option Reservation)
      (o : Option GeneratedReservation)
      → IsDecoded e g
      → IsDecodedOption r o
      → can_reserve (to_event_view to_number g) (reservation_view to_number o) now ≡ (
          is_active e.status
          && ltb now e.checkin_deadline
          && ltb e.reserved_count e.capacity
          && not (is_some r))
  unfolding can_reserve to_event_view
  can_reserve_shown now e g r o d dr =
      rw
        (
          shown_active g.status e.status d.status,
          shown_number to_number exact g.checkin_deadline e.checkin_deadline d.checkin_deadline
              d.checkin_deadline_exact,
          d.capacity,
          d.reserved_count,
          shown_null to_number r o dr,
        )
        refl

  -- For a participant who authorizes, a stored event with a capacity of 32 bits and times that `Number`
  -- keeps, a contract with a configuration and a bond that can be transferred: `canReserve` holds of
  -- what the application is shown exactly when `reserve` returns.
  pub can_reserve_iff :
      (env : Invocation) (s : State S T) (id : ℕ) (p : String) (e : Event) (g : GeneratedEvent)
      (o : Option GeneratedReservation) (config : Config) (ledger : T)
      → env.authorized p ≡ true
      → h.read_event s.store id ≡ some e
      → e.capacity < 2 ^ 32
      → IsDecoded e g
      → IsDecodedOption (h.read_reservation s.store id p) o
      → h.read_config s.store ≡ some config
      → t.transfer s.ledger p self e.bond_amount ≡ some ledger
      → (can_reserve (to_event_view to_number g) (reservation_view to_number o) env.timestamp
          ≡ true)
        ↔ ((s' : State S T) × (reserve h t self byte_length env id p s ≡ returned s'))
  unfolding reserve
  can_reserve_iff env s id p e g o config ledger auth found bounded d dr configured pays = (
    λ offered.
        let guards =
          sym (can_reserve_shown env.timestamp e g (h.read_reservation s.store id p) o d dr)
          ∙ offered in
        elim (Outcome-cases (reserve h t self byte_length env id p s)) [
          | inl returns ↦ returns
          | inr (x, fails) ↦ absurd (
              ground (
                arith,
                guards,
                config_stays s.store e.id id p (record e { reserved_count = e.reserved_count + 1 })
                    (reservation_of id p e env.timestamp),
              ))
        ],
    λ returns.
        let c = reserve-Reserved h t self byte_length env id p s (returns.0) (returns.1) in
        let same : c.event ≡ e = some-eq (sym c.found ∙ found) in
        can_reserve_shown env.timestamp e g (h.read_reservation s.store id p) o d dr
        ∙ ground (
          arith,
          c.is_new,
          rw same at c.is_active,
          rw same at c.open_still,
          rw same at c.has_room,
        ),
  )
