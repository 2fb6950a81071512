-- ===== src/Bond/Agreement/Creating.antt =====
-- The schema of apps/web/lib/domain/schemas.ts and `create_event`.
use showup.Prelude.{
  ℕ, ◌+◌, ◌<◌, ◌≤◌, ◌^◌, String, true, some, ◌≡◌, ◌↔◌, inl, inr, refl, sym, ◌∙◌, arith,
}
use showup.Prelude.Int.{pos}
use showup.Prelude.Options.{>>=-some, >>=-step, require, require-some}
use showup.Prelude.Outcome.{returned, Outcome-cases}
use showup.Bond.Host.{HostStorage, Token, Invocation}
use showup.Bond.Entry.{State, NewEvent, create_event}
use showup.Contract.Mappers.{CreateEventArgs, to_create_event_args}
use showup.Domain.Schemas.Fields.{read_fields-FieldsRead, bounded_text-bounds, basis_points-bounds}
use showup.Domain.Schemas.{
  EventFields, CreateEventInput, issues, is_none, read_fields, create_event_input,
}

-- The bindings pass the arguments on, as values of the contract's types.
pub record IsEncoded (args : CreateEventArgs) (new : NewEvent) : Type 0 where
  pub organizer : new.organizer ≡ args.organizer
  pub title : new.title ≡ args.title
  pub venue : new.venue ≡ args.venue
  pub bond_amount : new.bond_amount ≡ args.bond_amount
  pub capacity : pos new.capacity ≡ args.capacity
  pub start_time : new.start_time ≡ args.start_time
  pub checkin_start : new.checkin_start ≡ args.checkin_start
  pub checkin_deadline : new.checkin_deadline ≡ args.checkin_deadline
  pub cancellation_deadline : new.cancellation_deadline ≡ args.cancellation_deadline
  pub organizer_bps : new.organizer_bps ≡ args.organizer_bps
  pub community_bps : new.community_bps ≡ args.community_bps

module _ (byte_length : String → ℕ) where
  accepted_iff :
      (value : EventFields) (input : CreateEventInput)
      → read_fields byte_length value ≡ some input
      → (create_event_input byte_length value ≡ some input) ↔ (is_none (issues input) ≡ true)
  unfolding create_event_input
  accepted_iff value input fields = (
    λ accepted.
        let (u, complete, is) =
          >>=-some (require (is_none (issues input))) (λ u. some input)
            (sym (>>=-step _ fields) ∙ accepted) in
        require-some _ complete,
    λ complete. >>=-step _ fields ∙ rw complete refl,
  )

  module _ {S T : Type 0} (h : HostStorage S) (t : Token T) (self : String) (env : Invocation)
      (s : State S T) (new : NewEvent) (count : ℕ) where
    guards_iff :
        (input : CreateEventInput)
        → IsEncoded (to_create_event_args input) new
        → byte_length input.title ≤ 96
        → byte_length input.venue ≤ 160
        → input.organizer_bps ≤ 10000
        → input.community_bps ≤ 10000
        → env.authorized new.organizer ≡ true
        → h.read_count s.store ≡ some count
        → count + 1 < 2 ^ 64
        → (is_none (issues input) ≡ true)
          ↔ ((out : State S T × ℕ) × (create_event h t self byte_length env new s ≡ returned out))
    unfolding create_event to_create_event_args issues
    guards_iff input c title venue share rest auth counted fits = (
      λ complete. elim (Outcome-cases (create_event h t self byte_length env new s)) [
        | inl returns ↦ returns
        | inr (x, fails) ↦ absurd (
            ground (
              arith, complete, fails, c.title, c.venue, c.bond_amount, c.capacity, c.start_time,
              c.checkin_start, c.checkin_deadline, c.cancellation_deadline, c.organizer_bps,
              c.community_bps,
            ))
      ],
      λ (out, ran). ground (
        arith, ran, c.title, c.venue, c.bond_amount, c.capacity, c.start_time, c.checkin_start,
        c.checkin_deadline, c.cancellation_deadline, c.organizer_bps, c.community_bps,
      ),
    )

    -- For an input whose fields are well-formed and can be passed on to the contract, that is the bond is
    -- an i128, the capacity and the basis points are u32 and the times are u64, with the organizer's
    -- authorization and room in the count of events: the schema accepts it exactly when `create_event`
    -- returns.
    pub create_event_input_iff :
        (value : EventFields) (input : CreateEventInput)
        → read_fields byte_length value ≡ some input
        → IsEncoded (to_create_event_args input) new
        → env.authorized new.organizer ≡ true
        → h.read_count s.store ≡ some count
        → count + 1 < 2 ^ 64
        → (create_event_input byte_length value ≡ some input)
          ↔ ((out : State S T × ℕ) × (create_event h t self byte_length env new s ≡ returned out))
    create_event_input_iff value input fields encoded auth counted fits =
        let read = read_fields-FieldsRead byte_length value input fields in
        let (to, from) = accepted_iff value input fields in
        let (runs, holds) =
          guards_iff input encoded (bounded_text-bounds byte_length _ _ read.title)
            (bounded_text-bounds byte_length _ _ read.venue)
            (basis_points-bounds value.organizer_bps read.organizer_bps)
            (basis_points-bounds value.community_bps read.community_bps) auth counted fits in
        (λ accepted. runs (to accepted), λ returns. from (holds returns))
