-- ===== src/Domain/Schemas/Filled.antt =====
-- The form filled in with a value that the schema accepts.
use showup.Prelude.{ℕ, ◌*◌, ◌/◌, String, true, Option, some, List, ◌≡◌, refl, sym, ◌∙◌, ap, arith}
use showup.Prelude.Int.{ℤ, pos, above}
use showup.Prelude.Options.{>>=-some, >>=-step, require, require-some}
use showup.Prelude.Text.{
  trim, trim-of_none, to_decimal, to_decimal-digits, to_decimal_pos, number-to_decimal,
}
use showup.Domain.Amounts.{from_stroops}
use showup.Domain.Amounts.RoundTrip.{
  to_stroops-from_stroops, from_stroops-not_space, to_decimal-not_space, not_empty,
}
use showup.Domain.Schemas.Fields.{read_fields-FieldsRead}
use showup.Domain.Schemas.{
  whole, EventFields, CreateEventInput, CreateEventFormValues, issues, is_none, read_fields,
  create_event_input, display_amount_field, whole_number_field, iso_date_time_field,
  create_event_form,
}

-- An input as what the schema reads.
abbrev pub as_fields : CreateEventInput → EventFields
as_fields input = record {
  organizer = input.organizer;
  title = input.title;
  venue = input.venue;
  bond_amount = input.bond_amount;
  capacity = whole input.capacity;
  start_time = whole (pos input.start_time);
  checkin_start = whole (pos input.checkin_start);
  checkin_deadline = whole (pos input.checkin_deadline);
  cancellation_deadline = whole (pos input.cancellation_deadline);
  organizer_bps = whole (pos input.organizer_bps);
  community_bps = whole (pos input.community_bps);
}

-- An input as what the form collects; `show_date` prints a time.
abbrev pub filled : (ℕ → List ℕ) → CreateEventInput → CreateEventFormValues
filled show_date input = record {
  organizer = input.organizer;
  title = input.title;
  venue = input.venue;
  bond_amount = from_stroops input.bond_amount;
  capacity = to_decimal (above input.capacity);
  start_time = show_date input.start_time;
  checkin_start = show_date input.checkin_start;
  checkin_deadline = show_date input.checkin_deadline;
  cancellation_deadline = show_date input.cancellation_deadline;
  organizer_bps = to_decimal input.organizer_bps;
  community_bps = to_decimal input.community_bps;
}

whole_number_field-to_decimal : (n : ℕ) → whole_number_field (to_decimal n) ≡ some (whole (pos n))
whole_number_field-to_decimal n =
    rw
      (
        trim-of_none (to_decimal n) (to_decimal-not_space n),
        to_decimal-digits n,
        not_empty (to_decimal n) (to_decimal_pos n),
        number-to_decimal n,
      )
      refl

display_amount_field-from_stroops :
    (amount : ℤ) → display_amount_field (from_stroops amount) ≡ some amount
display_amount_field-from_stroops amount =
    rw
      (
        trim-of_none (from_stroops amount) (from_stroops-not_space amount),
        to_stroops-from_stroops amount,
      )
      refl

-- `Date.parse` reads the text that is shown for `t` as the milliseconds of `t`.
abbrev pub IsShown : (List ℕ → Option ℤ) → (ℕ → List ℕ) → ℕ → Type 0
IsShown date_parse show_date t = date_parse (trim (show_date t)) ≡ some (pos (t * 1000))

iso_date_time_field-shown :
    (date_parse : List ℕ → Option ℤ) (show_date : ℕ → List ℕ) (t : ℕ)
    → IsShown date_parse show_date t
    → iso_date_time_field date_parse (show_date t) ≡ some (whole (pos t))
iso_date_time_field-shown date_parse show_date t shown =
    rw shown (ap (λ n. some (whole (pos n))) back)
  where
    back : t * 1000 / 1000 ≡ t
    back = omega arith

capacity_pos :
    (input : CreateEventInput)
    → is_none (issues input) ≡ true
    → input.capacity ≡ pos (above input.capacity)
unfolding issues
capacity_pos input h = ground arith

-- A form that is filled in with an input that the schema accepts as it stands, its amounts and counts
-- printed and its times as the browser shows them, is read back as that input, where the browser reads
-- the shown times back.
pub create_event_form-filled :
    (date_parse : List ℕ → Option ℤ) (show_date : ℕ → List ℕ) (byte_length : String → ℕ)
    (input : CreateEventInput)
    → create_event_input byte_length (as_fields input) ≡ some input
    → IsShown date_parse show_date input.start_time
    → IsShown date_parse show_date input.checkin_start
    → IsShown date_parse show_date input.checkin_deadline
    → IsShown date_parse show_date input.cancellation_deadline
    → create_event_form date_parse byte_length (filled show_date input) ≡ some input
unfolding create_event_form create_event_input
create_event_form-filled date_parse show_date byte_length input accepted starts opens closes
      cancels =
    let (same, read, h) = >>=-some (read_fields byte_length (as_fields input)) _ accepted in
    let (u, complete, is) = >>=-some (require (is_none (issues same))) _ h in
    let kept = read_fields-FieldsRead byte_length (as_fields input) input (rw is at read) in
    let unchanged : same ≡ input = ground (arith, is) in
    let positive = capacity_pos input (rw unchanged at (require-some _ complete)) in
    >>=-step _ kept.organizer
    ∙ (>>=-step _ kept.title
        ∙ (>>=-step _ kept.venue
            ∙ (>>=-step _ (display_amount_field-from_stroops input.bond_amount)
                ∙ (>>=-step _ (whole_number_field-to_decimal (above input.capacity))
                    ∙ (>>=-step _ (iso_date_time_field-shown date_parse show_date _ starts)
                        ∙ (>>=-step _ (iso_date_time_field-shown date_parse show_date _ opens)
                            ∙ (>>=-step _ (iso_date_time_field-shown date_parse show_date _ closes)
                                ∙ (>>=-step _
                                      (iso_date_time_field-shown date_parse show_date _ cancels)
                                    ∙ (>>=-step _
                                          (whole_number_field-to_decimal input.organizer_bps)
                                        ∙ (>>=-step _
                                              (whole_number_field-to_decimal input.community_bps)
                                            ∙ (ap
                                                  (λ c.
                                                    create_event_input byte_length
                                                      (record (as_fields input) {
                                                        capacity = whole c;
                                                      }))
                                                  (sym positive)
                                                ∙ accepted)))))))))))
