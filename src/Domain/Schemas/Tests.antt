-- ===== src/Domain/Schemas/Tests.antt =====
-- A form that is filled in with a meeting, and one with more seats than the contract can count.
use showup.Prelude.{ℕ, ◌*◌, String, Option, some, List, ◌≡◌, refl}
use showup.Prelude.Int.{ℤ, pos}
use showup.Prelude.Text.{
  trim_string, cut_start, cut_end, is_space, to_decimal, emit, number, number_from, trim,
}
use showup.Domain.Schemas.{
  CreateEventInput, is_account, issues, read_fields, create_event_input, create_event_form,
}
use showup.Domain.Schemas.Filled.{as_fields, filled, create_event_form-filled}

abbrev pub draft : CreateEventInput
draft = record {
  organizer = "GAAAAAAAAAAAAAAAAAAAAAAAAAAAAAAAAAAAAAAAAAAAAAAAAAAAAAAA";
  title = "Rust";
  venue = "Hall";
  bond_amount = pos 250_000_000;
  capacity = pos 20;
  start_time = 7200;
  checkin_start = 5400;
  checkin_deadline = 10800;
  cancellation_deadline = 3600;
  organizer_bps = 8000;
  community_bps = 2000;
}

abbrev pub bytes : String → ℕ
bytes s = 4

abbrev parse_decimal : List ℕ → Option ℤ
parse_decimal s = some (pos (number s * 1000))

accepted : create_event_input bytes (as_fields draft) ≡ some draft
unfolding create_event_input read_fields is_account issues trim_string cut_start cut_end is_space
accepted = refl

pub draft_fields : read_fields bytes (as_fields draft) ≡ some draft
unfolding read_fields is_account trim_string cut_start cut_end is_space
draft_fields = refl

create_event_form-filled_example :
    create_event_form parse_decimal bytes (filled to_decimal draft) ≡ some draft
unfolding trim to_decimal emit number number_from is_space
create_event_form-filled_example =
    create_event_form-filled parse_decimal to_decimal bytes draft accepted refl refl refl refl

-- More seats than 32 bits hold pass the schema.
abbrev crowd : CreateEventInput
crowd = record draft { capacity = pos 4_294_967_296 }

crowd_accepted : create_event_input bytes (as_fields crowd) ≡ some crowd
unfolding create_event_input read_fields is_account issues trim_string cut_start cut_end is_space
crowd_accepted = refl
