-- ===== src/Domain/Schemas/Fields.antt =====
-- What an input says of the fields that it was read from.
use showup.Prelude.{ℕ, ◌≤◌, String, some, ◌≡◌, arith}
use showup.Prelude.Options.{>>=-some}
use showup.Domain.Schemas.{
  Number, whole, other, EventFields, CreateEventInput, max_title_length, max_venue_length,
  organizer_address, bounded_text, int, unix_seconds, basis_points, read_fields,
}

pub record FieldsRead (byte_length : String → ℕ) (value : EventFields) (input : CreateEventInput)
    : Type 0 where
  pub organizer : organizer_address value.organizer ≡ some input.organizer
  pub title : bounded_text byte_length max_title_length value.title ≡ some input.title
  pub venue : bounded_text byte_length max_venue_length value.venue ≡ some input.venue
  pub organizer_bps : basis_points value.organizer_bps ≡ some input.organizer_bps
  pub community_bps : basis_points value.community_bps ≡ some input.community_bps

pub read_fields-FieldsRead :
    (byte_length : String → ℕ) (value : EventFields) (input : CreateEventInput)
    → read_fields byte_length value ≡ some input
    → FieldsRead byte_length value input
unfolding read_fields
read_fields-FieldsRead byte_length value input h =
    let (organizer, o_is, h1) = >>=-some (organizer_address value.organizer) _ h in
    let (title, t_is, h2) = >>=-some (bounded_text byte_length max_title_length value.title) _ h1 in
    let (venue, v_is, h3) = >>=-some (bounded_text byte_length max_venue_length value.venue) _ h2 in
    let (capacity, c_is, h4) = >>=-some (int value.capacity) _ h3 in
    let (start, s_is, h5) = >>=-some (unix_seconds value.start_time) _ h4 in
    let (opens, b_is, h6) = >>=-some (unix_seconds value.checkin_start) _ h5 in
    let (closes, d_is, h7) = >>=-some (unix_seconds value.checkin_deadline) _ h6 in
    let (cancels, x_is, h8) = >>=-some (unix_seconds value.cancellation_deadline) _ h7 in
    let (share, y_is, h9) = >>=-some (basis_points value.organizer_bps) _ h8 in
    let (rest, z_is, h10) = >>=-some (basis_points value.community_bps) _ h9 in
    record {
      organizer = ground (arith, o_is, h10);
      title = ground (arith, t_is, h10);
      venue = ground (arith, v_is, h10);
      organizer_bps = ground (arith, y_is, h10);
      community_bps = ground (arith, z_is, h10);
    }

pub bounded_text-bounds :
    (byte_length : String → ℕ) (bound : ℕ) (s : String) {t : String}
    → bounded_text byte_length bound s ≡ some t
    → byte_length t ≤ bound
bounded_text-bounds byte_length bound s h = ground arith

pub basis_points-bounds : (n : Number) {bps : ℕ} → basis_points n ≡ some bps → bps ≤ 10000
basis_points-bounds other h = cc
basis_points-bounds (whole n) h = ground arith
