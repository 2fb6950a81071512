-- ===== src/Qr/Pass/Tests.antt =====
-- A pass that is shown and scanned.
use showup.Prelude.{ℕ, ◌≤◌, String, Option, some, ◌≡◌, refl, arith}
use showup.Prelude.Int.{ℤ, pos}
use showup.Prelude.Outcome.{returned}
use showup.Domain.Schemas.{Number, whole, is_account}
use showup.Qr.Pass.{
  Entries, Parsed, object, ReservationPass, PassData, pass_schema, data_entries, encode_pass,
  decode_pass,
}
use showup.Qr.Pass.RoundTrip.{IsPass, IsPrinted, decode_pass-encode_pass, decode_pass-IsPass}

abbrev data_of : PassData
data_of = record {
  event_id = 7;
  participant = "GAAAAAAAAAAAAAAAAAAAAAAAAAAAAAAAAAAAAAAAAAAAAAAAAAAAAAAA";
  issued_at = 1700000000;
}

abbrev pass : ReservationPass
pass = record {
  event_id = pos 7;
  participant = data_of.participant;
  issued_at = whole (pos 1700000000);
}

-- A text that stands for the pass.
abbrev parse : String → Option Parsed
parse s = some (object (data_entries data_of))

abbrev stringify : Entries → String
stringify entries = "{...}"

abbrev size : String → ℕ
size s = 130

abbrev to_number : ℤ → Number
to_number n = whole n

encoded : encode_pass parse stringify size size to_number pass ≡ returned "{...}"
unfolding encode_pass pass_schema is_account
encoded = refl

printed_as :
    (d : PassData)
    → IsPrinted parse stringify size size to_number pass d
    → parse (stringify (data_entries d)) ≡ some (object (data_entries d))
unfolding pass_schema is_account
printed_as d h = ground (arith, h)

decode_pass-encode_pass_example :
    decode_pass parse stringify size size to_number "{...}" ≡ returned pass
decode_pass-encode_pass_example =
    decode_pass-encode_pass parse stringify size size to_number pass "{...}" printed_as
      (omega arith) encoded

decoded_pass : decode_pass parse stringify size size to_number "{...}" ≡ returned pass
unfolding decode_pass pass_schema is_account
decoded_pass = refl

decode_pass-IsPass_example :
    (size "{...}" ≤ 512)
    × (d : PassData) × IsPass d
    × (pass ≡ record {
      event_id = pos d.event_id;
      participant = d.participant;
      issued_at = whole (pos d.issued_at);
    })
decode_pass-IsPass_example =
    decode_pass-IsPass parse stringify size size to_number "{...}" pass decoded_pass
