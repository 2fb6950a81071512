-- ===== src/Qr/Pass.antt =====
-- apps/web/lib/qr/payload.ts: the reservation pass in a QR code. `JSON.parse` and `JSON.stringify`, the
-- lengths of a text in UTF-16 units and in UTF-8 bytes, and `Number` on a bigint are parameters.
pub mod RoundTrip
mod Tests
use showup.Prelude.{
  ℕ, String, Bool, true, false, ◌&&◌, ◌||◌, not, Option, none, some, List, [], ◌∷◌, ltb, leb, ◌==◌,
  str_eq, if◌then◌else◌,
}
use showup.Prelude.Int.{ℤ, pos, negsuc, ◌-ℤ◌, ltb_ℤ}
use showup.Prelude.Options.{◌>>=◌, ◌>>◌, require}
use showup.Prelude.Outcome.{Outcome, returned, thrown}
use showup.Prelude.Text.{codes}
use showup.Domain.Schemas.{Number, whole, other, is_account, int, natural}

-- A parsed text, as far as the schema looks at it: the entries of an object, which has each key once,
-- or anything else.
pub data Value : Type 0 where
  number : Number → Value
  text : String → Value
  other_value : Value

abbrev pub Entries : Type 0
Entries = List (String × Value)

pub data Parsed : Type 0 where
  object : Entries → Parsed
  scalar : Parsed

-- `MAX_PASS_BYTES` and `PASS_STALE_AFTER_SECONDS`.
abbrev pub max_pass_bytes : ℕ
max_pass_bytes = 512

abbrev pub pass_stale_after_seconds : ℕ
pass_stale_after_seconds = 300

-- `QrPayloadErrorKind`.
pub data QrPayloadError : Type 0 where
  too_large malformed invalid : QrPayloadError

-- `ReservationPass`, but for `v`, which is 1.
pub record ReservationPass : Type 0 where
  pub event_id : ℤ
  pub participant : String
  pub issued_at : Number

abbrev pub entry : String → Entries → Option Value
entry key [] = none
entry key ((k, v) ∷ entries) = if str_eq k key then some v else entry key entries

abbrev is_key : String → Bool
is_key k = str_eq k "v" || str_eq k "eventId" || str_eq k "participant" || str_eq k "issuedAt"

-- `.strict()`: no key but those of the schema.
abbrev pub has_known_keys : Entries → Bool
has_known_keys [] = true
has_known_keys ((k, v) ∷ entries) = is_key k && has_known_keys entries

abbrev pub numeric : Value → Option Number
numeric (number n) = some n
numeric _ = none

-- `z.literal(1)`.
abbrev pub one : ℤ → Option (Unit {0})
one (pos n) = require (n == 1)
one (negsuc n) = none

-- `.positive()`.
abbrev pub positive : ℕ → Option ℕ
positive n = if ltb 0 n then some n else none

abbrev pub account : Value → Option String
account (text s) = if is_account (codes s) then some s else none
account _ = none

-- What `passSchema` parses to.
pub record PassData : Type 0 where
  pub event_id : ℕ
  pub participant : String
  pub issued_at : ℕ

abbrev pub version_field : Entries → Option (Unit {0})
version_field entries = entry "v" entries >>= numeric >>= int >>= one

abbrev pub id_field : Entries → Option ℕ
id_field entries = entry "eventId" entries >>= numeric >>= int >>= natural >>= positive

abbrev pub participant_field : Entries → Option String
participant_field entries = entry "participant" entries >>= account

abbrev pub time_field : Entries → Option ℕ
time_field entries = entry "issuedAt" entries >>= numeric >>= int >>= natural

-- `passSchema`.
unfoldable pub pass_schema : Entries → Option PassData
pass_schema entries = do
  version_field entries
  event_id ← id_field entries
  participant ← participant_field entries
  issued_at ← time_field entries
  require (has_known_keys entries)
  some (record { event_id = event_id; participant = participant; issued_at = issued_at })

abbrev pub entries_of : Number → String → Number → Entries
entries_of event_id participant issued_at =
    ("v", number (whole (pos 1)))
    ∷ ("eventId", number event_id)
    ∷ ("participant", text participant)
    ∷ ("issuedAt", number issued_at)
    ∷ []

abbrev pub data_entries : PassData → Entries
data_entries d = entries_of (whole (pos d.event_id)) d.participant (whole (pos d.issued_at))

-- `BigInt(eventId) === pass.eventId`.
abbrev pub is_natural : ℕ → ℤ → Bool
is_natural n (pos m) = n == m
is_natural n (negsuc m) = false

module _ (parse : String → Option Parsed) (stringify : Entries → String) (units bytes : String → ℕ)
    (to_number : ℤ → Number) where
  abbrev pub printed : String → Outcome QrPayloadError String
  printed encoded =
      if ltb max_pass_bytes (bytes encoded) then thrown too_large else returned encoded

  abbrev pub checked : ReservationPass → Option PassData → Outcome QrPayloadError String
  checked pass none = thrown invalid
  checked pass (some d) =
      if is_natural d.event_id pass.event_id
      then printed (stringify (data_entries d))
      else thrown invalid

  -- `encodePass`.
  unfoldable pub encode_pass : ReservationPass → Outcome QrPayloadError String
  encode_pass pass =
      checked pass
        (pass_schema (entries_of (to_number pass.event_id) pass.participant pass.issued_at))

  abbrev pub passed : Option PassData → Outcome QrPayloadError ReservationPass
  passed none = thrown invalid
  passed (some d) = returned (record {
    event_id = pos d.event_id;
    participant = d.participant;
    issued_at = whole (pos d.issued_at);
  })

  abbrev pub decoded : Option Parsed → Outcome QrPayloadError ReservationPass
  decoded none = thrown malformed
  decoded (some scalar) = thrown invalid
  decoded (some (object entries)) = passed (pass_schema entries)

  -- `decodePass`.
  unfoldable pub decode_pass : String → Outcome QrPayloadError ReservationPass
  decode_pass raw =
      if ltb max_pass_bytes (units raw) || ltb max_pass_bytes (bytes raw)
      then thrown too_large
      else decoded (parse raw)

-- `isPassStale`, on a pass whose time is a whole number.
unfoldable pub is_pass_stale : ℤ → ℤ → ℤ → Bool
is_pass_stale issued_at now_seconds max_age_seconds =
    ltb_ℤ now_seconds issued_at || ltb_ℤ max_age_seconds (now_seconds -ℤ issued_at)
