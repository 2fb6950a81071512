-- ===== src/Qr/Pass/RoundTrip.antt =====
-- A pass that is encoded is read back, and what is decoded is a pass.
use showup.Prelude.{
  ℕ, ◌≤◌, ◌<◌, String, true, Option, none, some, ◌≡◌, inl, inr, refl, arith, subst, Option-cases,
}
use showup.Prelude.Int.{ℤ, pos, negsuc}
use showup.Prelude.Options.{◌>>=◌, >>=-some, require}
use showup.Prelude.Outcome.{returned}
use showup.Prelude.Text.{codes}
use showup.Domain.Schemas.{Number, whole, other, is_account, int, natural, max_safe_integer}
use showup.Qr.Pass.{
  number, text, other_value, entry, numeric, positive, account, version_field, id_field,
  participant_field, time_field, Value, Entries, Parsed, object, scalar, ReservationPass, PassData,
  pass_schema, entries_of, data_entries, is_natural, has_known_keys, encode_pass, decode_pass,
  checked, passed, decoded,
}

-- What the schema lets through.
pub record IsPass (d : PassData) : Type 0 where
  pub id_positive : 0 < d.event_id
  pub id_safe : d.event_id ≤ max_safe_integer
  pub time_safe : d.issued_at ≤ max_safe_integer
  pub of_account : is_account (codes d.participant) ≡ true

time_read :
    (v : Option Value) {k : ℕ}
    → (v >>= numeric >>= int >>= natural) ≡ some k
    → (v ≡ some (number (whole (pos k)))) × (k ≤ max_safe_integer)
time_read (some (number (whole (pos m)))) h = (ground (arith, h), ground (arith, h))
time_read (some (number (whole (negsuc m)))) h = absurd (ground (arith, h))
time_read (some (number other)) h = cc
time_read (some (text s)) h = cc
time_read (some other_value) h = cc
time_read none h = cc

id_read :
    (v : Option Value) {k : ℕ}
    → (v >>= numeric >>= int >>= natural >>= positive) ≡ some k
    → (0 < k) × (k ≤ max_safe_integer)
id_read v h =
    let (n, read, above_zero) = >>=-some (v >>= numeric >>= int >>= natural) positive h in
    let safe = (time_read v read).1 in
    (ground (arith, above_zero), ground (arith, above_zero, safe))

participant_read :
    (v : Option Value) {s : String}
    → (v >>= account) ≡ some s
    → (v ≡ some (text s)) × (is_account (codes s) ≡ true)
participant_read (some (text s)) h = (ground (arith, h), ground (arith, h))
participant_read (some (number n)) h = cc
participant_read (some other_value) h = cc
participant_read none h = cc

-- The entries that the schema read its data from.
record IsRead (entries : Entries) (d : PassData) : Type 0 where
  is_pass : IsPass d
  participant : entry "participant" entries ≡ some (text d.participant)
  issued_at : entry "issuedAt" entries ≡ some (number (whole (pos d.issued_at)))

pass_schema-IsRead :
    (entries : Entries) (d : PassData) → pass_schema entries ≡ some d → IsRead entries d
unfolding pass_schema
pass_schema-IsRead entries d h =
    let (u, u_is, h1) = >>=-some (version_field entries) _ h in
    let (event_id, e_is, h2) = >>=-some (id_field entries) _ h1 in
    let (participant, p_is, h3) = >>=-some (participant_field entries) _ h2 in
    let (issued_at, t_is, h4) = >>=-some (time_field entries) _ h3 in
    let (w, w_is, h5) = >>=-some (require (has_known_keys entries)) _ h4 in
    subst (IsRead entries) (ground (arith, h5)) (
      built event_id participant issued_at (id_read (entry "eventId" entries) e_is)
        (participant_read (entry "participant" entries) p_is)
        (time_read (entry "issuedAt" entries) t_is))
  where
    built :
        (event_id : ℕ) (participant : String) (issued_at : ℕ)
        → (0 < event_id) × (event_id ≤ max_safe_integer)
        → (entry "participant" entries ≡ some (text participant))
          × (is_account (codes participant) ≡ true)
        → (entry "issuedAt" entries ≡ some (number (whole (pos issued_at))))
          × (issued_at ≤ max_safe_integer)
        → IsRead entries
            (record { event_id = event_id; participant = participant; issued_at = issued_at })
    built event_id participant issued_at id who time = record {
      is_pass = record {
        id_positive = id.0;
        id_safe = id.1;
        time_safe = time.1;
        of_account = who.1;
      };
      participant = who.0;
      issued_at = time.0;
    }

-- The schema takes its own data back.
pass_schema-data_entries : (d : PassData) → IsPass d → pass_schema (data_entries d) ≡ some d
unfolding pass_schema
pass_schema-data_entries d h = ground (arith, h.id_positive, h.id_safe, h.time_safe, h.of_account)

is_natural-eq : (n : ℕ) (z : ℤ) → is_natural n z ≡ true → z ≡ pos n
is_natural-eq n (pos m) h = ground (arith, h)
is_natural-eq n (negsuc m) h = cc

-- The number is the rest of what the entries tell.
same_pass :
    (pass : ReservationPass) (d : PassData) (n : Number)
    → IsRead (entries_of n pass.participant pass.issued_at) d
    → pass.event_id ≡ pos d.event_id
    → pass ≡ record {
      event_id = pos d.event_id;
      participant = d.participant;
      issued_at = whole (pos d.issued_at);
    }
same_pass pass d n r id =
    let who : pass.participant ≡ d.participant = ground (arith, r.participant) in
    let time : pass.issued_at ≡ whole (pos d.issued_at) = ground (arith, r.issued_at) in
    λ i. record { event_id = id i; participant = who i; issued_at = time i }

module _ (parse : String → Option Parsed) (stringify : Entries → String) (units bytes : String → ℕ)
    (to_number : ℤ → Number) where
  checked-returned :
      (pass : ReservationPass) (o : Option PassData) (raw : String)
      → checked parse stringify units bytes to_number pass o ≡ returned raw
      → (d : PassData) × (o ≡ some d)
        × (pass.event_id ≡ pos d.event_id)
        × (raw ≡ stringify (data_entries d))
        × (bytes raw ≤ 512)
  checked-returned pass none raw h = cc
  checked-returned pass (some d) raw h = (
    d,
    refl,
    is_natural-eq d.event_id pass.event_id (ground (arith, h)),
    ground (arith, h),
    ground (arith, h),
  )

  -- The entries of a pass, as `JSON.stringify` is given them.
  abbrev pub IsPrinted : ReservationPass → PassData → Type 0
  IsPrinted pass d =
      pass_schema (entries_of (to_number pass.event_id) pass.participant pass.issued_at) ≡ some d

  -- Where `JSON.parse` reads back what `JSON.stringify` wrote for a pass, and its text has no more units
  -- than bytes: what `encodePass` returns for it, `decodePass` reads back as the same pass.
  pub decode_pass-encode_pass :
      (pass : ReservationPass) (raw : String)
      → ((d : PassData)
          → IsPrinted pass d
          → parse (stringify (data_entries d)) ≡ some (object (data_entries d)))
      → units raw ≤ bytes raw
      → encode_pass parse stringify units bytes to_number pass ≡ returned raw
      → decode_pass parse stringify units bytes to_number raw ≡ returned pass
  unfolding encode_pass decode_pass
  decode_pass-encode_pass pass raw json shorter h =
      let (d, read, id, is, fits) = checked-returned pass _ raw h in
      let r = pass_schema-IsRead _ d read in
      rw is (
        ground (
          arith,
          same_pass pass d _ r id,
          rw is at fits,
          rw is at shorter,
          json d read,
          pass_schema-data_entries d r.is_pass,
        ))

  -- A payload that `decodePass` returns a pass for has at most 512 bytes; and the pass has a positive
  -- id and a time that are safe integers, and a Stellar account.
  pub decode_pass-IsPass :
      (raw : String) (pass : ReservationPass)
      → decode_pass parse stringify units bytes to_number raw ≡ returned pass
      → (bytes raw ≤ 512)
        × (d : PassData) × IsPass d
        × (pass ≡ record {
          event_id = pos d.event_id;
          participant = d.participant;
          issued_at = whole (pos d.issued_at);
        })
  unfolding decode_pass
  decode_pass-IsPass raw pass h =
      let (entries, is) = decoded-object pass (parse raw) (ground (arith, h)) in
      elim (Option-cases (pass_schema entries)) [
        | inl e ↦ absurd (ground (arith, e, is))
        | inr (d, e) ↦
            (ground (arith, h), d, (pass_schema-IsRead entries d e).is_pass, ground (arith, e, is))
      ]
    where
      decoded-object :
          (pass : ReservationPass) (o : Option Parsed)
          → decoded parse stringify units bytes to_number o ≡ returned pass
          → (entries : Entries) × (passed parse stringify units bytes to_number
                (pass_schema entries)
              ≡ returned pass)
      decoded-object pass none h = cc
      decoded-object pass (some scalar) h = cc
      decoded-object pass (some (object entries)) h = (entries, h)
