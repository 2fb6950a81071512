-- ===== src/Domain/Schemas.antt =====
-- apps/web/lib/domain/schemas.ts: the schemas of the create-event form, as the values they accept.
-- `byte_length` is the length of a text under `TextEncoder`, and `date_parse` is `Date.parse`, with
-- `none` for `NaN`.
pub mod Fields
pub mod Filled
pub mod Tests
use showup.Prelude.{
  ℕ, ◌+◌, String, Bool, true, false, ◌&&◌, ◌||◌, not, Option, none, some, List, [], ◌∷◌, ◌++◌,
  length, all, ltb, leb, ◌==◌, str_eq, if◌then◌else◌,
}
use showup.Prelude.Int.{ℤ, pos, negsuc, leb_ℤ, floor_quotient}
use showup.Prelude.Options.{◌>>=◌, ◌>>◌, require}
use showup.Prelude.Outcome.{Outcome, returned, thrown}
use showup.Prelude.Text.{codes, trim, trim_string, number}
use showup.Domain.Amounts.{AmountError, total_bps, some_digits, to_stroops}

-- A `number`: whole, or a fraction, `NaN` or an infinity.
pub data Number : Type 0 where
  whole : ℤ → Number
  other : Number

-- `MAX_TITLE_LENGTH` and `MAX_VENUE_LENGTH`.
abbrev pub max_title_length : ℕ
max_title_length = 96

abbrev pub max_venue_length : ℕ
max_venue_length = 160

-- `Number.MAX_SAFE_INTEGER`.
abbrev pub max_safe_integer : ℕ
max_safe_integer = 9_007_199_254_740_991

-- `z.number().int()`, which takes safe integers only.
abbrev pub is_safe : ℤ → Bool
is_safe (pos n) = leb n max_safe_integer
is_safe (negsuc n) = ltb n max_safe_integer

abbrev pub int : Number → Option ℤ
int other = none
int (whole n) = if is_safe n then some n else none

-- `.nonnegative()` and `.min(0)`.
abbrev pub natural : ℤ → Option ℕ
natural (pos n) = some n
natural (negsuc n) = none

-- `unixSeconds`.
abbrev pub unix_seconds : Number → Option ℕ
unix_seconds n = int n >>= natural

-- `basisPoints`.
abbrev pub basis_points : Number → Option ℕ
basis_points n = int n >>= natural >>= λ bps. if leb bps total_bps then some bps else none

-- `STELLAR_ACCOUNT_PATTERN`.
abbrev is_base32 : ℕ → Bool
is_base32 c = leb b'A' c && leb c b'Z' || leb b'2' c && leb c b'7'

unfoldable pub is_account : List ℕ → Bool
is_account [] = false
is_account (c ∷ s) = c == b'G' && length s == 55 && all is_base32 s

-- `organizerAddress`.
abbrev pub organizer_address : String → Option String
organizer_address s =
    let trimmed = trim_string s in if is_account (codes trimmed) then some trimmed else none

-- What the schema reads: `z.input<typeof createEventInputSchema>`.
pub record EventFields : Type 0 where
  pub organizer : String
  pub title : String
  pub venue : String
  pub bond_amount : ℤ
  pub capacity : Number
  pub start_time : Number
  pub checkin_start : Number
  pub checkin_deadline : Number
  pub cancellation_deadline : Number
  pub organizer_bps : Number
  pub community_bps : Number

-- `CreateEventInput`, with the numbers that the schema lets through.
pub record CreateEventInput : Type 0 where
  pub organizer : String
  pub title : String
  pub venue : String
  pub bond_amount : ℤ
  pub capacity : ℤ
  pub start_time : ℕ
  pub checkin_start : ℕ
  pub checkin_deadline : ℕ
  pub cancellation_deadline : ℕ
  pub organizer_bps : ℕ
  pub community_bps : ℕ

-- The issues that `superRefine` adds, by path.
pub data Issue : Type 0 where
  on_bond_amount on_capacity on_community_bps on_cancellation_deadline on_checkin_deadline
        on_start_time :
      Issue

abbrev pub issue_if : Bool → Issue → List Issue
issue_if b issue = if b then issue ∷ [] else []

-- `superRefine`.
unfoldable pub issues : CreateEventInput → List Issue
issues value =
    issue_if (leb_ℤ value.bond_amount (pos 0)) on_bond_amount
    ++ (issue_if (leb_ℤ value.capacity (pos 0)) on_capacity
        ++ (issue_if (not (value.organizer_bps + value.community_bps == total_bps)) on_community_bps
            ++ (issue_if (ltb value.checkin_start value.cancellation_deadline)
                  on_cancellation_deadline
                ++ (issue_if (ltb value.checkin_deadline value.checkin_start) on_checkin_deadline
                    ++ issue_if
                        (ltb value.start_time value.checkin_start
                          || ltb value.checkin_deadline value.start_time)
                        on_start_time))))

abbrev pub is_none : List Issue → Bool
is_none [] = true
is_none (issue ∷ more) = false

module _ (byte_length : String → ℕ) where
  -- `boundedText`.
  abbrev pub bounded_text : ℕ → String → Option String
  bounded_text max_bytes s =
      let trimmed = trim_string s in
      if str_eq trimmed "" || ltb max_bytes (byte_length trimmed) then none else some trimmed

  -- The fields of `createEventInputSchema`.
  unfoldable pub read_fields : EventFields → Option CreateEventInput
  read_fields value = do
    organizer ← organizer_address value.organizer
    title ← bounded_text max_title_length value.title
    venue ← bounded_text max_venue_length value.venue
    capacity ← int value.capacity
    start_time ← unix_seconds value.start_time
    checkin_start ← unix_seconds value.checkin_start
    checkin_deadline ← unix_seconds value.checkin_deadline
    cancellation_deadline ← unix_seconds value.cancellation_deadline
    organizer_bps ← basis_points value.organizer_bps
    community_bps ← basis_points value.community_bps
    some (record {
      organizer = organizer;
      title = title;
      venue = venue;
      bond_amount = value.bond_amount;
      capacity = capacity;
      start_time = start_time;
      checkin_start = checkin_start;
      checkin_deadline = checkin_deadline;
      cancellation_deadline = cancellation_deadline;
      organizer_bps = organizer_bps;
      community_bps = community_bps;
    })

  -- `createEventInputSchema`: the value that it parses to.
  unfoldable pub create_event_input : EventFields → Option CreateEventInput
  create_event_input value = do
    input ← read_fields value
    require (is_none (issues input))
    some input

-- What the form collects; amounts, counts and times are texts.
pub record CreateEventFormValues : Type 0 where
  pub organizer : String
  pub title : String
  pub venue : String
  pub bond_amount : List ℕ
  pub capacity : List ℕ
  pub start_time : List ℕ
  pub checkin_start : List ℕ
  pub checkin_deadline : List ℕ
  pub cancellation_deadline : List ℕ
  pub organizer_bps : List ℕ
  pub community_bps : List ℕ

abbrev amount_of : Outcome AmountError ℤ → Option ℤ
amount_of (returned amount) = some amount
amount_of (thrown e) = none

-- `displayAmountField`.
abbrev pub display_amount_field : List ℕ → Option ℤ
display_amount_field s = amount_of (to_stroops (trim s))

-- `wholeNumberField`. `Number` rounds from 2 ^ 53 on, to a number that is no safe integer either.
abbrev pub whole_number_field : List ℕ → Option Number
whole_number_field s =
    let trimmed = trim s in
    if some_digits trimmed then some (whole (pos (number trimmed))) else none

module _ (date_parse : List ℕ → Option ℤ) where
  -- `isoDateTimeField`.
  abbrev pub iso_date_time_field : List ℕ → Option Number
  iso_date_time_field s =
      date_parse (trim s) >>= λ millis. some (whole (floor_quotient millis 1000))

  -- `createEventFormSchema`.
  unfoldable pub create_event_form : (String → ℕ) → CreateEventFormValues → Option CreateEventInput
  create_event_form byte_length values = do
    organizer ← organizer_address values.organizer
    title ← bounded_text byte_length max_title_length values.title
    venue ← bounded_text byte_length max_venue_length values.venue
    bond_amount ← display_amount_field values.bond_amount
    capacity ← whole_number_field values.capacity
    start_time ← iso_date_time_field values.start_time
    checkin_start ← iso_date_time_field values.checkin_start
    checkin_deadline ← iso_date_time_field values.checkin_deadline
    cancellation_deadline ← iso_date_time_field values.cancellation_deadline
    organizer_bps ← whole_number_field values.organizer_bps
    community_bps ← whole_number_field values.community_bps
    create_event_input byte_length (record {
      organizer = organizer;
      title = title;
      venue = venue;
      bond_amount = bond_amount;
      capacity = capacity;
      start_time = start_time;
      checkin_start = checkin_start;
      checkin_deadline = checkin_deadline;
      cancellation_deadline = cancellation_deadline;
      organizer_bps = organizer_bps;
      community_bps = community_bps;
    })
