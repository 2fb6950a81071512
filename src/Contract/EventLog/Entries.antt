-- ===== src/Contract/EventLog/Entries.antt =====
-- The raw events of one page mapped onto the application's: `mapEvent` and the loop that filters.
use showup.Prelude.{
  ℕ, String, Bool, false, not, Option, none, some, List, [], ◌∷◌, str_eq, ◌==◌, if◌then◌else◌,
}
use showup.Prelude.Int.{ℤ, pos}
use showup.Prelude.Outcome.{Outcome, returned, thrown, ◌>>=◌}
use showup.Anchor.Json.{JsNumber}

-- A property of a parsed event: a bigint, a number, a string, or anything else.
pub data Value : Type 0 where
  bigint : ℤ → Value
  number : JsNumber → Value
  text : String → Value
  other : Value

-- `data: Record<string, unknown>`.
pub data Data : Type 0 where
  end : Data
  prop : String → Value → Data → Data

-- What this layer throws, or the RPC server's error.
pub data LogFailure : Type 0 where
  not_bigint : String → LogFailure
  not_number : String → LogFailure
  not_text : String → LogFailure
  same_cursor_twice : LogFailure
  rpc : String → LogFailure

-- `EventLogMetadata`.
pub record Metadata : Type 0 where
  pub id : String
  pub ledger : ℕ
  pub ledger_closed_at : String
  pub transaction_index : ℕ
  pub operation_index : ℕ
  pub tx_hash : String

-- The kinds that carry a participant and an amount.
pub data SeatKind : Type 0 where
  bond_locked reservation_cancelled checked_in refund_claimed : SeatKind

-- `ShowUpContractEvent`: metadata, event id and what the kind adds.
pub data ShowUpContractEvent : Type 0 where
  event_created : Metadata → ℤ → String → ℤ → JsNumber → ShowUpContractEvent
  seat_event : SeatKind → Metadata → ℤ → String → ℤ → ShowUpContractEvent
  event_cancelled : Metadata → ℤ → String → ShowUpContractEvent
  no_show_settled : Metadata → ℤ → String → ℤ → ℤ → ShowUpContractEvent

-- `ParsedEvent`.
pub record ParsedEvent : Type 0 where
  pub name : String
  pub fields : Data

-- An event of a page, with what the contract spec's `parseEvent` gives for its topic and value.
pub record RawEvent : Type 0 where
  pub metadata : Metadata
  pub in_successful_contract_call : Bool
  pub parsed : Option ParsedEvent

abbrev pub find : String → Data → Value
find key end = other
find key (prop name v rest) = if str_eq name key then v else find key rest

abbrev bigint_or : String → Value → Outcome LogFailure ℤ
bigint_or key (bigint n) = returned n
bigint_or key _ = thrown (not_bigint key)

abbrev number_or : String → Value → Outcome LogFailure JsNumber
number_or key (number n) = if n.is_finite then returned n else thrown (not_number key)
number_or key _ = thrown (not_number key)

abbrev text_or : String → Value → Outcome LogFailure String
text_or key (text s) = if str_eq s "" then thrown (not_text key) else returned s
text_or key _ = thrown (not_text key)

-- `requireBigInt`, `requireNumber` and `requireString`.
unfoldable pub require_big_int : Data → String → Outcome LogFailure ℤ
require_big_int fields key = bigint_or key (find key fields)

unfoldable pub require_number : Data → String → Outcome LogFailure JsNumber
require_number fields key = number_or key (find key fields)

unfoldable pub require_string : Data → String → Outcome LogFailure String
require_string fields key = text_or key (find key fields)

-- The four cases that carry a participant and an amount.
abbrev pub map_seat : SeatKind → Metadata → Data → Outcome LogFailure (Option ShowUpContractEvent)
map_seat kind m d = require_big_int d "event_id" >>= λ id. require_string d "participant" >>= λ p.
    require_big_int d "amount" >>= λ amount. returned (some (seat_event kind m id p amount))

abbrev pub map_created : Metadata → Data → Outcome LogFailure (Option ShowUpContractEvent)
map_created m d = require_big_int d "event_id" >>= λ id. require_string d "organizer" >>= λ o.
    require_big_int d "bond_amount" >>= λ bond.
    require_number d "capacity" >>= λ capacity. returned (some (event_created m id o bond capacity))

abbrev pub map_cancelled : Metadata → Data → Outcome LogFailure (Option ShowUpContractEvent)
map_cancelled m d = require_big_int d "event_id" >>= λ id.
    require_string d "organizer" >>= λ o. returned (some (event_cancelled m id o))

abbrev pub map_settled : Metadata → Data → Outcome LogFailure (Option ShowUpContractEvent)
map_settled m d = require_big_int d "event_id" >>= λ id. require_string d "participant" >>= λ p.
    require_big_int d "organizer_amount" >>= λ o.
    require_big_int d "community_amount" >>= λ c. returned (some (no_show_settled m id p o c))

-- `mapEvent`: an unknown name is no error.
unfoldable pub map_event : Metadata → ParsedEvent → Outcome LogFailure (Option ShowUpContractEvent)
map_event m e =
    if str_eq e.name "EventCreated"
    then map_created m e.fields
    else if str_eq e.name "BondLocked"
    then map_seat bond_locked m e.fields
    else if str_eq e.name "ReservationCancelled"
    then map_seat reservation_cancelled m e.fields
    else if str_eq e.name "CheckedIn"
    then map_seat checked_in m e.fields
    else if str_eq e.name "EventCancelled"
    then map_cancelled m e.fields
    else if str_eq e.name "RefundClaimed"
    then map_seat refund_claimed m e.fields
    else if str_eq e.name "NoShowSettled"
    then map_settled m e.fields
    else returned none

abbrev pub event_id_of : ShowUpContractEvent → ℤ
event_id_of (event_created m id o b c) = id
event_id_of (seat_event k m id p a) = id
event_id_of (event_cancelled m id o) = id
event_id_of (no_show_settled m id p o c) = id

-- `===` on a bigint and an event id, which is not negative.
abbrev pub same_id : ℤ → ℕ → Bool
same_id (pos n) id = n == id
same_id _ id = false

abbrev pub kept : ℕ → Option ShowUpContractEvent → Option ShowUpContractEvent
kept id none = none
kept id (some e) = if same_id (event_id_of e) id then some e else none

abbrev pub mapped_entry :
    ℕ → Metadata → Option ParsedEvent → Outcome LogFailure (Option ShowUpContractEvent)
mapped_entry id m none = returned none
mapped_entry id m (some p) = map_event m p >>= λ e. returned (kept id e)

-- The body of the loop over the raw events: the entry that one of them adds, if any.
unfoldable pub entry_of : ℕ → RawEvent → Outcome LogFailure (Option ShowUpContractEvent)
entry_of id raw =
    if not raw.in_successful_contract_call
    then returned none
    else mapped_entry id raw.metadata raw.parsed

abbrev pub push : Option ShowUpContractEvent → List ShowUpContractEvent → List ShowUpContractEvent
push none es = es
push (some e) es = e ∷ es

-- The loop.
unfoldable pub entries_of : ℕ → List RawEvent → Outcome LogFailure (List ShowUpContractEvent)
entries_of id [] = returned []
entries_of id (raw ∷ raws) =
    entry_of id raw >>= λ e. entries_of id raws >>= λ es. returned (push e es)
