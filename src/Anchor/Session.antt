-- ===== src/Anchor/Session.antt =====
-- apps/web/lib/anchor/session.ts: the deposit that survives a reload, in `sessionStorage`.
pub mod Laws
mod Tests
use showup.Prelude.{
  ℕ, String, Bool, true, false, ◌&&◌, ◌||◌, not, Option, none, some, str_eq, is_truthy, coalesce,
  if◌then◌else◌,
}
use showup.Anchor.Json.{Json, str, Fields, end, field, get, as_object}

-- `PersistedDeposit`.
pub record PersistedDeposit : Type 0 where
  pub deposit_id : String
  pub account : Option String
  pub quote_id : Option String
  pub claimable_balance_id : Option String

-- A property of a patch: absent, or given, perhaps as `undefined`.
pub data Given : Type 0 where
  absent : Given
  given : Option String → Given

-- `Partial<PersistedDeposit>`.
pub record Patch : Type 0 where
  pub deposit_id : Option String
  pub account : Given
  pub quote_id : Given
  pub claimable_balance_id : Given

-- A stored string, as `JSON.parse` sees it.
pub data Raw : Type 0 where
  blank : Raw
  garbage : Raw
  json : Json → Raw

-- The browser's storage: whether it can be reached, whether its calls throw, and the one item.
pub record Browser : Type 0 where
  pub available : Bool
  pub get_throws : Bool
  pub set_throws : Bool
  pub remove_throws : Bool
  pub item : Option Raw

abbrev optional_field : String → Option String → Fields → Fields
optional_field key none rest = rest
optional_field key (some s) rest = field key (str s) rest

-- `JSON.stringify(record)`, which leaves out what is `undefined`.
unfoldable pub to_json : PersistedDeposit → Json
to_json r = Json.obj (
    field "depositId" (str r.deposit_id) (
      optional_field "account" r.account (
        optional_field "quoteId" r.quote_id
          (optional_field "claimableBalanceId" r.claimable_balance_id end))))

-- `saveDeposit`.
unfoldable pub save_deposit : Browser → PersistedDeposit → Browser
save_deposit b r =
    if not b.available
    then b
    else if b.set_throws
    then b
    else record b { item = some (json (to_json r)) }

-- `typeof value === "string" ? value : undefined`.
abbrev text_property : Option Json → Option String
text_property (some (str s)) = some s
text_property _ = none

abbrev deposit_of : Fields → Option String → Option PersistedDeposit
deposit_of fields none = none
deposit_of fields (some id) =
    if str_eq id ""
    then none
    else some (record {
      deposit_id = id;
      account = text_property (get fields "account");
      quote_id = text_property (get fields "quoteId");
      claimable_balance_id = text_property (get fields "claimableBalanceId");
    })

abbrev of_object : Option Fields → Option PersistedDeposit
of_object none = none
of_object (some fields) = deposit_of fields (text_property (get fields "depositId"))

-- The stored item read back: an empty string is falsy, and text that is no JSON is caught.
unfoldable pub of_raw : Option Raw → Option PersistedDeposit
of_raw (some (json v)) = of_object (as_object v)
of_raw _ = none

-- `loadDeposit`.
unfoldable pub load_deposit : Browser → Option PersistedDeposit
load_deposit b = if not b.available then none else if b.get_throws then none else of_raw b.item

-- `{ ...existing, ...patch }` at one property.
abbrev pub spread : Option String → Given → Option String
spread old absent = old
spread old (given new) = new

abbrev pub old_field : (PersistedDeposit → Option String) → Option PersistedDeposit → Option String
old_field f none = none
old_field f (some r) = f r

abbrev old_id : Option PersistedDeposit → Option String
old_id none = none
old_id (some r) = some r.deposit_id

-- `updateDeposit`, behind the choice of the id.
abbrev update_with : Browser → Option PersistedDeposit → Patch → Option String → Browser
update_with b existing patch none = b
update_with b existing patch (some id) =
    if str_eq id ""
    then b
    else save_deposit b (record {
      deposit_id = id;
      account = spread (old_field (λ r. r.account) existing) patch.account;
      quote_id = spread (old_field (λ r. r.quote_id) existing) patch.quote_id;
      claimable_balance_id =
          spread (old_field (λ r. r.claimable_balance_id) existing) patch.claimable_balance_id;
    })

-- `updateDeposit`.
unfoldable pub update_deposit : Browser → Patch → Browser
update_deposit b patch =
    update_with b (load_deposit b) patch (coalesce patch.deposit_id (old_id (load_deposit b)))

-- `clearDeposit`.
unfoldable pub clear_deposit : Browser → Browser
clear_deposit b =
    if not b.available then b else if b.remove_throws then b else record b { item = none }
