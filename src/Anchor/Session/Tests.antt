-- ===== src/Anchor/Session/Tests.antt =====
-- A deposit that survives a reload, and the theorems on it.
use showup.Prelude.{true, false, none, some, ◌≡◌, ◌≢◌, refl, arith, eq_iff}
use showup.Anchor.Json.{get, as_object}
use showup.Anchor.Session.{
  PersistedDeposit, Patch, absent, given, Browser, json, to_json, of_raw, save_deposit,
  load_deposit,
}
use showup.Anchor.Session.Laws.{Works, load-save}

abbrev deposit : PersistedDeposit
deposit = record {
  deposit_id = "d1";
  account = some "GACC";
  quote_id = some "q1";
  claimable_balance_id = none;
}

abbrev empty : Browser
empty = record {
  available = true;
  get_throws = false;
  set_throws = false;
  remove_throws = false;
  item = none;
}

abbrev claimable : Patch
claimable = record {
  deposit_id = none;
  account = absent;
  quote_id = given none;
  claimable_balance_id = given (some "cb");
}

empty-Works : Works empty
empty-Works = record { reached = refl; reads = refl; writes = refl; removes = refl }

abbrev stored : Browser
stored = record empty { item = some (json (to_json deposit)) }

stored-Works : Works stored
stored-Works = record { reached = refl; reads = refl; writes = refl; removes = refl }

d1_not_empty : deposit.deposit_id ≢ ""
d1_not_empty h = ground (arith, eq_iff "d1" "")

loads : load_deposit stored ≡ some deposit
unfolding load_deposit of_raw to_json get as_object
loads = refl

load-save_example : load_deposit (save_deposit empty deposit) ≡ some deposit
load-save_example = load-save empty deposit empty-Works d1_not_empty
