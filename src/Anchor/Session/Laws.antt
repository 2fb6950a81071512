-- ===== src/Anchor/Session/Laws.antt =====
-- What is saved is what a reload finds.
use showup.Prelude.{String, true, false, Option, none, some, ◌≡◌, ◌≢◌, arith, eq_iff}
use showup.Anchor.Json.{get, as_object}
use showup.Anchor.Session.{
  PersistedDeposit, Patch, Browser, to_json, of_raw, json, save_deposit, load_deposit,
  update_deposit, clear_deposit, spread,
}

-- The storage can be reached and does not throw.
pub record Works (b : Browser) : Type 0 where
  pub reached : b.available ≡ true
  pub reads : b.get_throws ≡ false
  pub writes : b.set_throws ≡ false
  pub removes : b.remove_throws ≡ false

of_raw-to_json :
    (id : String) (account quote claimable : Option String)
    → id ≢ ""
    → let r : PersistedDeposit = record {
      deposit_id = id;
      account = account;
      quote_id = quote;
      claimable_balance_id = claimable;
    } in
      of_raw (some (json (to_json r))) ≡ some r
unfolding of_raw to_json get as_object
of_raw-to_json id none none none h = ground (arith, eq_iff id "")
of_raw-to_json id (some a) none none h = ground (arith, eq_iff id "")
of_raw-to_json id none (some q) none h = ground (arith, eq_iff id "")
of_raw-to_json id none none (some c) h = ground (arith, eq_iff id "")
of_raw-to_json id (some a) (some q) none h = ground (arith, eq_iff id "")
of_raw-to_json id (some a) none (some c) h = ground (arith, eq_iff id "")
of_raw-to_json id none (some q) (some c) h = ground (arith, eq_iff id "")
of_raw-to_json id (some a) (some q) (some c) h = ground (arith, eq_iff id "")

-- A deposit with an id that is saved in a working storage is loaded as it was.
pub load-save :
    (b : Browser) (r : PersistedDeposit)
    → Works b
    → r.deposit_id ≢ ""
    → load_deposit (save_deposit b r) ≡ some r
unfolding load_deposit save_deposit
load-save b r w h = ground (
  arith,
  w.reached,
  w.reads,
  w.writes,
  of_raw-to_json r.deposit_id r.account r.quote_id r.claimable_balance_id h,
)

-- When a deposit with an id is stored and the storage works, an update without a new id keeps that id,
-- sets each property it gives, also to `undefined`, and keeps each it leaves out.
pub update-load :
    (b : Browser) (r : PersistedDeposit) (p : Patch)
    → Works b
    → load_deposit b ≡ some r
    → r.deposit_id ≢ ""
    → p.deposit_id ≡ none
    → load_deposit (update_deposit b p)
      ≡ some (record {
        deposit_id = r.deposit_id;
        account = spread r.account p.account;
        quote_id = spread r.quote_id p.quote_id;
        claimable_balance_id = spread r.claimable_balance_id p.claimable_balance_id;
      })
unfolding update_deposit
update-load b r p w l h no_id = ground (
  arith,
  l,
  no_id,
  eq_iff r.deposit_id "",
  load-save b
      (record {
        deposit_id = r.deposit_id;
        account = spread r.account p.account;
        quote_id = spread r.quote_id p.quote_id;
        claimable_balance_id = spread r.claimable_balance_id p.claimable_balance_id;
      })
      w h,
)

-- An update with no id of its own, when no deposit is stored, writes nothing.
pub update-nothing :
    (b : Browser) (p : Patch) → load_deposit b ≡ none → p.deposit_id ≡ none → update_deposit b p ≡ b
unfolding update_deposit
update-nothing b p l no_id = ground (arith, l, no_id)

-- After a clear that can reach the storage and does not throw, nothing is loaded, and every later
-- update without an id leaves it so.
pub clear-load :
    (b : Browser) (p : Patch)
    → b.available ≡ true
    → b.remove_throws ≡ false
    → p.deposit_id ≡ none
    → (load_deposit (clear_deposit b) ≡ none)
      × (update_deposit (clear_deposit b) p ≡ clear_deposit b)
clear-load b p a t no_id =
    let gone : load_deposit (clear_deposit b) ≡ none =
      unfold load_deposit clear_deposit of_raw in ground (arith, a, t) in
    (gone, update-nothing (clear_deposit b) p gone no_id)
