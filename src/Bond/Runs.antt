-- ===== src/Bond/Runs.antt =====
-- Sequences of invocations. The host keeps what a successful invocation did and undoes a failed one.
use showup.Prelude.{ℕ, ◌≤◌, String, false, none, List, [], ◌∷◌, ◌≡◌}
use showup.Prelude.Outcome.{Outcome, returned, thrown, ◌>>=◌}
use showup.Bond.Types.{Config, Published, bond_locked}
use showup.Bond.Host.{HostStorage, Token, Invocation, Abort}
use showup.Bond.Entry.{
  State, NewEvent, construct, create_event, reserve, cancel_reservation, check_in, cancel_event,
  claim_cancelled_event_refund, settle_no_show,
}

-- A call of an entry point that changes state.
pub data Operation : Type 0 where
  create : NewEvent → Operation
  reserve_seat : ℕ → String → Operation
  cancel_seat : ℕ → String → Operation
  check_in_seat : ℕ → String → Operation
  cancel_meeting : ℕ → Operation
  claim_refund : ℕ → String → Operation
  settle_seat : ℕ → String → Operation

pub data Seat : Type 0 where
  seat : ℕ → String → Seat

-- The seats for which a bond was ever locked, as the published events tell, newest first.
abbrev pub seats_of : List Published → List Seat
seats_of [] = []
seats_of (bond_locked id p amount ∷ log) = seat id p ∷ seats_of log
seats_of (_ ∷ log) = seats_of log

module _ {S T : Type 0} (h : HostStorage S) (t : Token T) (self : String)
    (byte_length : String → ℕ) where
  abbrev state_only : State S T × ℕ → Outcome Abort (State S T)
  state_only r = returned r.0

  unfoldable pub perform : Invocation → Operation → State S T → Outcome Abort (State S T)
  perform env (create new) s = create_event h t self byte_length env new s >>= state_only
  perform env (reserve_seat id p) s = reserve h t self byte_length env id p s
  perform env (cancel_seat id p) s = cancel_reservation h t self byte_length env id p s
  perform env (check_in_seat id p) s = check_in h t self byte_length env id p s
  perform env (cancel_meeting id) s = cancel_event h t self byte_length env id s
  perform env (claim_refund id p) s = claim_cancelled_event_refund h t self byte_length env id p s
  perform env (settle_seat id p) s = settle_no_show h t self byte_length env id p s

  -- The state behind an invocation that ended so.
  abbrev pub kept : State S T → Outcome Abort (State S T) → State S T
  kept s (returned s') = s'
  kept s (thrown e) = s

  unfoldable pub invoke : Invocation → Operation → State S T → State S T
  invoke env op s = kept s (perform env op s)

  -- A contract that was just deployed: nothing was stored before its constructor ran.
  pub record IsDeployed (s : State S T) : Type 0 where
    pub blank : S
    pub config : Config
    pub no_event : (id : ℕ) → h.read_event blank id ≡ none
    pub no_reservation : (id : ℕ) (p : String) → h.read_reservation blank id p ≡ none
    pub stored : s.store ≡ construct h config blank
    pub nothing_published : s.published ≡ []

  -- The states that a contract can get to. It never calls itself, so nobody authorizes in its name, and
  -- between its invocations its token balance can only grow.
  pub data Reach : State S T → Type 0 where
    deployed : {s : State S T} → IsDeployed s → Reach s
    invoked :
        {s s' : State S T} (env : Invocation) (op : Operation)
        → Reach s
        → env.authorized self ≡ false
        → invoke env op s ≡ s'
        → Reach s'
    received :
        {s s' : State S T} (l : T)
        → Reach s
        → t.balance s.ledger self ≤ t.balance l self
        → record s { ledger = l } ≡ s'
        → Reach s'
