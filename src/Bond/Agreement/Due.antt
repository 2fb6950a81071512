-- ===== src/Bond/Agreement/Due.antt =====
-- The way out that every bond has.
use showup.Prelude.{
  ℕ, ◌<◌, ◌≤◌, String, true, false, Option, none, some, ltb, ◌≡◌, ◌∙◌, inl, inr, arith, Bool-cases,
  Option-cases,
}
use showup.Prelude.Int.{pos, above}
use showup.Prelude.Outcome.{returned}
use showup.Bond.Types.{Config, Event, Reservation, locked}
use showup.Bond.Types
use showup.Bond.Host.{HostStorage, IsStorage, Token, IsToken, Invocation}
use showup.Bond.Entry.{State, is_active, settle_no_show, claim_cancelled_event_refund}
use showup.Bond.Returns.{claim_cancelled_event_refund-returns}
use showup.Bond.Shares.{share-le}
use showup.Bond.Invariant.{Inv, IsStored}
use showup.Bond.Invariant.Covered.{covered}
use showup.Bond.Invariant.Paying.{transfer-le}
use showup.Bond.Invariant.Seating.{above-pos}
use showup.Bond.Agreement.{IsSplittable, organizer_share, pool_share}
use showup.Bond.Agreement.Settling.{IsSmall, settles, ltb-true}

-- The token refuses to move an amount out of the contract, though the balance there covers it.
abbrev pub Refuses : {T : Type 0} → Token T → String → T → String → ℕ → Type 0
Refuses t self ledger to n =
    (n ≤ t.balance ledger self) × (t.transfer ledger self to (pos n) ≡ none)

module _ {S T : Type 0} (h : HostStorage S) (t : Token T) (self : String) (byte_length : String → ℕ)
    (env : Invocation) (s : State S T) (id : ℕ) (p : String) (e : Event) (config : Config) where
  -- What becomes of a bond that is due.
  pub data WayOut (r : Reservation) : Type 0 where
    settled :
        is_active e.status ≡ true
        → (s' : State S T) → settle_no_show h t self byte_length env id p s ≡ returned s'
        → WayOut r
    organizer_refused :
        is_active e.status ≡ true
        → Refuses t self s.ledger e.organizer (organizer_share e r)
        → WayOut r
    pool_refused :
        is_active e.status ≡ true
        → (between : T)
        → t.transfer s.ledger self e.organizer (pos (organizer_share e r)) ≡ some between
        → Refuses t self between config.community_pool (pool_share e r)
        → WayOut r
    refunded :
        is_active e.status ≡ false
        → (s' : State S T)
        → claim_cancelled_event_refund h t self byte_length env id p s ≡ returned s'
        → WayOut r
    participant_refused :
        is_active e.status ≡ false
        → Refuses t self s.ledger r.participant (above r.amount)
        → WayOut r

  module _ (laws : IsStorage h) (inv : Inv h t self s) (found : h.read_event s.store id ≡ some e)
      (configured : h.read_config s.store ≡ some config)
      (small : IsSmall e (h.read_reservation s.store id p)) where
    IsSplittable-of :
        (o : Option Reservation) (r : Reservation)
        → o ≡ some r
        → IsSplittable t self s.ledger e config (some r)
        → IsSplittable t self s.ledger e config o
    IsSplittable-of o r is splittable = rw is splittable

    module _ (token : IsToken t) (r : Reservation) (held : h.read_reservation s.store id p ≡ some r)
        (is_locked : r.status ≡ locked) where
      share_covered : organizer_share e r ≤ above r.amount
      share_covered =
          let own : IsStored h t self s id e = inv.event_stored id e found in
          share-le (above r.amount) e.organizer_bps (omega (arith, own.all_shared))

      pool_covered :
          (between : T)
          → t.transfer s.ledger self e.organizer (pos (organizer_share e r)) ≡ some between
          → pool_share e r ≤ t.balance between self
      pool_covered between paid = omega (
        arith,
        share_covered,
        covered h t self s inv id p r held is_locked,
        transfer-le t token s.ledger between self e.organizer (pos (organizer_share e r)) self paid,
      )

      settle_way_out :
          is_active e.status ≡ true → ltb e.checkin_deadline env.timestamp ≡ true → WayOut r
      settle_way_out is late =
          elim (Option-cases (t.transfer s.ledger self e.organizer (pos (organizer_share e r)))) [
            | inl refusal ↦ organizer_refused is (
              omega (arith, share_covered, covered h t self s inv id p r held is_locked),
              refusal,
            )
            | inr (between, paid) ↦
                elim (Option-cases
                  (t.transfer between self config.community_pool (pos (pool_share e r)))) [
                    | inl refusal ↦
                        pool_refused is between paid (pool_covered between paid, refusal)
                    | inr (l, rest) ↦
                        let (s', returns) =
                          settles h t self byte_length env s id p e config laws inv found configured
                            small r (IsSplittable-of _ r held (between, l, paid, rest)) held
                            is_locked is late in
                        settled is s' returns
                  ]
          ]

      refund_way_out : is_active e.status ≡ false → WayOut r
      refund_way_out cancelled =
          let (m, at_id, of_p, positive) = inv.reservation_known id p r held in
          elim (Option-cases (t.transfer s.ledger self r.participant (pos (above r.amount)))) [
            | inl refusal ↦
                participant_refused cancelled
                  (covered h t self s inv id p r held is_locked, refusal)
            | inr (l, paid) ↦
                let (s', returns) =
                  claim_cancelled_event_refund-returns h t self byte_length env s id p e r config l
                    held is_locked found cancelled
                    (laws.config_after_reservation s.store r.event_id r.participant
                        (record r { status = Types.refunded })
                      ∙ configured)
                    (rw (above-pos r.amount positive) paid) in
                refunded cancelled s' returns
          ]

      -- Where the invariant holds and the bond times its basis points fits an i128, for a stored event and
      -- a contract with a configuration, after the deadline only the token keeps a bond in the contract:
      -- of a locked reservation of an active event, whoever invokes it, `settle_no_show` returns, or the
      -- token refuses the organizer's share or the pool's; of a cancelled event,
      -- `claim_cancelled_event_refund` returns, or the token refuses the refund; and what the token
      -- refuses is covered by the contract's balance.
      pub bond_has_way_out : e.checkin_deadline < env.timestamp → WayOut r
      bond_has_way_out late = elim (Bool-cases (is_active e.status)) [
        | inl is ↦ settle_way_out is (ltb-true late)
        | inr cancelled ↦ refund_way_out cancelled
      ]
