-- ===== src/Bond/Effects/Settlement.antt =====
-- What `settle_no_show` has found and done, when it has returned.
use showup.Prelude.{Option-cases, ap, ◌∙◌, inl, inr, ℕ, ◌<◌, String, some, ◌∷◌, ◌≡◌, arith}
use showup.Prelude.Int.{ℤ, pos, negsuc, ◌-ℤ◌, ◌*ℤ◌, quotient}
use showup.Prelude.Outcome.{returned}
use showup.Bond.Types.{Config, active, Event, locked, no_show_settled, Reservation, Published}
use showup.Bond.Host.{HostStorage, Token, Invocation}
use showup.Bond.Entry.{State, settle_no_show, checked_i128}

checked_i128-some : (z w : ℤ) → checked_i128 z ≡ some w → w ≡ z
checked_i128-some (pos n) w e = ground arith
checked_i128-some (negsuc n) w e = ground arith

module _ {S T : Type 0} (h : HostStorage S) (t : Token T) (self : String) (byte_length : String → ℕ)
    (env : Invocation) where
  -- `settle_no_show` split the bond between the organizer and the pool.
  pub record Settled (id : ℕ) (p : String) (s s' : State S T) : Type 0 where
    pub reservation : Reservation
    pub event : Event
    pub config : Config
    pub ledger : T
    pub organizer_amount : ℤ
    pub community_amount : ℤ
    pub found : h.read_reservation s.store id p ≡ some reservation
    pub was_locked : reservation.status ≡ locked
    pub of_event : h.read_event s.store id ≡ some event
    pub is_active : event.status ≡ active
    pub too_late : event.checkin_deadline < env.timestamp
    pub organizer_share :
        organizer_amount ≡ quotient (reservation.amount *ℤ pos event.organizer_bps) 10000
    pub community_share : community_amount ≡ reservation.amount -ℤ organizer_amount
    pub organizer_paid : t.transfer s.ledger self event.organizer organizer_amount ≡ some ledger
    pub community_paid :
        t.transfer ledger self config.community_pool community_amount ≡ some s'.ledger
    pub stored :
        s'.store
        ≡ h.write_reservation s.store reservation.event_id reservation.participant
            (record reservation { status = no_show_settled })
    pub configured :
        h.read_config (
          h.write_reservation s.store reservation.event_id reservation.participant
            (record reservation { status = no_show_settled }))
        ≡ some config
    pub logged :
        s'.published
        ≡ Published.no_show_settled id reservation.participant organizer_amount community_amount
          ∷ s.published

  pub settle_no_show-Settled :
      (id : ℕ) (p : String) (s s' : State S T)
      → settle_no_show h t self byte_length env id p s ≡ returned s'
      → Settled id p s s'
  unfolding settle_no_show
  settle_no_show-Settled id p s s' e = elim (Option-cases (h.read_reservation s.store id p)) [
    | inl missing ↦ absurd (ground arith)
    | inr (r, found) ↦ elim (Option-cases (h.read_event s.store id)) [
      | inl missing ↦ absurd (ground arith)
      | inr (event, of_event) ↦
          elim (Option-cases (checked_i128 (r.amount *ℤ pos event.organizer_bps))) [
            | inl over ↦ absurd (ground arith)
            | inr (product, e1) ↦ elim (Option-cases (checked_i128 (quotient product 10000))) [
              | inl over ↦ absurd (ground arith)
              | inr (organizer, e2) ↦ elim (Option-cases (checked_i128 (r.amount -ℤ organizer))) [
                | inl over ↦ absurd (ground arith)
                | inr (community, e3) ↦
                    let after : S =
                      h.write_reservation s.store r.event_id r.participant
                        (record r { status = no_show_settled }) in
                    elim (Option-cases (h.read_config after)) [
                      | inl archived ↦ absurd (ground arith)
                      | inr (config, e4) ↦
                          elim (Option-cases (t.transfer s.ledger self event.organizer organizer)) [
                            | inl refused ↦ absurd (ground arith)
                            | inr (paid, e5) ↦
                                elim (Option-cases
                                  (t.transfer paid self config.community_pool community)) [
                                    | inl refused ↦ absurd (ground arith)
                                    | inr (ledger, e6) ↦ record {
                                      reservation = r;
                                      event = event;
                                      config = config;
                                      ledger = paid;
                                      organizer_amount = organizer;
                                      community_amount = community;
                                      found = found;
                                      was_locked = ground arith;
                                      of_event = of_event;
                                      is_active = ground arith;
                                      too_late = ground arith;
                                      organizer_share =
                                          checked_i128-some (quotient product 10000) organizer e2
                                          ∙ ap (λ (z : ℤ). quotient z 10000)
                                              (checked_i128-some
                                                (r.amount *ℤ pos event.organizer_bps) product e1);
                                      community_share =
                                          checked_i128-some (r.amount -ℤ organizer) community e3;
                                      organizer_paid = e5;
                                      community_paid = ground arith;
                                      stored = ground arith;
                                      configured = e4;
                                      logged = ground arith;
                                    }
                                  ]
                          ]
                    ]
              ]
            ]
          ]
    ]
  ]
