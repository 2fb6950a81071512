-- ===== src/Anchor/Sep6/Settling.antt =====
-- When the polling loop stops, and with what.
use showup.Prelude.{
  ℕ, zero, suc, ◌+◌, ◌≤◌, ◌<◌, Bool, true, false, Option, none, some, List, [], ◌∷◌, ◌≡◌, ◌⊎◌, inl,
  inr, refl, arith,
}
use showup.Prelude.Outcome.{Outcome, returned, thrown}
use showup.Anchor.Errors.{AnchorError}
use showup.Anchor.Types.{DepositStatus}
use showup.Anchor.Sep6.Polling.{
  is_terminal_deposit_status, PollEvent, update, sleep, Polled, poll_rounds,
  poll_deposit_until_settled, poll_round, settle,
}

-- Updates with a pause between them, from attempt `i` to the `k`-th after it.
abbrev pub trace : (ℕ → DepositStatus) → ℕ → ℕ → List PollEvent
trace statuses zero i = update (statuses i) ∷ []
trace statuses (suc k) i = update (statuses i) ∷ sleep ∷ trace statuses k (suc i)

module _ (aborted : ℕ → Bool) (poll : ℕ → Outcome AnchorError DepositStatus) where
  module _ (statuses : ℕ → DepositStatus) (m : ℕ)
      (polled : (i : ℕ) → i ≤ m → poll i ≡ returned (statuses i))
      (running : (i : ℕ) → i ≤ m → aborted i ≡ false)
      (unsettled : (i : ℕ) → i < m → is_terminal_deposit_status (statuses i) ≡ false)
      (settled : is_terminal_deposit_status (statuses m) ≡ true) where
    rounds-settle :
        (k rounds i : ℕ) (latest : Option DepositStatus)
        → i + k ≡ m
        → k < rounds
        → poll_rounds aborted poll rounds i latest
          ≡ record { events = trace statuses k i; outcome = returned (statuses m) }
    unfolding poll_rounds
    rounds-settle k zero i latest e h = absurd (omega arith)
    rounds-settle zero (suc rounds) i latest e h =
        let here : m ≡ i = omega arith in
        let done : is_terminal_deposit_status (statuses i) ≡ true = rw here at settled in
        rw (running i (omega arith), polled i (omega arith)) (rw (here, done))
    rounds-settle (suc k) (suc rounds) i latest e h =
        rw (running i (omega arith), polled i (omega arith), unsettled i (omega arith))
          (rw (rounds-settle k rounds (suc i) (some (statuses i)) (omega arith) (omega arith)))

    -- Where the polls up to the `m`-th succeed, the `m`-th is the first whose status is terminal, and
    -- the attempts suffice, the loop returns that status, after telling the caller of every status in
    -- order, with one pause between any two. No other field of a status stops it.
    pub poll_settles :
        (max_attempts : ℕ)
        → m < max_attempts
        → poll_deposit_until_settled aborted poll max_attempts
          ≡ record { events = trace statuses m 0; outcome = returned (statuses m) }
    unfolding poll_deposit_until_settled
    poll_settles max_attempts h = rounds-settle m max_attempts 0 none (omega arith) h

  -- Why the loop may return `st`.
  abbrev pub Stopped : ℕ → DepositStatus → ℕ → Type 0
  Stopped max_attempts st n =
      (n < max_attempts)
      × (poll n ≡ returned st)
      × ((is_terminal_deposit_status st ≡ true) ⊎ (suc n ≡ max_attempts) ⊎ (aborted (suc n) ≡ true))

  -- What the latest status stands for before attempt `i`.
  abbrev Known : ℕ → Option DepositStatus → Type 0
  Known i none = Unit
  Known i (some latest) = (j : ℕ) × (i ≡ suc j) × (poll j ≡ returned latest)

  settle_sound :
      (most i : ℕ) (st s : DepositStatus) (rest : DepositStatus → Polled) (b : Bool)
      → i < most
      → ((rest s).outcome ≡ returned st → (n : ℕ) × Stopped most st n)
      → poll i ≡ returned s
      → is_terminal_deposit_status s ≡ b
      → (settle b s rest).outcome ≡ returned st
      → (n : ℕ) × Stopped most st n
  settle_sound most i st s rest true lt later e t h = (i, (lt, ground arith, inl (ground arith)))
  settle_sound most i st s rest false lt later e t h = later (ground arith)

  round_sound :
      (most i : ℕ) (latest : Option DepositStatus) (st : DepositStatus)
      (rest : DepositStatus → Polled) (b : Bool) (p : Outcome AnchorError DepositStatus)
      → i < most
      → Known i latest
      → ((s : DepositStatus)
          → poll i ≡ returned s
          → (rest s).outcome ≡ returned st
          → (n : ℕ) × Stopped most st n)
      → aborted i ≡ b
      → poll i ≡ p
      → (poll_round b p latest rest).outcome ≡ returned st
      → (n : ℕ) × Stopped most st n
  round_sound most i none st rest true p lt k later eb ep h = cc
  round_sound most i (some latest) st rest true p lt (j, e, q) later eb ep h =
      (j, (omega arith, ground arith, inr (inr (rw e at eb))))
  round_sound most i latest st rest false (thrown e) lt k later eb ep h = cc
  round_sound most i latest st rest false (returned s) lt k later eb ep h =
      settle_sound most i st s rest (is_terminal_deposit_status s) lt (later s ep) ep refl h

  rounds_sound :
      (rounds i : ℕ) (latest : Option DepositStatus) (st : DepositStatus)
      → Known i latest
      → (poll_rounds aborted poll rounds i latest).outcome ≡ returned st
      → (n : ℕ) × Stopped (i + rounds) st n
  unfolding poll_rounds
  rounds_sound zero i none st k h = cc
  rounds_sound zero i (some latest) st (j, e, p) h =
      (j, (omega arith, ground arith, inr (inl (omega arith))))
  rounds_sound (suc rounds) i latest st k h =
      round_sound (i + suc rounds) i latest st
        (λ s. poll_rounds aborted poll rounds (suc i) (some s)) (aborted i) (poll i) (omega arith) k
        (λ s e g. rw (shift i rounds) at (rounds_sound rounds (suc i) (some s) st (i, refl, e) g))
        refl refl h
    where
      shift : (i rounds : ℕ) → suc i + rounds ≡ i + suc rounds
      shift i rounds = omega arith

  -- Whatever the loop returns is the status of its last poll, which was terminal, or used up the
  -- attempts, or was followed by an abort.
  pub poll_sound :
      (max_attempts : ℕ) (st : DepositStatus)
      → (poll_deposit_until_settled aborted poll max_attempts).outcome ≡ returned st
      → (n : ℕ) × Stopped max_attempts st n
  unfolding poll_deposit_until_settled
  poll_sound max_attempts st h =
      let same : 0 + max_attempts ≡ max_attempts = omega arith in
      rw same at (rounds_sound max_attempts 0 none st tt h)
