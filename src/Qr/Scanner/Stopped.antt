-- ===== src/Qr/Scanner/Stopped.antt =====
-- What callbacks do after a stop.
use showup.Prelude.{ℕ, ◌+◌, ◌≤◌, false, none, List, [], ◌∷◌, ◌==◌, ◌≡◌, refl, arith, All}
use showup.Qr.Scanner.{
  idle, Scanner, Action, stop, unmount, start, frame, opened, failed, act, acts,
}

-- A callback of a start up to the generation `n`.
abbrev pub IsLate : ℕ → Action → Type 0
IsLate n (frame g f) = g ≤ n
IsLate n (opened g) = g ≤ n
IsLate n (failed g e) = g ≤ n
IsLate n _ = ⊥

-- The hook as a stop in the state `s` left it, but for the streams that were stopped since.
abbrev pub IsStopped : Scanner → Scanner → Type 0
IsStopped s s' =
    (s'.generation ≡ s.generation + 1)
    × (s'.state ≡ idle)
    × (s'.controls ≡ none)
    × (s'.delivered ≡ s.delivered)

late : (n g m : ℕ) → m ≡ n + 1 → g ≤ n → (m == g) ≡ false
late n g m e le = ground arith

act-IsStopped :
    (a : Action) (s s' : Scanner) → IsLate s.generation a → IsStopped s s' → IsStopped s (act a s')
unfolding act
act-IsStopped (frame g f) s s' le h = rw (late s.generation g s'.generation h.0 le) h
act-IsStopped (opened g) s s' le h = rw (late s.generation g s'.generation h.0 le) h
act-IsStopped (failed g e) s s' le h = rw (late s.generation g s'.generation h.0 le) h
act-IsStopped stop s s' le h = absurd le
act-IsStopped unmount s s' le h = absurd le
act-IsStopped (start b) s s' le h = absurd le

acts-IsStopped :
    (actions : List Action) (s s' : Scanner)
    → All (IsLate s.generation) actions
    → IsStopped s s'
    → IsStopped s (acts actions s')
unfolding acts
acts-IsStopped [] s s' past h = h
acts-IsStopped (a ∷ actions) s s' (le, past) h =
    acts-IsStopped actions s (act a s') past (act-IsStopped a s s' le h)

-- After a stop, callbacks of the starts before it pass on no result, take no stream and leave the hook
-- idle, whatever they report and in whatever order.
pub stop_is_final :
    (actions : List Action) (s : Scanner)
    → All (IsLate s.generation) actions
    → IsStopped s (acts actions (act stop s))
stop_is_final actions s past =
    acts-IsStopped actions s (act stop s) past (unfold act in (refl, refl, refl, refl))
