-- ===== src/Qr/Scanner/Once.antt =====
-- A start passes on one result at most, and what it holds is its own.
use showup.Prelude.{
  ℕ, ◌+◌, ◌≤◌, ◌<◌, String, Option, none, some, List, [], ◌∷◌, ◌==◌, ◌≡◌, ==_iff, inl, inr, sym,
  arith, Bool-cases,
}
use showup.Qr.Scanner.{
  ScannerState, idle, Scanner, Frame, text, failure, nothing, Action, stop, unmount, start, frame,
  opened, failed, release, read_frame, act, is_expected_frame_miss,
}

-- Every result is of an earlier generation than those behind it were, and of one that is over.
abbrev pub IsFalling : ℕ → List (ℕ × String) → Type 0
IsFalling bound [] = Unit
IsFalling bound ((g, t) ∷ results) = (g < bound) × IsFalling g results

-- The stream that is held is that of the current start.
abbrev pub IsCurrent : ℕ → Option ℕ → Type 0
IsCurrent n none = Unit
IsCurrent n (some g) = g ≡ n

pub record Inv (s : Scanner) : Type 0 where
  pub falling : IsFalling s.generation s.delivered
  pub current : IsCurrent s.generation s.controls

IsFalling-rise :
    (m n : ℕ) (results : List (ℕ × String)) → m ≤ n → IsFalling m results → IsFalling n results
IsFalling-rise m n [] le h = tt
IsFalling-rise m n ((g, t) ∷ results) le (lt, h) = (omega arith, h)

released-Inv :
    (s : Scanner) (state : ScannerState)
    → Inv s
    → Inv (record (release s) { generation = s.generation + 1; state = state })
released-Inv s state h = record {
  falling = IsFalling-rise s.generation (s.generation + 1) s.delivered (omega arith) h.falling;
  current = tt;
}

read_frame-Inv :
    (g : ℕ) (f : Frame) (s : Scanner) → s.generation ≡ g → Inv s → Inv (read_frame g f s)
read_frame-Inv g (text t) s e h = record {
  falling = (omega (arith, e), rw e at h.falling);
  current = tt;
}
read_frame-Inv g (failure reported) s e h = elim (Bool-cases (is_expected_frame_miss reported)) [
  | inl miss ↦ rw miss h
  | inr ends ↦ rw ends (record {
    falling = IsFalling-rise s.generation (s.generation + 1) s.delivered (omega arith) h.falling;
    current = tt;
  })
]
read_frame-Inv g nothing s e h = h

pub act-Inv : (a : Action) (s : Scanner) → Inv s → Inv (act a s)
unfolding act
act-Inv stop s h = released-Inv s idle h
act-Inv unmount s h = released-Inv s s.state h
act-Inv (start has_camera) s h = released-Inv s _ h
act-Inv (frame g f) s h = elim (Bool-cases (s.generation == g)) [
  | inl same ↦ rw same (read_frame-Inv g f s ((==_iff s.generation g).0 same) h)
  | inr stale ↦ rw stale (record { falling = h.falling; current = h.current })
]
act-Inv (opened g) s h = elim (Bool-cases (s.generation == g)) [
  | inl same ↦
      rw same (record { falling = h.falling; current = sym ((==_iff s.generation g).0 same) })
  | inr stale ↦ rw stale (record { falling = h.falling; current = h.current })
]
act-Inv (failed g e) s h = elim (Bool-cases (s.generation == g)) [
  | inl same ↦ rw same (record { falling = h.falling; current = tt })
  | inr stale ↦ rw stale h
]
