-- ===== src/Qr/Scanner/Streams.antt =====
-- No camera stream is left running.
use showup.Prelude.{
  ℕ, Option, none, some, List, [], ◌∷◌, ◌==◌, ◌≡◌, ◌⊎◌, ==_iff, inl, inr, refl, sym, ap, ◌∙◌, arith,
  Bool-cases, In, All,
}
use showup.Qr.Scanner.{
  Scanner, initial, Frame, text, failure, nothing, Action, stop, unmount, start, frame, opened,
  failed, halted, read_frame, act, acts, is_expected_frame_miss,
}
use showup.Qr.Scanner.Once.{IsFalling, Inv, act-Inv}

-- The stream of the start `g` was stopped, or is the one that is held.
abbrev pub IsAccounted : Scanner → ℕ → Type 0
IsAccounted s g = In g s.stopped ⊎ (s.controls ≡ some g)

halted-keeps : (c : Option ℕ) (stopped : List ℕ) (g : ℕ) → In g stopped → In g (halted c stopped)
halted-keeps none stopped g h = h
halted-keeps (some x) stopped g h = inr h

released-IsAccounted :
    (c : Option ℕ) (stopped : List ℕ) (g : ℕ)
    → In g stopped ⊎ (c ≡ some g)
    → In g (halted c stopped)
released-IsAccounted c stopped g (inl h) = halted-keeps c stopped g h
released-IsAccounted none stopped g (inr e) = cc
released-IsAccounted (some x) stopped g (inr e) = inl (ground (arith, e))

held : (s : Scanner) (g : ℕ) → Inv s → s.controls ≡ some g → s.generation ≡ g
held s g h e = sym (rw e at h.current)

read_frame-IsAccounted :
    (x : ℕ) (f : Frame) (s : Scanner) (g : ℕ)
    → s.generation ≡ x
    → Inv s
    → IsAccounted s g
    → IsAccounted (read_frame x f s) g
read_frame-IsAccounted x (text t) s g e h (inl was) = inl (inr was)
read_frame-IsAccounted x (text t) s g e h (inr holds) = inl (inl (sym e ∙ held s g h holds))
read_frame-IsAccounted x (failure reported) s g e h accounted =
    elim (Bool-cases (is_expected_frame_miss reported)) [
      | inl miss ↦ rw miss accounted
      | inr ends ↦ rw ends (elim accounted [
        | inl was ↦ inl (inr was)
        | inr holds ↦ inl (inl (sym e ∙ held s g h holds))
      ])
    ]
read_frame-IsAccounted x nothing s g e h accounted = accounted

kept : {A : Type 0} (x g : ℕ) (stopped : List ℕ) → In g stopped ⊎ A → In g (x ∷ stopped) ⊎ A
kept x g stopped (inl h) = inl (inr h)
kept x g stopped (inr a) = inr a

act-IsAccounted :
    (a : Action) (s : Scanner) (g : ℕ) → Inv s → IsAccounted s g → IsAccounted (act a s) g
unfolding act
act-IsAccounted stop s g h accounted = inl (released-IsAccounted s.controls s.stopped g accounted)
act-IsAccounted unmount s g h accounted =
    inl (released-IsAccounted s.controls s.stopped g accounted)
act-IsAccounted (start has_camera) s g h accounted =
    inl (released-IsAccounted s.controls s.stopped g accounted)
act-IsAccounted (frame x f) s g h accounted = elim (Bool-cases (s.generation == x)) [
  | inl same ↦ rw same (read_frame-IsAccounted x f s g ((==_iff s.generation x).0 same) h accounted)
  | inr stale ↦ rw stale (kept x g s.stopped accounted)
]
act-IsAccounted (opened x) s g h accounted = elim (Bool-cases (s.generation == x)) [
  | inl same ↦ rw same (elim accounted [
    | inl was ↦ inl was
    | inr holds ↦ inr (ap some (sym ((==_iff s.generation x).0 same) ∙ held s g h holds))
  ])
  | inr stale ↦ rw stale (kept x g s.stopped accounted)
]
act-IsAccounted (failed x e) s g h accounted = elim (Bool-cases (s.generation == x)) [
  | inl same ↦ rw same (inl (released-IsAccounted s.controls s.stopped g accounted))
  | inr stale ↦ rw stale accounted
]

opened-IsAccounted : (g : ℕ) (s : Scanner) → IsAccounted (act (opened g) s) g
unfolding act
opened-IsAccounted g s = elim (Bool-cases (s.generation == g)) [
  | inl same ↦ rw same (inr refl)
  | inr stale ↦ rw stale (inl (inl refl))
]

acts-IsAccounted :
    (actions : List Action) (s : Scanner) (g : ℕ)
    → Inv s
    → IsAccounted s g
    → IsAccounted (acts actions s) g
unfolding acts
acts-IsAccounted [] s g h accounted = accounted
acts-IsAccounted (a ∷ actions) s g h accounted =
    acts-IsAccounted actions (act a s) g (act-Inv a s h) (act-IsAccounted a s g h accounted)

-- The streams that a sequence of actions opens.
abbrev pub opened_by : List Action → List ℕ
opened_by [] = []
opened_by (opened g ∷ actions) = g ∷ opened_by actions
opened_by (_ ∷ actions) = opened_by actions

-- What holds of the hook after actions: its results, and the streams that they opened.
abbrev pub IsTidy : Scanner → List ℕ → Type 0
IsTidy s streams = IsFalling s.generation s.delivered × All (IsAccounted s) streams

acts-IsTidy :
    (actions : List Action) (s : Scanner) → Inv s → IsTidy (acts actions s) (opened_by actions)
unfolding acts
acts-IsTidy [] s h = (h.falling, tt)
acts-IsTidy (opened g ∷ actions) s h =
    let rest = acts-IsTidy actions (act (opened g) s) (act-Inv (opened g) s h) in
    (
      rest.0,
      (
        acts-IsAccounted actions (act (opened g) s) g (act-Inv (opened g) s h)
            (opened-IsAccounted g s),
        rest.1,
      ),
    )
acts-IsTidy (stop ∷ actions) s h = acts-IsTidy actions (act stop s) (act-Inv stop s h)
acts-IsTidy (unmount ∷ actions) s h = acts-IsTidy actions (act unmount s) (act-Inv unmount s h)
acts-IsTidy (start b ∷ actions) s h = acts-IsTidy actions (act (start b) s) (act-Inv (start b) s h)
acts-IsTidy (frame g f ∷ actions) s h =
    acts-IsTidy actions (act (frame g f) s) (act-Inv (frame g f) s h)
acts-IsTidy (failed g e ∷ actions) s h =
    acts-IsTidy actions (act (failed g e) s) (act-Inv (failed g e) s h)

-- However starts, stops and callbacks interleave: no generation passes on two results, and every
-- camera stream that opened was stopped or is the one that the hook holds, so that none is lost.
pub scanner-IsTidy : (actions : List Action) → IsTidy (acts actions initial) (opened_by actions)
unfolding initial
scanner-IsTidy actions = acts-IsTidy actions initial (record { falling = tt; current = tt })
