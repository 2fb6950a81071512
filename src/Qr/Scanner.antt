-- ===== src/Qr/Scanner.antt =====
-- apps/web/lib/qr/use-scanner.ts: the hook's refs and state, as a machine. A start awaits the decoder's
-- module and then the camera, so what it does afterwards is an action of its own, which carries the
-- generation that the start captured. A camera stream is named by that generation.
pub mod Once
pub mod Streams
pub mod Stopped
mod Tests
use showup.Prelude.{
  ℕ, ◌+◌, String, Bool, true, false, not, ◌||◌, Option, none, some, List, [], ◌∷◌, ◌==◌, str_eq,
  if◌then◌else◌,
}

-- `ScannerState`.
pub data ScannerState : Type 0 where
  idle requesting scanning : ScannerState
  error : String → ScannerState

-- A thrown or reported value, as far as it is read: `name`, whether it is an `Error` with its message,
-- what `getKind()` returns, and `constructor.kind`. `none` is a value of another type, or no value.
pub record Reported : Type 0 where
  pub is_object : Bool
  pub name : Option String
  pub message : Option String
  pub kind : Option String
  pub static_kind : Option String

-- `cameraErrorMessage`.
abbrev other_message : Option String → String
other_message none = "The camera could not be started."
other_message (some message) =
    if str_eq message "" then "The camera could not be started." else message

unfoldable pub camera_error_message : Reported → String
camera_error_message e = elim e.name [
  | none ↦ other_message e.message
  | some name ↦
      if str_eq name "NotAllowedError"
      then "Camera permission was denied or blocked by browser policy."
      else if str_eq name "NotFoundError"
      then "No camera was found on this device."
      else if str_eq name "NotReadableError"
      then "The camera is busy or could not be started."
      else if str_eq name "OverconstrainedError"
      then "No camera matches the requested settings."
      else if str_eq name "SecurityError"
      then "Camera access is disabled. Use HTTPS or localhost and check browser settings."
      else other_message e.message
]

-- `FRAME_MISS_KINDS`.
abbrev is_miss_kind : String → Bool
is_miss_kind kind =
    str_eq kind "NotFoundException"
    || str_eq kind "ChecksumException"
    || str_eq kind "FormatException"

abbrev named_miss : Option String → Bool
named_miss none = false
named_miss (some name) = is_miss_kind name

-- `isExpectedFrameMiss`.
unfoldable pub is_expected_frame_miss : Reported → Bool
is_expected_frame_miss e = if not e.is_object then false else elim e.kind [
  | some kind ↦ is_miss_kind kind
  | none ↦ elim e.static_kind [ some kind ↦ is_miss_kind kind | none ↦ named_miss e.name ]
]

-- The refs and the state of the hook. What it has done outside is kept beside them, newest first: the
-- streams that it stopped, and the results that it passed on, each with its generation.
pub record Scanner : Type 0 where
  pub generation : ℕ
  pub controls : Option ℕ
  pub state : ScannerState
  pub stopped : List ℕ
  pub delivered : List (ℕ × String)

unfoldable pub initial : Scanner
initial = record { generation = 0; controls = none; state = idle; stopped = []; delivered = [] }

-- What a frame gives: a text, an error, or neither.
pub data Frame : Type 0 where
  text : String → Frame
  failure : Reported → Frame
  nothing : Frame

-- What happens to the hook: `stop`, the end of the component, `start` up to its first `await` with
-- whether the browser can give it a camera, and what a start of some generation is called back with.
pub data Action : Type 0 where
  stop : Action
  unmount : Action
  start : Bool → Action
  frame : ℕ → Frame → Action
  opened : ℕ → Action
  failed : ℕ → Reported → Action

-- `controlsRef.current?.stop(); controlsRef.current = null;`
abbrev pub halted : Option ℕ → List ℕ → List ℕ
halted none stopped = stopped
halted (some g) stopped = g ∷ stopped

abbrev pub release : Scanner → Scanner
release s = record s { controls = none; stopped = halted s.controls s.stopped }

-- `activeControls.stop()` in the callback of the stream `g`, which is current: it is over.
abbrev pub finish : ℕ → ScannerState → List (ℕ × String) → Scanner → Scanner
finish g state delivered s = record {
  generation = s.generation + 1;
  controls = none;
  state = state;
  stopped = g ∷ s.stopped;
  delivered = delivered;
}

abbrev pub read_frame : ℕ → Frame → Scanner → Scanner
read_frame g (text t) s = finish g idle ((g, t) ∷ s.delivered) s
read_frame g (failure e) s =
    if is_expected_frame_miss e then s else finish g (error (camera_error_message e)) s.delivered s
read_frame g nothing s = s

abbrev stale : ℕ → Scanner → Scanner
stale g s = record s { stopped = g ∷ s.stopped }

unfoldable pub act : Action → Scanner → Scanner
act stop s = record (release s) { generation = s.generation + 1; state = idle }
act unmount s = record (release s) { generation = s.generation + 1 }
act (start has_camera) s = record (release s) {
  generation = s.generation + 1;
  state =
      if has_camera
      then requesting
      else error "Camera scanning requires HTTPS or localhost and a supported browser.";
}
act (frame g f) s = if s.generation == g then read_frame g f s else stale g s
act (opened g) s =
    if s.generation == g then record s { controls = some g; state = scanning } else stale g s
act (failed g e) s =
    if s.generation == g then record (release s) { state = error (camera_error_message e) } else s

-- A sequence of actions, in order.
unfoldable pub acts : List Action → Scanner → Scanner
acts [] s = s
acts (a ∷ actions) s = acts actions (act a s)
