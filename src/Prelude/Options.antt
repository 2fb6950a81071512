-- ===== src/Prelude/Options.antt =====
-- Chains of values that may be missing.
use mathlib.Core.Path.{◌≡◌, refl}
use mathlib.Core.Bool.{Bool, true, false}
use mathlib.Core.Option.{Option, none, some}

infixl 5 ◌>>=◌ ◌>>◌
abbrev pub ◌>>=◌ {ℓ κ} : {A : Type ℓ} {B : Type κ} → Option A → (A → Option B) → Option B
none >>= k = none
some a >>= k = k a

abbrev pub ◌>>◌ {κ} : {B : Type κ} → Option (Unit {0}) → Option B → Option B
m >> k = m >>= λ _. k

abbrev pub require : Bool → Option (Unit {0})
require true = some tt
require false = none

-- A chain that gives a value: its first step gave one, and so did the rest.
pub >>=-some {ℓ κ} :
    {A : Type ℓ} {B : Type κ} (m : Option A) (k : A → Option B) {b : B}
    → (m >>= k) ≡ some b
    → (a : A) × (m ≡ some a) × (k a ≡ some b)
>>=-some (some a) k h = (a, refl, h)
>>=-some none k h = cc

pub require-some : (b : Bool) {u : Unit {0}} → require b ≡ some u → b ≡ true
require-some true h = refl
require-some false h = cc

pub >>=-step {ℓ κ} :
    {A : Type ℓ} {B : Type κ} {m : Option A} {a : A} (k : A → Option B)
    → m ≡ some a
    → (m >>= k) ≡ k a
>>=-step k e = rw e refl
