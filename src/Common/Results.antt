-- ===== src/Common/Results.antt =====
-- Code that may throw: the value, or the message of the `Error` that it throws.
use mathlib.Core.Bool.{Bool, true, false}
use mathlib.Core.Logic.{◌⊎◌, inl, inr}
use mathlib.Core.Path.{◌≡◌, refl, subst}
use Prim.Native.String.{String}

pub data Result {ℓ} (A : Type ℓ) : Type ℓ where
  ok : A → Result A
  throws : String → Result A

infixl 5 ◌>>◌
module _ {ℓ κ} {A : Type ℓ} {B : Type κ} where
  infixl 5 ◌>>=◌
  abbrev pub ◌>>=◌ : Result A → (A → Result B) → Result B
  throws message >>= rest = throws message
  ok value >>= rest = rest value

  -- A chain that returned got through its first step.
  pub >>=-ok_parts :
      (first : Result A) (rest : A → Result B) {b : B}
      → (first >>= rest) ≡ ok b
      → (value : A) × (first ≡ ok value) × (rest value ≡ ok b)
  >>=-ok_parts (throws message) rest e = cc
  >>=-ok_parts (ok value) rest e = (value, refl, e)

abbrev pub ◌>>◌ {κ} : {B : Type κ} → Result (Unit {0}) → Result B → Result B
check >> rest = check >>= (λ _. rest)

-- `if (!test) throw new Error(message)`
abbrev pub require : Bool → String → Result (Unit {0})
require true message = ok tt
require false message = throws message

-- What holds of the value, if there is one.
abbrev pub OnOk {ℓ κ} : {A : Type ℓ} → (A → Type κ) → Result A → Type κ
OnOk P (ok a) = P a
OnOk P (throws e) = Unit

pub OnOk-ok {ℓ κ} : {A : Type ℓ} (P : A → Type κ) (r : Result A) {a : A} → OnOk P r → r ≡ ok a → P a
OnOk-ok P (ok b) {a} h e = let same : b ≡ a = cc in subst P same h
OnOk-ok P (throws m) h e = cc

pub OnOk-map {ℓ κ} :
    {A : Type ℓ} {P Q : A → Type κ} (r : Result A) → ((a : A) → P a → Q a) → OnOk P r → OnOk Q r
OnOk-map (ok a) f h = f a h
OnOk-map (throws e) f h = tt

-- The rule for a chain of steps.
pub OnOk-bind {ℓ κ ν} :
    {A : Type ℓ} {B : Type κ} (P : B → Type ν) (m : Result A) (f : A → Result B)
    → ((a : A) → m ≡ ok a → OnOk P (f a))
    → OnOk P (m >>= f)
OnOk-bind P (ok a) f h = h a refl
OnOk-bind P (throws e) f h = tt

pub Result-cases {ℓ} :
    {A : Type ℓ} (r : Result A) → ((a : A) × (r ≡ ok a)) ⊎ ((m : String) × (r ≡ throws m))
Result-cases (ok a) = inl (a, refl)
Result-cases (throws m) = inr (m, refl)

pub ok-injective {ℓ} : {A : Type ℓ} {a b : A} → ok a ≡ ok b → a ≡ b
ok-injective e = cc

pub require-ok :
    (test : Bool) (message : String) {x : Unit {0}} → require test message ≡ ok x → test ≡ true
require-ok true message e = refl
require-ok false message e = cc

-- A guarded chain that returned passed its guard.
pub require-passed {ℓ} :
    {B : Type ℓ} (test : Bool) (message : String) (rest : Result B) {b : B}
    → (require test message >> rest) ≡ ok b
    → (test ≡ true) × (rest ≡ ok b)
require-passed true message rest e = (refl, e)
require-passed false message rest e = cc

abbrev pub is_ok {ℓ} : {A : Type ℓ} → Result A → Bool
is_ok (ok a) = true
is_ok (throws e) = false
