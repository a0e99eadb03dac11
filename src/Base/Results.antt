-- ===== src/Base/Results.antt =====
-- How a call of the C++ code ends: with a value, or in one of the ways that end the program.
use mathlib.Core.Path.{◌≡◌, refl}
use mathlib.Core.Logic.{◌⊎◌, inl, inr}
use mathlib.Core.Bool.{Bool, true, false}
use mathlib.Core.Option.{Option, none, some}
use native.Mathlib.Omega.{arith}
use astra_network_analytical.Base.Tests.{if◌then◌else◌}

-- `assertion` is an `assert` that fails, `exited` is `std::exit` with a code that is not 0,
-- `undefined` is undefined behaviour of C++, and `unfinished` is the model's: the fuel of a loop ran
-- out.
pub data Error : Type 0 where
  assertion exited undefined unfinished : Error

pub data Outcome {ℓ} (A : Type ℓ) : Type ℓ where
  ok : A → Outcome A
  fail : Error → Outcome A

-- What follows a call runs on its value, and not at all after an error.
module _ {ℓ κ} {T : Type ℓ} {U : Type κ} where
  infixl 5 ◌>>=◌
  abbrev pub ◌>>=◌ : Outcome T → (T → Outcome U) → Outcome U
  fail stop >>= next = fail stop
  ok value >>= next = next value

  pub >>=-eq-ok :
      (call : Outcome T) (next : T → Outcome U) {u : U}
      → (call >>= next) ≡ ok u
      → (value : T) × (call ≡ ok value) × (next value ≡ ok u)
  >>=-eq-ok (fail stop) next h = cc
  >>=-eq-ok (ok value) next h = (value, refl, h)

module _ {κ} {U : Type κ} where
  infixl 5 ◌>>◌
  abbrev pub ◌>>◌ : Outcome (Unit {0}) → Outcome U → Outcome U
  call >> next = call >>= λ done. next

-- Goes on where the test holds.
abbrev pub check : Bool → Error → Outcome (Unit {0})
check holds stop = if holds then ok tt else fail stop

abbrev pub assert : Bool → Outcome (Unit {0})
assert b = check b assertion

abbrev pub or_fail {ℓ} : {A : Type ℓ} → Error → Option A → Outcome A
or_fail e none = fail e
or_fail e (some a) = ok a

pub Outcome-cases {ℓ} :
    {A : Type ℓ} (m : Outcome A) → ((a : A) × (m ≡ ok a)) ⊎ ((e : Error) × (m ≡ fail e))
Outcome-cases (ok a) = inl (a, refl)
Outcome-cases (fail e) = inr (e, refl)

pub check-eq-ok {ℓ} :
    {B : Type ℓ} (t : Bool) (e : Error) (k : Outcome B) {b : B}
    → (check t e >> k) ≡ ok b
    → (t ≡ true) × (k ≡ ok b)
check-eq-ok true e k h = (refl, h)
check-eq-ok false e k h = cc

pub or_fail-eq-ok {ℓ} :
    {A : Type ℓ} (e : Error) (o : Option A) {a : A} → or_fail e o ≡ ok a → o ≡ some a
or_fail-eq-ok e none h = cc
or_fail-eq-ok e (some x) h = ground arith

pub ok-injective {ℓ} : {A : Type ℓ} {a b : A} → ok a ≡ ok b → a ≡ b
ok-injective h = cc

pub or_fail-ne {ℓ} :
    {A : Type ℓ} (e e' : Error) (o : Option A) → (e ≡ e' → ⊥) → or_fail e o ≡ fail e' → ⊥
or_fail-ne e e' none d h = ground arith
or_fail-ne e e' (some a) d h = cc

-- Inversion of a branch.
pub if-eq-ok {ℓ} :
    {A : Type ℓ} (t : Bool) (x y : Outcome A) {a : A}
    → (if t then x else y) ≡ ok a
    → (t ≡ true) × (x ≡ ok a) ⊎ (t ≡ false) × (y ≡ ok a)
if-eq-ok true x y h = inl (refl, h)
if-eq-ok false x y h = inr (refl, h)
