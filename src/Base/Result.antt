-- ===== src/Base/Result.antt =====
-- The result of code that can stop.
use mathlib.Core.Path.{◌≡◌, refl, ap, subst}
use mathlib.Core.Bool.{Bool, true, false}
use mathlib.Core.Option.{Option, none, some}

-- `assertion`: an `assert` fails. `diagnostic`: the code reports an error and calls `exit(1)`.
-- `undefined`: C gives the step no meaning (a read outside an object, a division by zero, a value
-- that a bit-field cannot hold). `exhausted`: the fuel of the model ran out.
pub data Fault : Type 0 where
  assertion diagnostic undefined exhausted : Fault

pub data Run {ℓ} (Value : Type ℓ) : Type ℓ where
  err : Fault → Run Value
  ok : Value → Run Value

-- A test that must hold.
abbrev pub guard : Bool → Fault → Run (Unit {0})
guard false fault = err fault
guard true fault = ok tt

pub guard-eq-ok :
    (test : Bool) (fault : Fault) {u : Unit {0}} → guard test fault ≡ ok u → test ≡ true
guard-eq-ok false fault h = cc
guard-eq-ok true fault h = refl

module _ {ℓ} {A : Type ℓ} where
  -- A value that must be there.
  abbrev pub demand : Option A → Fault → Run A
  demand (some value) fault = ok value
  demand none fault = err fault

  -- The run ends normally, in a value that satisfies `P`.
  abbrev pub Returns {κ} : Run A → (A → Type κ) → Type (ℓ ⊔ κ)
  Returns run P = (value : A) × (run ≡ ok value) × P value

  pub ok_injective : {v w : A} → ok v ≡ ok w → v ≡ w
  ok_injective {v} h = ap (λ run. elim run [ ok value ↦ value | err fault ↦ v ]) h

  infixl 5 ◌>>=◌
  abbrev pub ◌>>=◌ {κ} : {B : Type κ} → Run A → (A → Run B) → Run B
  err fault >>= next = err fault
  ok value >>= next = next value

  -- A bind that succeeds has a first part that does.
  pub >>=-eq-ok {κ} :
      {B : Type κ} (run : Run A) (next : A → Run B) {b : B}
      → (run >>= next) ≡ ok b
      → (value : A) × (run ≡ ok value) × (next value ≡ ok b)
  >>=-eq-ok (err fault) next h = cc
  >>=-eq-ok (ok value) next h = (value, refl, h)

infixl 5 ◌>>◌
abbrev pub ◌>>◌ {ℓ} : {B : Type ℓ} → Run (Unit {0}) → Run B → Run B
first >> next = first >>= λ _. next

-- What holds of the value that a run returns.
pub returned {ℓ κ} : {A : Type ℓ} (P : A → Type κ) {v w : A} → P v → ok v ≡ ok w → P w
returned P p h = subst P (ok_injective h) p

pub guarded {ℓ} :
    {A : Type ℓ} (test : Bool) (fault : Fault) (next : Run A) {v : A}
    → (guard test fault >>= λ _. next) ≡ ok v
    → next ≡ ok v
guarded test fault next h = (>>=-eq-ok (guard test fault) (λ _. next) h).2
