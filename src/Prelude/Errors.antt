-- ===== src/Prelude/Errors.antt =====
-- How a Rust call ends: with a value, with an error, or by a panic. The release profile aborts the
-- process on a panic, so nothing runs after one.
use mathlib.Core.Path.{◌≡◌, refl}
use mathlib.Core.Option.{Option, none, some}
use mathlib.Core.Bool.{Bool, true, false}
use native.Mathlib.Omega.{arith}

pub data Outcome {ℓ} (A : Type ℓ) : Type ℓ where
  ok : A → Outcome A
  err : Outcome A
  panic : Outcome A

-- `?`: an error and a panic end the call, a value goes to what is left of the body.
abbrev pub ◌>>=◌ {ℓ κ} : {A : Type ℓ} {B : Type κ} → Outcome A → (A → Outcome B) → Outcome B
panic >>= body = panic
err >>= body = err
ok value >>= body = body value

abbrev pub ◌>>◌ {ℓ} : {B : Type ℓ} → Outcome (Unit {0}) → Outcome B → Outcome B
first >> second = first >>= λ done. second

infixl 5 ◌>>=◌ ◌>>◌
-- `.map_err(|_| ())?` on a value that is there or not.
abbrev pub or_err {ℓ} : {A : Type ℓ} → Option A → Outcome A
or_err none = err
or_err (some a) = ok a

-- `unwrap` and `expect`.
abbrev pub unwrap {ℓ} : {A : Type ℓ} → Option A → Outcome A
unwrap none = panic
unwrap (some a) = ok a

-- `assert!`.
abbrev pub assert : Bool → Outcome (Unit {0})
assert true = ok tt
assert false = panic

-- What a body that ends well went through.
pub >>=-eq-ok {ℓ κ} :
    {A : Type ℓ} {B : Type κ} (first : Outcome A) (body : A → Outcome B) {result : B}
    → (first >>= body) ≡ ok result
    → (value : A) × (first ≡ ok value) × (body value ≡ ok result)
>>=-eq-ok panic body e = cc
>>=-eq-ok err body e = cc
>>=-eq-ok (ok value) body e = (value, refl, e)

-- A call that runs on fuel: `none` when it runs out.
abbrev pub Run {ℓ} : Type ℓ → Type ℓ
Run A = Option (Outcome A)

-- `?` behind a call that runs on fuel.
abbrev pub then_run {ℓ κ} : {A : Type ℓ} {B : Type κ} → Run A → (A → Run B) → Run B
then_run none body = none
then_run (some panic) body = some panic
then_run (some err) body = some err
then_run (some (ok value)) body = body value

pub then_run-ok {ℓ κ} :
    {A : Type ℓ} {B : Type κ} (first : Run A) (body : A → Run B) {result : B}
    → then_run first body ≡ some (ok result)
    → (value : A) × (first ≡ some (ok value)) × (body value ≡ some (ok result))
then_run-ok none body e = cc
then_run-ok (some panic) body e = cc
then_run-ok (some err) body e = cc
then_run-ok (some (ok value)) body e = (value, refl, e)

-- The call comes to an end.
abbrev pub Returns {ℓ} : {A : Type ℓ} → Run A → Type ℓ
Returns {A = A} run = (r : Outcome A) × (run ≡ some r)

pub then_run-Returns {ℓ} :
    {A B : Type ℓ} (first : Run A) (body : A → Run B)
    → Returns first
    → ((value : A) → first ≡ some (ok value) → Returns (body value))
    → Returns (then_run first body)
then_run-Returns none body (r, e) rest = cc
then_run-Returns (some panic) body r rest = (panic, refl)
then_run-Returns (some err) body r rest = (err, refl)
then_run-Returns (some (ok value)) body r rest = rest value refl

pub or_err-ok : {A : Type 0} (o : Option A) (a : A) → or_err o ≡ ok a → o ≡ some a
or_err-ok none a e = ground (arith, e)
or_err-ok (some b) a e = ground (arith, e)
