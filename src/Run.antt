-- ===== src/Run.antt =====
-- Runs of C code: a value, or the first operation whose behaviour the language leaves undefined.
use memuncached.Prelude.{◌≡◌, ap}

pub data Fault : Type 0 where
  -- an access outside the object that a pointer was made from
  out_of_bounds : Fault
  -- an access through a pointer to an object of another type
  wrong_type : Fault
  null_pointer : Fault
  -- an access to, or a second release of, released memory
  released : Fault
  -- a use of a value that nothing has been stored in
  uninitialised : Fault
  division_by_zero : Fault
  -- an `int` beyond its range
  signed_overflow : Fault
  -- no fault of the code: the rounds that the model allows a loop have run out
  out_of_fuel : Fault

pub data Run {ℓ} (A : Type ℓ) : Type ℓ where
  ok : A → Run A
  fault : Fault → Run A

infixl 5 ◌>>=◌ ◌>>◌
abbrev pub ◌>>=◌ {ℓ κ} : {A : Type ℓ} {B : Type κ} → Run A → (A → Run B) → Run B
ok a >>= f = f a
fault e >>= f = fault e

abbrev pub ◌>>◌ {ℓ} : {B : Type ℓ} → Run (Unit {0}) → Run B → Run B
m >> k = m >>= λ _. k

-- A run that ends well, with a value of which `P` holds.
abbrev pub Returns {ℓ κ} : {A : Type ℓ} → Run A → (A → Type κ) → Type (ℓ ⊔ κ)
Returns {A} m P = (a : A) × (m ≡ ok a) × P a

pub bind_ok {ℓ κ} :
    {A : Type ℓ} {B : Type κ} {m : Run A} {a : A} (f : A → Run B) → m ≡ ok a → (m >>= f) ≡ f a
bind_ok f e = ap (λ n. n >>= f) e

pub bind_fault {ℓ κ} :
    {A : Type ℓ} {B : Type κ} {m : Run A} {x : Fault} (f : A → Run B)
    → m ≡ fault x
    → (m >>= f) ≡ fault x
bind_fault f e = ap (λ n. n >>= f) e
