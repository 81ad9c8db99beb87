-- ===== src/Base/Outcome.antt =====
-- How a kernel function can end: it returns, it calls `panic`, which never comes back, it stops in
-- an endless loop of its own, it uses memory that it may not (through a null pointer, or past an array),
-- or the model's count of loop rounds ran out.
use mathlib.Core.Bool.{Bool, true, false}
use mathlib.Core.Path.{◌≡◌}
use tuix_os.Base.Tests.{if◌then◌else◌}

pub data Outcome {ℓ} (A : Type ℓ) : Type ℓ where
  ok : A → Outcome A
  panic : Outcome A
  hang : Outcome A
  fault : Outcome A
  out_of_fuel : Outcome A

infixl 5 ◌>>=◌ ◌>>◌
abbrev pub ◌>>=◌ {ℓ κ} : {A : Type ℓ} {B : Type κ} → Outcome A → (A → Outcome B) → Outcome B
ok a >>= f = f a
panic >>= f = panic
hang >>= f = hang
fault >>= f = fault
out_of_fuel >>= f = out_of_fuel

abbrev pub ◌>>◌ {ℓ κ} : {A : Type ℓ} {B : Type κ} → Outcome A → Outcome B → Outcome B
m >> k = m >>= λ _. k

-- What a result has, if there is one.
abbrev pub Holds {ℓ κ} : {A : Type ℓ} → (A → Type κ) → Outcome A → Type κ
Holds P (ok a) = P a
Holds P _ = Unit

pub Holds-bind {ℓ κ μ ν} :
    {A : Type ℓ} {B : Type κ} (Q : A → Type μ) (P : B → Type ν) (o : Outcome A) (f : A → Outcome B)
    → Holds Q o
    → ((a : A) → Q a → Holds P (f a))
    → Holds P (o >>= f)
Holds-bind Q P (ok a) f h each = each a h
Holds-bind Q P panic f h each = tt
Holds-bind Q P hang f h each = tt
Holds-bind Q P fault f h each = tt
Holds-bind Q P out_of_fuel f h each = tt

pub Holds-any {ℓ κ ν} :
    {A : Type ℓ} {B : Type κ} (P : B → Type ν) (o : Outcome A) (f : A → Outcome B)
    → ((a : A) → Holds P (f a))
    → Holds P (o >>= f)
Holds-any P (ok a) f each = each a
Holds-any P panic f each = tt
Holds-any P hang f each = tt
Holds-any P fault f each = tt
Holds-any P out_of_fuel f each = tt

pub Holds-guard {ℓ ν} :
    {A : Type ℓ} (P : A → Type ν) (b : Bool) (o : Outcome A)
    → Holds P o
    → Holds P (if b then panic else o)
Holds-guard P true o h = tt
Holds-guard P false o h = h

pub Holds-if {ℓ ν} :
    {A : Type ℓ} (P : A → Type ν) (b : Bool) (o o' : Outcome A)
    → Holds P o
    → Holds P o'
    → Holds P (if b then o else o')
Holds-if P true o o' h h' = h
Holds-if P false o o' h h' = h'

pub Holds-ok {ℓ ν} :
    {A : Type ℓ} (P : A → Type ν) (o : Outcome A) (a : A) → o ≡ ok a → Holds P o → P a
Holds-ok P o a e h = rw e at h
