-- ===== src/Base/Outcome.antt =====
-- How a run of C code ends, and the rules for runs that end well.
use mathlib.Core.Path.{◌≡◌, refl}
use mathlib.Core.Option.{Option, none, some}
use mathlib.Core.Bool.{Bool, true, false}
use iu_sp.Base.Tests.{if◌then◌else◌}

-- A value; a fault, which is undefined behaviour (a null or dangling pointer, an access out of
-- bounds) or a failed assertion; or the model's fuel running out.
pub data Run {ℓ} (A : Type ℓ) : Type ℓ where
  ok : A → Run A
  fault out_of_fuel : Run A

infixl 5 ◌>>=◌ ◌>>◌
abbrev pub ◌>>=◌ {ℓ κ} : {A : Type ℓ} {B : Type κ} → Run A → (A → Run B) → Run B
ok a >>= f = f a
fault >>= f = fault
out_of_fuel >>= f = out_of_fuel

abbrev pub ◌>>◌ {ℓ} : {B : Type ℓ} → Run (Unit {0}) → Run B → Run B
m >> k = m >>= λ _. k

-- a pointer that has to lead somewhere
abbrev pub or_fault {ℓ} : {A : Type ℓ} → Option A → Run A
or_fault (some a) = ok a
or_fault none = fault

abbrev pub assert : Bool → Run (Unit {0})
assert true = ok tt
assert false = fault

-- the run ends with a value that satisfies `Good`
pub data Returns {ℓ κ} {A : Type ℓ} (Good : A → Type κ) : Run A → Type (ℓ ⊔ κ) where
  returns : {x : A} → Good x → Returns Good (ok x)

-- the value of such a run
pub Returns-inv {ℓ κ} :
    {A : Type ℓ} {Good : A → Type κ} {m : Run A} → Returns Good m → (x : A) × (m ≡ ok x) × Good x
Returns-inv (returns good) = (_, refl, good)

pub Returns-map {ℓ κ κ'} :
    {A : Type ℓ} {Good : A → Type κ} {Better : A → Type κ'} {m : Run A}
    → Returns Good m
    → ((x : A) → Good x → Better x)
    → Returns Better m
Returns-map (returns good) better = returns (better _ good)

-- a chain of two runs, the second for each value of the first
pub Returns-bind {ℓ κ ℓ' κ'} :
    {A : Type ℓ} {Good : A → Type κ} {B : Type ℓ'} {Last : B → Type κ'} {m : Run A}
    {next : A → Run B}
    → Returns Good m
    → ((x : A) → Good x → Returns Last (next x))
    → Returns Last (m >>= next)
Returns-bind (returns good) last = last _ good

-- a test of a Boolean, which is known in each branch
pub Returns-if {ℓ κ} :
    {A : Type ℓ} {Good : A → Type κ} {m k : Run A} (test : Bool)
    → (test ≡ true → Returns Good m)
    → (test ≡ false → Returns Good k)
    → Returns Good (if test then m else k)
Returns-if false _ otherwise = otherwise refl
Returns-if true passed _ = passed refl

-- two properties of one value
pub Returns-both {ℓ κ κ'} :
    {A : Type ℓ} {P : A → Type κ} {Q : A → Type κ'} {m : Run A}
    → Returns P m
    → Returns Q m
    → Returns (λ x. P x × Q x) m
Returns-both (returns a) (returns b) = returns (a, b)

-- what holds of the value, if the run ends with one
pub data WhenOk {ℓ κ} {A : Type ℓ} (P : A → Type κ) : Run A → Type (ℓ ⊔ κ) where
  when_ok : {x : A} → P x → WhenOk P (ok x)
  when_fault : WhenOk P fault
  when_out_of_fuel : WhenOk P out_of_fuel

pub WhenOk-bind {ℓ κ κ' ℓ'} :
    {A : Type ℓ} {B : Type ℓ'} {Q : A → Type κ'} {P : B → Type κ} {m : Run A} {next : A → Run B}
    → WhenOk Q m
    → ((x : A) → Q x → WhenOk P (next x))
    → WhenOk P (m >>= next)
WhenOk-bind (when_ok q) h = h _ q
WhenOk-bind when_fault h = when_fault
WhenOk-bind when_out_of_fuel h = when_out_of_fuel

pub WhenOk-any {ℓ} : {A : Type ℓ} (m : Run A) → WhenOk (λ _. Unit {0}) m
WhenOk-any (ok x) = when_ok tt
WhenOk-any fault = when_fault
WhenOk-any out_of_fuel = when_out_of_fuel

-- what holds of a run's value if there is one holds of the value of a run that ends well
pub WhenOk-Returns {ℓ κ κ'} :
    {A : Type ℓ} {P : A → Type κ} {Q : A → Type κ'} {m : Run A}
    → Returns P m
    → WhenOk Q m
    → Returns (λ x. P x × Q x) m
WhenOk-Returns (returns p) (when_ok q) = returns (p, q)
