-- ===== src/Base/Tests.antt =====
-- Boolean tests on the native numbers, the conditional, and the outcome of a C function.
use mathlib.Core.Path.{◌∙◌, sym, ap, ◌≡◌, refl}
use Prim.Native.Nat.{ℕ, ◌≤◌, ◌<◌, compare, Ordering}
use mathlib.Core.Logic.{◌⊎◌, inl, inr}
use mathlib.Core.Bool.{Bool, true, false}
use mathlib.Core.Option.{Option, none, some}
use native.Mathlib.Omega.{arith}

abbrev pub ltb : ℕ → ℕ → Bool
ltb a b = elim (compare a b) [ Ordering.lt ↦ true | _ ↦ false ]

abbrev pub leb : ℕ → ℕ → Bool
leb a b = elim (compare a b) [ Ordering.gt ↦ false | _ ↦ true ]

infix 50 ◌==◌
abbrev pub ◌==◌ : ℕ → ℕ → Bool
a == b = elim (compare a b) [ Ordering.eq ↦ true | _ ↦ false ]

infix 1 if◌then◌else◌
abbrev pub if◌then◌else◌ {ℓ} : {A : Type ℓ} → Bool → A → A → A
if true then x else y = x
if false then x else y = y

-- To split on a computed test and keep the equation.
pub Bool-cases : (b : Bool) → (b ≡ true) ⊎ (b ≡ false)
Bool-cases true = inl refl
Bool-cases false = inr refl

pub ltb-true : (a b : ℕ) → a < b → ltb a b ≡ true
ltb-true a b h = ground arith

pub ltb-false : (a b : ℕ) → b ≤ a → ltb a b ≡ false
ltb-false a b h = ground arith

pub leb-true : (a b : ℕ) → a ≤ b → leb a b ≡ true
leb-true a b h = ground arith

pub leb-false : (a b : ℕ) → b < a → leb a b ≡ false
leb-false a b h = ground arith

-- How a C function ends: it returns, calls `exit` with a status, calls `abort`, does what C leaves
-- undefined, or, in a loop that the model runs on fuel, is still running when the fuel is used up.
pub data Outcome {ℓ} (A : Type ℓ) : Type ℓ where
  ok : A → Outcome A
  exit : ℕ → Outcome A
  abort : Outcome A
  fault : Outcome A
  out_of_fuel : Outcome A

infixl 5 ◌>>=◌
abbrev pub ◌>>=◌ {ℓ κ} : {A : Type ℓ} {B : Type κ} → Outcome A → (A → Outcome B) → Outcome B
ok a >>= f = f a
exit n >>= f = exit n
abort >>= f = abort
fault >>= f = fault
out_of_fuel >>= f = out_of_fuel

-- The function returns, and `P` holds of what it returns.
abbrev pub Returns {ℓ κ} : {A : Type ℓ} → (A → Type κ) → Outcome A → Type (ℓ ⊔ κ)
Returns {A} P r = (a : A) × (r ≡ ok a) × P a

pub Option-cases {ℓ} : {A : Type ℓ} (o : Option A) → (o ≡ none) ⊎ ((a : A) × (o ≡ some a))
Option-cases none = inl refl
Option-cases (some a) = inr (a, refl)

-- A step that only changes a result can be made before the rest of a chain.
pub bind-ok {ℓ κ μ} :
    {A : Type ℓ} {B : Type κ} {C : Type μ} (o : Outcome A) (g : A → B) (f : B → Outcome C)
    → (o >>= λ a. f (g a)) ≡ ((o >>= λ a. ok (g a)) >>= f)
bind-ok (ok a) g f = refl
bind-ok (exit n) g f = refl
bind-ok abort g f = refl
bind-ok fault g f = refl
bind-ok out_of_fuel g f = refl

pub lt_or_le : (a b : ℕ) → (a < b) ⊎ (b ≤ a)
lt_or_le a b = omega arith

abbrev value_or {ℓ} : {A : Type ℓ} → A → Outcome A → A
value_or d (ok a) = a
value_or d (exit n) = d
value_or d abort = d
value_or d fault = d
value_or d out_of_fuel = d

pub ok_injective {ℓ} : {A : Type ℓ} (a b : A) → ok a ≡ ok b → a ≡ b
ok_injective a b h = ap (value_or a) h

-- What holds of some result holds of the one that is returned.
pub of_result {ℓ κ} :
    {A : Type ℓ} (P : A → Type κ) (o : Outcome A) (a : A) → Returns P o → o ≡ ok a → P a
of_result P o a (b, e, p) e' = let z = ok_injective a b (sym e' ∙ e) in rw z p

-- The function exits with 1, faults, or returns something of which `P` holds.
abbrev pub EndsOrFaults {ℓ κ} : {A : Type ℓ} → (A → Type κ) → Outcome A → Type (ℓ ⊔ κ)
EndsOrFaults P r = (r ≡ exit 1) ⊎ ((r ≡ fault) ⊎ Returns P r)

pub EndsOrFaults-bind {ℓ κ μ ν} :
    {A : Type ℓ} {B : Type μ} (P : A → Type κ) (Q : B → Type ν) (o : Outcome A) (f : A → Outcome B)
    → EndsOrFaults P o
    → ((a : A) → P a → EndsOrFaults Q (f a))
    → EndsOrFaults Q (o >>= f)
EndsOrFaults-bind P Q o f (inl e) k = inl (rw e refl)
EndsOrFaults-bind P Q o f (inr (inl e)) k = inr (inl (rw e refl))
EndsOrFaults-bind P Q o f (inr (inr (a, e, p))) k = rw e (k a p)

pub EndsOrFaults-map {ℓ κ μ} :
    {A : Type ℓ} (P : A → Type κ) (Q : A → Type μ) (o : Outcome A)
    → EndsOrFaults P o
    → ((a : A) → P a → Q a)
    → EndsOrFaults Q o
EndsOrFaults-map P Q o (inl e) k = inl e
EndsOrFaults-map P Q o (inr (inl e)) k = inr (inl e)
EndsOrFaults-map P Q o (inr (inr (a, e, p))) k = inr (inr (a, e, k a p))

pub Returns-bind {ℓ κ μ ν} :
    {A : Type ℓ} {B : Type μ} (P : A → Type κ) (Q : B → Type ν) (o : Outcome A) (f : A → Outcome B)
    → Returns P o
    → ((a : A) → P a → Returns Q (f a))
    → Returns Q (o >>= f)
Returns-bind P Q o f (a, e, p) k = rw e (k a p)
