-- ===== src/Common/Outcome.antt =====
-- What a call of a C function of the interpreter ends in. `fault` is an operation that C leaves
-- undefined (a read out of bounds, a signed overflow, a shift by the width or more). `no_fuel` is no
-- outcome of the program: it says that a model loop was given too few rounds.
use Prim.Native.Nat.{ℕ}
use Prim.Native.String.{String}
use mathlib.Core.Path.{◌≡◌, refl, subst}
use mathlib.Core.Logic.{◌≢◌, ◌⊎◌, inl, inr}
use mathlib.Core.Bool.{Bool, true, false}
use mathlib.Core.Option.{Option, none, some}
use mathlib.Core.List.{List}

-- `luaL_error`, `luaL_argerror`, which names the argument, `error` of lundump.cpp, which names the
-- chunk, and the error of `checkmode`, which names the kind of the chunk and the mode.
pub data Error : Type 0 where
  error : String → Error
  argerror : ℕ → String → Error
  chunk_error : List ℕ → String → Error
  mode_error : String → List ℕ → Error

pub data Outcome {ℓ} (A : Type ℓ) : Type ℓ where
  ok : A → Outcome A
  err : Error → Outcome A
  fault no_fuel : Outcome A

infixl 5 ◌>>=◌ ◌>>◌
abbrev pub ◌>>=◌ {ℓ κ} :
    {Given : Type ℓ} {Result : Type κ} → Outcome Given → (Given → Outcome Result) → Outcome Result
ok a >>= next = next a
err e >>= next = err e
fault >>= next = fault
no_fuel >>= next = no_fuel

abbrev pub ◌>>◌ {ℓ} : {B : Type ℓ} → Outcome (Unit {0}) → Outcome B → Outcome B
m >> k = m >>= λ _. k

-- `luaL_argcheck(L, cond, arg, msg)`.
abbrev pub argcheck : Bool → ℕ → String → Outcome (Unit {0})
argcheck true i msg = ok tt
argcheck false i msg = err (argerror i msg)

-- `if (cond) luaL_error(L, msg)`.
abbrev pub error_if : Bool → String → Outcome (Unit {0})
error_if true msg = err (error msg)
error_if false msg = ok tt

-- What C leaves undefined when the condition fails.
abbrev pub defined : Bool → Outcome (Unit {0})
defined true = ok tt
defined false = fault

abbrev pub or_fault {ℓ} : {A : Type ℓ} → Option A → Outcome A
or_fault none = fault
or_fault (some a) = ok a

-- The parts of a bind that succeeds.
pub >>=-eq-ok {ℓ κ} :
    {A : Type ℓ} {B : Type κ} (first : Outcome A) (next : A → Outcome B) {last : B}
    → (first >>= next) ≡ ok last
    → (mid : A) × (first ≡ ok mid) × (next mid ≡ ok last)
>>=-eq-ok (ok mid) next whole = (mid, refl, whole)
>>=-eq-ok (err e) next whole = cc
>>=-eq-ok fault next whole = cc
>>=-eq-ok no_fuel next whole = cc

-- A check that lets the rest succeed holds.
pub argcheck-eq-ok {ℓ} :
    {A : Type ℓ} (t : Bool) (i : ℕ) (msg : String) (m : Outcome A) {a : A}
    → (argcheck t i msg >> m) ≡ ok a
    → (t ≡ true) × (m ≡ ok a)
argcheck-eq-ok true i msg m h = (refl, h)
argcheck-eq-ok false i msg m h = cc

ok-injective {ℓ} : {A : Type ℓ} {a b : A} → ok a ≡ ok b → a ≡ b
ok-injective q = cc

pub Outcome-cases {ℓ} : {A : Type ℓ} (m : Outcome A) → ((a : A) × (m ≡ ok a)) ⊎ ((a : A) → m ≢ ok a)
Outcome-cases (ok a) = inl (a, refl)
Outcome-cases (err x) = inr (λ a q. cc)
Outcome-cases fault = inr (λ a q. cc)
Outcome-cases no_fuel = inr (λ a q. cc)

-- A call that succeeds does so with the property, and it does not run out of fuel.
abbrev pub Ends {ℓ} : {A : Type ℓ} → (A → Type 0) → Outcome A → Type 0
Ends P (ok a) = P a
Ends P (err e) = Unit
Ends P fault = Unit
Ends P no_fuel = ⊥

pub Ends-bind {ℓ κ} :
    {A : Type ℓ} {B : Type κ} (P : A → Type 0) (Q : B → Type 0) (m : Outcome A) (f : A → Outcome B)
    → Ends P m
    → ((a : A) → P a → Ends Q (f a))
    → Ends Q (m >>= f)
Ends-bind P Q (ok a) f e k = k a e
Ends-bind P Q (err x) f e k = tt
Ends-bind P Q fault f e k = tt
Ends-bind P Q no_fuel f e k = e

pub Ends-parts {ℓ} :
    {A : Type ℓ} (P : A → Type 0) (m : Outcome A)
    → Ends P m
    → (m ≢ no_fuel) × ((a : A) → m ≡ ok a → P a)
Ends-parts P (ok a) e = (λ q. cc, λ b q. subst P (ok-injective q) e)
Ends-parts P (err x) e = (λ q. cc, λ b q. cc)
Ends-parts P fault e = (λ q. cc, λ b q. cc)
Ends-parts P no_fuel e = (λ q. e, λ b q. cc)

pub Ends-mono {ℓ} :
    {A : Type ℓ} (P Q : A → Type 0) (m : Outcome A) → ((a : A) → P a → Q a) → Ends P m → Ends Q m
Ends-mono P Q (ok a) k e = k a e
Ends-mono P Q (err x) k e = tt
Ends-mono P Q fault k e = tt
Ends-mono P Q no_fuel k e = e

pub Ends-argcheck {ℓ} :
    {A : Type ℓ} (P : A → Type 0) (t : Bool) (i : ℕ) (msg : String) (m : Outcome A)
    → Ends P m
    → Ends P (argcheck t i msg >> m)
Ends-argcheck P true i msg m e = e
Ends-argcheck P false i msg m e = tt

pub Ends-error_if {ℓ} :
    {A : Type ℓ} (P : A → Type 0) (t : Bool) (msg : String) (m : Outcome A)
    → Ends P m
    → Ends P (error_if t msg >> m)
Ends-error_if P true msg m e = tt
Ends-error_if P false msg m e = e

pub Ends-defined {ℓ} :
    {A : Type ℓ} (P : A → Type 0) (t : Bool) (m : Outcome A) → Ends P m → Ends P (defined t >> m)
Ends-defined P true m e = e
Ends-defined P false m e = tt

-- A call that succeeds with the property or raises an error: it does nothing undefined, and it ends.
abbrev pub Yields {ℓ} : {A : Type ℓ} → (A → Type 0) → Outcome A → Type 0
Yields P (ok a) = P a
Yields P (err e) = Unit
Yields P fault = ⊥
Yields P no_fuel = ⊥

pub Yields-bind {ℓ κ} :
    {A : Type ℓ} {B : Type κ} (P : A → Type 0) (Q : B → Type 0) (m : Outcome A) (f : A → Outcome B)
    → Yields P m
    → ((a : A) → P a → Yields Q (f a))
    → Yields Q (m >>= f)
Yields-bind P Q (ok a) f e k = k a e
Yields-bind P Q (err x) f e k = tt
Yields-bind P Q fault f e k = absurd e
Yields-bind P Q no_fuel f e k = absurd e

pub Yields-mono {ℓ} :
    {A : Type ℓ} (P Q : A → Type 0) (m : Outcome A)
    → ((a : A) → P a → Q a)
    → Yields P m
    → Yields Q m
Yields-mono P Q (ok a) k e = k a e
Yields-mono P Q (err x) k e = tt
Yields-mono P Q fault k e = e
Yields-mono P Q no_fuel k e = e

-- A call that succeeds, with the property.
abbrev pub Gives {ℓ} : {A : Type ℓ} → (A → Type 0) → Outcome A → Type 0
Gives P (ok a) = P a
Gives P (err e) = ⊥
Gives P fault = ⊥
Gives P no_fuel = ⊥

pub Gives-bind {ℓ κ} :
    {A : Type ℓ} {B : Type κ} (P : A → Type 0) (Q : B → Type 0) (m : Outcome A) (f : A → Outcome B)
    → Gives P m
    → ((a : A) → P a → Gives Q (f a))
    → Gives Q (m >>= f)
Gives-bind P Q (ok a) f e k = k a e
Gives-bind P Q (err x) f e k = absurd e
Gives-bind P Q fault f e k = absurd e
Gives-bind P Q no_fuel f e k = absurd e

pub Gives-mono {ℓ} :
    {A : Type ℓ} (P Q : A → Type 0) (m : Outcome A) → ((a : A) → P a → Q a) → Gives P m → Gives Q m
Gives-mono P Q (ok a) k e = k a e
Gives-mono P Q (err x) k e = e
Gives-mono P Q fault k e = e
Gives-mono P Q no_fuel k e = e

pub Gives-parts {ℓ} :
    {A : Type ℓ} (P : A → Type 0) (m : Outcome A) → Gives P m → (a : A) × (m ≡ ok a) × P a
Gives-parts P (ok a) e = (a, refl, e)
Gives-parts P (err x) e = absurd e
Gives-parts P fault e = absurd e
Gives-parts P no_fuel e = absurd e
