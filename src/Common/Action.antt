-- ===== src/Common/Action.antt =====
-- Calls that read and change a state: a state goes in, and an outcome and a state come out. The state
-- comes back after an error too, since what was written stays written.
use mathlib.Core.Bool.{Bool, true, false}
use mathlib.Core.Option.{Option, none, some}
use addons_terraria_tshock.Common.Outcome.{Outcome, ok, err, fault, no_fuel, Error}

abbrev pub Action : Type 0 → Type 0 → Type 0
Action S A = S → Outcome A × S

module _ {S A B : Type 0} where
  abbrev pub and_then : Outcome A × S → (A → Action S B) → Outcome B × S
  and_then (ok a, s) k = k a s
  and_then (err e, s) k = (err e, s)
  and_then (fault, s) k = (fault, s)
  and_then (no_fuel, s) k = (no_fuel, s)

  infixl 5 ◌>>=◌ ◌>>◌
  abbrev pub ◌>>=◌ : Action S A → (A → Action S B) → Action S B
  m >>= k = λ s. and_then (m s) k

  abbrev pub ◌>>◌ : Action S A → Action S B → Action S B
  m >> k = m >>= λ _. k

module _ {S A : Type 0} where
  abbrev pub pure : A → Action S A
  pure a s = (ok a, s)

  abbrev pub raise : Error → Action S A
  raise e s = (err e, s)

  abbrev pub lift : Outcome A → Action S A
  lift m s = (m, s)

  abbrev pub gets : (S → A) → Action S A
  gets f s = (ok (f s), s)

  abbrev pub or_raise : Option A → Error → Action S A
  or_raise none e s = (err e, s)
  or_raise (some a) e s = (ok a, s)

module _ {S A : Type 0} where
  abbrev pub or_fault : Option A → Action S A
  or_fault none s = (fault, s)
  or_fault (some a) s = (ok a, s)

  -- A value that is read from the state; without it the program goes wrong.
  abbrev pub or_crash : (S → Option A) → Action S A
  or_crash f s = or_fault (f s) s

module _ {S : Type 0} where
  abbrev pub modify : (S → S) → Action S (Unit {0})
  modify f s = (ok tt, f s)

  abbrev pub raise_if : Bool → Error → Action S (Unit {0})
  raise_if true e s = (err e, s)
  raise_if false e s = (ok tt, s)

  abbrev pub unless : Bool → Action S (Unit {0}) → Action S (Unit {0})
  unless true m = pure tt
  unless false m = m
