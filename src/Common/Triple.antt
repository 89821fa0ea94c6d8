-- ===== src/Common/Triple.antt =====
-- What a call ends in: the invariant I after an error, Q with its result, and neither a crash nor a
-- lack of fuel.
use mathlib.Core.Path.{◌≡◌, refl}
use mathlib.Core.Option.{Option, none, some}
use mathlib.Core.Bool.{Bool, true, false}
use addons_terraria_tshock.Common.Outcome.{Outcome, ok, err, fault, no_fuel, Error}
use addons_terraria_tshock.Common.Outcome
use addons_terraria_tshock.Common.Action.{
  Action, and_then, or_raise, or_crash, lift, unless, raise_if,
}

module _ {S A : Type 0} where
  abbrev pub Ends : (S → Type 0) → (A → S → Type 0) → Outcome A × S → Type 0
  Ends I Q (ok a, s) = Q a s
  Ends I Q (err e, s) = I s
  Ends I Q (fault, s) = ⊥
  Ends I Q (no_fuel, s) = ⊥

  -- After any end, the invariant holds.
  abbrev pub Safe : (S → Type 0) → Outcome A × S → Type 0
  Safe I r = Ends I (λ _. I) r

  -- After any end but a crash, the invariant holds.
  abbrev pub Kept : (S → Type 0) → Outcome A × S → Type 0
  Kept I (ok a, s) = I s
  Kept I (err e, s) = I s
  Kept I (fault, s) = Unit
  Kept I (no_fuel, s) = Unit

  pub Kept-Safe : (I : S → Type 0) (r : Outcome A × S) → Safe I r → Kept I r
  Kept-Safe I (ok a, s) h = h
  Kept-Safe I (err e, s) h = h
  Kept-Safe I (fault, s) h = tt
  Kept-Safe I (no_fuel, s) h = tt

module _ {A : Type 0} where
  -- An outcome that is a value or an error.
  abbrev pub Fine : Outcome A → Type 0
  Fine (ok a) = Unit
  Fine (err e) = Unit
  Fine fault = ⊥
  Fine no_fuel = ⊥

module _ {A B : Type 0} where
  pub Fine-bind :
      (m : Outcome A) (k : A → Outcome B)
      → Fine m
      → ((a : A) → Fine (k a))
      → Fine (Outcome.◌>>=◌ m k)
  Fine-bind (ok a) k f g = g a
  Fine-bind (err e) k f g = tt
  Fine-bind fault k f g = f
  Fine-bind no_fuel k f g = f

module _ {S A B : Type 0} (I : S → Type 0) where
  pub Ends-and_then :
      (Q : A → S → Type 0) (R : B → S → Type 0) (r : Outcome A × S) (k : A → Action S B)
      → Ends I Q r
      → ((a : A) (s : S) → Q a s → Ends I R (k a s))
      → Ends I R (and_then r k)
  Ends-and_then Q R (ok a, s) k h f = f a s h
  Ends-and_then Q R (err e, s) k h f = h
  Ends-and_then Q R (fault, s) k h f = absurd h
  Ends-and_then Q R (no_fuel, s) k h f = absurd h

  pub Kept-and_then :
      (r : Outcome A × S) (k : A → Action S B)
      → Safe I (and_then r (λ a s. (ok a, s)))
      → ((a : A) (s : S) → I s → Kept I (k a s))
      → Kept I (and_then r k)
  Kept-and_then (ok a, s) k h f = f a s h
  Kept-and_then (err e, s) k h f = h
  Kept-and_then (fault, s) k h f = absurd h
  Kept-and_then (no_fuel, s) k h f = absurd h

  Kept-or_fault :
      (o : Option A) (s : S) (k : A → Action S B)
      → ((a : A) → Kept I (k a s))
      → Kept I (and_then (or_crash (λ _. o) s) k)
  Kept-or_fault none s k f = tt
  Kept-or_fault (some a) s k f = f a

  pub Kept-or_crash :
      (f : S → Option A) (s : S) (k : A → Action S B)
      → ((a : A) → Kept I (k a s))
      → Kept I (and_then (or_crash f s) k)
  Kept-or_crash f s k h = Kept-or_fault (f s) s k h

  -- A check that fails leaves the state.
  pub Ends-or_raise :
      (R : B → S → Type 0) (o : Option A) (e : Error) (s : S) (k : A → Action S B)
      → I s
      → ((a : A) → o ≡ some a → Ends I R (k a s))
      → Ends I R (and_then (or_raise o e s) k)
  Ends-or_raise R none e s k h f = h
  Ends-or_raise R (some a) e s k h f = f a refl

  -- A value that is there.
  pub Ends-or_crash :
      (R : B → S → Type 0) (f : S → Option A) (s : S) (k : A → Action S B) (a : A)
      → f s ≡ some a
      → Ends I R (k a s)
      → Ends I R (and_then (or_crash f s) k)
  Ends-or_crash R f s k a e h = rw e h

  pub Ends-lift :
      (R : B → S → Type 0) (m : Outcome A) (s : S) (k : A → Action S B)
      → Fine m
      → I s
      → ((a : A) → Ends I R (k a s))
      → Ends I R (and_then (lift m s) k)
  Ends-lift R (ok a) s k f h g = g a
  Ends-lift R (err e) s k f h g = h
  Ends-lift R fault s k f h g = absurd f
  Ends-lift R no_fuel s k f h g = absurd f

module _ {S B : Type 0} (I : S → Type 0) where
  pub Ends-unless :
      (R : B → S → Type 0) (b : Bool) (m : Action S (Unit {0})) (s : S) (k : Unit {0} → Action S B)
      → (b ≡ true → Ends I R (k tt s))
      → (b ≡ false → Ends I R (and_then (m s) k))
      → Ends I R (and_then (unless b m s) k)
  Ends-unless R true m s k f g = f refl
  Ends-unless R false m s k f g = g refl

  pub Ends-raise_if :
      (R : B → S → Type 0) (b : Bool) (e : Error) (s : S) (k : Unit {0} → Action S B)
      → I s
      → (b ≡ false → Ends I R (k tt s))
      → Ends I R (and_then (raise_if b e s) k)
  Ends-raise_if R true e s k h f = h
  Ends-raise_if R false e s k h f = f refl

module _ {S A B D : Type 0} (I : S → Type 0) (R : D → S → Type 0) where
  pub Ends-assoc :
      (r : Outcome A × S) (f : A → Action S B) (g : B → Action S D)
      → Ends I R (and_then r (λ a s. and_then (f a s) g))
      → Ends I R (and_then (and_then r f) g)
  Ends-assoc (ok a, s) f g h = h
  Ends-assoc (err e, s) f g h = h
  Ends-assoc (fault, s) f g h = h
  Ends-assoc (no_fuel, s) f g h = h

module _ {S A : Type 0} {I J : S → Type 0} {Q R : A → S → Type 0} where
  pub Ends-weaken :
      (r : Outcome A × S)
      → ((s : S) → I s → J s)
      → ((a : A) (s : S) → Q a s → R a s)
      → Ends I Q r
      → Ends J R r
  Ends-weaken (ok a, s) f g h = g a s h
  Ends-weaken (err e, s) f g h = f s h
  Ends-weaken (fault, s) f g h = h
  Ends-weaken (no_fuel, s) f g h = h
