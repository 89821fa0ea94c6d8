-- ===== src/Common/Runs.antt =====
-- Programs as sequences of calls: a program goes on after an error, and ends with a crash.
use mathlib.Core.Path.{◌≡◌, refl}
use Prim.Native.Nat.{ℕ, suc, ◌+◌, ◌<◌}
use mathlib.Core.Option.{Option, none, some}
use mathlib.Core.List.{List, [], ◌∷◌}
use native.Mathlib.Omega.{arith}
use addons_terraria_tshock.Common.Lists.{length}
use addons_terraria_tshock.Common.Outcome.{Outcome, ok, err, fault, no_fuel}
use addons_terraria_tshock.Common.Action.{Action}
use addons_terraria_tshock.Common.Triple.{Safe, Kept}
use mathlib.Core.Path.{subst}
use mathlib.Core.Logic.{◌⊎◌, inl, inr}

module _ {S : Type 0} where
  some_injective : {a b : S} → some a ≡ some b → a ≡ b
  some_injective e = cc

  abbrev and_go_on : Option S → (S → Option S) → Option S
  and_go_on none k = none
  and_go_on (some s) k = k s

module _ {S A : Type 0} where
  abbrev survives : Outcome A × S → Option S
  survives (ok a, s) = some s
  survives (err e, s) = some s
  survives (fault, s) = none
  survives (no_fuel, s) = none

  survives_lem : (I : S → Type 0) (r : Outcome A × S) → Safe I r → (survives r ≡ some r.1) × I r.1
  survives_lem I (ok vs, s) h = (refl, h)
  survives_lem I (err e, s) h = (refl, h)
  survives_lem I (fault, s) h = absurd h
  survives_lem I (no_fuel, s) h = absurd h

  survives_cases :
      (I : S → Type 0) (r : Outcome A × S)
      → Kept I r
      → ((survives r ≡ some r.1) × I r.1) ⊎ (survives r ≡ none)
  survives_cases I (ok vs, s) h = inl (refl, h)
  survives_cases I (err e, s) h = inl (refl, h)
  survives_cases I (fault, s) h = inr refl
  survives_cases I (no_fuel, s) h = inr refl

  module _ {M : Type 0} (call : M → Action S A) where
    -- The state after the calls, unless one of them crashes.
    abbrev pub run : List M → S → Option S
    run [] s = some s
    run (m ∷ ms) s = and_go_on (survives (call m s)) (run ms)

    -- Calls that keep an invariant, which may depend on the number of calls up to a bound.
    pub run_lem :
        (I : ℕ → S → Type 0) (bound : ℕ)
        → ((n : ℕ) (s : S) (m : M) → n < bound → I n s → Safe (I (suc n)) (call m s))
        → (n : ℕ) (s : S) (ms : List M) → n + length ms < bound
        → I n s
        → (t : S) × (run ms s ≡ some t) × I (n + length ms) t
    run_lem I bound f n s [] b h = (s, refl, subst (λ k. I k s) (omega arith) h)
    run_lem I bound f n s (m ∷ ms) b h =
        let (e, good) = survives_lem (I (suc n)) (call m s) (f n s m (omega arith) h) in
        let (t, g, after) = run_lem I bound f (suc n) (call m s).1 ms (omega arith) good in
        (t, rw e g, subst (λ k. I k t) (omega arith) after)

    -- Calls that keep an invariant unless they crash, in a run that none of them crashes.
    pub run-Kept :
        (I : S → Type 0)
        → ((s : S) (m : M) → I s → Kept I (call m s))
        → (s : S) (ms : List M) (t : S) → run ms s ≡ some t
        → I s
        → I t
    run-Kept I f s [] t e h = subst I (some_injective e) h
    run-Kept I f s (m ∷ ms) t e h = elim (survives_cases I (call m s) (f s m h)) [
      | inl (g, good) ↦ run-Kept I f (call m s).1 ms t (rw g at e) good
      | inr g ↦ cc
    ]
