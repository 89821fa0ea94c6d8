-- ===== src/Chunk/Loader.antt =====
-- Calls that read a stream: a stream goes in, and a value and the stream come out, or an error.
use addons_terraria_tshock.Common.{ℕ, zero, suc, List, [], ◌∷◌}
use addons_terraria_tshock.Common.Outcome.{Outcome, ok}
use addons_terraria_tshock.Common.Outcome

abbrev pub Loader : Type 0 → Type 0 → Type 0
Loader Z A = Z → Outcome (A × Z)

module _ {Z A B : Type 0} where
  abbrev go_on : (A → Loader Z B) → A × Z → Outcome (B × Z)
  go_on k (a, z) = k a z

  infixl 5 ◌>>=◌ ◌>>◌
  abbrev pub ◌>>=◌ : Loader Z A → (A → Loader Z B) → Loader Z B
  m >>= k = λ z. Outcome.◌>>=◌ (m z) (go_on k)

  abbrev pub ◌>>◌ : Loader Z A → Loader Z B → Loader Z B
  m >> k = m >>= λ _. k

module _ {Z A : Type 0} where
  abbrev pub pure : A → Loader Z A
  pure a z = ok (a, z)

  abbrev pub lift : Outcome A → Loader Z A
  lift m z = Outcome.◌>>=◌ m (λ a. ok (a, z))

module _ {Z A : Type 0} where
  -- A loop that loads the n elements of an array.
  abbrev pub load_each : Loader Z A → ℕ → Loader Z (List A)
  load_each load zero = pure []
  load_each load (suc n) = do x ← load; xs ← load_each load n; pure (x ∷ xs)
