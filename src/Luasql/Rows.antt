-- ===== src/Luasql/Rows.antt =====
-- Lua/include/luasql: how both drivers write a row to a table.
use addons_terraria_tshock.Common.{
  ℕ, ◌+◌, ◌==◌, Bool, false, ◌||◌, Option, none, some, List, [], ◌∷◌,
}
use addons_terraria_tshock.Common.Int.{ℤ, pos}
use addons_terraria_tshock.Common.Outcome.{Outcome, ok, err, error, ◌>>=◌}
use addons_terraria_tshock.Common.Triple.{Fine, Fine-bind}
use addons_terraria_tshock.Luasql.{Scalar, nil, boolean, number, string, Value, columns}

-- `strchr`, for an option.
abbrev pub has : ℕ → List ℕ → Bool
has c [] = false
has c (x ∷ xs) = x == c || has c xs

module _ {N : Type 0} where
  -- What `lua_rawseti(L, 2, i + 1)` writes, for the indices from i on.
  abbrev pub by_number : (ℤ → N) → List (Scalar N) → ℕ → List (Scalar N × Scalar N)
  by_number to_number [] i = []
  by_number to_number (v ∷ vs) i =
      (number (to_number (pos (i + 1))), v) ∷ by_number to_number vs (i + 1)

  -- What `lua_rawset(L, 2)` writes; a name that is nil is no key.
  abbrev pub by_name : List (Scalar N) → List (Scalar N) → Outcome (List (Scalar N × Scalar N))
  by_name names [] = ok []
  by_name [] (v ∷ vs) = err (error "index is nil")
  by_name (nil ∷ names) (v ∷ vs) = err (error "index is nil")
  by_name (name ∷ names) (v ∷ vs) = do rest ← by_name names vs; ok ((name, v) ∷ rest)

  abbrev pub names_in : Option (Value N) → Option (List (Scalar N))
  names_in (some (columns l)) = some l
  names_in _ = none

  pub by_name-Fine : (names vs : List (Scalar N)) → Fine (by_name names vs)
  by_name-Fine names [] = tt
  by_name-Fine [] (v ∷ vs) = tt
  by_name-Fine (nil ∷ names) (v ∷ vs) = tt
  by_name-Fine (boolean b ∷ names) (v ∷ vs) =
      Fine-bind (by_name names vs) _ (by_name-Fine names vs) (λ r. tt)
  by_name-Fine (number b ∷ names) (v ∷ vs) =
      Fine-bind (by_name names vs) _ (by_name-Fine names vs) (λ r. tt)
  by_name-Fine (string b ∷ names) (v ∷ vs) =
      Fine-bind (by_name names vs) _ (by_name-Fine names vs) (λ r. tt)
