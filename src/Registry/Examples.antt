-- ===== src/Registry/Examples.antt =====
-- Lua/src/lauxlib.cpp: references at concrete tables.
use addons_terraria_tshock.Common.{ℕ, ◌==◌, if◌then◌else◌, none, some, [], ◌∷◌, ◌≡◌, refl}
use addons_terraria_tshock.Registry.{Registry, stored, next, lookup, ref, unref}
use addons_terraria_tshock.Registry.Laws.{IsValid, ref_lem, unref_lem}

-- Reference 1 holds 10, and 2 is free.
abbrev one_free : Registry ℕ
one_free = record { free = 2; slots = stored 10 ∷ next 0 ∷ [] }

abbrev one_free-IsValid : IsValid one_free
one_free-IsValid = (1 ∷ [], (refl, 0, refl, tt, refl))

-- A free reference is used again.
ref_run : ref 20 one_free ≡ (2, record { free = 0; slots = stored 10 ∷ stored 20 ∷ [] })
unfolding ref
ref_run = refl

unref_run : unref (some 1) one_free ≡ record { free = 1; slots = next 2 ∷ next 0 ∷ [] }
unfolding unref
unref_run = refl

ref_lem_example :
    IsValid (ref 20 one_free).1
    × (lookup one_free (ref 20 one_free).0 ≡ none)
    × ((j : ℕ)
        → lookup (ref 20 one_free).1 j
          ≡ (if j == (ref 20 one_free).0 then some 20 else lookup one_free j))
ref_lem_example = ref_lem 20 one_free one_free-IsValid

unref_lem_example :
    IsValid (unref (some 1) one_free)
    × ((j : ℕ) → lookup (unref (some 1) one_free) j ≡ (if j == 1 then none else lookup one_free j))
unfolding lookup
unref_lem_example = unref_lem 1 10 one_free one_free-IsValid refl
