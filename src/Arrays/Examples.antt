-- ===== src/Arrays/Examples.antt =====
-- Lua/src/ltable.cpp: a small table, some of whose keys are in the hash part.
use addons_terraria_tshock.Common.{
  ℕ, ◌≡◌, refl, arith, leb, if◌then◌else◌, false, none, some, List, [], ◌∷◌,
}
use addons_terraria_tshock.Common.Outcome.{ok}
use addons_terraria_tshock.Arrays.{
  Table, array_is_nil, lua_h_getint, binary_search, double_search, unbound_search, lua_h_getn,
}
use addons_terraria_tshock.Arrays.Sizes.{sizes_loop, computesizes, densest, computesizes_lem}
use addons_terraria_tshock.Arrays.Border.{IsBorder, is_absent, lua_h_getn_lem}

-- The keys 1 and 2 are in the array part, and 3 to 7 in the hash part.
abbrev seven : Table ℕ
seven = record {
  array = some 5 ∷ some 6 ∷ [];
  node = λ k. if leb k 7 then some k else none;
  node_is_dummy = false;
}

seven_run : lua_h_getn seven ≡ ok 7
unfolding lua_h_getn array_is_nil unbound_search double_search binary_search lua_h_getint
seven_run = refl

lua_h_getn_lem_example : (n : ℕ) × (lua_h_getn seven ≡ ok n) × IsBorder (is_absent seven) n
lua_h_getn_lem_example =
    lua_h_getn_lem seven 8 (omega arith) (λ e k. cc) (omega arith) (omega arith) refl

-- The keys 1, 2, 3 and 7: three of them are up to 4, and only four up to 8.
abbrev slices : List ℕ
slices = 1 ∷ 1 ∷ 1 ∷ 1 ∷ []

slices_run : computesizes slices 4 ≡ ok (3, 4)
unfolding computesizes sizes_loop
slices_run = refl

computesizes_lem_example : computesizes slices 4 ≡ ok (densest 1 0 slices (0, 0))
computesizes_lem_example =
    computesizes_lem slices 4 (omega arith, (omega arith, (omega arith, (omega arith, tt)))) refl
