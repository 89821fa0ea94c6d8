-- ===== src/Arrays/Sizes.antt =====
-- Lua/src/ltable.cpp: `computesizes`, the size that a rehash gives to the array part. nums[i] counts the
-- keys above 2^(i - 1) and not above 2^i, and narray counts all of them.
use addons_terraria_tshock.Common.{
  ℕ, ◌+◌, ◌*◌, ◌/◌, ◌≤◌, ◌==◌, ltb, if◌then◌else◌, List, [], ◌∷◌, total, ◌≡◌, refl, sym, ap, subst,
  ◌∙◌, arith, Bool-cases, inl, inr, ltb→ge, ge→ltb, eq_of_==,
}
use mathlib.Core.Path.{ap₂}
use addons_terraria_tshock.Common.Outcome.{Outcome, ok, fault}

-- The sum of the slices, the number of keys for the array part, and its size.
pub record Sizes : Type 0 where
  pub a : ℕ
  pub na : ℕ
  pub n : ℕ

-- The body of the loop, for a slice that ends at twotoi.
abbrev slice : ℕ → ℕ → Sizes → Sizes
slice twotoi c s =
    if ltb 0 c
    then (if ltb (twotoi / 2) (s.a + c)
        then record { a = s.a + c; na = s.a + c; n = twotoi }
        else record s { a = s.a + c })
    else s

abbrev result : Sizes → ℕ × ℕ
result s = (s.na, s.n)

-- The loop, which reads behind the counts if they are too few.
unfoldable pub sizes_loop : ℕ → List ℕ → ℕ → Sizes → Outcome (ℕ × ℕ)
sizes_loop narray [] twotoi s = if ltb (twotoi / 2) narray then fault else ok (result s)
sizes_loop narray (c ∷ nums) twotoi s =
    let next = slice twotoi c s in
    let rest = sizes_loop narray nums (twotoi * 2) next in
    if ltb (twotoi / 2) narray
    then (if next.a == narray then ok (result next) else rest)
    else ok (result s)

-- The keys for the array part, and its size.
unfoldable pub computesizes : List ℕ → ℕ → Outcome (ℕ × ℕ)
unfolding sizes_loop
computesizes nums narray = sizes_loop narray nums 1 (record { a = 0; na = 0; n = 0 })

-- The last power of two such that more than half of the indices up to it are keys, and the number of
-- these, or what was found before.
abbrev pub densest : ℕ → ℕ → List ℕ → ℕ × ℕ → ℕ × ℕ
densest twotoi a [] best = best
densest twotoi a (c ∷ nums) best =
    densest (twotoi * 2) (a + c) nums (if ltb (twotoi / 2) (a + c) then (a + c, twotoi) else best)

-- There are no more keys up to a power of two than that.
abbrev AreCounts : ℕ → ℕ → List ℕ → Type 0
AreCounts twotoi a [] = Unit
AreCounts twotoi a (c ∷ nums) = (a + c ≤ twotoi) × AreCounts (twotoi * 2) (a + c) nums

-- Where the keys are at most half, nothing larger is found.
densest_best :
    (nums : List ℕ) (w a : ℕ) (best : ℕ × ℕ)
    → a + total (λ (c : ℕ). c) nums ≤ w / 2
    → densest w a nums best ≡ best
densest_best [] w a best h = refl
densest_best (c ∷ nums) w a best h =
    rw (ge→ltb (w / 2) (a + c) (omega arith)) (densest_best nums (w * 2) (a + c) best (omega arith))

-- What is found of a slice.
abbrev better : ℕ → ℕ → Sizes → ℕ × ℕ
better w c s = if ltb (w / 2) (s.a + c) then (s.a + c, w) else result s

slice_lem :
    (w c : ℕ) (s : Sizes)
    → s.a ≤ w / 2
    → ((slice w c s).a ≡ s.a + c) × (result (slice w c s) ≡ better w c s)
slice_lem w c s h = elim (Bool-cases (ltb 0 c)) [
  | inl e ↦ elim (Bool-cases (ltb (w / 2) (s.a + c))) [
    | inl g ↦ rw (e, g) (refl, refl)
    | inr g ↦ rw (e, g) (refl, refl)
  ]
  | inr e ↦
      rw (e, ge→ltb (w / 2) (s.a + c) (omega (arith, ltb→ge 0 c e)))
        (omega (arith, ltb→ge 0 c e), refl)
]

sizes_loop_lem :
    (narray : ℕ) (nums : List ℕ) (w : ℕ) (s : Sizes)
    → AreCounts w s.a nums
    → s.a + total (λ (c : ℕ). c) nums ≡ narray
    → s.a ≤ w / 2
    → sizes_loop narray nums w s ≡ ok (densest w s.a nums (result s))
unfolding sizes_loop
sizes_loop_lem narray [] w s h e l = rw (ge→ltb (w / 2) narray (omega (arith, e))) refl
sizes_loop_lem narray (c ∷ nums) w s (h, hs) e l = elim (Bool-cases (ltb (w / 2) narray)) [
  | inr done ↦ rw done (
      ap ok (
        sym (
          densest_best (c ∷ nums) w s.a (result s) (omega (arith, e, ltb→ge (w / 2) narray done)))))
  | inl more ↦
      let next = slice w c s in
      let (sum, found) = slice_lem w c s l in
      rw more (elim (Bool-cases (next.a == narray)) [
        | inl all ↦ rw all (
            ap ok (
              found
              ∙ sym (
                  densest_best nums (w * 2) (s.a + c) (better w c s)
                    (omega (arith, e, sum, eq_of_== next.a narray all)))))
        | inr other ↦ rw other (
            sizes_loop_lem narray nums (w * 2) next
              (subst (λ (t : ℕ). AreCounts (w * 2) t nums) (sym sum) hs) (omega (arith, e, sum))
              (omega (arith, sum))
            ∙ ap₂ (λ (t : ℕ) (best : ℕ × ℕ). ok (densest (w * 2) t nums best)) sum found)
      ])
]

-- With counts that add up to narray, and are of different keys, `computesizes` finds the last power of
-- two such that more than half of the indices up to it are keys, although it stops once it has seen
-- all keys, and skips empty slices.
pub computesizes_lem :
    (nums : List ℕ) (narray : ℕ)
    → AreCounts 1 0 nums
    → total (λ (c : ℕ). c) nums ≡ narray
    → computesizes nums narray ≡ ok (densest 1 0 nums (0, 0))
unfolding computesizes
computesizes_lem nums narray h e =
    sizes_loop_lem narray nums 1 (record { a = 0; na = 0; n = 0 }) h (omega (arith, e))
      (omega arith)
