-- ===== src/Object/CeilLog.antt =====
-- Lua/src/lobject.cpp: `luaO_ceillog2`, by which a table counts its keys and sizes its parts.
use addons_terraria_tshock.Common.{
  ℕ, zero, suc, ◌+◌, ◌-◌, ◌*◌, ◌/◌, ◌%◌, ◌^◌, ◌≤◌, ◌<◌, leb, ltb, ◌==◌, if◌then◌else◌, Bool, true,
  ◌&&◌, ◌||◌, List, [], ◌∷◌, get_elem?, get_or, Bool-cases, inl, inr, ◌≡◌, ◌⊎◌, refl, ap, ◌∙◌,
  arith, some, leb→le, leb→gt, gt→leb, ltb→lt, eq_of_==, false, length, subst, sym,
}
use native.Mathlib.Omega.{pow_step}
use addons_terraria_tshock.Common.Bits.{all_below, all_below_sound}
use addons_terraria_tshock.Common.Outcome.{Outcome, ok, no_fuel, ◌>>=◌, or_fault}

unfoldable log_2 : List ℕ
log_2 =
    0 ∷ 1 ∷ 2 ∷ 2 ∷ 3 ∷ 3 ∷ 3 ∷ 3 ∷ 4 ∷ 4 ∷ 4 ∷ 4 ∷ 4 ∷ 4 ∷ 4 ∷ 4 ∷ 5 ∷ 5 ∷ 5 ∷ 5 ∷ 5 ∷ 5 ∷ 5 ∷ 5
    ∷ 5 ∷ 5 ∷ 5 ∷ 5 ∷ 5 ∷ 5 ∷ 5 ∷ 5 ∷ 6 ∷ 6 ∷ 6 ∷ 6 ∷ 6 ∷ 6 ∷ 6 ∷ 6 ∷ 6 ∷ 6 ∷ 6 ∷ 6 ∷ 6 ∷ 6 ∷ 6 ∷ 6
    ∷ 6 ∷ 6 ∷ 6 ∷ 6 ∷ 6 ∷ 6 ∷ 6 ∷ 6 ∷ 6 ∷ 6 ∷ 6 ∷ 6 ∷ 6 ∷ 6 ∷ 6 ∷ 6 ∷ 7 ∷ 7 ∷ 7 ∷ 7 ∷ 7 ∷ 7 ∷ 7 ∷ 7
    ∷ 7 ∷ 7 ∷ 7 ∷ 7 ∷ 7 ∷ 7 ∷ 7 ∷ 7 ∷ 7 ∷ 7 ∷ 7 ∷ 7 ∷ 7 ∷ 7 ∷ 7 ∷ 7 ∷ 7 ∷ 7 ∷ 7 ∷ 7 ∷ 7 ∷ 7 ∷ 7 ∷ 7
    ∷ 7 ∷ 7 ∷ 7 ∷ 7 ∷ 7 ∷ 7 ∷ 7 ∷ 7 ∷ 7 ∷ 7 ∷ 7 ∷ 7 ∷ 7 ∷ 7 ∷ 7 ∷ 7 ∷ 7 ∷ 7 ∷ 7 ∷ 7 ∷ 7 ∷ 7 ∷ 7 ∷ 7
    ∷ 7 ∷ 7 ∷ 7 ∷ 7 ∷ 7 ∷ 7 ∷ 7 ∷ 7 ∷ 8 ∷ 8 ∷ 8 ∷ 8 ∷ 8 ∷ 8 ∷ 8 ∷ 8 ∷ 8 ∷ 8 ∷ 8 ∷ 8 ∷ 8 ∷ 8 ∷ 8 ∷ 8
    ∷ 8 ∷ 8 ∷ 8 ∷ 8 ∷ 8 ∷ 8 ∷ 8 ∷ 8 ∷ 8 ∷ 8 ∷ 8 ∷ 8 ∷ 8 ∷ 8 ∷ 8 ∷ 8 ∷ 8 ∷ 8 ∷ 8 ∷ 8 ∷ 8 ∷ 8 ∷ 8 ∷ 8
    ∷ 8 ∷ 8 ∷ 8 ∷ 8 ∷ 8 ∷ 8 ∷ 8 ∷ 8 ∷ 8 ∷ 8 ∷ 8 ∷ 8 ∷ 8 ∷ 8 ∷ 8 ∷ 8 ∷ 8 ∷ 8 ∷ 8 ∷ 8 ∷ 8 ∷ 8 ∷ 8 ∷ 8
    ∷ 8 ∷ 8 ∷ 8 ∷ 8 ∷ 8 ∷ 8 ∷ 8 ∷ 8 ∷ 8 ∷ 8 ∷ 8 ∷ 8 ∷ 8 ∷ 8 ∷ 8 ∷ 8 ∷ 8 ∷ 8 ∷ 8 ∷ 8 ∷ 8 ∷ 8 ∷ 8 ∷ 8
    ∷ 8 ∷ 8 ∷ 8 ∷ 8 ∷ 8 ∷ 8 ∷ 8 ∷ 8 ∷ 8 ∷ 8 ∷ 8 ∷ 8 ∷ 8 ∷ 8 ∷ 8 ∷ 8 ∷ 8 ∷ 8 ∷ 8 ∷ 8 ∷ 8 ∷ 8 ∷ 8 ∷ 8
    ∷ 8 ∷ 8 ∷ 8 ∷ 8 ∷ 8 ∷ 8 ∷ 8 ∷ 8 ∷ 8 ∷ 8 ∷ 8 ∷ 8 ∷ 8 ∷ 8 ∷ 8 ∷ 8 ∷ []

-- The loop.
unfoldable log_loop : ℕ → ℕ → ℕ → Outcome ℕ
unfolding log_2
log_loop zero l x = if leb 256 x then no_fuel else (do y ← or_fault (get_elem? log_2 x); ok (l + y))
log_loop (suc n) l x =
    let rest = log_loop n (l + 8) (x / 2 ^ 8) in
    if leb 256 x then rest else (do y ← or_fault (get_elem? log_2 x); ok (l + y))

-- The argument is unsigned; 3 rounds of 8 digits leave 8 of its 32.
unfoldable pub lua_o_ceillog2 : ℕ → Outcome ℕ
unfolding log_loop
lua_o_ceillog2 x = log_loop 3 0 ((x + 2 ^ 32 - 1) % 2 ^ 32)

-- The least power of two above x, as far as a test of numbers can say it.
abbrev is_log : ℕ → ℕ → Bool
is_log x r = ltb x (2 ^ r) && (r == 0 || leb (2 ^ r) (2 * x))

entries : all_below 256 (λ x. is_log x (get_or log_2 x 0)) ≡ true
unfolding all_below log_2
entries = refl

abbrev IsLog : ℕ → ℕ → Type 0
IsLog x r = (x < 2 ^ r) × (r ≡ 0 ⊎ 2 ^ r ≤ 2 * x)

is_log-IsLog : (x r : ℕ) → is_log x r ≡ true → IsLog x r
is_log-IsLog x r h = elim (Bool-cases (ltb x (2 ^ r))) [
  | inr e ↦ absurd (differ (rw e at h))
  | inl e ↦ elim (Bool-cases (r == 0)) [
    | inl z ↦ (ltb→lt x (2 ^ r) e, inl (eq_of_== r 0 z))
    | inr z ↦ (ltb→lt x (2 ^ r) e, inr (leb→le (2 ^ r) (2 * x) (rw (e, z) at h)))
  ]
]
  where
    differ : false ≡ true → ⊥
    differ q = cc

length_of : length log_2 ≡ 256
unfolding log_2
length_of = refl

length-log_2 : (x : ℕ) → x < 256 → get_elem? log_2 x ≡ some (get_or log_2 x 0)
length-log_2 x h = found log_2 x (omega (arith, h, size))
  where
    size : length log_2 ≡ 256
    size = length_of

    found : (l : List ℕ) (i : ℕ) → i < length l → get_elem? l i ≡ some (get_or l i 0)
    found [] i g = absurd (omega arith)
    found (y ∷ l) zero g = refl
    found (y ∷ l) (suc i) g = found l i (omega arith)

-- Two and eight more digits.
pow_two : (r : ℕ) → 2 ^ suc (suc r) ≡ 4 * 2 ^ r
pow_two r = omega (arith, pow_step 2 r, pow_step 2 (suc r))

pow_eight : (r : ℕ) → 2 ^ (8 + r) ≡ 256 * 2 ^ r
pow_eight r =
    ap (λ (t : ℕ). 2 ^ t) {x = 8 + r} {y = suc (suc (suc (suc (suc (suc (suc (suc r)))))))}
      (omega arith)
    ∙ omega (
      arith,
      pow_two r,
      pow_two (suc (suc r)),
      pow_two (suc (suc (suc (suc r)))),
      pow_two (suc (suc (suc (suc (suc (suc r)))))),
    )

-- What n more rounds can read.
abbrev bound : ℕ → ℕ
bound zero = 256
bound (suc n) = 256 * bound n

log_loop_lem : (n l x : ℕ) → x < bound n → (r : ℕ) × (log_loop n l x ≡ ok (l + r)) × IsLog x r
unfolding log_loop
log_loop_lem zero l x h = (
  get_or log_2 x 0,
  rw (gt→leb 256 x h, length-log_2 x h) refl,
  is_log-IsLog x (get_or log_2 x 0)
      (all_below_sound 256 (λ y. is_log y (get_or log_2 y 0)) x entries h),
)
log_loop_lem (suc n) l x h = elim (Bool-cases (leb 256 x)) [
  | inr e ↦
      let small = leb→gt 256 x e in
      (
        get_or log_2 x 0,
        rw (e, length-log_2 x small) refl,
        is_log-IsLog x (get_or log_2 x 0)
            (all_below_sound 256 (λ y. is_log y (get_or log_2 y 0)) x entries small),
      )
  | inl e ↦
      let (r, q, (less, half)) = log_loop_lem n (l + 8) (x / 2 ^ 8) (omega (arith, h)) in
      (
        8 + r,
        rw (e, q) (ap ok (omega arith)),
        (omega (arith, less, pow_eight r), inr (more r half (leb→le 256 x e))),
      )
]
  where
    more : (r : ℕ) → (r ≡ 0 ⊎ 2 ^ r ≤ 2 * (x / 2 ^ 8)) → 256 ≤ x → 2 ^ (8 + r) ≤ 2 * x
    more r (inl z) g = subst (λ (t : ℕ). 2 ^ (8 + t) ≤ 2 * x) (sym z) (omega arith)
    more r (inr z) g = omega (arith, z, pow_eight r)

-- For an argument from 1 on, the exponent of the least power of two that is not below it.
pub lua_o_ceillog2_lem :
    (x : ℕ)
    → 1 ≤ x
    → x < 2 ^ 32
    → (r : ℕ) × (lua_o_ceillog2 x ≡ ok r) × (x ≤ 2 ^ r) × (r ≡ 0 ⊎ 2 ^ r < 2 * x)
unfolding lua_o_ceillog2
lua_o_ceillog2_lem x h l =
    let (r, q, (less, half)) = log_loop_lem 3 0 ((x + 2 ^ 32 - 1) % 2 ^ 32) (omega arith) in
    (r, q ∙ ap ok (omega arith), omega (arith, less), lower r half)
  where
    lower : (r : ℕ) → (r ≡ 0 ⊎ 2 ^ r ≤ 2 * ((x + 2 ^ 32 - 1) % 2 ^ 32)) → (r ≡ 0 ⊎ 2 ^ r < 2 * x)
    lower r (inl z) = inl z
    lower r (inr z) = inr (omega (arith, z))
