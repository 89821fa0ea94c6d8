-- ===== src/Object/FloatingByte.antt =====
-- Lua/src/lobject.cpp: `luaO_int2fb` and `luaO_fb2int`, the floating byte (eeeeexxx) that an
-- instruction holds for the size of a new table.
use addons_terraria_tshock.Common.{
  ℕ, zero, suc, ◌+◌, ◌-◌, ◌*◌, ◌/◌, ◌%◌, ◌^◌, ◌≤◌, ◌<◌, bit_and, bit_or, leb, ltb, ◌==◌,
  if◌then◌else◌, Bool-cases, inl, inr, ◌≡◌, ◌⊎◌, true, false, refl, sym, ap, ◌∙◌, arith, ltb→lt,
  ltb→ge, leb→le, leb→gt, lt→ltb,
}
use addons_terraria_tshock.Common.Bits.{bit_and-mask, bit_or_add}
use addons_terraria_tshock.Common.Outcome.{Outcome, ok, no_fuel, ◌>>=◌, ◌>>◌, defined}
use mathlib.Core.Path.{ap₂}
use native.Mathlib.Nat.{pow-suc, pow-le-pow_right, mul_assoc, mul-le-mul_right}

-- The loop; its fuel is more than the digits of an `unsigned int`.
unfoldable pub exponent_loop : ℕ → ℕ → ℕ → Outcome (ℕ × ℕ)
exponent_loop zero x e = if ltb x 16 then ok (x, e) else no_fuel
exponent_loop (suc fuel) x e =
    let rest = exponent_loop fuel ((x + 1) % 2 ^ 32 / 2) (e + 1) in
    if ltb x 16 then ok (x, e) else rest

-- The result is an `int`, here as a word.
unfoldable pub int2fb : ℕ → Outcome ℕ
unfolding exponent_loop
int2fb x =
    if ltb x 8
    then ok x
    else exponent_loop 32 x 0 >>= λ r. ok (bit_or ((r.1 + 1) * 2 ^ 3) ((r.0 + 2 ^ 32 - 8) % 2 ^ 32))

-- The shift is defined if its result is an `int`.
unfoldable pub fb2int : ℕ → Outcome ℕ
fb2int x =
    let e = bit_and (x / 2 ^ 3) 31 in
    if e == 0
    then ok x
    else defined (ltb ((bit_and x 7 + 8) * 2 ^ (e - 1)) (2 ^ 31))
      >> ok ((bit_and x 7 + 8) * 2 ^ (e - 1))

twice : (y d : ℕ) → y * 2 ^ suc d ≡ y * 2 ^ d * 2
twice y d = ap (λ (t : ℕ). y * t) (pow-suc 2 d) ∙ sym (mul_assoc y (2 ^ d) 2)

-- One halving, rounded up.
halved :
    (x y d : ℕ)
    → x < 2 ^ 31
    → (x + 1) % 2 ^ 32 / 2 ≤ y * 2 ^ d
    → y * 2 ^ d + 1 ≤ (x + 1) % 2 ^ 32 / 2 + 2 ^ d
    → (x ≤ y * 2 ^ suc d) × (y * 2 ^ suc d + 1 ≤ x + 2 ^ suc d)
halved x y d l p q = (omega (arith, twice y d), omega (arith, twice y d, pow-suc 2 d))

-- The loop ends with a number of four digits, which times a power of two is the least such multiple
-- that is not below x.
loop_lem :
    (fuel x e : ℕ)
    → 8 ≤ x
    → x < 2 ^ 31
    → x ≤ 15 * 2 ^ fuel
    → (y d : ℕ) × (exponent_loop fuel x e ≡ ok (y, e + d))
      × (8 ≤ y)
      × (y < 16)
      × (x ≤ y * 2 ^ d)
      × (y * 2 ^ d + 1 ≤ x + 2 ^ d)
unfolding exponent_loop
loop_lem zero x e h l f = (
  x,
  0,
  rw (lt→ltb x 16 (omega arith)) (ap (λ (t : ℕ). ok (x, t)) (omega arith)),
  h,
  omega arith,
  omega arith,
  omega arith,
)
loop_lem (suc fuel) x e h l f = elim (Bool-cases (ltb x 16)) [
  | inl small ↦ (
    x,
    0,
    rw small (ap (λ (t : ℕ). ok (x, t)) (omega arith)),
    h,
    ltb→lt _ _ small,
    omega arith,
    omega arith,
  )
  | inr big ↦
      let (y, d, r, low, high, above, near) =
        loop_lem fuel ((x + 1) % 2 ^ 32 / 2) (e + 1) (omega (arith, ltb→ge _ _ big)) (omega arith)
          (omega (arith, pow-suc 2 fuel)) in
      (
        y,
        suc d,
        rw big (r ∙ ap (λ (t : ℕ). ok (y, t)) (omega arith)),
        low,
        high,
        (halved x y d l above near).0,
        (halved x y d l above near).1,
      )
]

code_lem :
    (y d : ℕ)
    → 8 ≤ y
    → y < 16
    → bit_or ((0 + d + 1) * 2 ^ 3) ((y + 2 ^ 32 - 8) % 2 ^ 32) ≡ (d + 1) * 2 ^ 3 + (y - 8)
code_lem y d low high =
    ap₂ bit_or {x = (0 + d + 1) * 2 ^ 3} {y = (d + 1) * 2 ^ 3} {u = (y + 2 ^ 32 - 8) % 2 ^ 32}
      {v = y - 8} (omega arith) (omega arith)
    ∙ bit_or_add 3 (d + 1) (y - 8) (omega arith)

nonzero : (d : ℕ) → (suc d == 0) ≡ false
nonzero d = ground arith

decode_lem :
    (f y d : ℕ)
    → bit_and (f / 2 ^ 3) 31 ≡ suc d
    → bit_and f 7 + 8 ≡ y
    → y * 2 ^ d < 2 ^ 31
    → fb2int f ≡ ok (y * 2 ^ d)
unfolding fb2int
decode_lem f y d p q l = rw (p, q, back, nonzero d, lt→ltb (y * 2 ^ d) (2 ^ 31) l) refl
  where
    back : suc d - 1 ≡ d
    back = omega arith

exponent_back :
    (y d : ℕ) → y < 16 → d < 28 → bit_and (((d + 1) * 2 ^ 3 + (y - 8)) / 2 ^ 3) 31 ≡ suc d
exponent_back y d high l = bit_and-mask 5 (((d + 1) * 2 ^ 3 + (y - 8)) / 2 ^ 3) ∙ omega arith

mantissa_back : (y d : ℕ) → 8 ≤ y → y < 16 → bit_and ((d + 1) * 2 ^ 3 + (y - 8)) 7 + 8 ≡ y
mantissa_back y d low high = omega (arith, bit_and-mask 3 ((d + 1) * 2 ^ 3 + (y - 8)))

decode_small : (x : ℕ) → x < 8 → fb2int x ≡ ok x
unfolding fb2int
decode_small x l = rw (none_left) refl
  where
    none_left : bit_and (x / 2 ^ 3) 31 ≡ 0
    none_left = bit_and-mask 5 (x / 2 ^ 3) ∙ omega arith

-- How far the powers reach.
scaled :
    (x y d : ℕ)
    → x ≤ 2 ^ 30
    → 8 ≤ y
    → y * 2 ^ d + 1 ≤ x + 2 ^ d
    → (7 * (y * 2 ^ d) ≤ 8 * x) × (y * 2 ^ d < 2 ^ 31) × (d < 28)
scaled x y d h low near =
    (omega (arith, eight), omega (arith, eight), exponent (Bool-cases (leb 28 d)))
  where
    eight : 8 * 2 ^ d ≤ y * 2 ^ d
    eight = mul-le-mul_right (2 ^ d) low

    exponent : (leb 28 d ≡ true) ⊎ (leb 28 d ≡ false) → d < 28
    exponent (inl e) =
        absurd (omega (arith, eight, pow-le-pow_right {n = 2} (omega arith) (leb→le 28 d e)))
    exponent (inr e) = leb→gt 28 d e

-- A size of at most 2 ^ 30 is rounded up by at most a seventh, and what is decoded is that.
pub fb2int-int2fb :
    (x : ℕ)
    → x ≤ 2 ^ 30
    → (f y : ℕ) × (int2fb x ≡ ok f) × (fb2int f ≡ ok y) × (x ≤ y) × (7 * y ≤ 8 * x)
unfolding int2fb
fb2int-int2fb x h = elim (Bool-cases (ltb x 8)) [
  | inl e ↦ (x, x, rw e refl, decode_small x (ltb→lt _ _ e), omega arith, omega arith)
  | inr e ↦
      let (y, d, r, low, high, above, near) =
        loop_lem 32 x 0 (ltb→ge _ _ e) (omega arith) (omega arith) in
      let (most, int_range, digits) = scaled x y d h low near in
      (
        (d + 1) * 2 ^ 3 + (y - 8),
        y * 2 ^ d,
        rw (e, r) (ap (λ (t : ℕ). ok t) (code_lem y d low high)),
        decode_lem ((d + 1) * 2 ^ 3 + (y - 8)) y d (exponent_back y d high digits)
            (mantissa_back y d low high) int_range,
        above,
        most,
      )
]
