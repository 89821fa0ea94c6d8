-- ===== src/Bit32/Fields.antt =====
-- Lua/src/lbitlib.cpp: `fieldargs`, `extract` and `replace`.
use addons_terraria_tshock.Common.Words.{complement, shl, bit-shl, bit-shl_below}
use addons_terraria_tshock.Common.{
  ℕ, zero, suc, true, false, lt→ltb, ge→ltb, ◌+◌, ◌-◌, ◌*◌, ◌/◌, ◌%◌, ◌^◌, ◌≤◌, ◌<◌, min, max,
  bit_and, bit_or, leb, ltb, if◌then◌else◌, ◌&&◌, leb→gt, leb→le, sym, ltb→lt, ltb→ge, Bool-cases,
  inl, inr, some, ◌≡◌, ◌↔◌, refl, ap, ◌∙◌, arith,
}
use native.Mathlib.Nat.{pow-suc, one-le-pow, mul_assoc, pow-le-pow_right, mod-lt}
use addons_terraria_tshock.Common.Bits.{
  bit, bit-lt-two, bit-bit_and, bit-bit_or, bit_and-mask, bit-complement, bit-ones_below,
  eq_of_bits, bit_at, bit-mod_below, bit-div, bit_or-lt, bit_and-lt, bit-ones_above,
}
use addons_terraria_tshock.Common.Int.{ℤ, pos}
use addons_terraria_tshock.Common.Outcome.{ok, fault, ◌>>=◌}
use addons_terraria_tshock.Bit32.{mask, fieldargs, extract_bits, b_extract, replace_bits, b_replace}
use addons_terraria_tshock.Bit32.Words.{mask_lem}

-- A field is inside the word.
abbrev pub InWord : ℕ → ℕ → Type 0
InWord f w = (1 ≤ w) × (f + w ≤ 32)

-- `fieldargs` accepts exactly the fields inside the word.
pub fieldargs_iff :
    (i : ℕ) (z v : ℤ) (f w : ℕ)
    → (fieldargs i z v ≡ ok (f, w)) ↔ ((z ≡ pos f) × (v ≡ pos w) × InWord f w)
unfolding fieldargs
fieldargs_iff i z v f w = ground arith

-- `extract` reads the field: the w digits from f on.
extract_bits_lem : (r f w : ℕ) → InWord f w → extract_bits r f w ≡ r / 2 ^ f % 2 ^ w
unfolding extract_bits
extract_bits_lem r f w h =
    ap (bit_and (r / 2 ^ f)) (mask_lem w h.0 (omega arith)) ∙ bit_and-mask w (r / 2 ^ f)

-- The digits of the mask, moved to the field.
field_below : (k f w : ℕ) → k < 32 → k < f → bit k (shl (mask w) f) ≡ 0
field_below k f w l h = bit-shl_below k (mask w) f l h

field_inside : (k f w : ℕ) → InWord f w → k < 32 → f ≤ k → k < f + w → bit k (shl (mask w) f) ≡ 1
field_inside k f w h l p q =
    bit-shl k (mask w) f l p
    ∙ ap (bit (k - f)) (mask_lem w h.0 (omega arith))
    ∙ bit-ones_below w (k - f) (omega arith)

field_above : (k f w : ℕ) → InWord f w → k < 32 → f + w ≤ k → bit k (shl (mask w) f) ≡ 0
field_above k f w h l p =
    bit-shl k (mask w) f l (omega arith)
    ∙ ap (bit (k - f)) (mask_lem w h.0 (omega arith))
    ∙ bit-ones_above w (k - f) (omega arith)

-- The word that `replace` returns, where its shift is defined.
abbrev written : ℕ → ℕ → ℕ → ℕ → ℕ
written r v f w = bit_or (bit_and r (complement (shl (mask w) f))) (shl (bit_and v (mask w)) f)

-- A digit of the result, by those of the mask and of the moved value.
replace_digit :
    (r v f w k : ℕ)
    → k < 32
    → bit k (written r v f w)
      ≡ max (min (bit k r) (1 - bit k (shl (mask w) f))) (bit k (shl (bit_and v (mask w)) f))
replace_digit r v f w k l = omega (
  arith,
  bit-bit_or k (bit_and r (complement (shl (mask w) f))) (shl (bit_and v (mask w)) f),
  bit-bit_and k r (complement (shl (mask w) f)),
  bit-complement 32 k (shl (mask w) f) (omega arith) l,
)

-- What `replace` puts at digit k.
abbrev pub replaced : ℕ → ℕ → ℕ → ℕ → ℕ → ℕ
replaced r v f w k = if leb f k && ltb k (f + w) then bit (k - f) v else bit k r

replace_bits_digits :
    (r v f w k : ℕ) → InWord f w → k < 32 → bit k (written r v f w) ≡ replaced r v f w k
replace_bits_digits r v f w k h l = elim (Bool-cases (leb f k)) [
  | inl a ↦ elim (Bool-cases (ltb k (f + w))) [
    | inl b ↦
        rw (a, b)
          (omega (
            arith,
            replace_digit r v f w k l,
            field_inside k f w h l (leb→le _ _ a) (ltb→lt _ _ b),
            bit-shl k (bit_and v (mask w)) f l (leb→le _ _ a),
            bit-bit_and (k - f) v (mask w),
            ones (leb→le _ _ a) (ltb→lt _ _ b),
            bit-lt-two (k - f) v,
          ))
    | inr b ↦
        rw (a, b)
          (omega (
            arith,
            replace_digit r v f w k l,
            field_above k f w h l (ltb→ge _ _ b),
            bit-shl k (bit_and v (mask w)) f l (leb→le _ _ a),
            bit-bit_and (k - f) v (mask w),
            zeros (ltb→ge _ _ b),
            bit-lt-two k r,
          ))
  ]
  | inr a ↦ rw a (
      omega (
        arith,
        replace_digit r v f w k l,
        field_below k f w l (leb→gt _ _ a),
        bit-shl_below k (bit_and v (mask w)) f l (leb→gt _ _ a),
        bit-lt-two k r,
      ))
]
  where
    ones : f ≤ k → k < f + w → bit (k - f) (mask w) ≡ 1
    ones p q =
        ap (bit (k - f)) (mask_lem w h.0 (omega arith)) ∙ bit-ones_below w (k - f) (omega arith)

    zeros : f + w ≤ k → bit (k - f) (mask w) ≡ 0
    zeros p =
        ap (bit (k - f)) (mask_lem w h.0 (omega arith)) ∙ bit-ones_above w (k - f) (omega arith)

-- On a field of w digits from f on, inside the word, `extract` returns these digits as a number.
pub extract_lem :
    (r f w : ℕ) → InWord f w → b_extract r (pos f) (some (pos w)) ≡ ok (r / 2 ^ f % 2 ^ w)
unfolding b_extract
extract_lem r f w h =
    rw ((fieldargs_iff 2 (pos f) (pos w) f w).1 (refl, refl, h)) (ap ok (extract_bits_lem r f w h))

written-lt : (r v f w : ℕ) → r < 2 ^ 32 → written r v f w < 2 ^ 32
written-lt r v f w h =
    bit_or-lt 32 (bit_and r (complement (shl (mask w) f))) (shl (bit_and v (mask w)) f)
      (bit_and-lt 32 r (complement (shl (mask w) f)) h) (omega arith)

-- A mask at its field, in arithmetic.
product_lem : (m f w : ℕ) → m + 1 ≡ 2 ^ w → m * 2 ^ f + 2 ^ f ≡ 2 ^ (f + w)
product_lem m zero w h = omega (arith, h, ap (λ (n : ℕ). 2 ^ n) (zero_add w))
  where
    zero_add : (w : ℕ) → 0 + w ≡ w
    zero_add w = omega arith
product_lem m (suc f) w h = omega (
  arith,
  twice,
  pow-suc 2 f,
  pow-suc 2 (f + w),
  ap (λ (n : ℕ). 2 ^ n) (next f w),
  product_lem m f w h,
)
  where
    next : (f w : ℕ) → suc f + w ≡ suc (f + w)
    next f w = omega arith

    twice : m * 2 ^ suc f ≡ m * 2 ^ f * 2
    twice = ap (λ (t : ℕ). m * t) (pow-suc 2 f) ∙ sym (mul_assoc m (2 ^ f) 2)

mask_product : (f w : ℕ) → InWord f w → mask w * 2 ^ f + 2 ^ f ≡ 2 ^ (f + w)
mask_product f w h =
    product_lem (mask w) f w
      (omega (arith, mask_lem w h.0 (omega arith), one-le-pow w 2 (omega arith)))

mask_fits : (f w : ℕ) → 1 ≤ w → f + w < 32 → ltb (mask w * 2 ^ f) (2 ^ 31) ≡ true
mask_fits f w p q = lt→ltb _ _ (
    omega (
      arith,
      mask_product f w (p, omega arith),
      one-le-pow f 2 (omega arith),
      pow-le-pow_right {n = 2} (omega arith) {i = f + w} {j = 31} (omega arith),
    ))

mask_overflows : (f w : ℕ) → 1 ≤ w → f + w ≡ 32 → ltb (mask w * 2 ^ f) (2 ^ 31) ≡ false
mask_overflows f w p q = ge→ltb _ _ (
    omega (
      arith,
      mask_product f w (p, omega arith),
      ap (λ (n : ℕ). 2 ^ n) q,
      pow-le-pow_right {n = 2} (omega arith) {i = f} {j = 31} (omega arith),
    ))

replace_ok :
    (r v f w : ℕ) → 1 ≤ w → f + w < 32 → b_replace r v (pos f) (some (pos w)) ≡ ok (written r v f w)
unfolding b_replace replace_bits
replace_ok r v f w p q =
    rw ((fieldargs_iff 3 (pos f) (pos w) f w).1 (refl, refl, (p, omega arith)), mask_fits f w p q)
      refl

-- On a field inside the word that does not reach its last digit, `replace` of a word returns a word, in
-- which digit k is digit k - f of v if it is in the field, and else is unchanged.
pub replace_lem :
    (r v f w k : ℕ)
    → 1 ≤ w
    → f + w < 32
    → r < 2 ^ 32
    → k < 32
    → (y : ℕ) × (b_replace r v (pos f) (some (pos w)) ≡ ok y)
      × (y < 2 ^ 32)
      × (bit k y ≡ replaced r v f w k)
replace_lem r v f w k p q h l = (
  written r v f w,
  replace_ok r v f w p q,
  written-lt r v f w h,
  replace_bits_digits r v f w k (p, omega arith) l,
)

-- `extract` reads the digits that `replace` wrote, on a field inside the word that does not reach its
-- last digit: those of v below the width.
pub extract-replace :
    (r v f w : ℕ)
    → 1 ≤ w
    → f + w < 32
    → (b_replace r v (pos f) (some (pos w)) >>= λ y. b_extract y (pos f) (some (pos w)))
      ≡ ok (v % 2 ^ w)
extract-replace r v f w p q = rw (replace_ok r v f w p q) (
    extract_lem (written r v f w) f w (p, omega arith)
    ∙ ap ok (
        eq_of_bits w (written r v f w / 2 ^ f % 2 ^ w) (v % 2 ^ w) (below (written r v f w / 2 ^ f))
          (below v) same))
  where
    below : (a : ℕ) → a % 2 ^ w < 2 ^ w
    below a = omega (arith, mod-lt a {m = 2 ^ w} (one-le-pow w 2 (omega arith)))

    same : (k : ℕ) → k < w → bit k (written r v f w / 2 ^ f % 2 ^ w) ≡ bit k (v % 2 ^ w)
    same k l =
        bit-mod_below w k (written r v f w / 2 ^ f) l
        ∙ bit-div k f (written r v f w)
        ∙ replace_bits_digits r v f w (k + f) (p, omega arith) (omega arith)
        ∙ ground (arith, bit_at (k + f - f) k v)
        ∙ sym (bit-mod_below w k v l)

-- `replace` of a field that reaches the last digit shifts an `int` out of its range, which C leaves
-- undefined.
replace_undefined :
    (r v f w : ℕ) → 1 ≤ w → f + w ≡ 32 → b_replace r v (pos f) (some (pos w)) ≡ fault
unfolding b_replace
replace_undefined r v f w p q =
    rw
      (
        (fieldargs_iff 3 (pos f) (pos w) f w).1 (refl, refl, (p, omega arith)),
        mask_overflows f w p q,
      )
      refl

-- A field and a positive width whose sum is no `int` are not refused: `extract` overflows, which C
-- leaves undefined, where the manual has an error.
pub extract_overflow :
    (r f w : ℕ) → 1 ≤ w → 2 ^ 31 ≤ f + w → b_extract r (pos f) (some (pos w)) ≡ fault
unfolding b_extract fieldargs
extract_overflow r f w p q = ground arith
