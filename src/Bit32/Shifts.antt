-- ===== src/Bit32/Shifts.antt =====
-- Lua/src/lbitlib.cpp: the shifts and the rotations.
use native.Mathlib.Nat.{div-eq_of_lt, pow-le-pow_right}
use addons_terraria_tshock.Common.Words.{
  allones, complement, shl, shr, bit-shl, bit-shl_below, bit-allones_above, bit-allones_below,
}
use addons_terraria_tshock.Common.{
  ℕ, zero, suc, ◌+◌, ◌-◌, ◌*◌, ◌/◌, ◌%◌, ◌^◌, ◌≤◌, ◌<◌, min, max, bit_and, bit_or, ◌==◌, leb, ltb,
  leb→gt, leb→le, ltb→lt, ltb→ge, eq_of_==, ne_of_==, Bool-cases, inl, inr, ◌≡◌, ◌≢◌, refl, sym, ap,
  ◌∙◌, arith,
}
use addons_terraria_tshock.Common.Bits.{
  bit, bit-zero, bit-lt-two, bit-bit_or, bit_and-mask, bit_and-pow, bit-div, bit_at, bit-ones_below,
  bit-mul_below, bit-mod_below, bit_of_lt, bit-complement, eq_of_bits,
}
use addons_terraria_tshock.Common.Int.{ℤ, pos, negsuc, to_unsigned}
use addons_terraria_tshock.Common.Outcome.{ok, ◌>>=◌}
use addons_terraria_tshock.Bit32.{
  nbits, trim, negate, shift_left, shift_right, b_shift, b_lshift, b_rshift, b_arshift, sign_shift,
  rotate, b_rot, b_lrot, b_rrot,
}
use addons_terraria_tshock.Bit32.Words.{trim_lem, trim-lt, trim_word, bit-trim}

-- What a shift means: a product or a quotient by a power of two, cut to 32 digits.
abbrev pub shifted : ℕ → ℤ → ℕ
shifted r (pos n) = r * 2 ^ n % 2 ^ 32
shifted r (negsuc n) = r / 2 ^ suc n

far_left : (r n : ℕ) → 32 ≤ n → r * 2 ^ n % 2 ^ 32 ≡ 0
far_left r n h =
    eq_of_bits 32 (r * 2 ^ n % 2 ^ 32) 0 (omega arith) (omega arith) (λ k l.
      bit-mod_below 32 k (r * 2 ^ n) l ∙ bit-mul_below n k r (omega arith) ∙ sym (bit-zero k))

far_right : (r n : ℕ) → r < 2 ^ 32 → 32 ≤ n → r / 2 ^ n ≡ 0
far_right r n p h = div-eq_of_lt (omega (arith, pow-le-pow_right {n = 2} (omega arith) h))

shift_left_lem : (r n : ℕ) → shift_left r n ≡ r * 2 ^ n % 2 ^ 32
unfolding shift_left
shift_left_lem r n = elim (Bool-cases (leb nbits n)) [
  | inl e ↦ rw e (omega (arith, trim_lem 0, far_left r n (leb→le _ _ e)))
  | inr e ↦ rw e (omega (arith, trim_lem (shl r n)))
]

shift_right_lem : (r n : ℕ) → r < 2 ^ 32 → shift_right r n ≡ r / 2 ^ n
unfolding shift_right
shift_right_lem r n p = elim (Bool-cases (leb nbits n)) [
  | inl e ↦ rw e (omega (arith, far_right r n p (leb→le _ _ e)))
  | inr e ↦ rw e (ap (λ (t : ℕ). t / 2 ^ n) (trim_word r p))
]

-- The negative of an integer.
abbrev pub neg : ℤ → ℤ
neg (pos zero) = pos 0
neg (pos (suc n)) = negsuc n
neg (negsuc n) = pos (suc n)

-- The integers whose negative is an `int` too.
abbrev pub IsNegatable : ℤ → Type 0
IsNegatable (pos n) = n < 2 ^ 31
IsNegatable (negsuc n) = suc n < 2 ^ 31

negate_lem : (z : ℤ) → IsNegatable z → negate z ≡ ok (neg z)
unfolding negate
negate_lem (pos zero) h = refl
negate_lem (pos (suc n)) h = refl
negate_lem (negsuc n) h = ground arith

IsNegatable-neg : (z : ℤ) → IsNegatable z → IsNegatable (neg z)
IsNegatable-neg (pos zero) h = h
IsNegatable-neg (pos (suc n)) h = h
IsNegatable-neg (negsuc n) h = h

b_shift_lem : (r : ℕ) (z : ℤ) → r < 2 ^ 32 → IsNegatable z → b_shift r z ≡ ok (shifted r z)
unfolding b_shift
b_shift_lem r (pos n) p h = ap ok (shift_left_lem r n)
b_shift_lem r (negsuc n) p h = ground (arith, shift_right_lem r (suc n))

-- A left shift by any integer but the least is the product with a power of two, cut to 32 digits, or
-- for a negative one the quotient; a right shift is the left shift by the negative. The distance may
-- be 32 or more.
pub shift_lem :
    (r : ℕ) (z : ℤ)
    → r < 2 ^ 32
    → IsNegatable z
    → (b_lshift r z ≡ ok (shifted r z)) × (b_rshift r z ≡ ok (shifted r (neg z)))
unfolding b_lshift b_rshift
shift_lem r z p h =
    (b_shift_lem r z p h, rw (negate_lem z h) (b_shift_lem r (neg z) p (IsNegatable-neg z h)))

sign_clear : (r : ℕ) → bit_and r (2 ^ 31) ≡ 0 → bit 31 r ≡ 0
sign_clear r h = omega (arith, bit_and-pow 31 r)

sign_set : (r : ℕ) → bit_and r (2 ^ 31) ≢ 0 → bit 31 r ≡ 1
sign_set r h = omega (arith, bit_and-pow 31 r, bit-lt-two 31 r)

bit_right : (r n k : ℕ) → r < 2 ^ 32 → bit 31 r ≡ 0 → bit k (r / 2 ^ n) ≡ bit (min (k + n) 31) r
bit_right r n k p s = elim (Bool-cases (leb (k + n) 31)) [
  | inl e ↦ bit-div k n r ∙ bit_at (k + n) (min (k + n) 31) r (omega (arith, leb→le _ _ e))
  | inr e ↦
      bit-div k n r
      ∙ bit_of_lt 32 (k + n) r p (leb→gt _ _ e)
      ∙ sym s
      ∙ bit_at 31 (min (k + n) 31) r (omega (arith, leb→gt _ _ e))
]

-- The arithmetic shift of a word with the sign bit, on its digits.
bit_near :
    (r n k : ℕ)
    → n < 32
    → k < 32
    → bit k (trim (bit_or (shr r n) (complement (shr allones n))))
      ≡ max (bit (k + n) r) (1 - bit k (shr allones n))
bit_near r n k q l = omega (
  arith,
  bit-trim k (bit_or (shr r n) (complement (shr allones n))) l,
  bit-bit_or k (shr r n) (complement (shr allones n)),
  bit-div k n r,
  bit-complement 32 k (shr allones n) (omega arith) l,
)

bit_signed_near :
    (r n k : ℕ)
    → r < 2 ^ 32
    → bit 31 r ≡ 1
    → n < 32
    → k < 32
    → bit k (trim (bit_or (shr r n) (complement (shr allones n)))) ≡ bit (min (k + n) 31) r
bit_signed_near r n k p s q l = elim (Bool-cases (leb (k + n) 31)) [
  | inl e ↦ omega (
    arith,
    bit_near r n k q l,
    bit-allones_below k n (omega (arith, leb→le _ _ e)),
    bit-lt-two (k + n) r,
    bit_at (k + n) (min (k + n) 31) r (omega (arith, leb→le _ _ e)),
  )
  | inr e ↦ omega (
    arith,
    bit_near r n k q l,
    bit-allones_above k n (leb→gt _ _ e),
    bit-lt-two (k + n) r,
    s,
    bit_at 31 (min (k + n) 31) r (omega (arith, leb→gt _ _ e)),
  )
]

sign_shift_digits :
    (r n k : ℕ)
    → r < 2 ^ 32
    → bit 31 r ≡ 1
    → k < 32
    → bit k (sign_shift r n) ≡ bit (min (k + n) 31) r
unfolding sign_shift
sign_shift_digits r n k p s l = elim (Bool-cases (leb nbits n)) [
  | inl e ↦
      rw e
        (bit-ones_below 32 k l ∙ sym s ∙ bit_at 31 (min (k + n) 31) r (omega (arith, leb→le _ _ e)))
  | inr e ↦ rw e (bit_signed_near r n k p s (leb→gt _ _ e) l)
]

logical : (r m : ℕ) → r < 2 ^ 32 → m < 2 ^ 31 → (negate (pos m) >>= b_shift r) ≡ ok (r / 2 ^ m)
unfolding negate
logical r zero p q = b_shift_lem r (pos zero) p q ∙ ap ok (omega arith)
logical r (suc m) p q = b_shift_lem r (negsuc m) p q

-- Digit k of an arithmetic shift right: digit k + n, or the sign digit from there on. A negative
-- distance is a left shift.
abbrev pub arshifted : ℕ → ℤ → ℕ → ℕ
arshifted r (pos n) k = bit (min (k + n) 31) r
arshifted r (negsuc n) k = bit k (shifted r (pos (suc n)))

-- An arithmetic shift right by any integer but the least succeeds, and repeats the sign digit.
pub arshift_digits :
    (r : ℕ) (z : ℤ) (k : ℕ)
    → r < 2 ^ 32
    → IsNegatable z
    → k < 32
    → (y : ℕ) × (b_arshift r z ≡ ok y) × (bit k y ≡ arshifted r z k)
unfolding b_arshift
arshift_digits r (pos n) k p h l = elim (Bool-cases (bit_and r (2 ^ 31) == 0)) [
  | inl e ↦ (r / 2 ^ n, rw e (logical r n p h), bit_right r n k p (sign_clear r (eq_of_== _ _ e)))
  | inr e ↦ (sign_shift r n, rw e, sign_shift_digits r n k p (sign_set r (ne_of_== _ _ e)) l)
]
arshift_digits r (negsuc n) k p h l =
    (shifted r (pos (suc n)), rw (negate_lem (negsuc n) h) (b_shift_lem r (pos (suc n)) p h), refl)

-- How far an `int` turns a word: its remainder by 32, for a negative one too.
abbrev pub turn : ℤ → ℕ
turn z = to_unsigned z % 32

turn-neg : (z : ℤ) → turn (neg z) ≡ (32 - turn z) % 32
turn-neg (pos zero) = refl
turn-neg (pos (suc n)) = omega arith
turn-neg (negsuc n) = omega arith

rotate-lt : (r n : ℕ) → rotate r n < 2 ^ 32
unfolding rotate
rotate-lt r n = elim (Bool-cases (n == 0)) [
  | inl e ↦ rw e (trim-lt (trim r))
  | inr e ↦ rw e (trim-lt _)
]

rotate_digits :
    (r n k : ℕ) → r < 2 ^ 32 → n < 32 → k < 32 → bit k (rotate r n) ≡ bit ((k + 32 - n) % 32) r
unfolding rotate
rotate_digits r n k p q l = elim (Bool-cases (n == 0)) [
  | inl e ↦
      rw (e, trim_word r p, trim_word r p)
        (bit_at k ((k + 32 - n) % 32) r (omega (arith, eq_of_== _ _ e)))
  | inr e ↦
      rw (e, trim_word r p)
        (elim (Bool-cases (ltb k n)) [
          | inl f ↦ omega (
            arith,
            digits,
            bit-shl_below k r n l (ltb→lt _ _ f),
            bit-lt-two (k + (32 - n)) r,
            bit_at (k + (32 - n)) ((k + 32 - n) % 32) r (omega (arith, ltb→lt _ _ f)),
          )
          | inr f ↦ omega (
            arith,
            digits,
            bit-shl k r n l (ltb→ge _ _ f),
            bit-lt-two (k - n) r,
            bit_of_lt 32 (k + (32 - n)) r p (omega (arith, ltb→ge _ _ f)),
            bit_at (k - n) ((k + 32 - n) % 32) r (omega (arith, ltb→ge _ _ f)),
          )
        ])
]
  where
    digits :
        bit k (trim (bit_or (shl r n) (shr r (32 - n))))
        ≡ max (bit k (shl r n)) (bit (k + (32 - n)) r)
    digits = omega (
      arith,
      bit-trim k (bit_or (shl r n) (shr r (32 - n))) l,
      bit-bit_or k (shl r n) (shr r (32 - n)),
      bit-div k (32 - n) r,
    )

-- A rotation moves digit k to digit k + i modulo 32, whatever the sign of i.
pub b_rot_digits :
    (r : ℕ) (i : ℤ) (k : ℕ)
    → r < 2 ^ 32
    → k < 32
    → bit k (b_rot r i) ≡ bit ((k + 32 - turn i) % 32) r
unfolding b_rot
b_rot_digits r i k p l =
    ap (λ (n : ℕ). bit k (rotate r n)) (bit_and-mask 5 (to_unsigned i))
    ∙ rotate_digits r (turn i) k p (omega arith) l

b_rot-lt : (r : ℕ) (i : ℤ) → b_rot r i < 2 ^ 32
unfolding b_rot
b_rot-lt r i = rotate-lt r _

b_rot-b_rot-neg : (r : ℕ) (i : ℤ) → r < 2 ^ 32 → b_rot (b_rot r i) (neg i) ≡ r
b_rot-b_rot-neg r i p = eq_of_bits 32 _ r (b_rot-lt _ _) p (λ k l.
    b_rot_digits (b_rot r i) (neg i) k (b_rot-lt r i) l
    ∙ b_rot_digits r i ((k + 32 - turn (neg i)) % 32) p (omega arith)
    ∙ bit_at _ k r (back k (turn i) (turn (neg i)) l (omega arith) (turn-neg i)))
  where
    back : (k t u : ℕ) → k < 32 → t < 32 → u ≡ (32 - t) % 32 → ((k + 32 - u) % 32 + 32 - t) % 32 ≡ k
    back k t u l q e = omega arith

-- `lrotate` moves digit k to digit k + i modulo 32, and `rrotate` by the same distance undoes it.
pub rotate_lem :
    (r : ℕ) (i : ℤ) (k : ℕ)
    → r < 2 ^ 32
    → IsNegatable i
    → k < 32
    → (y : ℕ) × (b_lrot r i ≡ ok y)
      × (bit k y ≡ bit ((k + 32 - turn i) % 32) r)
      × (b_rrot y i ≡ ok r)
unfolding b_lrot b_rrot
rotate_lem r i k p h l =
    (b_rot r i, refl, b_rot_digits r i k p l, rw (negate_lem i h) (ap ok (b_rot-b_rot-neg r i p)))
