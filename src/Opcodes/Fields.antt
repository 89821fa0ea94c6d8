-- ===== src/Opcodes/Fields.antt =====
-- Lua/include/lopcodes.h: reading and writing the fields of an instruction.
use addons_terraria_tshock.Common.{
  ℕ, ◌+◌, ◌-◌, ◌/◌, ◌%◌, ◌^◌, ◌≤◌, ◌<◌, min, max, bit_and, ◌≡◌, ◌⊎◌, inl, inr, refl, sym, ap, ◌∙◌,
  arith,
}
use addons_terraria_tshock.Common.Bits.{
  bit, bit-lt-two, bit-bit_and, bit-bit_or, bit_and-mask, bit-complement, bit-ones_below,
  bit-ones_above, bit-div, bit-mod_below, eq_of_bits, bit_at,
}
use addons_terraria_tshock.Common.Words.{complement, shl, bit-shl, bit-shl_below}
use addons_terraria_tshock.Opcodes.{
  Field, op, a, b, c, bx, ax, size, position, mask1, mask0, getarg, setarg,
}

-- The mask of a field is `size` ones.
mask1_lem : (f : Field) (p : ℕ) → mask1 (size f) p ≡ shl (2 ^ size f - 1) p
unfolding mask1 size
mask1_lem op p = refl
mask1_lem a p = refl
mask1_lem b p = refl
mask1_lem c p = refl
mask1_lem bx p = refl
mask1_lem ax p = refl

fits : (f : Field) → (1 ≤ size f) × (position f + size f ≤ 32)
unfolding size position
fits op = (omega arith, omega arith)
fits a = (omega arith, omega arith)
fits b = (omega arith, omega arith)
fits c = (omega arith, omega arith)
fits bx = (omega arith, omega arith)
fits ax = (omega arith, omega arith)

ones_lem : (f : Field) → mask1 (size f) 0 ≡ 2 ^ size f - 1
unfolding mask1 size
ones_lem op = refl
ones_lem a = refl
ones_lem b = refl
ones_lem c = refl
ones_lem bx = refl
ones_lem ax = refl

-- A field is read as a quotient cut to the field's size.
pub getarg_lem : (i : ℕ) (f : Field) → getarg i f ≡ i / 2 ^ position f % 2 ^ size f
unfolding getarg
getarg_lem i f =
    ap (bit_and (i / 2 ^ position f)) (ones_lem f) ∙ bit_and-mask (size f) (i / 2 ^ position f)

pub getarg-lt : (i : ℕ) (f : Field) → getarg i f < 2 ^ size f
unfolding size
getarg-lt i op = omega (arith, getarg_lem i op)
getarg-lt i a = omega (arith, getarg_lem i a)
getarg-lt i b = omega (arith, getarg_lem i b)
getarg-lt i c = omega (arith, getarg_lem i c)
getarg-lt i bx = omega (arith, getarg_lem i bx)
getarg-lt i ax = omega (arith, getarg_lem i ax)

pub bit-getarg : (k i : ℕ) (f : Field) → k < size f → bit k (getarg i f) ≡ bit (k + position f) i
bit-getarg k i f h =
    ap (bit k) (getarg_lem i f)
    ∙ bit-mod_below (size f) k (i / 2 ^ position f) h
    ∙ bit-div k (position f) i

mask_below : (k : ℕ) (f : Field) → k < position f → bit k (mask1 (size f) (position f)) ≡ 0
mask_below k f h =
    ap (bit k) (mask1_lem f (position f))
    ∙ bit-shl_below k (2 ^ size f - 1) (position f) (omega (arith, fits f)) h

mask_inside :
    (k : ℕ) (f : Field)
    → position f ≤ k
    → k < position f + size f
    → bit k (mask1 (size f) (position f)) ≡ 1
mask_inside k f h l =
    ap (bit k) (mask1_lem f (position f))
    ∙ bit-shl k (2 ^ size f - 1) (position f) (omega (arith, fits f)) h
    ∙ bit-ones_below (size f) (k - position f) (omega arith)

mask_above :
    (k : ℕ) (f : Field) → k < 32 → position f + size f ≤ k → bit k (mask1 (size f) (position f)) ≡ 0
mask_above k f l h =
    ap (bit k) (mask1_lem f (position f))
    ∙ bit-shl k (2 ^ size f - 1) (position f) l (omega arith)
    ∙ bit-ones_above (size f) (k - position f) (omega arith)

setarg_digit :
    (k i v : ℕ) (f : Field)
    → k < 32
    → bit k (setarg i v f)
      ≡ max
          (min (bit k i) (1 - bit k (mask1 (size f) (position f))))
          (min (bit k (shl v (position f))) (bit k (mask1 (size f) (position f))))
unfolding setarg mask0
setarg_digit k i v f l = omega (
  arith,
  bit-bit_or k (bit_and i (complement (mask1 (size f) (position f))))
      (bit_and (shl v (position f)) (mask1 (size f) (position f))),
  bit-bit_and k i (complement (mask1 (size f) (position f))),
  bit-bit_and k (shl v (position f)) (mask1 (size f) (position f)),
  bit-complement 32 k (mask1 (size f) (position f)) (omega (arith, mask1_lem f (position f))) l,
)

bit-setarg_inside :
    (k i v : ℕ) (f : Field) → k < size f → bit (k + position f) (setarg i v f) ≡ bit k v
bit-setarg_inside k i v f h = omega (
  arith,
  setarg_digit (k + position f) i v f (omega (arith, fits f)),
  mask_inside (k + position f) f (omega arith) (omega arith),
  bit-shl (k + position f) v (position f) (omega (arith, fits f)) (omega arith),
  bit_at (k + position f - position f) k v (omega arith),
  bit-lt-two k v,
  bit-lt-two (k + position f) i,
)

bit-setarg_outside :
    (k i v : ℕ) (f : Field)
    → k < 32
    → (k < position f) ⊎ (position f + size f ≤ k)
    → bit k (setarg i v f) ≡ bit k i
bit-setarg_outside k i v f l (inl h) =
    omega (arith, setarg_digit k i v f l, mask_below k f h, bit-lt-two k i)
bit-setarg_outside k i v f l (inr h) =
    omega (arith, setarg_digit k i v f l, mask_above k f l h, bit-lt-two k i)

-- An argument that fits its field is read back from it, whatever the instruction held.
pub getarg-setarg : (i v : ℕ) (f : Field) → v < 2 ^ size f → getarg (setarg i v f) f ≡ v
getarg-setarg i v f h =
    eq_of_bits (size f) (getarg (setarg i v f) f) v (getarg-lt (setarg i v f) f) h
      (λ k l. bit-getarg k (setarg i v f) f l ∙ bit-setarg_inside k i v f l)

-- Fields that share no digit.
abbrev pub Disjoint : Field → Field → Type 0
Disjoint f g = (position g + size g ≤ position f) ⊎ (position f + size f ≤ position g)

-- Writing a field leaves the fields that share no digit with it as they are.
pub getarg-setarg_other :
    (i v : ℕ) (f g : Field) → Disjoint f g → getarg (setarg i v f) g ≡ getarg i g
getarg-setarg_other i v f g d =
    eq_of_bits (size g) (getarg (setarg i v f) g) (getarg i g) (getarg-lt (setarg i v f) g)
      (getarg-lt i g)
      (λ k l.
        bit-getarg k (setarg i v f) g l
        ∙ bit-setarg_outside (k + position g) i v f (omega (arith, fits g)) (apart k l)
        ∙ sym (bit-getarg k i g l))
  where
    apart :
        (k : ℕ)
        → k < size g
        → (k + position g < position f) ⊎ (position f + size f ≤ k + position g)
    apart k l = ground arith
