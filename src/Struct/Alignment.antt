-- ===== src/Struct/Alignment.antt =====
-- Lua/include/lstruct/struct.h: `gettoalign` and the alignments that `controloptions` accepts.
use native.Mathlib.Nat.{
  pow-suc, one-le-pow, mod-lt, mod-add-div', le_refl, mod_self, mul-mod_left, add-mod-mod,
}
use mathlib.Core.Path.{ap₂}
use addons_terraria_tshock.Common.{
  ℕ, zero, suc, ◌+◌, ◌-◌, ◌*◌, ◌/◌, ◌%◌, ◌^◌, ◌≤◌, ◌<◌, min, bit_and, ltb, ◌==◌, ◌≡◌, ◌↔◌, ◌⊎◌,
  refl, sym, ap, ◌∙◌, inl, inr, true, false, Bool-cases, eq_of_==, ne_of_==, ltb→lt, ltb→ge, List,
  arith,
}
use addons_terraria_tshock.Common.Bits.{bit_and-mask, bit_and_step}
use addons_terraria_tshock.Common.Outcome.{ok}
use addons_terraria_tshock.Struct.Format.{
  Kind, Header, is_chars, to_boundary, gettoalign, isp2, controloptions,
}

bit_and-self_below : (n a : ℕ) → a ≤ n → bit_and a a ≡ a
bit_and-self_below n zero h = refl
bit_and-self_below zero (suc a) h = absurd (omega arith)
bit_and-self_below (suc n) (suc a) h =
    omega (arith, bit_and_step (suc a) (suc a), bit_and-self_below n (suc a / 2) (omega arith))

abbrev pub IsPower : ℕ → Type 0
IsPower x = (k : ℕ) × (x ≡ 2 ^ k)

-- `x & (x - 1)` for an even and an odd number.
even_step : (y : ℕ) → 1 ≤ y → bit_and (2 * y) (2 * y - 1) ≡ bit_and y (y - 1) * 2
even_step y h =
    bit_and_step (2 * y) (2 * y - 1)
    ∙ ap₂ (λ (a b : ℕ). min (2 * y % 2) ((2 * y - 1) % 2) + 2 * bit_and a b) {x = 2 * y / 2} {y = y}
        {u = (2 * y - 1) / 2} {v = y - 1} (omega arith) (omega arith)
    ∙ omega arith

odd_step : (y : ℕ) → bit_and (2 * y + 1) (2 * y) ≡ y * 2
odd_step y =
    bit_and_step (2 * y + 1) (2 * y)
    ∙ ap₂ (λ (a b : ℕ). min ((2 * y + 1) % 2) (2 * y % 2) + 2 * bit_and a b) {x = (2 * y + 1) / 2}
        {y = y} {u = 2 * y / 2} {v = y} (omega arith) (omega arith)
    ∙ omega (arith, bit_and-self_below y y (le_refl y))

clear-IsPower : (n x : ℕ) → x ≤ n → 1 ≤ x → bit_and x (x - 1) ≡ 0 → IsPower x
clear-IsPower zero x p q h = absurd (omega arith)
clear-IsPower (suc n) x p q h = elim (Bool-cases (x % 2 == 0)) [
  | inl e ↦
      let half : x ≡ 2 * (x / 2) = omega (arith, eq_of_== _ _ e) in
      let (k, r) = clear-IsPower n (x / 2) (omega arith) (omega (arith, eq_of_== _ _ e)) (
        omega (
          arith,
          even_step (x / 2) (omega (arith, eq_of_== _ _ e)),
          ap (λ (t : ℕ). bit_and t (t - 1)) half,
        )) in
      (suc k, omega (arith, half, r, pow-suc 2 k))
  | inr e ↦
      let odd : x ≡ 2 * (x / 2) + 1 = omega (arith, ne_of_== _ _ e) in
      let less : x - 1 ≡ 2 * (x / 2) = omega (arith, odd) in
      (0, omega (arith, odd_step (x / 2), sym (ap₂ bit_and odd less)))
]

power_clear : (k : ℕ) → bit_and (2 ^ k) (2 ^ k - 1) ≡ 0
power_clear k = bit_and-mask k (2 ^ k) ∙ mod_self (2 ^ k)

-- `isp2` decides whether a number is a power of two.
pub isp2_iff : (x : ℕ) → (isp2 x ≡ true) ↔ IsPower x
unfolding isp2
isp2_iff x = (
  λ h. clear-IsPower x x (le_refl x) (ground arith) (ground arith),
  λ (k, e).
      ground
        (arith, ap (λ (t : ℕ). bit_and t (t - 1)) e, power_clear k, one-le-pow k 2 (omega arith)),
)

checked_align :
    (c : ℕ) (fmt : List ℕ) (h : Header) (r : Header × List ℕ)
    → controloptions c fmt h ≡ ok r
    → (r.0.align ≡ h.align) ⊎ (isp2 r.0.align ≡ true)
unfolding controloptions
checked_align c fmt h r e = ground arith

-- An alignment that the format sets is a power of two, as is the default of 1.
pub controloptions-IsPower :
    (c : ℕ) (fmt : List ℕ) (h : Header) (r : Header × List ℕ)
    → IsPower h.align
    → controloptions c fmt h ≡ ok r
    → IsPower r.0.align
controloptions-IsPower c fmt h r p e = elim (checked_align c fmt h r e) [
  | inl same ↦ (p.0, same ∙ p.1)
  | inr tested ↦ (isp2_iff r.0.align).0 tested
]

to_boundary_lem :
    (len k : ℕ) → (to_boundary len (2 ^ k) < 2 ^ k) × ((len + to_boundary len (2 ^ k)) % 2 ^ k ≡ 0)
unfolding to_boundary
to_boundary_lem len k =
    rw (bit_and-mask k len, bit_and-mask k (2 ^ k - len % 2 ^ k))
      (mod-lt (2 ^ k - len % 2 ^ k) positive, aligned)
  where
    positive : 0 < 2 ^ k
    positive = one-le-pow k 2 (omega arith)

    whole : len + (2 ^ k - len % 2 ^ k) ≡ (len / 2 ^ k + 1) * 2 ^ k
    whole = omega (arith, mod-add-div' len (2 ^ k), mod-lt len positive)

    aligned : (len + (2 ^ k - len % 2 ^ k) % 2 ^ k) % 2 ^ k ≡ 0
    aligned =
        add-mod-mod len (2 ^ k - len % 2 ^ k) (2 ^ k)
        ∙ ap (λ (t : ℕ). t % 2 ^ k) whole
        ∙ mul-mod_left (len / 2 ^ k + 1) (2 ^ k)

-- With an alignment that is a power of two, as `controloptions` leaves it, an item whose size is a
-- power of two is put behind the fewest zero bytes that bring it to a multiple of its size or of the
-- alignment, the smaller one.
pub gettoalign_lem :
    (len j k : ℕ) (h : Header) (opt : Kind)
    → is_chars opt ≡ false
    → h.align ≡ 2 ^ j
    → (gettoalign len h opt (2 ^ k) < min (2 ^ k) (2 ^ j))
      × ((len + gettoalign len h opt (2 ^ k)) % min (2 ^ k) (2 ^ j) ≡ 0)
unfolding gettoalign
gettoalign_lem len j k h opt c a = elim (Bool-cases (ltb h.align (2 ^ k))) [
  | inl e ↦
      let least : min (2 ^ k) (2 ^ j) ≡ 2 ^ j = omega (arith, ltb→lt _ _ e) in
      rw (least, nonzero, c, e, a) (to_boundary_lem len j)
  | inr e ↦
      let least : min (2 ^ k) (2 ^ j) ≡ 2 ^ k = omega (arith, ltb→ge _ _ e) in
      rw (least, nonzero, c, e) (to_boundary_lem len k)
]
  where
    nonzero : (2 ^ k == 0) ≡ false
    nonzero = ground (arith, one-le-pow k 2 (omega arith))
