-- ===== src/Struct/Bytes.antt =====
-- Lua/include/lstruct/struct.h: an integer that `putinteger` writes is read back by `getinteger`.
use mathlib.Core.List.{reverse-cons, append-nil, append_assoc}
use native.Mathlib.Nat.{pow-le-pow_right, mod-eq_of_lt}
use addons_terraria_tshock.Common.{
  ℕ, zero, suc, ◌+◌, ◌-◌, ◌*◌, ◌/◌, ◌%◌, ◌^◌, ◌≤◌, ◌<◌, bit_and, bit_or, ◌==◌, ltb, if◌then◌else◌,
  Bool, true, false, List, [], ◌∷◌, ◌++◌, reverse, length, length-reverse, ◌≡◌, refl, sym, ap, ◌∙◌,
  arith, Bool-cases, inl, inr, ltb→lt, ltb→ge,
}
use addons_terraria_tshock.Common.Bits.{
  zero-bit_and, bit_and-mask, bit_and_high, bit_or_high, bit_or_add,
}
use addons_terraria_tshock.Common.Int.{ℤ, pos, negsuc, to_unsigned, to_signed, IsInt}
use addons_terraria_tshock.Common.Outcome.{ok}
use addons_terraria_tshock.Struct.Host.{Host, Laws, to_word}
use addons_terraria_tshock.Struct.Integer.{
  put_little, put_big, putinteger, get_big, get_little, get_word, sign_extend,
}
use addons_terraria_tshock.Struct.Unpack.{getinteger}

put_big_lem : (n v : ℕ) (bs : List ℕ) → put_big n v bs ≡ reverse (put_little n v) ++ bs
unfolding put_big put_little
put_big_lem zero v bs = refl
put_big_lem (suc n) v bs =
    put_big_lem n (v / 2 ^ 8) (bit_and v 0xff ∷ bs)
    ∙ sym (append_assoc (reverse (put_little n (v / 2 ^ 8))) (bit_and v 0xff ∷ []) bs)
    ∙ ap (λ (t : List ℕ). t ++ bs) (sym (reverse-cons (bit_and v 0xff) (put_little n (v / 2 ^ 8))))

get_big-append : (l : ℕ) (xs ys : List ℕ) → get_big l (xs ++ ys) ≡ get_big (get_big l xs) ys
unfolding get_big
get_big-append l [] ys = refl
get_big-append l (x ∷ xs) ys = get_big-append (bit_or (l * 2 ^ 8 % 2 ^ 32) x) xs ys

get_big_one : (l b : ℕ) → get_big l (b ∷ []) ≡ bit_or (l * 2 ^ 8 % 2 ^ 32) b
unfolding get_big
get_big_one l b = refl

get_big-nil : get_big 0 (reverse []) ≡ 0
unfolding get_big
get_big-nil = refl

get_big-reverse : (bs : List ℕ) → get_big 0 (reverse bs) ≡ get_little bs
unfolding get_little
get_big-reverse [] = get_big-nil
get_big-reverse (b ∷ bs) =
    ap (get_big 0) (reverse-cons b bs)
    ∙ get_big-append 0 (reverse bs) (b ∷ [])
    ∙ get_big_one (get_big 0 (reverse bs)) b
    ∙ ap (λ (t : ℕ). bit_or (t * 2 ^ 8 % 2 ^ 32) b) (get_big-reverse bs)

length-put_little : (n v : ℕ) → length (put_little n v) ≡ n
unfolding put_little
length-put_little zero v = refl
length-put_little (suc n) v = ap suc (length-put_little n (v / 2 ^ 8))

-- Every order writes `size` bytes.
pub length-putinteger : (little : Bool) (v n : ℕ) → length (putinteger little v n) ≡ n
unfolding putinteger
length-putinteger true v n = length-put_little n v
length-putinteger false v n =
    ap length (put_big_lem n v [] ∙ append-nil (reverse (put_little n v)))
    ∙ length-reverse (put_little n v)
    ∙ length-put_little n v

-- One more byte below a number that leaves room for it.
get_put_step :
    (n v m : ℕ)
    → get_little (put_little n (v / 2 ^ 8)) ≡ v / 2 ^ 8 % m
    → v / 2 ^ 8 % m < 2 ^ 24
    → get_little (put_little (suc n) v) ≡ v / 2 ^ 8 % m * 2 ^ 8 + v % 2 ^ 8
unfolding get_little put_little
get_put_step n v m e h =
    rw (e, bit_and-mask 8 v)
      (ap (λ (t : ℕ). bit_or t (v % 256)) {x = v / 2 ^ 8 % m * 256 % 2 ^ 32}
          {y = v / 2 ^ 8 % m * 2 ^ 8} (omega arith)
        ∙ bit_or_add 8 (v / 2 ^ 8 % m) (v % 2 ^ 8) (omega arith))

get-put_zero : (v : ℕ) → get_little (put_little 0 v) ≡ v % 1
unfolding get_little put_little
get-put_zero v = omega arith

get-put_one : (v : ℕ) → get_little (put_little 1 v) ≡ v % 2 ^ 8
get-put_one v = omega (arith, get_put_step 0 v 1 (get-put_zero (v / 2 ^ 8)) (omega arith))

get-put_two : (v : ℕ) → get_little (put_little 2 v) ≡ v % 2 ^ 16
get-put_two v = omega (arith, get_put_step 1 v (2 ^ 8) (get-put_one (v / 2 ^ 8)) (omega arith))

get-put_three : (v : ℕ) → get_little (put_little 3 v) ≡ v % 2 ^ 24
get-put_three v = omega (arith, get_put_step 2 v (2 ^ 16) (get-put_two (v / 2 ^ 8)) (omega arith))

get-put_four : (v : ℕ) → get_little (put_little 4 v) ≡ v % 2 ^ 32
get-put_four v = omega (arith, get_put_step 3 v (2 ^ 24) (get-put_three (v / 2 ^ 8)) (omega arith))

get_little-put_little : (n v : ℕ) → n ≤ 4 → get_little (put_little n v) ≡ v % 2 ^ (8 * n)
get_little-put_little zero v h = get-put_zero v
get_little-put_little (suc zero) v h = get-put_one v
get_little-put_little (suc (suc zero)) v h = get-put_two v
get_little-put_little (suc (suc (suc zero))) v h = get-put_three v
get_little-put_little (suc (suc (suc (suc zero)))) v h = get-put_four v
get_little-put_little (suc (suc (suc (suc (suc n))))) v h = absurd (omega arith)

-- Both orders give back what fits the bytes.
get_word-putinteger :
    (little : Bool) (n v : ℕ) → n ≤ 4 → get_word little (putinteger little v n) ≡ v % 2 ^ (8 * n)
unfolding get_word putinteger
get_word-putinteger true n v h = get_little-put_little n v h
get_word-putinteger false n v h =
    ap (get_big 0) (put_big_lem n v [] ∙ append-nil (reverse (put_little n v)))
    ∙ get_big-reverse (put_little n v)
    ∙ get_little-put_little n v h

-- The sign extension of a number whose sign digit is j.
abbrev extended : ℕ → ℕ → ℕ
extended j l = if ltb l (2 ^ j) then l else 2 ^ 32 - 2 * 2 ^ j + l

nonzero : (t : ℕ) → 1 ≤ t → (t == 0) ≡ false
nonzero t h = ground arith

module _ (j m l : ℕ) (one : bit_and 1 m ≡ 1) (all : bit_or 1 m ≡ m) (fits : l < 2 * 2 ^ j) where
  and_low : l < 2 ^ j → bit_and l (m * 2 ^ j) ≡ 0
  and_low h =
      ap (λ (t : ℕ). bit_and t (m * 2 ^ j)) {x = l} {y = 0 * 2 ^ j + l} (omega arith)
      ∙ bit_and_high j 0 l m h
      ∙ ap (λ (t : ℕ). t * 2 ^ j) (zero-bit_and m)
      ∙ omega arith

  and_high : 2 ^ j ≤ l → bit_and l (m * 2 ^ j) ≡ 2 ^ j
  and_high h =
      ap (λ (t : ℕ). bit_and t (m * 2 ^ j)) {x = l} {y = 1 * 2 ^ j + (l - 2 ^ j)} (omega arith)
      ∙ bit_and_high j 1 (l - 2 ^ j) m (omega arith)
      ∙ ap (λ (t : ℕ). t * 2 ^ j) one
      ∙ omega arith

  or_high : 2 ^ j ≤ l → bit_or l (m * 2 ^ j) ≡ m * 2 ^ j + (l - 2 ^ j)
  or_high h =
      ap (λ (t : ℕ). bit_or t (m * 2 ^ j)) {x = l} {y = 1 * 2 ^ j + (l - 2 ^ j)} (omega arith)
      ∙ bit_or_high j 1 (l - 2 ^ j) m (omega arith)
      ∙ ap (λ (t : ℕ). t * 2 ^ j + (l - 2 ^ j)) all

  extend_at :
      m * 2 ^ j + 2 ^ j ≡ 2 ^ 32
      → 1 ≤ 2 ^ j
      → 2 * 2 ^ j ≤ 2 ^ 32
      → (if bit_and l (m * 2 ^ j) == 0 then l else bit_or l (m * 2 ^ j)) ≡ extended j l
  extend_at e p w = elim (Bool-cases (ltb l (2 ^ j))) [
    | inl low ↦ rw (low, and_low (ltb→lt _ _ low))
    | inr high ↦
        rw (high, and_high (ltb→ge _ _ high), nonzero (2 ^ j) p, or_high (ltb→ge _ _ high))
          (omega (arith, e, ltb→ge _ _ high))
  ]

-- The sign digit of n bytes.
abbrev sign_at : ℕ → ℕ
sign_at n = n * 8 - 1

sign_extend_lem :
    (n l : ℕ)
    → 1 ≤ n
    → n ≤ 4
    → l < 2 * 2 ^ sign_at n
    → sign_extend l n ≡ ok (extended (sign_at n) l)
unfolding sign_extend
sign_extend_lem zero l p q h = absurd (omega arith)
sign_extend_lem (suc zero) l p q h =
    ap ok (extend_at 7 (2 ^ 25 - 1) l refl refl h refl (omega arith) (omega arith))
sign_extend_lem (suc (suc zero)) l p q h =
    ap ok (extend_at 15 (2 ^ 17 - 1) l refl refl h refl (omega arith) (omega arith))
sign_extend_lem (suc (suc (suc zero))) l p q h =
    ap ok (extend_at 23 (2 ^ 9 - 1) l refl refl h refl (omega arith) (omega arith))
sign_extend_lem (suc (suc (suc (suc zero)))) l p q h =
    ap ok (extend_at 31 1 l refl refl h refl (omega arith) (omega arith))
sign_extend_lem (suc (suc (suc (suc (suc n))))) l p q h = absurd (omega arith)

-- An integer of n bytes, in two's complement.
abbrev pub FitsSigned : ℕ → ℤ → Type 0
FitsSigned n (pos v) = v < 2 ^ (n * 8 - 1)
FitsSigned n (negsuc v) = v < 2 ^ (n * 8 - 1)

signed_value :
    (n : ℕ) (z : ℤ)
    → 1 ≤ n
    → n ≤ 4
    → FitsSigned n z
    → to_signed (extended (sign_at n) (to_unsigned z % 2 ^ (8 * n))) ≡ z
signed_value zero z p q h = absurd (omega arith)
signed_value (suc zero) (pos v) p q h = ground arith
signed_value (suc zero) (negsuc v) p q h = ground arith
signed_value (suc (suc zero)) (pos v) p q h = ground arith
signed_value (suc (suc zero)) (negsuc v) p q h = ground arith
signed_value (suc (suc (suc zero))) (pos v) p q h = ground arith
signed_value (suc (suc (suc zero))) (negsuc v) p q h = ground arith
signed_value (suc (suc (suc (suc zero)))) (pos v) p q h = ground arith
signed_value (suc (suc (suc (suc zero)))) (negsuc v) p q h = ground arith
signed_value (suc (suc (suc (suc (suc n))))) z p q h = absurd (omega arith)

low_part : (n x : ℕ) → 1 ≤ n → n ≤ 4 → x % 2 ^ (8 * n) < 2 * 2 ^ sign_at n
low_part zero x p q = absurd (omega arith)
low_part (suc zero) x p q = omega arith
low_part (suc (suc zero)) x p q = omega arith
low_part (suc (suc (suc zero))) x p q = omega arith
low_part (suc (suc (suc (suc zero)))) x p q = omega arith
low_part (suc (suc (suc (suc (suc n))))) x p q = absurd (omega arith)

FitsSigned-IsInt : (n : ℕ) (z : ℤ) → n ≤ 4 → FitsSigned n z → IsInt z
FitsSigned-IsInt n (pos v) q h =
    omega (arith, h, pow-le-pow_right {n = 2} (omega arith) (width n q))
  where
    width : (m : ℕ) → m ≤ 4 → m * 8 - 1 ≤ 31
    width m q = omega arith
FitsSigned-IsInt n (negsuc v) q h =
    omega (arith, h, pow-le-pow_right {n = 2} (omega arith) (width n q))
  where
    width : (m : ℕ) → m ≤ 4 → m * 8 - 1 ≤ 31
    width m q = omega arith

to_word_signed :
    (h : Host) (laws : Laws h) (z : ℤ) → IsInt z → to_word h (h.of_inttype z) ≡ to_unsigned z
to_word_signed h laws (pos v) i = rw (laws.is_negative-pos v) (
    ap h.to_uinttype (sym (laws.of_uinttype-pos v))
    ∙ laws.to_uinttype-of_uinttype v (omega arith)
    ∙ omega arith)
to_word_signed h laws (negsuc v) i =
    rw (laws.is_negative-negsuc v, laws.to_inttype-of_inttype (negsuc v) i)

-- A signed integer of 1 to 4 bytes that is packed in either order is unpacked as itself.
pub getinteger-putinteger :
    (h : Host) (laws : Laws h) (little : Bool) (n : ℕ) (z : ℤ)
    → 1 ≤ n
    → n ≤ 4
    → FitsSigned n z
    → getinteger h (putinteger little (to_word h (h.of_inttype z)) n) little true n
      ≡ ok (h.of_inttype z)
unfolding getinteger
getinteger-putinteger h laws little n z p q f =
    rw
      (
        to_word_signed h laws z (FitsSigned-IsInt n z q f),
        get_word-putinteger little n (to_unsigned z) q,
        sign_extend_lem n (to_unsigned z % 2 ^ (8 * n)) p q (low_part n (to_unsigned z) p q),
      )
      (ap (λ (t : ℤ). ok (h.of_inttype t)) (signed_value n z p q f))

to_word_unsigned : (h : Host) (laws : Laws h) (v : ℕ) → v < 2 ^ 32 → to_word h (h.of_uinttype v) ≡ v
to_word_unsigned h laws v i =
    ap (λ (t : h.Number). to_word h t) (laws.of_uinttype-pos v)
    ∙ rw (laws.is_negative-pos v)
        (ap h.to_uinttype (sym (laws.of_uinttype-pos v)) ∙ laws.to_uinttype-of_uinttype v i)

-- An unsigned integer of at most 4 bytes that is packed in either order is unpacked as itself.
pub getinteger-putinteger_unsigned :
    (h : Host) (laws : Laws h) (little : Bool) (n v : ℕ)
    → n ≤ 4
    → v < 2 ^ (8 * n)
    → getinteger h (putinteger little (to_word h (h.of_uinttype v)) n) little false n
      ≡ ok (h.of_uinttype v)
unfolding getinteger
getinteger-putinteger_unsigned h laws little n v q f =
    rw (to_word_unsigned h laws v small, get_word-putinteger little n v q)
      (ap (λ (t : ℕ). ok (h.of_uinttype t)) (mod-eq_of_lt f))
  where
    small : v < 2 ^ 32
    small = omega (arith, pow-le-pow_right {n = 2} (omega arith) (width n q))
      where
        width : (m : ℕ) → m ≤ 4 → 8 * m ≤ 32
        width m q = omega arith
