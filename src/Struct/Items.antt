-- ===== src/Struct/Items.antt =====
-- Lua/include/lstruct/struct.h: what each option of `b_pack` adds to the string, to the total, and
-- takes from the format.
use addons_terraria_tshock.Common.{
  ℕ, zero, suc, ◌+◌, ◌==◌, ltb, if◌then◌else◌, Bool, true, false, List, [], ◌∷◌, ◌++◌, length, take,
  set, get_or, length-set, length-append, length-take, ◌≡◌, ◌≢◌, refl, sym, ◌∙◌, arith, Bool-cases,
  inl, inr,
}
use addons_terraria_tshock.Common.Outcome.{ok, >>=-eq-ok}
use addons_terraria_tshock.Struct.Format.{Kind, kind, optsize, Header, controloptions}
use addons_terraria_tshock.Struct.Format.{byte, short, long, size_type, int, float, double, pad}
use addons_terraria_tshock.Struct.Format.{chars, zstring, control}
use addons_terraria_tshock.Struct.Host.{Host, Laws, to_word}
use addons_terraria_tshock.Struct.Integer.{putinteger, correctbytes, swap_loop}
use addons_terraria_tshock.Struct.Bytes.{length-putinteger}
use addons_terraria_tshock.Struct.Pack.{
  Packer, next_number, next_string, pack_integer, pack_bytes, pack_string, pack_option,
}
use addons_terraria_tshock.Struct.Size.{isalnum}

-- Exchanging bytes keeps their number.
length-swap_loop : (b : List ℕ) (i n : ℕ) → length (swap_loop b i n) ≡ length b
unfolding swap_loop
length-swap_loop b i zero = refl
length-swap_loop b i (suc n) = elim (Bool-cases (ltb i n)) [
  | inl e ↦ rw e (
      length-swap_loop (set (set b i (get_or b n 0)) n (get_or b i 0)) (i + 1) n
      ∙ length-set (set b i (get_or b n 0)) n (get_or b i 0)
      ∙ length-set b i (get_or b n 0))
  | inr e ↦ rw e
]

length-correctbytes :
    (b : List ℕ) (n : ℕ) (little : Bool) → length (correctbytes b n little) ≡ length b
unfolding correctbytes
length-correctbytes b n true = refl
length-correctbytes b n false = length-swap_loop b 0 n

-- An option letter is alphanumeric, and a control option is not.
pub kind_alnum : (c : ℕ) → isalnum c ≡ false → kind c ≡ control
unfolding isalnum kind
kind_alnum c h = ground arith

pub control_alnum :
    (c : ℕ) (fmt : List ℕ) (h : Header) (r : Header × List ℕ)
    → isalnum c ≡ true
    → controloptions c fmt h ≢ ok r
unfolding isalnum controloptions
control_alnum c fmt h r e q = ground arith

-- What an option adds to the string is what it adds to the total.
abbrev pub Grows : {h : Host} → Packer h → List ℕ × ℕ × Packer h → Type 0
Grows p r = (length r.2.b ≡ length p.b + r.1) × (r.2.totalsize ≡ p.totalsize)

-- An item leaves the format and the header alone, and has the size of its option.
abbrev pub Plain : {h : Host} → List ℕ → ℕ → Packer h → List ℕ × ℕ × Packer h → Type 0
Plain fmt size p r = (r.0 ≡ fmt) × (r.1 ≡ size) × (r.2.header ≡ p.header)

-- The sizes that `optsize` fixes.
abbrev pub IsSized : Kind → ℕ → Type 0
IsSized float size = size ≡ 4
IsSized double size = size ≡ 8
IsSized pad size = size ≡ 1
IsSized zstring size = size ≡ 0
IsSized control size = size ≡ 0
IsSized _ size = Unit

pub optsize-IsSized :
    (k : Kind) (cs : List ℕ) (size : ℕ) (fmt : List ℕ)
    → optsize k cs ≡ ok (size, fmt)
    → IsSized k size
unfolding optsize
optsize-IsSized float cs size fmt e = ground arith
optsize-IsSized double cs size fmt e = ground arith
optsize-IsSized pad cs size fmt e = ground arith
optsize-IsSized zstring cs size fmt e = ground arith
optsize-IsSized control cs size fmt e = ground arith
optsize-IsSized _ cs size fmt e = tt

-- The options that `b_size` accepts, but for the control options.
abbrev pub IsFixed : Kind → ℕ → Type 0
IsFixed zstring size = ⊥
IsFixed control size = ⊥
IsFixed chars size = size ≢ 0
IsFixed _ size = Unit

module _ (h : Host) (laws : Laws h) where
  next_number_lem :
      (p : Packer h) (n : h.Number) (q : Packer h)
      → next_number h p ≡ ok (n, q)
      → (q.b ≡ p.b) × (q.totalsize ≡ p.totalsize) × (q.header ≡ p.header)
  unfolding next_number
  next_number_lem p n q e = ground arith

  next_string_lem :
      (p : Packer h) (s : List ℕ) (q : Packer h)
      → next_string h p ≡ ok (s, q)
      → (q.b ≡ p.b) × (q.totalsize ≡ p.totalsize) × (q.header ≡ p.header)
  unfolding next_string
  next_string_lem p s q e = ground arith

  pack_integer_lem :
      (fmt : List ℕ) (size : ℕ) (p : Packer h) (r : List ℕ × ℕ × Packer h)
      → pack_integer h fmt size p ≡ ok r
      → Grows p r × Plain fmt size p r
  unfolding pack_integer
  pack_integer_lem fmt size p r e =
      let (x, taken, built) = >>=-eq-ok (next_number h p) _ e in
      ground (
        arith,
        built,
        next_number_lem p x.0 x.1 taken,
        length-append x.1.b (putinteger x.1.header.little (to_word h x.0) size),
        length-putinteger x.1.header.little (to_word h x.0) size,
      )

  pack_bytes_lem :
      (bytes : h.Number → List ℕ) (fmt : List ℕ) (size : ℕ) (p : Packer h)
      (r : List ℕ × ℕ × Packer h)
      → ((n : h.Number) → length (bytes n) ≡ size)
      → pack_bytes h bytes fmt size p ≡ ok r
      → Grows p r × Plain fmt size p r
  unfolding pack_bytes
  pack_bytes_lem bytes fmt size p r sized e =
      let (x, taken, built) = >>=-eq-ok (next_number h p) _ e in
      ground (
        arith,
        built,
        sized x.0,
        next_number_lem p x.0 x.1 taken,
        length-append x.1.b (correctbytes (bytes x.0) size x.1.header.little),
        length-correctbytes (bytes x.0) size x.1.header.little,
      )

  pack_string_lem :
      (tail fmt : List ℕ) (size : ℕ) (p : Packer h) (r : List ℕ × ℕ × Packer h)
      → pack_string h tail fmt size p ≡ ok r
      → Grows p r × (r.0 ≡ fmt) × (r.2.header ≡ p.header) × (size ≢ 0 → r.1 ≡ size + length tail)
  unfolding pack_string
  pack_string_lem tail fmt size p r e =
      let (x, taken, built) = >>=-eq-ok (next_string h p) _ e in
      let n = if size == 0 then length x.0 else size in
      ground (
        arith,
        built,
        next_string_lem p x.0 x.1 taken,
        length-append x.1.b (take n x.0 ++ tail),
        length-append (take n x.0) tail,
        length-take n x.0,
      )

  pub pack_option-Grows :
      (c : ℕ) (k : Kind) (fmt : List ℕ) (size : ℕ) (p : Packer h) (r : List ℕ × ℕ × Packer h)
      → IsSized k size
      → pack_option h c k fmt size p ≡ ok r
      → Grows p r
  unfolding pack_option
  pack_option-Grows c byte fmt size p r s e = (pack_integer_lem fmt size p r e).0
  pack_option-Grows c short fmt size p r s e = (pack_integer_lem fmt size p r e).0
  pack_option-Grows c long fmt size p r s e = (pack_integer_lem fmt size p r e).0
  pack_option-Grows c size_type fmt size p r s e = (pack_integer_lem fmt size p r e).0
  pack_option-Grows c int fmt size p r s e = (pack_integer_lem fmt size p r e).0
  pack_option-Grows c pad fmt size p r s e = ground (arith, length-append p.b (0 ∷ []))
  pack_option-Grows c float fmt size p r s e =
      (pack_bytes_lem h.float_bytes fmt size p r (λ n. laws.length-float_bytes n ∙ sym s) e).0
  pack_option-Grows c double fmt size p r s e =
      (pack_bytes_lem h.double_bytes fmt size p r (λ n. laws.length-double_bytes n ∙ sym s) e).0
  pack_option-Grows c chars fmt size p r s e = (pack_string_lem [] fmt size p r e).0
  pack_option-Grows c zstring fmt size p r s e = (pack_string_lem (0 ∷ []) fmt size p r e).0
  pack_option-Grows c control fmt size p r s e = ground arith

  pub pack_option-Plain :
      (c : ℕ) (k : Kind) (fmt : List ℕ) (size : ℕ) (p : Packer h) (r : List ℕ × ℕ × Packer h)
      → IsSized k size
      → IsFixed k size
      → pack_option h c k fmt size p ≡ ok r
      → Plain fmt size p r
  unfolding pack_option
  pack_option-Plain c byte fmt size p r s f e = (pack_integer_lem fmt size p r e).1
  pack_option-Plain c short fmt size p r s f e = (pack_integer_lem fmt size p r e).1
  pack_option-Plain c long fmt size p r s f e = (pack_integer_lem fmt size p r e).1
  pack_option-Plain c size_type fmt size p r s f e = (pack_integer_lem fmt size p r e).1
  pack_option-Plain c int fmt size p r s f e = (pack_integer_lem fmt size p r e).1
  pack_option-Plain c pad fmt size p r s f e = ground arith
  pack_option-Plain c float fmt size p r s f e =
      (pack_bytes_lem h.float_bytes fmt size p r (λ n. laws.length-float_bytes n ∙ sym s) e).1
  pack_option-Plain c double fmt size p r s f e =
      (pack_bytes_lem h.double_bytes fmt size p r (λ n. laws.length-double_bytes n ∙ sym s) e).1
  pack_option-Plain c chars fmt size p r s f e =
      let t = pack_string_lem [] fmt size p r e in (t.1, t.3 f ∙ omega arith, t.2)
  pack_option-Plain c zstring fmt size p r s f e = absurd f
  pack_option-Plain c control fmt size p r s f e = absurd f
