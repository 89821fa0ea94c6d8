-- ===== src/Struct/Sizes.antt =====
-- Lua/include/lstruct/struct.h: `b_size` computes the length of what `b_pack` builds.
use addons_terraria_tshock.Common.{
  ℕ, zero, suc, ◌%◌, ◌^◌, ◌==◌, if◌then◌else◌, true, not, ◌&&◌, List, [], ◌∷◌, ◌++◌, length,
  replicate, length-append, length-replicate, ◌≡◌, ◌≢◌, ◌⊎◌, refl, sym, ◌∙◌, arith, Bool-cases, inl,
  inr,
}
use addons_terraria_tshock.Common.Outcome.{
  Outcome, ok, ◌>>=◌, ◌>>◌, argcheck, >>=-eq-ok, argcheck-eq-ok,
}
use addons_terraria_tshock.Struct.Format.{
  Kind, kind, optsize, Header, gettoalign, controloptions, size_add, cstring, defaultoptions,
}
use addons_terraria_tshock.Struct.Format.{byte, short, long, size_type, int, float, double, pad}
use addons_terraria_tshock.Struct.Format.{chars, zstring, control}
use addons_terraria_tshock.Struct.Host.{Host, Laws}
use addons_terraria_tshock.Struct.Pack.{Packer, pack_option, pack_step, pack_loop, b_pack}
use addons_terraria_tshock.Struct.Items.{
  kind_alnum, control_alnum, IsSized, optsize-IsSized, IsFixed, pack_option-Grows,
  pack_option-Plain,
}
use addons_terraria_tshock.Common.Int.{ℤ, to_signed}
use addons_terraria_tshock.Struct.Size.{isalnum, size_step, size_loop, b_size}

-- What `b_size` lets through is a fixed option or a control option.
kind-IsFixed :
    (k : Kind) (c size : ℕ)
    → kind c ≡ k
    → not (c == b's') ≡ true
    → not (c == b'c' && size == 0) ≡ true
    → IsFixed k size ⊎ (k ≡ control)
unfolding kind
kind-IsFixed zstring c size e a b = absurd (ground arith)
kind-IsFixed control c size e a b = inr refl
kind-IsFixed chars c size e a b = inl (λ z. ground arith)
kind-IsFixed byte c size e a b = inl tt
kind-IsFixed short c size e a b = inl tt
kind-IsFixed long c size e a b = inl tt
kind-IsFixed size_type c size e a b = inl tt
kind-IsFixed int c size e a b = inl tt
kind-IsFixed float c size e a b = inl tt
kind-IsFixed double c size e a b = inl tt
kind-IsFixed pad c size e a b = inl tt

IsFixed-control : (k : Kind) (size : ℕ) → IsFixed k size → k ≢ control
IsFixed-control control size f e = f
IsFixed-control _ size f e = cc

-- The padded state that a round hands to its option.
abbrev padded : {h : Host} → Packer h → ℕ → Packer h
padded p n = record p { totalsize = size_add p.totalsize n; b = p.b ++ replicate n 0 }

-- The choice of `b_size` between an item and a control option.
abbrev continued : ℕ → List ℕ → Header → Outcome (Header × List ℕ)
continued c fmt hd = if isalnum c then ok (hd, fmt) else controloptions c fmt hd

abbrev sized_step : ℕ → Header → ℕ → ℕ × List ℕ → Outcome (List ℕ × Header × ℕ)
sized_step c hd pos x = do
  argcheck (not (c == b's')) 1 "option 's' has no fixed size"
  argcheck (not (c == b'c' && x.0 == 0)) 1 "option 'c0' has no fixed size"
  y ← continued c x.1 hd
  ok (y.1, y.0, size_add (size_add pos (gettoalign pos hd (kind c) x.0)) x.0)

abbrev sized_pack : {h : Host} → ℕ → Packer h → ℕ × List ℕ → Outcome (List ℕ × Packer h)
sized_pack {h} c p x = do
  z ← pack_option h c (kind c) x.1 x.0 (padded p (gettoalign p.totalsize p.header (kind c) x.0))
  ok (z.0, record (z.2) { totalsize = size_add z.2.totalsize z.1 })

sized_step_inv :
    (c : ℕ) (hd : Header) (pos : ℕ) (x : ℕ × List ℕ) (s : List ℕ × Header × ℕ)
    → sized_step c hd pos x ≡ ok s
    → (y : Header × List ℕ) × (continued c x.1 hd ≡ ok y)
      × (IsFixed (kind c) x.0 ⊎ (kind c ≡ control))
      × (s ≡ (y.1, y.0, size_add (size_add pos (gettoalign pos hd (kind c) x.0)) x.0))
sized_step_inv c hd pos x s e =
    let (a, e') =
      argcheck-eq-ok (not (c == b's')) 1 "option 's' has no fixed size"
        (argcheck (not (c == b'c' && x.0 == 0)) 1 "option 'c0' has no fixed size"
          >> (continued c x.1 hd >>= finish))
        e in
    let (b, e'') =
      argcheck-eq-ok (not (c == b'c' && x.0 == 0)) 1 "option 'c0' has no fixed size"
        (continued c x.1 hd >>= finish) e' in
    let (y, found, final) = >>=-eq-ok (continued c x.1 hd) finish e'' in
    (y, found, kind-IsFixed (kind c) c x.0 refl a b, ground (arith, final))
  where
    finish : Header × List ℕ → Outcome (List ℕ × Header × ℕ)
    finish y = ok (y.1, y.0, size_add (size_add pos (gettoalign pos hd (kind c) x.0)) x.0)

module _ (h : Host) (laws : Laws h) where
  control_option :
      (c size : ℕ) (fmt : List ℕ) (p : Packer h) (r : List ℕ × ℕ × Packer h)
      → pack_option h c control fmt size p ≡ ok r
      → (x : Header × List ℕ) × (controloptions c fmt p.header ≡ ok x)
        × (r.0 ≡ x.1)
        × (r.1 ≡ size)
        × (r.2.header ≡ x.0)
  unfolding pack_option
  control_option c size fmt p r e =
      let (x, found, built) = >>=-eq-ok (controloptions c fmt p.header) _ e in
      (x, found, ground (arith, built), ground (arith, built), ground (arith, built))

  -- Both functions go on with the same format and header, and the same size of the item.
  option_agrees :
      (c size : ℕ) (fmt : List ℕ) (p : Packer h) (r : List ℕ × ℕ × Packer h) (s : Header × List ℕ)
      → IsSized (kind c) size
      → IsFixed (kind c) size ⊎ (kind c ≡ control)
      → pack_option h c (kind c) fmt size p ≡ ok r
      → continued c fmt p.header ≡ ok s
      → (r.0 ≡ s.1) × (r.1 ≡ size) × (r.2.header ≡ s.0)
  option_agrees c size fmt p r s i (inl f) e g = elim (Bool-cases (isalnum c)) [
    | inl a ↦
        let plain = pack_option-Plain h laws c (kind c) fmt size p r i f e in
        let same : ok (p.header, fmt) ≡ ok s = rw a at g in ground (arith, plain, same)
    | inr a ↦ absurd (IsFixed-control (kind c) size f (kind_alnum c a))
  ]
  option_agrees c size fmt p r s i (inr k) e g =
      let (x, found, f, g', d) = control_option c size fmt p r (rw k at e) in
      elim (Bool-cases (isalnum c)) [
        | inl a ↦ absurd (control_alnum c fmt p.header x a found)
        | inr a ↦
            let same : controloptions c fmt p.header ≡ ok s = rw a at g in
            ground (arith, found, same, f, g', d)
      ]

  -- The rounds behind a known size.
  size_step_at :
      (c : ℕ) (cs : List ℕ) (hd : Header) (pos : ℕ) (x : ℕ × List ℕ)
      → optsize (kind c) cs ≡ ok x
      → size_step c cs hd pos ≡ sized_step c hd pos x
  unfolding size_step
  size_step_at c cs hd pos x e = rw e

  pack_step_at :
      (c : ℕ) (cs : List ℕ) (p : Packer h) (x : ℕ × List ℕ)
      → optsize (kind c) cs ≡ ok x
      → pack_step h c cs p ≡ sized_pack c p x
  unfolding pack_step
  pack_step_at c cs p x e = rw e

  pack_step_size :
      (c : ℕ) (cs : List ℕ) (p : Packer h) (r : List ℕ × Packer h)
      → pack_step h c cs p ≡ ok r
      → (x : ℕ × List ℕ) × (optsize (kind c) cs ≡ ok x)
  unfolding pack_step
  pack_step_size c cs p r e =
      let (x, sized, rest) = >>=-eq-ok (optsize (kind c) cs) (sized_pack c p) e in (x, sized)

  -- A round of `b_pack` and the round of `b_size` at the same place.
  step_agrees :
      (c : ℕ) (cs : List ℕ) (p : Packer h) (s : List ℕ × Header × ℕ) (r : List ℕ × Packer h)
      → p.totalsize ≡ length p.b % 2 ^ 32
      → size_step c cs p.header p.totalsize ≡ ok s
      → pack_step h c cs p ≡ ok r
      → (r.0 ≡ s.0)
        × (r.1.header ≡ s.1)
        × (r.1.totalsize ≡ s.2)
        × (r.1.totalsize ≡ length r.1.b % 2 ^ 32)
  step_agrees c cs p s r t e g =
      let (x, sized) = pack_step_size c cs p r g in
      let n = gettoalign p.totalsize p.header (kind c) x.0 in
      let (y, continues, fixed, result) =
        sized_step_inv c p.header p.totalsize x s
          (sym (size_step_at c cs p.header p.totalsize x sized) ∙ e) in
      let (z, packed, built) =
        >>=-eq-ok (pack_option h c (kind c) x.1 x.0 (padded p n)) _
          (sym (pack_step_at c cs p x sized) ∙ g) in
      let known = optsize-IsSized (kind c) cs x.0 x.1 sized in
      let grows = pack_option-Grows h laws c (kind c) x.1 x.0 (padded p n) z known packed in
      let agrees = option_agrees c x.0 x.1 (padded p n) z y known fixed packed continues in
      ground (
        arith,
        built,
        result,
        grows,
        agrees,
        length-append p.b (replicate n 0),
        length-replicate n (zero),
      )

  loop_agrees :
      (fuel : ℕ) (fmt : List ℕ) (p : Packer h) (n : ℕ) (bytes : List ℕ)
      → p.totalsize ≡ length p.b % 2 ^ 32
      → size_loop fuel fmt p.header p.totalsize ≡ ok n
      → pack_loop h fuel fmt p ≡ ok bytes
      → n ≡ length bytes % 2 ^ 32
  unfolding size_loop pack_loop
  loop_agrees fuel [] p n bytes t e g = ground (arith, e, g)
  loop_agrees zero (c ∷ cs) p n bytes t e g = cc
  loop_agrees (suc fuel) (c ∷ cs) p n bytes t e g =
      let (s, sized, rest) = >>=-eq-ok (size_step c cs p.header p.totalsize) _ e in
      let (r, packed, rest') = >>=-eq-ok (pack_step h c cs p) _ g in
      let (f, hd, total, counted) = step_agrees c cs p s r t sized packed in
      loop_agrees fuel r.0 r.1 n bytes counted (cc (f, hd, total, rest)) rest'

-- If `b_size` and `b_pack` both succeed on a format, the size is the length of the packed string, as
-- a 32-bit integer. It is so whatever the arguments, the alignment and the order of the bytes.
pub b_size-b_pack :
    (h : Host) (laws : Laws h) (format : List ℕ) (args : List h.Value) (n : ℤ) (bytes : List ℕ)
    → b_size format ≡ ok n
    → b_pack h format args ≡ ok bytes
    → n ≡ to_signed (length bytes % 2 ^ 32)
unfolding b_size b_pack
b_size-b_pack h laws format args n bytes e g =
    let fmt = cstring format in
    let (m, sized, result) = >>=-eq-ok (size_loop (length fmt) fmt defaultoptions 0) _ e in
    let counted =
      loop_agrees h laws (length fmt) fmt
        (record { header = defaultoptions; args = args; arg = 2; totalsize = 0; b = [] }) m bytes
        refl sized g in
    ground (arith, result, counted)
