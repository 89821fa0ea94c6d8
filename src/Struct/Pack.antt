-- ===== src/Struct/Pack.antt =====
-- Lua/include/lstruct/struct.h: `b_pack` and `b_size`. The error messages keep their directives.

use addons_terraria_tshock.Common.{
  ℕ, zero, suc, ◌+◌, leb, ◌==◌, if◌then◌else◌, none, some, List, [], ◌∷◌, ◌++◌, length, replicate,
  take,
}
use addons_terraria_tshock.Common.Outcome.{
  Outcome, ok, err, no_fuel, argerror, ◌>>=◌, ◌>>◌, argcheck,
}
use addons_terraria_tshock.Struct.Host.{Host, to_word}
use addons_terraria_tshock.Struct.Format.{
  cstring, Kind, kind, optsize, Header, defaultoptions, gettoalign, controloptions, size_add,
}
use addons_terraria_tshock.Struct.Format.{byte, short, long, size_type, int, float, double, pad}
use addons_terraria_tshock.Struct.Format.{chars, zstring, control}
use addons_terraria_tshock.Struct.Integer.{putinteger, correctbytes}

module _ (h : Host) where
  open h use {Value, Number}

  -- The variables of the loop of `b_pack`; `args` are the arguments from number `arg` on.
  pub record Packer : Type 0 where
    pub header : Header
    pub args : List Value
    pub arg : ℕ
    pub totalsize : ℕ
    pub b : List ℕ

  -- `luaL_checknumber(L, arg++)` and `luaL_checklstring(L, arg++, &l)`.
  unfoldable pub next_number : Packer → Outcome (Number × Packer)
  next_number p = elim p.args [
    | [] ↦ err (argerror p.arg "number expected")
    | v ∷ rest ↦ elim (h.checknumber v) [
      | none ↦ err (argerror p.arg "number expected")
      | some n ↦ ok (n, record p { args = rest; arg = p.arg + 1 })
    ]
  ]

  unfoldable pub next_string : Packer → Outcome (List ℕ × Packer)
  next_string p = elim p.args [
    | [] ↦ err (argerror p.arg "string expected")
    | v ∷ rest ↦ elim (h.checklstring v) [
      | none ↦ err (argerror p.arg "string expected")
      | some s ↦ ok (s, record p { args = rest; arg = p.arg + 1 })
    ]
  ]

  -- The cases of the switch of `b_pack`. The result is the rest of the format, the size by which the
  -- total grows, and the new state.
  unfoldable pub pack_integer : List ℕ → ℕ → Packer → Outcome (List ℕ × ℕ × Packer)
  unfolding next_number
  pack_integer fmt size p = do
    (n, q) ← next_number p
    ok (fmt, size, record q { b = q.b ++ putinteger q.header.little (to_word h n) size })

  unfoldable pub pack_bytes :
      (Number → List ℕ) → List ℕ → ℕ → Packer → Outcome (List ℕ × ℕ × Packer)
  unfolding next_number
  pack_bytes bytes fmt size p = do
    (n, q) ← next_number p
    ok (fmt, size, record q { b = q.b ++ correctbytes (bytes n) size q.header.little })

  -- `tail` is the zero that ends an `s`.
  unfoldable pub pack_string : List ℕ → List ℕ → ℕ → Packer → Outcome (List ℕ × ℕ × Packer)
  unfolding next_string
  pack_string tail fmt size p = do
    (s, q) ← next_string p
    let n = if size == 0 then length s else size
    argcheck (leb n (length s)) q.arg "string too short"
    ok (fmt, n + length tail, record q { b = q.b ++ (take n s ++ tail) })

  unfoldable pub pack_option : ℕ → Kind → List ℕ → ℕ → Packer → Outcome (List ℕ × ℕ × Packer)
  unfolding pack_integer pack_bytes pack_string
  pack_option c byte fmt size p = pack_integer fmt size p
  pack_option c short fmt size p = pack_integer fmt size p
  pack_option c long fmt size p = pack_integer fmt size p
  pack_option c size_type fmt size p = pack_integer fmt size p
  pack_option c int fmt size p = pack_integer fmt size p
  pack_option c pad fmt size p = ok (fmt, size, record p { b = p.b ++ (0 ∷ []) })
  pack_option c float fmt size p = pack_bytes h.float_bytes fmt size p
  pack_option c double fmt size p = pack_bytes h.double_bytes fmt size p
  pack_option c chars fmt size p = pack_string [] fmt size p
  pack_option c zstring fmt size p = pack_string (0 ∷ []) fmt size p
  pack_option c control fmt size p = do
    (header, rest) ← controloptions c fmt p.header
    ok (rest, size, record p { header = header })

  -- One round of the loop of `b_pack`.
  unfoldable pub pack_step : ℕ → List ℕ → Packer → Outcome (List ℕ × Packer)
  unfolding pack_option optsize gettoalign
  pack_step c cs p = do
    (size, fmt) ← optsize (kind c) cs
    let toalign = gettoalign p.totalsize p.header (kind c) size
    (rest, grown, q) ←
        pack_option c (kind c) fmt size
          (record p { totalsize = size_add p.totalsize toalign; b = p.b ++ replicate toalign 0 })
    ok (rest, record q { totalsize = size_add q.totalsize grown })

  unfoldable pub pack_loop : ℕ → List ℕ → Packer → Outcome (List ℕ)
  unfolding pack_step
  pack_loop fuel [] p = ok p.b
  pack_loop zero (c ∷ cs) p = no_fuel
  pack_loop (suc fuel) (c ∷ cs) p = do (fmt, q) ← pack_step c cs p; pack_loop fuel fmt q

  -- Each round reads a byte of the format at least.
  unfoldable pub b_pack : List ℕ → List Value → Outcome (List ℕ)
  unfolding pack_loop cstring
  b_pack format args =
      let fmt = cstring format in
      pack_loop (length fmt) fmt
        (record { header = defaultoptions; args = args; arg = 2; totalsize = 0; b = [] })
