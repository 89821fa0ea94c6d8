-- ===== src/Chunk/Overrun.antt =====
-- Lua/src/lundump.cpp: the last loop of `LoadDebug` where a chunk has more names than upvalues.
use addons_terraria_tshock.Common.{
  ℕ, ◌<◌, Option, none, List, [], ◌∷◌, ◌++◌, length, map, false, flatten, flatten-append, All, ◌≡◌,
  refl, ap, subst, ◌∙◌, arith,
}
use mathlib.Core.List.{append_assoc}
use addons_terraria_tshock.Common.Int.{pos, to_unsigned}
use addons_terraria_tshock.Common.Outcome.{fault}
use addons_terraria_tshock.Zio.{Zio}
use addons_terraria_tshock.Zio.Reading.{Ahead}
use addons_terraria_tshock.Chunk.{Bytes, Upvaldesc, Body}
use addons_terraria_tshock.Chunk.Dump.{
  Blocks, for_each, dump_int, dump_vector, dump_locvar, dump_char, dump_string, dump_debug,
}
use addons_terraria_tshock.Chunk.Load.{load_constant, load_names, load_debug}
use addons_terraria_tshock.Chunk.Fits.{IsUpvalue}
use addons_terraria_tshock.Chunk.Parts.{
  load_int-Reads, load_vector-Reads, load_char-Reads, load_string-Reads,
}
use addons_terraria_tshock.Chunk.Debug.{IsDebug, unsigned-lt, length-map, load_locvars-Reads}

abbrev dump_name : Upvaldesc → Blocks
dump_name u = dump_string u.name

module _ {D : Type 0} (reader : D → Option (List ℕ) × D) (name : Bytes) where
  split :
      (a b : Blocks) (z : Zio D) (rest : List ℕ)
      → Ahead D reader z (flatten (a ++ b) ++ rest)
      → Ahead D reader z (flatten a ++ (flatten b ++ rest))
  split a b z rest ahead =
      subst (Ahead D reader z)
        (ap (λ (t : List ℕ). t ++ rest) (flatten-append a b)
          ∙ append_assoc (flatten a) (flatten b) rest)
        ahead

  -- With more names ahead than there are upvalues, the last loop of `LoadDebug` writes behind the array.
  load_names_overrun :
      (us vs : List Upvaldesc) (z : Zio D) (rest : List ℕ)
      → All IsUpvalue vs
      → length us < length vs
      → Ahead D reader z (flatten (for_each dump_name vs) ++ rest)
      → load_names reader name (length vs) us z ≡ fault
  unfolding load_names
  load_names_overrun us [] z rest h l ahead = absurd (omega (arith, l))
  load_names_overrun [] (v ∷ vs) z rest (h, hs) l ahead =
      let (y, e, left) =
        (load_string-Reads reader name v.name h.0).0 z (flatten (for_each dump_name vs) ++ rest)
          (split (dump_string v.name) (for_each dump_name vs) z rest ahead) in
      rw e refl
  load_names_overrun (u ∷ us) (v ∷ vs) z rest (h, hs) l ahead =
      let (y, e, left) =
        (load_string-Reads reader name v.name h.0).0 z (flatten (for_each dump_name vs) ++ rest)
          (split (dump_string v.name) (for_each dump_name vs) z rest ahead) in
      rw (e, load_names_overrun us vs y rest hs (omega (arith, l)) left) refl

  -- If the debug information of a function that fits is ahead, not stripped, and the function was given
  -- fewer upvalues than there are names of upvalues in it, `LoadDebug` writes behind the array of these.
  pub load_debug_overrun :
      (us : List Upvaldesc) (f : Body) (z : Zio D) (rest : List ℕ)
      → IsDebug f
      → length us < length f.upvalues
      → Ahead D reader z (flatten (dump_debug false f) ++ rest)
      → load_debug reader name us z ≡ fault
  unfolding load_debug dump_debug
  load_debug_overrun us f z rest (s, i, k, v, m, u, w) l ahead =
      let (z1, e1, a1) =
        (load_string-Reads reader name f.source s).0 z (flatten (lines ++ (vars ++ names)) ++ rest)
          (split (dump_string f.source) (lines ++ (vars ++ names)) z rest ahead) in
      let (z2, e2, a2) =
        (load_vector-Reads reader name (map to_unsigned f.lineinfo) (unsigned-lt f.lineinfo)
            (omega (arith, k, length-map to_unsigned f.lineinfo))).0
          z1 (flatten (vars ++ names) ++ rest) (split lines (vars ++ names) z1 rest a1) in
      let (z3, e3, a3) =
        (load_locvars-Reads reader name f.locvars v m).0 z2 (flatten names ++ rest)
          (split vars names z2 rest a2) in
      let (z4, e4, a4) =
        (load_int-Reads reader name (length f.upvalues) (omega (arith, w))).0 z3
          (flatten (for_each dump_name f.upvalues) ++ rest)
          (split (dump_int (pos (length f.upvalues))) (for_each dump_name f.upvalues) z3 rest a3) in
      rw (e1, e2, e3, e4, load_names_overrun us f.upvalues z4 rest u l a4) refl
    where
      lines : Blocks
      lines = dump_vector (map to_unsigned f.lineinfo)

      vars : Blocks
      vars = dump_int (pos (length f.locvars)) ++ for_each dump_locvar f.locvars

      names : Blocks
      names = dump_int (pos (length f.upvalues)) ++ for_each dump_name f.upvalues

  -- A constant that is a string of size 0 is NULL, whose tag is read.
  load_constant_null :
      (z : Zio D) (rest : List ℕ)
      → Ahead D reader z (4 ∷ 0 ∷ 0 ∷ 0 ∷ 0 ∷ rest)
      → load_constant reader name z ≡ fault
  unfolding load_constant dump_char dump_string
  load_constant_null z rest ahead =
      let (y, e, left) = (load_char-Reads reader name (pos 4)).0 z (0 ∷ 0 ∷ 0 ∷ 0 ∷ rest) ahead in
      let (w, f, end) = (load_string-Reads reader name none tt).0 y rest left in rw (e, f) refl
