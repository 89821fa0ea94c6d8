-- ===== src/Chunk/Debug.antt =====
-- Lua/src/lundump.cpp: what `DumpDebug` dumps is loaded by `LoadDebug`.
use addons_terraria_tshock.Common.{
  ℕ, ◌^◌, ◌<◌, Bool, true, false, Option, none, List, [], ◌∷◌, ◌++◌, map, length, All, ◌≡◌, refl,
  ap, arith,
}
use mathlib.Core.Path.{ap₂}
use addons_terraria_tshock.Common.Int.{
  ℤ, pos, negsuc, IsInt, to_signed, to_unsigned, to_signed-to_unsigned, to_unsigned-lt,
}
use addons_terraria_tshock.Zio.{Zio}
use addons_terraria_tshock.Chunk.{Bytes, Upvaldesc, LocVar, Body}
use addons_terraria_tshock.Chunk.Dump.{
  Blocks, for_each, dump_int, dump_vector, dump_string, dump_locvar, unless_strip, dump_debug,
}
use addons_terraria_tshock.Chunk.Loader.{Loader, ◌>>=◌, pure}
use addons_terraria_tshock.Chunk.Load.{
  load_int, load_string, load_vector, load_array, load_locvar, load_names, load_debug,
}
use addons_terraria_tshock.Chunk.Reads.{Reads, Reads-pure, Reads-bind, Reads-map, Reads-value}
use addons_terraria_tshock.Chunk.Fits.{IsNat, IsSize, IsString, IsUpvalue, IsLocVar}
use addons_terraria_tshock.Chunk.Parts.{
  load_int-Reads, load_string-Reads, load_vector-Reads, load_array-Reads,
}

-- An upvalue as `LoadUpvalues` leaves it.
abbrev pub unnamed : Upvaldesc → Upvaldesc
unnamed u = record u { name = none }

-- The debug information of a function that fits what `LoadDebug` reads.
abbrev pub IsDebug : Body → Type 0
IsDebug f =
    IsString f.source
    × All IsInt f.lineinfo
    × IsSize 4 (length f.lineinfo)
    × All IsLocVar f.locvars
    × IsSize 12 (length f.locvars)
    × All IsUpvalue f.upvalues
    × IsSize 8 (length f.upvalues)

signed_again : (l : List ℤ) → All IsInt l → map to_signed (map to_unsigned l) ≡ l
signed_again [] h = refl
signed_again (z ∷ l) (p, ps) = ap₂ ◌∷◌ (to_signed-to_unsigned z p) (signed_again l ps)

pub unsigned-lt : (l : List ℤ) → All (λ (x : ℕ). x < 2 ^ 32) (map to_unsigned l)
unsigned-lt [] = tt
unsigned-lt (z ∷ l) = (to_unsigned-lt z, unsigned-lt l)

pub length-map {ℓ κ} :
    {A : Type ℓ} {B : Type κ} (f : A → B) (xs : List A) → length (map f xs) ≡ length xs
length-map f [] = refl
length-map f (x ∷ xs) = omega (arith, length-map f xs)

pub map_self {ℓ} : {A : Type ℓ} (xs : List A) → map (λ (x : A). x) xs ≡ xs
map_self [] = refl
map_self (x ∷ xs) = ap (◌∷◌ x) (map_self xs)

module _ {D : Type 0} (reader : D → Option (List ℕ) × D) (name : Bytes) where
  -- A number that is put into a record.
  pub load_nat-Reads :
      {B : Type 0} (v : ℤ) (k : ℕ → Loader (Zio D) B) (r : ℤ → B) (bs : Blocks)
      → IsNat v
      → ((n : ℕ) → Reads reader name (k n) bs (r (pos n)))
      → Reads reader name (load_int reader name >>= k) (dump_int v ++ bs) (r v)
  load_nat-Reads (pos n) k r bs h each =
      Reads-bind reader name (load_int reader name) k (dump_int (pos n)) bs n (r (pos n))
        (load_int-Reads reader name n h) (each n)
  load_nat-Reads (negsuc n) k r bs h each = absurd h

  load_nat-Reads_last :
      {B : Type 0} (v : ℤ) (r : ℤ → B)
      → IsNat v
      → Reads reader name (load_int reader name >>= λ n. pure (r (pos n))) (dump_int v) (r v)
  load_nat-Reads_last (pos n) r h =
      Reads-map reader name (load_int reader name) (λ (m : ℕ). r (pos m)) (dump_int (pos n)) n
        (load_int-Reads reader name n h)
  load_nat-Reads_last (negsuc n) r h = absurd h

  load_locvar-Reads :
      (v : LocVar) → IsLocVar v → Reads reader name (load_locvar reader name) (dump_locvar v) v
  unfolding load_locvar dump_locvar
  load_locvar-Reads v (s, p, q) =
      Reads-bind reader name (load_string reader name) _ (dump_string v.varname)
        (dump_int v.startpc ++ dump_int v.endpc) v.varname v
        (load_string-Reads reader name v.varname s)
        (load_nat-Reads v.startpc _
          (λ (a : ℤ). record { varname = v.varname; startpc = a; endpc = v.endpc })
          (dump_int v.endpc) p
          (λ n.
            load_nat-Reads_last v.endpc
              (λ (b : ℤ). record { varname = v.varname; startpc = pos n; endpc = b }) q))

  pub load_locvars-Reads :
      (vars : List LocVar)
      → All IsLocVar vars
      → IsSize 12 (length vars)
      → Reads reader name
          (load_array reader name 12 (load_locvar reader name))
          (dump_int (pos (length vars)) ++ for_each dump_locvar vars)
          vars
  load_locvars-Reads vars v l =
      Reads-value reader name (load_array reader name 12 (load_locvar reader name))
        (dump_int (pos (length vars)) ++ for_each dump_locvar vars) (map (λ (x : LocVar). x) vars)
        vars (map_self vars)
        (load_array-Reads reader name 12 (load_locvar reader name) dump_locvar (λ (x : LocVar). x)
          IsLocVar load_locvar-Reads vars v (omega (arith, l)) l)

  load_names-Reads :
      (us : List Upvaldesc)
      → All IsUpvalue us
      → Reads reader name
          (load_names reader name (length us) (map unnamed us))
          (for_each (λ (u : Upvaldesc). dump_string u.name) us)
          us
  unfolding load_names
  load_names-Reads [] h = Reads-pure reader name []
  load_names-Reads (u ∷ us) (p, ps) =
      Reads-bind reader name (load_string reader name) _ (dump_string u.name)
        (for_each (λ (v : Upvaldesc). dump_string v.name) us) u.name (u ∷ us)
        (load_string-Reads reader name u.name p.0)
        (Reads-map reader name (load_names reader name (length us) (map unnamed us)) (◌∷◌ u)
          (for_each (λ (v : Upvaldesc). dump_string v.name) us) us (load_names-Reads us ps))

  -- The parts of the debug information, when the last loop gives `named`.
  debug_parts :
      (source : Option Bytes) (lines : List ℤ) (vars : List LocVar) (us named : List Upvaldesc)
      (n : ℕ) (names : Blocks)
      → IsString source
      → All IsInt lines
      → IsSize 4 (length lines)
      → All IsLocVar vars
      → IsSize 12 (length vars)
      → n < 2 ^ 31
      → Reads reader name (load_names reader name n us) names named
      → Reads reader name
          (load_debug reader name us)
          (dump_string source
            ++ (dump_vector (map to_unsigned lines)
                ++ ((dump_int (pos (length vars)) ++ for_each dump_locvar vars)
                    ++ (dump_int (pos n) ++ names))))
          (source, lines, vars, named)
  unfolding load_debug
  debug_parts source lines vars us named n names s i k v l m r =
      Reads-bind reader name (load_string reader name) _ (dump_string source) _ source
        (source, lines, vars, named) (load_string-Reads reader name source s)
        (Reads-bind reader name (load_vector reader name) _ (dump_vector (map to_unsigned lines)) _
          (map to_unsigned lines) (source, lines, vars, named)
          (load_vector-Reads reader name (map to_unsigned lines) (unsigned-lt lines)
            (omega (arith, k, length-map to_unsigned lines)))
          (Reads-bind reader name (load_array reader name 12 (load_locvar reader name)) _
            (dump_int (pos (length vars)) ++ for_each dump_locvar vars) (dump_int (pos n) ++ names)
            vars (source, lines, vars, named) (load_locvars-Reads vars v l)
            (Reads-bind reader name (load_int reader name) _ (dump_int (pos n)) names n
              (source, lines, vars, named) (load_int-Reads reader name n m)
              (Reads-value reader name (λ z. _) names _ (source, lines, vars, named)
                (ap (λ (l : List ℤ). (source, l, vars, named)) (signed_again lines i))
                (Reads-map reader name (load_names reader name n us)
                  (λ (l : List Upvaldesc). (source, map to_signed (map to_unsigned lines), vars, l))
                  names named r)))))

  -- The debug information is loaded as it was, and what was stripped is empty.
  pub load_debug-Reads :
      (strip : Bool) (f : Body)
      → IsDebug f
      → Reads reader name (load_debug reader name (map unnamed f.upvalues)) (dump_debug strip f) (
        unless_strip strip none f.source,
        unless_strip strip [] f.lineinfo,
        unless_strip strip [] f.locvars,
        unless_strip strip (map unnamed f.upvalues) f.upvalues,
      )
  unfolding dump_debug load_names
  load_debug-Reads true f h =
      debug_parts none [] [] (map unnamed f.upvalues) (map unnamed f.upvalues) 0 [] tt tt
        (omega arith) tt (omega arith) (omega arith)
        (Reads-pure reader name (map unnamed f.upvalues))
  load_debug-Reads false f (s, i, k, v, l, u, w) =
      debug_parts f.source f.lineinfo f.locvars (map unnamed f.upvalues) f.upvalues
        (length f.upvalues) (for_each (λ (x : Upvaldesc). dump_string x.name) f.upvalues) s i k v l
        (omega (arith, w)) (load_names-Reads f.upvalues u)
