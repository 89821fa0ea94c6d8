-- ===== src/Chunk/Undump.antt =====
-- Lua/src/lundump.cpp: `LoadFunction`, `LoadHeader` and `luaU_undump`. A function is loaded on fuel, one
-- unit for each level of functions inside functions.
use addons_terraria_tshock.Common.{
  ℕ, zero, suc, ◌+◌, ◌-◌, ◌%◌, ◌^◌, ◌==◌, Bool, true, ◌&&◌, ◌||◌, not, if◌then◌else◌, Option, List,
  [], ◌∷◌, ◌++◌, length, take,
}
use Prim.Native.String.{String}
use addons_terraria_tshock.Common.Int.{pos}
use addons_terraria_tshock.Common.Outcome.{err, no_fuel, chunk_error}
use addons_terraria_tshock.Zio.{Zio}
use addons_terraria_tshock.Chunk.{
  Bytes, Proto, Protos, proto, last, ◌then◌, signature, headersize, lua_u_header,
}
use addons_terraria_tshock.Chunk.Loader.{Loader, ◌>>=◌, ◌>>◌, pure, lift}
use addons_terraria_tshock.Chunk.Load.{
  newvector, load_block, load_byte, load_int, load_vector, load_constant, load_array, load_upvalue,
  load_debug,
}

-- `memcmp(a, b, n) == 0`, of lists that are not shorter.
abbrev pub same_bytes : ℕ → Bytes → Bytes → Bool
same_bytes zero a b = true
same_bytes (suc n) [] b = true
same_bytes (suc n) a [] = true
same_bytes (suc n) (x ∷ a) (y ∷ b) = x == y && same_bytes n a b

-- N1, N2 and N3.
abbrev pub n1 : ℕ
n1 = length signature

abbrev pub n2 : ℕ
n2 = n1 + 2

abbrev pub n3 : ℕ
n3 = n2 + 6

-- A closure with its prototype.
pub record Closure : Type 0 where
  pub p : Proto
  pub nupvalues : ℕ

abbrev sizeupvalues : Proto → ℕ
sizeupvalues (proto f p) = length f.upvalues

-- The name that errors give the chunk.
unfoldable pub chunk_name : Bytes → Bytes
chunk_name [] = []
chunk_name (c ∷ cs) =
    if c == 0x40 || c == 0x3d
    then cs
    else if c == 0x1b
    then 0x62 ∷ 0x69 ∷ 0x6e ∷ 0x61 ∷ 0x72 ∷ 0x79 ∷ 0x20 ∷ 0x73 ∷ 0x74 ∷ 0x72 ∷ 0x69 ∷ 0x6e ∷ 0x67
      ∷ []
    else c ∷ cs

module _ {D : Type 0} (reader : D → Option (List ℕ) × D) (name : Bytes) where
  abbrev pub load_protos : Loader (Zio D) Proto → ℕ → Loader (Zio D) Protos
  load_protos load zero = pure last
  load_protos load (suc n) = do f ← load; fs ← load_protos load n; pure (f then fs)

  unfoldable pub load_function : ℕ → Loader (Zio D) Proto
  load_function zero = λ z. no_fuel
  load_function (suc fuel) = do
    linedefined ← load_int reader name
    lastlinedefined ← load_int reader name
    numparams ← load_byte reader name
    is_vararg ← load_byte reader name
    maxstacksize ← load_byte reader name
    code ← load_vector reader name
    k ← load_array reader name 8 (load_constant reader name)
    n ← load_int reader name
    lift (newvector n 4)
    p ← load_protos (load_function fuel) n
    us ← load_array reader name 8 (load_upvalue reader name)
    (source, lineinfo, locvars, upvalues) ← load_debug reader name us
    pure (
        proto
          (record {
            linedefined = pos linedefined;
            lastlinedefined = pos lastlinedefined;
            numparams = numparams;
            is_vararg = is_vararg;
            maxstacksize = maxstacksize;
            code = code;
            k = k;
            upvalues = upvalues;
            source = source;
            lineinfo = lineinfo;
            locvars = locvars;
          })
          p)

  abbrev refused : String → Loader (Zio D) (Unit {0})
  refused why = lift (err (chunk_error name why))

  -- What `LoadHeader` does with the header h that it expects and the bytes s that it finds.
  abbrev pub compare_header : Bytes → Bytes → Loader (Zio D) (Unit {0})
  compare_header h s =
      if same_bytes headersize h s
      then pure tt
      else if not (same_bytes n1 h s)
      then refused "not a"
      else if not (same_bytes n2 h s)
      then refused "version mismatch in"
      else if not (same_bytes n3 h s)
      then refused "incompatible"
      else refused "corrupted"

  unfoldable pub load_header : Loader (Zio D) (Unit {0})
  unfolding lua_u_header
  load_header = do
    s ← load_block reader name (headersize - 1)
    compare_header lua_u_header (take 1 lua_u_header ++ s)

-- `luaF_newLclosure(L, n)`, with the prototype that it is given; the number is cast to a byte.
unfoldable pub lua_f_new_lclosure : ℕ → Proto → Closure
lua_f_new_lclosure n f = record { p = f; nupvalues = n % 2 ^ 8 }

-- A closure of one upvalue, and a new one if the number of upvalues is another.
abbrev pub closure_of : Proto → Closure
closure_of f =
    if not (sizeupvalues f == 1)
    then lua_f_new_lclosure (sizeupvalues f) f
    else lua_f_new_lclosure 1 f

module _ {D : Type 0} (reader : D → Option (List ℕ) × D) where
  unfoldable pub lua_u_undump : ℕ → Bytes → Loader (Zio D) Closure
  unfolding load_header load_function
  lua_u_undump fuel name = do
    load_header reader (chunk_name name)
    f ← load_function reader (chunk_name name) fuel
    pure (closure_of f)
