-- ===== src/Chunk/RoundTrip.antt =====
-- Lua/src/ldump.cpp and Lua/src/lundump.cpp: a function that is dumped is loaded again.
use addons_terraria_tshock.Common.{
  ℕ, zero, suc, ◌≤◌, Bool, Option, List, [], ◌∷◌, ◌++◌, map, length, drop, refl, arith,
}
use addons_terraria_tshock.Common.Int.{ℤ, pos}
use addons_terraria_tshock.Chunk.{
  Bytes, Constant, Body, Proto, Protos, proto, last, ◌then◌, sizep, lua_u_header,
}
use addons_terraria_tshock.Chunk.Dump.{
  Blocks, for_each, dump_char, dump_int, dump_vector, dump_constant, dump_upvalue, dump_upvalues,
  dump_debug, dump_function, dump_functions,
}
use addons_terraria_tshock.Chunk.Load.{
  newvector, load_block, load_byte, load_int, load_vector, load_constant, load_array, load_upvalue,
  load_debug,
}
use addons_terraria_tshock.Chunk.Undump.{
  closure_of, chunk_name, load_protos, load_function, load_header, lua_u_undump,
}
use addons_terraria_tshock.Chunk.Reads.{
  Reads, Reads-pure, Reads-bind, Reads-map, Reads-lift, Reads-value,
}
use addons_terraria_tshock.Chunk.Fits.{IsSize, IsConstant, IsUpvalue}
use addons_terraria_tshock.Chunk.Parts.{
  newvector_lem, load_block-Reads, load_int-Reads, load_byte-Reads, load_vector-Reads,
  load_array-Reads, load_constant-Reads, load_upvalue-Reads,
}
use addons_terraria_tshock.Chunk.Shape.{
  IsBody, IsProto, AreProtos, depth, depths, stripped_body, stripped, all_stripped,
}
use addons_terraria_tshock.Chunk.Debug.{unnamed, load_nat-Reads, load_debug-Reads, map_self}

module _ {D : Type 0} (reader : D → Option (List ℕ) × D) (name : Bytes) where
  -- The fields of a function, around the functions inside it.
  function-Reads :
      (strip : Bool) (f : Body) (p q : Protos) (fuel : ℕ)
      → IsBody f
      → IsSize 4 (sizep p)
      → Reads reader name
          (load_protos reader name (load_function reader name fuel) (sizep p))
          (dump_functions strip p)
          q
      → Reads reader name
          (load_function reader name (suc fuel))
          (dump_function strip (proto f p))
          (proto (stripped_body strip f) q)
  unfolding load_function dump_function dump_upvalues
  function-Reads strip f p q fuel (l, m, np, va, ms, code, sc, k, sk, debug) sp r =
      load_nat-Reads reader name f.linedefined _ (λ (a : ℤ). result a f.lastlinedefined) _ l
        (λ a.
          load_nat-Reads reader name f.lastlinedefined _ (λ (b : ℤ). result (pos a) b) _ m
            (λ b.
              Reads-bind reader name (load_byte reader name) _ (dump_char (pos f.numparams))
                (dump_char (pos f.is_vararg) ++ (dump_char (pos f.maxstacksize) ++ vectors))
                f.numparams (result (pos a) (pos b)) (load_byte-Reads reader name f.numparams np)
                (Reads-bind reader name (load_byte reader name) _ (dump_char (pos f.is_vararg))
                  (dump_char (pos f.maxstacksize) ++ vectors) f.is_vararg (result (pos a) (pos b))
                  (load_byte-Reads reader name f.is_vararg va)
                  (Reads-bind reader name (load_byte reader name) _ (dump_char (pos f.maxstacksize))
                    vectors f.maxstacksize (result (pos a) (pos b))
                    (load_byte-Reads reader name f.maxstacksize ms)
                    (Reads-bind reader name (load_vector reader name) _ (dump_vector f.code)
                      ((dump_int (pos (length f.k)) ++ for_each dump_constant f.k) ++ inside) f.code
                      (result (pos a) (pos b)) (load_vector-Reads reader name f.code code sc)
                      (Reads-bind reader name (load_array reader name 8 (load_constant reader name))
                        _ (dump_int (pos (length f.k)) ++ for_each dump_constant f.k) inside f.k
                        (result (pos a) (pos b)) constants
                        (Reads-bind reader name (load_int reader name) _ (dump_int (pos (sizep p)))
                          (dump_functions strip p ++ upvalues) (sizep p) (result (pos a) (pos b))
                          (load_int-Reads reader name (sizep p) (omega (arith, sp)))
                          (Reads-lift reader name (newvector (sizep p) 4) _
                            (dump_functions strip p ++ upvalues) tt (result (pos a) (pos b))
                            (newvector_lem (sizep p) 4 (omega (arith, sp)) sp)
                            (Reads-bind reader name
                              (load_protos reader name (load_function reader name fuel) (sizep p)) _
                              (dump_functions strip p) upvalues q (result (pos a) (pos b)) r
                              (Reads-bind reader name
                                (load_array reader name 8 (load_upvalue reader name)) _
                                (dump_int (pos (length f.upvalues))
                                  ++ for_each dump_upvalue f.upvalues)
                                (dump_debug strip f) (map unnamed f.upvalues)
                                (result (pos a) (pos b)) loaded_upvalues
                                (Reads-map reader name
                                  (load_debug reader name (map unnamed f.upvalues)) _
                                  (dump_debug strip f) _
                                  (load_debug-Reads reader name strip f debug))))))))))))
    where
      result : ℤ → ℤ → Proto
      result a b = proto (record (stripped_body strip f) { linedefined = a; lastlinedefined = b }) q

      upvalues : Blocks
      upvalues = dump_upvalues f ++ dump_debug strip f

      inside : Blocks
      inside = dump_int (pos (sizep p)) ++ (dump_functions strip p ++ upvalues)

      vectors : Blocks
      vectors =
          dump_vector f.code
          ++ ((dump_int (pos (length f.k)) ++ for_each dump_constant f.k) ++ inside)

      loaded_upvalues :
          Reads reader name
            (load_array reader name 8 (load_upvalue reader name))
            (dump_int (pos (length f.upvalues)) ++ for_each dump_upvalue f.upvalues)
            (map unnamed f.upvalues)
      loaded_upvalues =
          load_array-Reads reader name 8 (load_upvalue reader name) dump_upvalue unnamed IsUpvalue
            (load_upvalue-Reads reader name) f.upvalues debug.5 (omega (arith, debug.6)) debug.6

      constants :
          Reads reader name
            (load_array reader name 8 (load_constant reader name))
            (dump_int (pos (length f.k)) ++ for_each dump_constant f.k)
            f.k
      constants =
          Reads-value reader name (load_array reader name 8 (load_constant reader name))
            (dump_int (pos (length f.k)) ++ for_each dump_constant f.k)
            (map (λ (c : Constant). c) f.k) f.k (map_self f.k)
            (load_array-Reads reader name 8 (load_constant reader name) dump_constant
              (λ (c : Constant). c) IsConstant (load_constant-Reads reader name) f.k k
              (omega (arith, sk)) sk)

  mutual
    unfolding depth stripped dump_functions IsProto

    -- What is dumped of a function is loaded as the function, on fuel that is not less than its depth.
    load_function-Reads :
        (strip : Bool) (f : Proto) (fuel : ℕ)
        → IsProto f
        → depth f ≤ fuel
        → Reads reader name
            (load_function reader name fuel)
            (dump_function strip f)
            (stripped strip f)
    load_function-Reads strip (proto f p) zero h l = absurd (omega (arith, l))
    load_function-Reads strip (proto f p) (suc fuel) (h, s, ps) l =
        function-Reads strip f p (all_stripped strip p) fuel h s
          (load_protos-Reads strip p fuel ps (omega (arith, l)))

    load_protos-Reads :
        (strip : Bool) (p : Protos) (fuel : ℕ)
        → AreProtos p
        → depths p ≤ fuel
        → Reads reader name
            (load_protos reader name (load_function reader name fuel) (sizep p))
            (dump_functions strip p)
            (all_stripped strip p)
    load_protos-Reads strip last fuel h l = Reads-pure reader name last
    load_protos-Reads strip (f then fs) fuel (h, hs) l =
        Reads-bind reader name (load_function reader name fuel) _ (dump_function strip f)
          (dump_functions strip fs) (stripped strip f) (all_stripped strip (f then fs))
          (load_function-Reads strip f fuel h (omega (arith, l)))
          (Reads-map reader name
            (load_protos reader name (load_function reader name fuel) (sizep fs))
            (◌then◌ (stripped strip f)) (dump_functions strip fs) (all_stripped strip fs)
            (load_protos-Reads strip fs fuel hs (omega (arith, l))))

  load_header-Reads : Reads reader name (load_header reader name) (drop 1 lua_u_header ∷ []) tt
  unfolding load_header lua_u_header
  load_header-Reads =
      Reads-bind reader name (load_block reader name 17) _ (drop 1 lua_u_header ∷ []) []
        (drop 1 lua_u_header) tt (load_block-Reads reader name (drop 1 lua_u_header) 17 refl)
        (Reads-pure reader name tt)

module _ {D : Type 0} (reader : D → Option (List ℕ) × D) where
  pub lua_u_undump-Reads :
      (strip : Bool) (f : Proto) (fuel : ℕ) (name : Bytes)
      → IsProto f
      → depth f ≤ fuel
      → Reads reader
          (chunk_name name)
          (lua_u_undump reader fuel name)
          (drop 1 lua_u_header ∷ dump_function strip f)
          (closure_of (stripped strip f))
  unfolding lua_u_undump
  lua_u_undump-Reads strip f fuel name h l =
      Reads-bind reader (chunk_name name) (load_header reader (chunk_name name)) _
        (drop 1 lua_u_header ∷ []) (dump_function strip f) tt (closure_of (stripped strip f))
        (load_header-Reads reader (chunk_name name))
        (Reads-map reader (chunk_name name) (load_function reader (chunk_name name) fuel) closure_of
          (dump_function strip f) (stripped strip f)
          (load_function-Reads reader (chunk_name name) strip f fuel h l))
