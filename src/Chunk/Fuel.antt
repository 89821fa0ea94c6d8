-- ===== src/Chunk/Fuel.antt =====
-- Lua/src/lundump.cpp: a chunk is loaded in as many levels as it has bytes, at most.
use addons_terraria_tshock.Common.{
  ℕ, zero, suc, ◌-◌, ◌≤◌, ◌<◌, not, Option, List, ◌++◌, length, take, ◌≢◌, arith,
}
use addons_terraria_tshock.Common.Outcome.{no_fuel, Ends-bind, Ends-parts, Ends-mono}
use addons_terraria_tshock.Zio.{Zio}
use addons_terraria_tshock.Zio.Reading.{Ahead}
use addons_terraria_tshock.Chunk.{Bytes, Proto, headersize, lua_u_header}
use addons_terraria_tshock.Chunk.Loader.{Loader, lift}
use addons_terraria_tshock.Chunk.Load.{
  newvector, load_block, load_byte, load_int, load_vector, load_constant, load_array, load_upvalue,
  load_debug,
}
use addons_terraria_tshock.Chunk.Undump.{
  chunk_name, load_protos, load_function, same_bytes, n1, n2, n3, compare_header, load_header,
  lua_u_undump,
}
use addons_terraria_tshock.Chunk.Forward.{
  Left, Stops, Stops-bind, Stops-if, Stops-block, Stops-byte, load_int-Left, Stops-int,
  Stops-newvector, Stops-vector, Stops-array, Stops-constant, Stops-upvalue, Stops-debug,
}

module _ {D : Type 0} (reader : D → Option (List ℕ) × D) where
  module _ (name : Bytes) where
    Stops-protos :
        (m n : ℕ) (load : Loader (Zio D) Proto)
        → Stops reader m load
        → Stops reader m (load_protos reader name load n)
    Stops-protos m zero load s z l = l
    Stops-protos m (suc n) load s z l =
        Stops-bind reader m load _ s
          (λ f.
            Stops-bind reader m (load_protos reader name load n) _ (Stops-protos m n load s)
              (λ fs y left. left))
          z l

    -- More fuel than bytes is enough, since a function takes a byte before those inside it.
    Stops-function : (fuel m : ℕ) → m < fuel → Stops reader m (load_function reader name fuel)
    unfolding load_function
    Stops-function zero m h z l = absurd (omega arith)
    Stops-function (suc fuel) m h z l =
        Ends-bind (λ r. (1 ≤ m) × Left reader (m - 1) r.1) (λ r. Left reader m r.1)
          (load_int reader name z) _ (load_int-Left reader name m z l)
          (λ r (one, left).
            Ends-mono (λ q. Left reader (m - 1) q.1) (λ q. Left reader m q.1) _
              (λ q (t, b, f). (t, b, omega arith))
              (Stops-bind reader (m - 1) (load_int reader name) _ (Stops-int reader name (m - 1))
                (λ b.
                  Stops-bind reader (m - 1) (load_byte reader name) _
                    (Stops-byte reader name (m - 1))
                    (λ c.
                      Stops-bind reader (m - 1) (load_byte reader name) _
                        (Stops-byte reader name (m - 1))
                        (λ d.
                          Stops-bind reader (m - 1) (load_byte reader name) _
                            (Stops-byte reader name (m - 1))
                            (λ e.
                              Stops-bind reader (m - 1) (load_vector reader name) _
                                (Stops-vector reader name (m - 1))
                                (λ code.
                                  Stops-bind reader (m - 1)
                                    (load_array reader name 8 (load_constant reader name)) _
                                    (Stops-array reader name (m - 1) 8 (load_constant reader name)
                                      (Stops-constant reader name (m - 1)))
                                    (λ k.
                                      Stops-bind reader (m - 1) (load_int reader name) _
                                        (Stops-int reader name (m - 1))
                                        (λ n.
                                          Stops-bind reader (m - 1) (lift (newvector n 4)) _
                                            (Stops-newvector reader name (m - 1) n 4)
                                            (λ u.
                                              Stops-bind reader (m - 1)
                                                (load_protos reader name
                                                  (load_function reader name fuel) n)
                                                _
                                                (Stops-protos (m - 1) n
                                                  (load_function reader name fuel)
                                                  (Stops-function fuel (m - 1) (omega arith)))
                                                (λ p.
                                                  Stops-bind reader (m - 1)
                                                    (load_array reader name 8
                                                      (load_upvalue reader name))
                                                    _
                                                    (Stops-array reader name (m - 1) 8
                                                      (load_upvalue reader name)
                                                      (Stops-upvalue reader name (m - 1)))
                                                    (λ us.
                                                      Stops-bind reader (m - 1)
                                                        (load_debug reader name us) _
                                                        (Stops-debug reader name (m - 1) us)
                                                        (λ r y left. left)))))))))))
                r.1 left))

    compare_end : (m : ℕ) (h s : Bytes) → Stops reader m (compare_header reader name h s)
    compare_end m h s =
        Stops-if reader m (same_bytes headersize h s) _ _ (λ z l. l)
          (Stops-if reader m (not (same_bytes n1 h s)) _ _ (λ z l. tt)
            (Stops-if reader m (not (same_bytes n2 h s)) _ _ (λ z l. tt)
              (Stops-if reader m (not (same_bytes n3 h s)) _ _ (λ z l. tt) (λ z l. tt))))

    Stops-header : (m : ℕ) → Stops reader m (load_header reader name)
    unfolding load_header
    Stops-header m =
        Stops-bind reader m (load_block reader name 17) _ (Stops-block reader name 17 m)
          (λ s. compare_end m lua_u_header (take 1 lua_u_header ++ s))

  -- With more fuel than bytes ahead, `luaU_undump` does not run out of fuel.
  pub lua_u_undump_ends :
      (fuel : ℕ) (name : Bytes) (z : Zio D) (s : List ℕ)
      → Ahead D reader z s
      → length s < fuel
      → lua_u_undump reader fuel name z ≢ no_fuel
  unfolding lua_u_undump
  lua_u_undump_ends fuel name z s ahead h =
      (Ends-parts (λ r. Left reader (length s) r.1) _
        (Stops-bind reader (length s) (load_header reader (chunk_name name)) _
          (Stops-header (chunk_name name) (length s))
          (λ u.
            Stops-bind reader (length s) (load_function reader (chunk_name name) fuel) _
              (Stops-function (chunk_name name) fuel (length s) h) (λ f y left. left))
          z (s, ahead, omega arith))).0
