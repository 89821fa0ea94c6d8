-- ===== src/Lib.antt =====
-- Verification of the C libraries that an addon of the TShock plugin can call: the Lua interpreter of
-- Lua/src (built as 32-bit C++ for Windows, so that int, long and size_t have four bytes) is loaded
-- by the plugin (Addons, through NLua and KeraLua), and opens the libraries bit32, struct and luasql beside
-- the standard ones. A call of a library function is a function from its arguments to an `Outcome`
-- (Common.Outcome): the results, the error it raises, or `fault` where C leaves the behaviour
-- undefined.
--
-- - Common: lists, tests, integers and words over the native numbers (Common.Bits has the digits of a
--   word), and `Outcome`.
-- - Bit32 models Lua/src/lbitlib.cpp; the functions keep their names (`b_and`, `b_shift`,
--   `fieldargs`, ...), and `and_loop`, `rotate`, `extract_bits` and the like are parts of them. The
--   children Words, Logic, Shifts and Fields hold the proofs, by the digits of words.
-- - Struct models Lua/include/lstruct/struct.h: Struct.Format the format string (`getnum`, `optsize`,
--   `gettoalign`, `controloptions`), Struct.Integer the bytes of integers, Struct.Pack, Struct.Size and
--   Struct.Unpack the three functions `b_pack`, `b_size` and `b_unpack` with their loops. The children
--   Bytes, Alignment, Items, Sizes, Ending and Bounds hold the proofs.
-- - Opcodes models the macros of Lua/include/lopcodes.h: `Field` names the arguments of an
--   instruction, `getarg` and `setarg` stand for GETARG_A, SETARG_A and the others, `create_abc` for
--   CREATE_ABC; Opcodes.Modes has the table of Lua/src/lopcodes.cpp. The virtual machine reads
--   instructions through these macros and the code generator writes them.
-- - Zio models the buffered streams of Lua/src/lzio.cpp and Lua/include/lzio.h (`luaZ_fill` is
--   `lua_z_fill`, and so on), from which chunks are loaded; Zio.Reading relates them to a flat
--   sequence of bytes.
-- - Chunk models precompiled chunks: Chunk itself the prototypes of Lua/include/lobject.h and the header,
--   Chunk.Dump Lua/src/ldump.cpp (`DumpString` is `dump_string`, and so on; the blocks passed to the
--   writer are a list), Chunk.Load and Chunk.Undump Lua/src/lundump.cpp over a stream of Zio, where a
--   `Loader` (Chunk.Loader) takes a stream and returns a value and the stream, and Chunk.Binary the calls
--   around them: `f_parser`, `lua_load`, `lua_dump`, `luaL_loadbufferx` and `string.dump`. Chunk.Reads
--   says what a call reads of the bytes ahead, Parts, Debug and RoundTrip prove it of each part, and
--   Forward and Fuel that loading ends.
-- - Object models parts of Lua/src/lobject.cpp: `luaO_chunkid` (`chunkid`, whose cases are
--   `literal_id`, `file_id` and `string_id`), by which error messages name a chunk, and in
--   Object.FloatingByte `luaO_int2fb` and `luaO_fb2int`, by which the code generator and the virtual
--   machine pass the size of a table, and in Object.CeilLog `luaO_ceillog2`.
-- - Registry models `luaL_ref` and `luaL_unref` of Lua/src/lauxlib.cpp, the references by which C code
--   keeps Lua values alive.
-- - Luasql models the drivers of Lua/include/luasql: Luasql.Sqlite ls_sqlite3.h and Luasql.Mysql
--   ls_mysql.h, and Luasql itself what both share (the data of environments, connections and cursors,
--   the checks of arguments, the references). A call is an `Action` (Common.Action): it takes the heap
--   of userdata, the registry and the state of the database library, and returns an outcome and the
--   new state. The functions keep their names, without the suffix `_sqlite`, and the parts of a
--   function that follow a branch have names of their own (`executed`, `connected`, ...). `Run.call`
--   is the function of a method, and Common.Runs runs a sequence of calls. Luasql.Refs says which
--   field of which object owns a reference, and the modules CursorCalls, ConnectionCalls, Creation and
--   ConnectionUses prove for each call that it keeps the invariant of its driver (Common.Triple).
--   Luasql.Mysql.Message models the buffer of 100 bytes, each of which may be unset, in which a
--   connection that fails keeps its message (`error_msg`), with `strncpy` and the reading of a string.
-- - Table models `sort`, `insert` and `remove` of Lua/src/ltablib.cpp: Table.Sort the quicksort
--   (`auxsort`, with `split` and `partition` for its inner loops and `swap` for `set2`), over a list of
--   elements and an order that is a parameter (Swaps and SortLaws prove of any order that it permutes;
--   Ranges, Scans, Pivot, Ordering and Sorted, of a consistent one, that it sorts);
--   Table.Positions the other two (`tinsert`, `tremove`, whose code behind the first line is
--   `insert_case` and `remove_case`).
-- - Arrays models parts of Lua/src/ltable.cpp: `luaH_getn` with `unbound_search`, whose loops are
--   `double_search`, `binary_search` and `linear_search`, and in Arrays.Sizes `computesizes`. The hash
--   part of a table is a function of its keys.
--
-- Parameters: Luasql.Sqlite.Api and Luasql.Mysql.Api have what the drivers use of the database
-- libraries, as functions of a state of any type; nothing is assumed of them but where a theorem says
-- so. The registry holds the references of one driver; what the host keeps there as well is left
-- out, and userdata are collected between calls. The arguments of a call that are strings, numbers and
-- tables have been checked. The length of a table
-- (`luaL_len`) is a parameter of `insert` and `remove`. A stream's reader is any function from its data to the next buffer and
-- new data. Struct.Host has what struct.h takes from the Lua API and from floating point: the checks of
-- arguments, the pushes, the casts between doubles and integers, and the bytes of floats; `Laws`
-- states what is documented of them.
--
-- Bounds: the loops over a format run on fuel, one unit for each byte of the format,
-- since a round reads at least one; the loop of `luaZ_read` has one unit for each byte asked for,
-- since a round copies at least one; that of `luaO_int2fb` has 32, one for each digit; those
-- of `sort` have one for each element of the range, and one more; a chunk is loaded with one unit for
-- each level of functions in functions, and the bytes ahead are enough; the loops of
-- `luaH_getn` have 32 rounds for doubling, 2^31 for the linear search, since an index is an int, and
-- the upper index for the binary search; the loop of `luaO_ceillog2` has 3, of 8 digits each.
-- `sort` is modelled on indices without a bound, which is the code for fewer than 2^30 elements. The
-- refusal of strings whose size is close to 2^32 is left out of `LoadString`.
--
-- Not modelled: the plugin and its bindings (Addons, NLua and KeraLua, in C#), the clients of SQLite
-- and MySQL, the registration of the drivers (metatables, luaopen_*, luasql_tostring), `concat`,
-- `pack`, `unpack` and `maxn` of the table library, the front ends and the libraries that do I/O, and
-- the rest of the interpreter's core (lexer, parser, the nodes of tables, strings, collector, virtual machine).
pub mod Common
pub mod Bit32
pub mod Opcodes
pub mod Registry
pub mod Luasql
pub mod Struct
pub mod Zio
pub mod Chunk
pub mod Object
pub mod Table
pub mod Arrays
