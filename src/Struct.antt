-- ===== src/Struct.antt =====
-- Lua/include/lstruct/struct.h: the struct library, which packs Lua values into strings of bytes and
-- unpacks them. The sizes are those of the Win32 build (Lua/win32/liblua.vcxproj): `int`, `long` and
-- `size_t` have 4 bytes, so that `Inttype` and `size_t` arithmetic is modulo 2 ^ 32.
pub mod Format
pub mod Integer
pub mod Host
pub mod Pack
pub mod Size
pub mod Unpack
pub mod Bytes
pub mod Items
pub mod Sizes
pub mod Alignment
pub mod Ending
pub mod Bounds
mod Examples
