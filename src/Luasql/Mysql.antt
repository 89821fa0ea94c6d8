-- ===== src/Luasql/Mysql.antt =====
-- Lua/include/luasql/ls_mysql.h: the driver for MySQL. Texts are lists of bytes.
pub mod Api
pub mod Message
pub mod Columns
pub mod Cursor
pub mod Connection
pub mod Invariant
pub mod CursorCalls
pub mod ConnectionCalls
pub mod Run
mod Examples
