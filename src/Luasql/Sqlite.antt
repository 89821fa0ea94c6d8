-- ===== src/Luasql/Sqlite.antt =====
-- Lua/include/luasql/ls_sqlite3.h: the driver for SQLite. Texts are lists of bytes.
pub mod Api
pub mod Cursor
pub mod Invariant
pub mod Updates
pub mod Creation
pub mod CursorCalls
pub mod ConnectionCalls
pub mod ConnectionUses
pub mod Run
pub mod Reach
pub mod Values
pub mod Closed
pub mod Connection
mod Examples
