-- ===== src/Table.antt =====
-- Lua/src/ltablib.cpp: the library `table`.
pub mod Sort
pub mod Swaps
pub mod SortLaws
pub mod Ranges
pub mod Scans
pub mod Pivot
pub mod Ordering
pub mod Sorted
pub mod Positions
mod Examples
