-- ===== src/Search.antt =====
-- The binary search and the sort of src/tk_ansi_search.c.
pub mod Binary
pub mod Found
pub mod Sort
pub mod Shuffle
pub mod Scans
pub mod Partition
pub mod Sorted
mod Tests
