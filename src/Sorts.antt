-- ===== src/Sorts.antt =====
-- lib/stdlib.c: sorting and searching in an array.
pub mod State
pub mod Swaps
pub mod Heaps
pub mod Keys
pub mod Counts
pub mod Phases
pub mod Searches
mod Tests
