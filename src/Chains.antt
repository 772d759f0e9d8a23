-- ===== src/Chains.antt =====
-- lib/kernel/list.c: doubly linked lists.
pub mod State
pub mod Reorder
pub mod Segments
pub mod Insert
pub mod Remove
pub mod Traverse
pub mod Turns
pub mod Reverse
mod Tests
