-- ===== src/Table.antt =====
-- lib/kernel/hash.c: the hash table that chains its elements in lists.
pub mod State
pub mod Powers
pub mod Contents
pub mod Valid
pub mod Resize
pub mod Changes
pub mod Entries
pub mod Methods
pub mod Iterator
pub mod Walk
pub mod Visits
pub mod Bags
pub mod Clear
pub mod Digest
mod Tests
