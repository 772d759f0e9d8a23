-- ===== src/Pages.antt =====
-- threads/palloc.c: the page allocator.
pub mod State
pub mod Groups
pub mod Owners
pub mod Frees
pub mod Init
mod Tests
