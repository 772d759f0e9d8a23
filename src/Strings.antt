-- ===== src/Strings.antt =====
-- lib/string.c: blocks of bytes and strings in memory.
pub mod State
pub mod Blocks
pub mod Length
pub mod Copies
pub mod Spans
pub mod Numbers
mod Tests
