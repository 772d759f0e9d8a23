-- ===== src/Bitmap.antt =====
-- lib/kernel/bitmap.c: a set of bits in an array of 32-bit words.
pub mod State
pub mod Words
pub mod Ranges
pub mod Scan
mod Tests
