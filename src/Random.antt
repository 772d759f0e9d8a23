-- ===== src/Random.antt =====
-- lib/random.c: pseudo-random numbers.
pub mod State
pub mod Tables
mod Tests
