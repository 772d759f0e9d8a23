-- ===== src/Dirs.antt =====
-- filesys/directory.c and filesys/filesys.c, over Files.
pub mod State
pub mod Names
pub mod Search
pub mod Knows
pub mod Filled
pub mod Adds
pub mod Paths
mod Tests
