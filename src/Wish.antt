-- ===== src/Wish.antt =====
-- aos_wish_shell/wish.c: the shell.
pub mod State
pub mod Commands
pub mod Words
pub mod Plain
pub mod Runs
mod Tests
