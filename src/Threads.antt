-- ===== src/Threads.antt =====
-- threads/thread.c and threads/synch.c: the thread scheduler and the synchronization primitives.
pub mod State
pub mod Sched
pub mod Synch
pub mod Step
pub mod Queues
pub mod Conts
pub mod Safe
pub mod Locks
pub mod Exclusion
pub mod Progress
mod Tests
