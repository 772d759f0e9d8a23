-- ===== src/Threads/Queues.antt =====
-- Which thread stands on which queue of threads/thread.c and threads/synch.c: the invariant.
pub mod Sched
pub mod Frames
pub mod Ops
pub mod Events
pub mod Synch
pub mod Wake
use cs380l.Base.{ℕ, ◌≡◌, Bool, true, false, not, ◌&&◌, none, ◌==◌, if◌then◌else◌}
use cs380l.Threads.State.{
  Cont, down, restore, Kernel, is_running, is_ready, is_blocked, is_dying, is_thread, count,
}

-- The thread is in `sema_down` on the semaphore.
abbrev pub waits : ℕ → Cont → Bool
waits s (down r old c) = r == s
waits s (restore old c) = waits s c
waits s _ = false

abbrev pub once : Bool → ℕ
once b = if b then 1 else 0

-- Only `r` may be running, and `n`, which was taken off the run queue, may be ready and not on it.
pub record Queued (r n : ℕ) (k : Kernel) : Type 0 where
  pub null : k.thread 0 ≡ none
  pub run : (t : ℕ) → is_running (k.thread t) ≡ true → t ≡ r
  pub queue :
      (t : ℕ)
      → count t k.ready_list
        ≡ once (is_ready (k.thread t) && (not (t == k.idle_thread) && not (t == n)))
  pub all :
      (t : ℕ) → count t k.all_list ≡ once (is_thread (k.thread t) && not (is_dying (k.thread t)))
  pub waiting :
      (s t : ℕ)
      → count t (k.semaphore s).waiters ≡ once (is_blocked (k.thread t) && waits s (k.cont t))
  pub idle_waits : (s : ℕ) → waits s (k.cont k.idle_thread) ≡ false
  pub idle_lives : is_dying (k.thread k.idle_thread) ≡ false

-- The invariant between two steps.
pub record Inv (k : Kernel) : Type 0 where
  pub queued : Queued k.current 0 k
  pub current_runs : is_running (k.thread k.current) ≡ true
