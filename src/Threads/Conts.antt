-- ===== src/Threads/Conts.antt =====
-- Where the threads stand in the code of threads/thread.c and threads/synch.c: the semaphore on a
-- thread's stack is its own, and a thread under creation is known to its creator alone.
pub mod Moves
pub mod Ops
use cs380l.Base.{ℕ, ◌≡◌, ◌⊎◌, Bool, true, false, ◌==◌, ◌||◌}
use cs380l.Threads.State.{
  Cont, user, born, restore, down, set_holder, give, assign_tid, start_thread, Kernel, of_waiter,
  is_blocked, is_thread,
}

-- The thread is on its way to `thread_unblock (t)` in `thread_create`.
abbrev pub creates : ℕ → Cont → Bool
creates t (restore old c) = creates t c
creates t (down s old c) = creates t c
creates t (set_holder l c) = creates t c
creates t (give l c) = creates t c
creates t (assign_tid u) = u == t
creates t (start_thread u) = u == t
creates t _ = false

-- The thread is in `sema_down` on the semaphore of a waiter, or will come back to it.
abbrev pub mentions : ℕ → Cont → Bool
mentions u (restore old c) = mentions u c
mentions u (down s old c) = of_waiter u == s || mentions u c
mentions u (set_holder l c) = mentions u c
mentions u (give l c) = mentions u c
mentions u _ = false

-- The idle thread is in its own code, perhaps interrupted.
abbrev pub calm : Cont → Bool
calm user = true
calm (restore old c) = calm c
calm _ = false

pub record Conts (k : Kernel) : Type 0 where
  pub own : (u t : ℕ) → mentions u (k.cont t) ≡ true → u ≡ t
  pub pending :
      (u t : ℕ) → creates t (k.cont u) ≡ true → (is_blocked (k.thread t) ≡ true) × (k.cont t ≡ born)
  pub unique : (u v t : ℕ) → creates t (k.cont u) ≡ true → creates t (k.cont v) ≡ true → u ≡ v
  pub idle_calm : calm (k.cont k.idle_thread) ≡ true
  pub idle_here : (k.idle_thread ≡ 0) ⊎ (is_thread (k.thread k.idle_thread) ≡ true)
