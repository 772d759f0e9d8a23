-- ===== src/Threads/Locks.antt =====
-- The locks of threads/synch.c: who has taken the semaphore of a lock and not given it back.
pub mod Ops
pub mod Sema
pub mod Steps
pub mod Calls
use cs380l.Base.{ℕ, ◌%◌, ◌≤◌, ◌≡◌, Bool, true, false, ◌&&◌, ◌==◌}
use cs380l.Threads.State.{
  Cont, user, born, restore, down, set_holder, give, wait, reacquire, broadcast, assign_tid,
  start_thread, Kernel, of_lock, count,
}

-- Between `sema_down` and the store to `holder` in `lock_acquire`, or between the store and
-- `sema_up` in `lock_release`.
abbrev pub claims : ℕ → Cont → Bool
claims l (restore old c) = claims l c
claims l (set_holder m c) = m == l
claims l (give m c) = m == l
claims l _ = false

-- What may follow the use of a lock.
abbrev pub tame : Cont → Bool
tame (restore old c) = false
tame (down s old c) = false
tame (set_holder l c) = false
tame (give l c) = false
tame _ = true

-- What may follow `sema_down` on a semaphore: for that of a lock, the store to `holder`.
abbrev pub follows : ℕ → Cont → Bool
follows s user = s % 3 == 0
follows s (reacquire l) = s % 3 == 2
follows s (set_holder l c) = s == of_lock l && tame c
follows s _ = false

abbrev pub formed : Cont → Bool
formed (restore old c) = formed c
formed (down s old c) = follows s c
formed (set_holder l c) = tame c
formed (give l c) = tame c
formed _ = true

pub record Locks (k : Kernel) : Type 0 where
  pub bound : (l : ℕ) → (k.semaphore (of_lock l)).value ≤ 1
  pub free :
      (l t : ℕ)
      → (k.semaphore (of_lock l)).value ≡ 1
      → (claims l (k.cont t) ≡ false) × (k.holder l ≡ 0)
  pub one : (l t u : ℕ) → claims l (k.cont t) ≡ true → claims l (k.cont u) ≡ true → t ≡ u
  pub sole : (l t : ℕ) → claims l (k.cont t) ≡ true → k.holder l ≡ 0
  pub form : (t : ℕ) → formed (k.cont t) ≡ true
  pub conds : (v l : ℕ) → count (of_lock l) (k.cond_waiters v) ≡ 0
