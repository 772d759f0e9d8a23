-- ===== src/Threads/Step.antt =====
-- The kernel as a transition system: whichever operation the current thread calls next, a timer
-- interrupt, or the rest of an operation that was begun. Reachability is from the state after
-- `thread_init`. `thread_start` is four such operations: it initializes a semaphore, creates the idle thread, enables
-- interrupts and waits for the semaphore.
use cs380l.Base.{ℕ, ◌%◌, ◌≡◌, ◌≢◌, Bool, [], ◌∷◌, none, some, ◌==◌, if◌then◌else◌}
use cs380l.Threads.State.{user, on, off, running, Thread, Kernel, plain, ok, count, update}
use cs380l.Threads.Sched.{
  intr_enable, intr_disable, thread_yield, thread_exit, timer_interrupt, thread_set_priority,
}
use cs380l.Threads.Synch.{
  sema_init, sema_down, sema_try_down, sema_up, lock_acquire, lock_try_acquire, lock_release,
  cond_init, cond_wait, cond_signal, cond_broadcast, thread_create, resume, idle_start, idle_round,
}

-- The current thread is in its own code, and is not the idle thread.
abbrev pub Calls : Kernel → Type 0
Calls k = (k.cont k.current ≡ user) × (k.current ≢ k.idle_thread)

-- Nobody uses the semaphore yet.
abbrev pub Unused : ℕ → Kernel → Type 0
Unused s k = (t : ℕ) → count t (k.semaphore s).waiters ≡ 0

pub data Step (k : Kernel) : Kernel → Type 0 where
  resumes : {j : Kernel} → resume k ≡ ok j → Step k j
  interrupts : {j : Kernel} → k.level ≡ on → timer_interrupt k ≡ ok j → Step k j
  enables : {j : Kernel} → Calls k → intr_enable k ≡ ok j → Step k j
  disables : Calls k → Step k (intr_disable k)
  yields : {j : Kernel} → Calls k → thread_yield k ≡ ok j → Step k j
  exits : {j : Kernel} → Calls k → thread_exit k ≡ ok j → Step k j
  sets_priority : {j : Kernel} (p : ℕ) → Calls k → thread_set_priority p k ≡ ok j → Step k j
  creates_thread :
      {j : Kernel} (t p : ℕ)
      → Calls k
      → k.thread t ≡ none
      → thread_create (some t) p k ≡ ok j
      → Step k j
  inits : (s v : ℕ) → Calls k → Unused (plain s) k → Step k (sema_init (plain s) v k)
  downs : {j : Kernel} (s : ℕ) → Calls k → sema_down (plain s) user k ≡ ok j → Step k j
  tries : (s : ℕ) → Calls k → Step k (sema_try_down (plain s) k).1
  ups : {j : Kernel} (s : ℕ) → Calls k → sema_up (plain s) k ≡ ok j → Step k j
  acquires : {j : Kernel} (l : ℕ) → Calls k → lock_acquire l user k ≡ ok j → Step k j
  tries_lock :
      {j : Kernel} (l : ℕ) (b : Bool) → Calls k → lock_try_acquire l k ≡ ok (b, j) → Step k j
  releases : {j : Kernel} (l : ℕ) → Calls k → lock_release l user k ≡ ok j → Step k j
  inits_cond : (v : ℕ) → Calls k → Step k (cond_init v k)
  waits_cond : {j : Kernel} (v l : ℕ) → Calls k → cond_wait v l k ≡ ok j → Step k j
  signals : {j : Kernel} (v l : ℕ) → Calls k → cond_signal v l k ≡ ok j → Step k j
  broadcasts : {j : Kernel} (v l : ℕ) → Calls k → cond_broadcast v l k ≡ ok j → Step k j
  starts_idle :
      {j : Kernel} (s : ℕ) → Calls k → k.idle_thread ≡ 0 → idle_start (plain s) k ≡ ok j → Step k j
  idles :
      {j : Kernel}
      → k.cont k.current ≡ user
      → k.current ≡ k.idle_thread
      → idle_round k ≡ ok j
      → Step k j

-- The state after `thread_init`: the initial thread, at address `t`, runs alone with interrupts off.
-- Every lock is free, and every other semaphore has the value 0; `sema_init` gives it another.
unfoldable pub thread_init : ℕ → Kernel
thread_init t =
    let main : Thread = record { tid = 1; status = running; priority = 31 } in
    record {
      thread = update (λ _. none) t (some main);
      cont = λ _. user;
      ready_list = [];
      all_list = t ∷ [];
      current = t;
      idle_thread = 0;
      initial_thread = t;
      next_tid = 2;
      thread_ticks = 0;
      idle_ticks = 0;
      kernel_ticks = 0;
      level = off;
      in_external_intr = Bool.false;
      semaphore = λ s. record { value = if s % 3 == 1 then 1 else 0; waiters = [] };
      holder = λ _. 0;
      cond_waiters = λ _. [];
    }

pub data Reach (t : ℕ) : Kernel → Type 0 where
  start : Reach t (thread_init t)
  later : {k j : Kernel} → Reach t k → Step k j → Reach t j
