-- ===== src/Threads/Synch.antt =====
-- threads/synch.c: semaphores, locks and condition variables, and the creation of a thread, whose
-- `allocate_tid` takes a lock. An operation runs up to the next place where another thread may get
-- the processor; what is left of it is the thread's `Cont`, and `resume` goes on with it.
use cs380l.Base.{
  ℕ, zero, suc, ◌+◌, ◌%◌, ◌^◌, Bool, true, false, not, [], ◌∷◌, Option, none, some, ◌==◌,
  if◌then◌else◌,
}
use cs380l.Threads.State.{
  Level, off, on, Cont, user, born, restore, down, set_holder, give, wait, reacquire, broadcast,
  assign_tid, start_thread, Thread, Semaphore, Kernel, of_lock, of_waiter, tid_lock, update, Result,
  ok, ◌>>=◌, ◌>>◌, assert, set_cont, set_semaphore, push_back,
}
use cs380l.Threads.Sched.{thread_current, thread_unblock, thread_block, init_thread}

unfoldable pub sema_init : ℕ → ℕ → Kernel → Kernel
sema_init s value k = set_semaphore k s (record { value = value; waiters = [] })

-- One round of the `while` of `sema_down`: wait, or take one and restore the interrupt level.
unfoldable pub sema_down_round : ℕ → Level → Cont → Kernel → Result Kernel
sema_down_round s old c k = elim (k.semaphore s).value [
  | zero ↦ do
    let m : Semaphore = record { value = 0; waiters = push_back (k.semaphore s).waiters k.current }
    _ ← thread_current k
    thread_block (set_semaphore k s m)
  | suc v ↦
      let m : Semaphore = record { value = v; waiters = (k.semaphore s).waiters } in
      ok (set_cont (set_semaphore (record k { level = old }) s m) k.current c)
]

-- `c` is what the caller does afterwards.
unfoldable pub sema_down : ℕ → Cont → Kernel → Result Kernel
sema_down s c k = do
  assert (not k.in_external_intr)
  sema_down_round s k.level c (set_cont (record k { level = off }) k.current (down s k.level c))

unfoldable pub sema_try_down : ℕ → Kernel → Bool × Kernel
sema_try_down s k = elim (k.semaphore s).value [
  | zero ↦ (false, k)
  | suc v ↦
      let m : Semaphore = record { value = v; waiters = (k.semaphore s).waiters } in
      (true, set_semaphore k s m)
]

abbrev pub with_value : ℕ → Semaphore → Semaphore
with_value v m = record { value = v; waiters = m.waiters }

-- The first waiter is made ready before the value grows.
unfoldable pub sema_up : ℕ → Kernel → Result Kernel
sema_up s k = do
  j ← elim (k.semaphore s).waiters [
    | [] ↦ ok k
    | t ∷ ts ↦
        let m : Semaphore = record { value = (k.semaphore s).value; waiters = ts } in
        thread_unblock t (set_semaphore k s m)
  ]
  ok (set_semaphore j s (with_value (((j.semaphore s).value + 1) % 2 ^ 32) (j.semaphore s)))

unfoldable pub lock_init : ℕ → Kernel → Kernel
unfolding sema_init
lock_init l k = sema_init (of_lock l) 1 (record k { holder = update k.holder l 0 })

unfoldable pub lock_held_by_current_thread : ℕ → Kernel → Result Bool
lock_held_by_current_thread l k = do _ ← thread_current k; ok (k.holder l == k.current)

unfoldable pub lock_acquire : ℕ → Cont → Kernel → Result Kernel
lock_acquire l c k = do
  assert (not k.in_external_intr)
  held ← lock_held_by_current_thread l k
  assert (not held)
  sema_down (of_lock l) (set_holder l c) k

unfoldable pub lock_try_acquire : ℕ → Kernel → Result (Bool × Kernel)
lock_try_acquire l k = do
  held ← lock_held_by_current_thread l k
  assert (not held)
  let (success, j) = sema_try_down (of_lock l) k
  if success
      then ok (true, set_cont j j.current (set_holder l (j.cont j.current)))
      else ok (false, j)

unfoldable pub lock_release : ℕ → Cont → Kernel → Result Kernel
lock_release l c k = do
  held ← lock_held_by_current_thread l k
  assert held
  ok (set_cont (record k { holder = update k.holder l 0 }) k.current (give l c))

unfoldable pub cond_init : ℕ → Kernel → Kernel
cond_init v k = record k { cond_waiters = update k.cond_waiters v [] }

unfoldable pub cond_wait : ℕ → ℕ → Kernel → Result Kernel
cond_wait v l k = do
  assert (not k.in_external_intr)
  held ← lock_held_by_current_thread l k
  assert held
  let j = sema_init (of_waiter k.current) 0 k
  let queue = push_back (j.cond_waiters v) (of_waiter k.current)
  lock_release l (wait l) (record j { cond_waiters = update j.cond_waiters v queue })

unfoldable pub cond_signal : ℕ → ℕ → Kernel → Result Kernel
cond_signal v l k = do
  assert (not k.in_external_intr)
  held ← lock_held_by_current_thread l k
  assert held
  elim (k.cond_waiters v) [
    | [] ↦ ok k
    | s ∷ ss ↦ sema_up s (record k { cond_waiters = update k.cond_waiters v ss })
  ]

-- One test of the `while` of `cond_broadcast`; another thread may run between two signals.
unfoldable pub cond_broadcast_round : ℕ → ℕ → Kernel → Result Kernel
cond_broadcast_round v l k = elim (k.cond_waiters v) [
  | [] ↦ ok (set_cont k k.current user)
  | _ ∷ _ ↦ cond_signal v l k
]

unfoldable pub cond_broadcast : ℕ → ℕ → Kernel → Result Kernel
cond_broadcast v l k = ok (set_cont k k.current (broadcast v l))

-- `thread_create` up to the lock that guards `next_tid`. `page` is what `palloc_get_page` returns.
unfoldable pub thread_create : Option ℕ → ℕ → Kernel → Result Kernel
thread_create page priority k = elim page [
  | none ↦ ok k
  | some t ↦ init_thread t priority k >>= lock_acquire tid_lock (assign_tid t)
]

abbrev pub with_tid : ℕ → Option Thread → Option Thread
with_tid n none = none
with_tid n (some th) = some (record th { tid = n })

-- `tid = next_tid++`, for the thread at `t`.
abbrev pub take_tid : ℕ → Kernel → Kernel
take_tid t k = record k {
  thread = update k.thread t (with_tid k.next_tid (k.thread t));
  next_tid = k.next_tid + 1;
}

-- The current thread goes on with what it was doing.
unfoldable pub resume : Kernel → Result Kernel
resume k = elim (k.cont k.current) [
  | user ↦ ok k
  | born ↦ ok (set_cont (record k { level = on }) k.current user)
  | restore old c ↦ ok (set_cont (record k { level = old }) k.current c)
  | down s old c ↦ sema_down_round s old c k
  | set_holder l c ↦ ok (set_cont (record k { holder = update k.holder l k.current }) k.current c)
  | give l c ↦ sema_up (of_lock l) (set_cont k k.current c)
  | wait l ↦ sema_down (of_waiter k.current) (reacquire l) k
  | reacquire l ↦ lock_acquire l user k
  | broadcast v l ↦ cond_broadcast_round v l k
  | assign_tid t ↦ lock_release tid_lock (start_thread t) (take_tid t k)
  | start_thread t ↦ thread_unblock t (set_cont k k.current user)
]

-- `idle`: what it does once, and each round of its loop up to `thread_block`. The instruction `hlt`
-- that follows waits for an interrupt.
unfoldable pub idle_start : ℕ → Kernel → Result Kernel
idle_start s k = do _ ← thread_current k; sema_up s (record k { idle_thread = k.current })

unfoldable pub idle_round : Kernel → Result Kernel
idle_round k = thread_block (set_cont (record k { level = off }) k.current (restore on user))
