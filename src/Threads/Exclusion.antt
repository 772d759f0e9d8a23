-- ===== src/Threads/Exclusion.antt =====
-- The guarantees of threads/synch.c and threads/thread.c in every state that the kernel reaches.
use cs380l.Base.{ℕ, ◌≡◌, ◌≢◌, ◌⊎◌, true, not, ◌&&◌, ◌==◌, arith}
use cs380l.Threads.State.{Kernel, of_lock, is_running, is_ready, is_blocked, count}
use cs380l.Threads.Queues.{waits, once}
use cs380l.Threads.Step.{Reach}
use cs380l.Threads.Safe.Steps.{Reach-Safe}
use cs380l.Threads.Locks.{claims}
use cs380l.Threads.Locks.Steps.{Reach-Locks}

-- The thread is inside the lock: it is stored as the holder, or it took the lock's semaphore and has
-- not stored itself yet, or it erased itself and has not given the semaphore back.
abbrev pub Inside : ℕ → Kernel → ℕ → Type 0
Inside l k t = (claims l (k.cont t) ≡ true) ⊎ ((k.holder l ≡ t) × (t ≢ 0))

-- In every reachable state two threads that are inside the same lock are one thread, and while a
-- thread is inside a lock the value of the lock's semaphore is 0.
pub mutual_exclusion :
    {start : ℕ} {k : Kernel} (l t u : ℕ)
    → start ≢ 0
    → Reach start k
    → Inside l k t
    → Inside l k u
    → (t ≡ u) × ((k.semaphore (of_lock l)).value ≡ 0)
mutual_exclusion l t u ne r p q =
    let s = Reach-Locks ne r in
    (ground (arith, s.one l t u, s.sole l t, s.sole l u), ground (arith, s.free l t, s.bound l))

-- In every reachable state the current thread is the one thread that runs, the run queue holds each
-- ready thread but the idle thread once and nothing else, and the queue of a semaphore holds each
-- thread that is blocked in `sema_down` on it once and nothing else.
pub queues_exact :
    {start : ℕ} {k : Kernel} (s t : ℕ)
    → start ≢ 0
    → Reach start k
    → (is_running (k.thread t) ≡ (t == k.current))
      × (count t k.ready_list ≡ once (is_ready (k.thread t) && not (t == k.idle_thread)))
      × (count t (k.semaphore s).waiters ≡ once (is_blocked (k.thread t) && waits s (k.cont t)))
queues_exact {k = k} s t ne r =
    let i = (Reach-Safe ne r).inv in
    (
      ground (arith, i.queued.run t, i.current_runs),
      ground (arith, i.queued.queue t, i.queued.null),
      i.queued.waiting s t,
    )
