-- ===== src/Threads/Queues/Ops.antt =====
-- The operations of threads/thread.c keep the queues.
use cs380l.Base.{ℕ, ◌≡◌, ◌≢◌, true, false, ◌==◌, if◌then◌else◌, arith}
use cs380l.Threads.State.{
  Kernel, restore, off, ready, blocked, dying, ok, is_running, push_back, remove, set_status,
  set_cont,
}
use cs380l.Threads.Sched.{thread_current, schedule, thread_block, thread_yield, thread_exit}
use cs380l.Threads.Queues.Sched.{count-push_back, count-remove, schedule-Inv}
use cs380l.Threads.Queues.{waits, Queued, Inv}

pub thread_block-eq-ok :
    (k j : Kernel)
    → thread_block k ≡ ok j
    → (is_running (k.thread k.current) ≡ true) × (schedule (set_status k k.current blocked) ≡ ok j)
unfolding thread_block thread_current
thread_block-eq-ok k j e = ground arith

abbrev pub yielding : Kernel → Kernel
yielding k =
    let queue =
      if k.current == k.idle_thread then k.ready_list else push_back k.ready_list k.current in
    set_status
      (record (set_cont (record k { level = off }) k.current (restore k.level (k.cont k.current))) {
        ready_list = queue;
      })
      k.current ready

pub thread_yield-eq-ok :
    (k j : Kernel)
    → thread_yield k ≡ ok j
    → (is_running (k.thread k.current) ≡ true) × (schedule (yielding k) ≡ ok j)
unfolding thread_yield thread_current
thread_yield-eq-ok k j e = ground arith

abbrev pub exiting : Kernel → Kernel
exiting k =
    set_status (record k { level = off; all_list = remove k.current k.all_list }) k.current dying

pub thread_exit-eq-ok :
    (k j : Kernel)
    → thread_exit k ≡ ok j
    → (is_running (k.thread k.current) ≡ true) × (schedule (exiting k) ≡ ok j)
unfolding thread_exit thread_current
thread_exit-eq-ok k j e = ground arith

module _ {k : Kernel} (inv : Inv k) where
  open inv use {queued as q}

  pub blocked-Queued :
      ((s : ℕ) → waits s (k.cont k.current) ≡ false) → Queued 0 0 (set_status k k.current blocked)
  blocked-Queued w = record {
    null = ground (arith, q.null);
    run = λ t h. ground (arith, q.run t);
    queue = λ t. ground (arith, q.queue t, inv.current_runs);
    all = λ t. ground (arith, q.all t, inv.current_runs);
    waiting = λ s t. ground (arith, q.waiting s t, w s);
    idle_waits = q.idle_waits;
    idle_lives = ground (arith, q.idle_lives);
  }

  pub yielding-Queued : Queued 0 0 (yielding k)
  yielding-Queued = record {
    null = ground (arith, q.null);
    run = λ t h. ground (arith, q.run t);
    queue = λ t.
        ground
          (arith, q.queue t, inv.current_runs, q.null, count-push_back t k.current k.ready_list);
    all = λ t. ground (arith, q.all t, inv.current_runs);
    waiting = λ s t. ground (arith, q.waiting s t, inv.current_runs);
    idle_waits = λ s. ground (arith, q.idle_waits s);
    idle_lives = ground (arith, q.idle_lives);
  }

  pub exiting-Queued : k.current ≢ k.idle_thread → Queued 0 0 (exiting k)
  exiting-Queued busy = record {
    null = ground (arith, q.null);
    run = λ t h. ground (arith, q.run t);
    queue = λ t. ground (arith, q.queue t, inv.current_runs, q.null);
    all = λ t. ground (arith, q.all t, inv.current_runs, count-remove t k.current k.all_list);
    waiting = λ s t. ground (arith, q.waiting s t, inv.current_runs);
    idle_waits = λ s. ground (arith, q.idle_waits s);
    idle_lives = ground (arith, q.idle_lives);
  }

  pub thread_block-Inv :
      {j : Kernel} → ((s : ℕ) → waits s (k.cont k.current) ≡ false) → thread_block k ≡ ok j → Inv j
  thread_block-Inv {j} w e = schedule-Inv (blocked-Queued w) (thread_block-eq-ok k j e).1

  pub thread_yield-Inv : {j : Kernel} → thread_yield k ≡ ok j → Inv j
  thread_yield-Inv {j} e = schedule-Inv yielding-Queued (thread_yield-eq-ok k j e).1

  pub thread_exit-Inv : {j : Kernel} → k.current ≢ k.idle_thread → thread_exit k ≡ ok j → Inv j
  thread_exit-Inv {j} busy e = schedule-Inv (exiting-Queued busy) (thread_exit-eq-ok k j e).1
