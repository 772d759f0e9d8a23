-- ===== src/Threads/Progress.antt =====
-- No ASSERT of threads/thread.c fails in the scheduler, and whom it chooses.
use cs380l.Base.{
  ◌<◌, ℕ, ◌∙◌, ◌%◌, ◌^◌, ◌+◌, ◌≡◌, ◌≢◌, ◌⊎◌, inl, inr, true, false, not, ◌&&◌, ◌==◌, arith, List,
  [], ◌∷◌, Bool-cases, List-cases, none, refl,
}
use cs380l.Threads.State.{
  Kernel, off, ok, is_running, is_ready, is_thread, is_dying, push_back, set_status, running,
  blocked, with_status, update,
}
use cs380l.Threads.Sched.{
  thread_current, thread_unblock, next_thread_to_run, thread_schedule_tail, switch_to, schedule,
  thread_block, thread_yield, thread_tick, timer_interrupt, time_slice,
}
use cs380l.Threads.Synch.{sema_up}
use cs380l.Threads.Queues.{waits, Inv, Queued}
use cs380l.Threads.Queues.Ops.{blocked-Queued, thread_yield-Inv, yielding, yielding-Queued}
use cs380l.Threads.Queues.Events.{interrupted, interrupted-Inv, ticked, ticked-Inv}
use cs380l.Threads.Queues.Wake.{woken}

tail-total :
    (prev : ℕ) (k : Kernel)
    → k.level ≡ off
    → prev ≢ k.current
    → (j : Kernel) × (thread_schedule_tail prev k ≡ ok j)
      × (j.current ≡ k.current)
      × (j.ready_list ≡ k.ready_list)
unfolding thread_schedule_tail
tail-total prev k l ne =
    elim (Bool-cases (
      not (prev == 0)
      && is_dying ((set_status k k.current running).thread prev)
      && not (prev == k.initial_thread))) [
        | inl e ↦ (
          record (set_status k k.current running) {
            thread_ticks = 0;
            thread =
                update (update k.thread k.current (with_status running (k.thread k.current))) prev
                  none;
          },
          ground arith,
          refl,
          refl,
        )
        | inr e ↦
            (record (set_status k k.current running) { thread_ticks = 0 }, ground arith, refl, refl)
      ]

switch_to-total :
    (n : ℕ) (k : Kernel)
    → k.level ≡ off
    → is_thread (k.thread k.current) ≡ true
    → is_running (k.thread k.current) ≡ false
    → is_thread (k.thread n) ≡ true
    → (k.current ≢ 0)
    → (j : Kernel) × (switch_to n k ≡ ok j) × (j.current ≡ n) × (j.ready_list ≡ k.ready_list)
unfolding switch_to
switch_to-total n k l c r t z = elim (Bool-cases (k.current == n)) [
  | inl e ↦
      let (j, p, q, s) = tail-total 0 k l (λ x. z (ground arith)) in
      (j, ground arith, ground arith, s)
  | inr e ↦
      let (j, p, q, s) = tail-total k.current (record k { current = n }) l (λ x. ground arith) in
      (j, ground arith, q, s)
]

-- `schedule` runs the head of the run queue, and the idle thread if the queue is empty.
abbrev pub chosen : Kernel → ℕ
chosen k = elim k.ready_list [ [] ↦ k.idle_thread | t ∷ ts ↦ t ]

abbrev pub rest : List ℕ → List ℕ
rest [] = []
rest (t ∷ ts) = ts

schedule-nil : (k : Kernel) → k.ready_list ≡ [] → schedule k ≡ switch_to k.idle_thread k
unfolding schedule next_thread_to_run
schedule-nil k e = ground arith

schedule-cons :
    (k : Kernel) (t : ℕ) (ts : List ℕ)
    → k.ready_list ≡ t ∷ ts
    → schedule k ≡ switch_to t (record k { ready_list = ts })
unfolding schedule next_thread_to_run
schedule-cons k t ts e = ground arith

schedule-total :
    {k : Kernel}
    → Queued 0 0 k
    → k.level ≡ off
    → is_thread (k.thread k.current) ≡ true
    → (k.ready_list ≢ []) ⊎ (is_thread (k.thread k.idle_thread) ≡ true)
    → (j : Kernel) × (schedule k ≡ ok j)
      × (j.current ≡ chosen k)
      × (j.ready_list ≡ rest k.ready_list)
schedule-total {k} q l c some_one = elim (List-cases k.ready_list) [
  | inl e ↦
      let idle : is_thread (k.thread k.idle_thread) ≡ true = ground arith in
      let (j, p, a, b) =
        switch_to-total k.idle_thread k l c (ground (arith, q.run k.current, q.null)) idle
          (λ z. ground (arith, q.null)) in
      (j, schedule-nil k e ∙ p, ground arith, ground arith)
  | inr (t, ts, e) ↦
      let (j, p, a, b) =
        switch_to-total t (record k { ready_list = ts }) l c
          (ground (arith, q.run k.current, q.null)) (ground (arith, q.queue t))
          (λ z. ground (arith, q.null)) in
      (j, schedule-cons k t ts e ∙ p, ground arith, ground arith)
]

-- Round robin: when the queues are in order, a thread that is not the idle thread and yields outside
-- of an interrupt handler goes to the end of the run queue, and the thread that was at the
-- head runs, or the yielding thread itself if the queue was empty. No ASSERT fails.
pub thread_yield-total :
    (k : Kernel)
    → Inv k
    → k.in_external_intr ≡ false
    → k.current ≢ k.idle_thread
    → let queue = push_back k.ready_list k.current in
      (j : Kernel) × (thread_yield k ≡ ok j)
      × (j.current ∷ j.ready_list ≡ queue)
      × (is_running (j.thread j.current) ≡ true)
unfolding thread_yield thread_current
thread_yield-total k inv ext busy =
    let y = yielding k in
    let (j, p, a, b) =
      schedule-total {k = y} (yielding-Queued inv) refl (ground (arith, inv.current_runs))
        (inl (λ e. ground (arith, List-cases k.ready_list))) in
    let e : thread_yield k ≡ ok j = ground (arith, inv.current_runs) in
    (j, e, ground (arith, List-cases k.ready_list), (thread_yield-Inv inv e).current_runs)

-- When the queues are in order, a thread that blocks with interrupts off, outside of an interrupt
-- handler and not in `sema_down`, gives way to the head of the run queue, or to the idle thread if the
-- queue is empty. No ASSERT fails, once the idle thread is there.
pub thread_block-total :
    (k : Kernel)
    → Inv k
    → k.in_external_intr ≡ false
    → k.level ≡ off
    → ((s : ℕ) → waits s (k.cont k.current) ≡ false)
    → is_thread (k.thread k.idle_thread) ≡ true
    → (j : Kernel) × (thread_block k ≡ ok j)
      × (j.current ≡ chosen k)
      × (j.ready_list ≡ rest k.ready_list)
unfolding thread_block thread_current
thread_block-total k inv ext l w idle =
    let (j, p, a, b) =
      schedule-total {k = set_status k k.current blocked} (blocked-Queued inv w) l
        (ground (arith, inv.current_runs)) (inr (ground arith)) in
    (j, ground (arith, inv.current_runs), a, b)

-- When the queues are in order and a thread waits for the semaphore, `sema_up` wakes the thread that
-- has waited longest, which goes to the end of the run queue; the value grows by one modulo 2 ^ 32,
-- the caller goes on running, and no ASSERT fails.
pub sema_up_wakes :
    (s t : ℕ) (ts : List ℕ) (k : Kernel)
    → Inv k
    → (k.semaphore s).waiters ≡ t ∷ ts
    → (j : Kernel) × (sema_up s k ≡ ok j)
      × ((j.semaphore s).waiters ≡ ts)
      × ((j.semaphore s).value ≡ ((k.semaphore s).value + 1) % 2 ^ 32)
      × (j.ready_list ≡ push_back k.ready_list t)
      × (is_ready (j.thread t) ≡ true)
      × (j.current ≡ k.current)
unfolding sema_up thread_unblock
sema_up_wakes s t ts k inv e = (
  woken s t ts k,
  ground (arith, inv.queued.waiting s t),
  ground arith,
  ground arith,
  refl,
  ground (arith, inv.queued.waiting s t),
  refl,
)

-- When the queues are in order, the tick that completes the time slice of a thread other than the idle thread
-- puts the thread at the end of the run queue, and the thread at the head runs: the one that was at the head before,
-- or the interrupted thread itself if the queue was empty. No ASSERT fails.
pub timer_rotates :
    (k : Kernel)
    → Inv k
    → k.current ≢ k.idle_thread
    → k.thread_ticks + 1 ≡ time_slice
    → (j : Kernel) × (timer_interrupt k ≡ ok j)
      × (j.current ∷ j.ready_list ≡ push_back k.ready_list k.current)
      × (is_running (j.thread j.current) ≡ true)
unfolding timer_interrupt thread_tick thread_current
timer_rotates k inv busy full =
    let i = interrupted (ticked k) in
    let v = interrupted-Inv (ticked-Inv off inv) in
    let (j, p, a, b) = thread_yield-total i v (ground arith) (ground arith) in
    (j, ground (arith, inv.current_runs), ground arith, b)

-- When the queues are in order and the time slice is not complete, a tick lets the thread go on, at the interrupt level and with the run queue that it had.
pub timer_keeps :
    (k : Kernel)
    → Inv k
    → k.thread_ticks + 1 < time_slice
    → (j : Kernel) × (timer_interrupt k ≡ ok j)
      × (j.current ≡ k.current)
      × (j.ready_list ≡ k.ready_list)
      × (j.thread_ticks ≡ k.thread_ticks + 1)
      × (j.level ≡ k.level)
unfolding timer_interrupt thread_tick thread_current
timer_keeps k inv few = elim (Bool-cases (k.current == k.idle_thread)) [
  | inl e ↦ (
    record (ticked k) { level = k.level },
    ground (arith, inv.current_runs),
    ground arith,
    ground arith,
    ground arith,
    refl,
  )
  | inr e ↦ (
    record (ticked k) { level = k.level },
    ground (arith, inv.current_runs),
    ground arith,
    ground arith,
    ground arith,
    refl,
  )
]
