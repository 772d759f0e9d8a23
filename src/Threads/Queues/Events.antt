-- ===== src/Threads/Queues/Events.antt =====
-- threads/thread.c: unblocking a thread, making one, and the timer interrupt keep the queues.
use cs380l.Threads.Queues.Ops.{thread_yield-Inv}
use cs380l.Base.{
  ℕ, ◌≡◌, ◌≢◌, true, false, none, some, ◌==◌, if◌then◌else◌, arith, Bool-cases, inl, inr, ◌⊎◌, ◌^◌,
  ◌%◌, ◌+◌, ◌≤◌,
}
use cs380l.Threads.State.{
  Kernel, Thread, update, born, restore, Level, on, off, ready, blocked, ok, is_blocked, count,
  push_back, set_status, set_cont,
}
use cs380l.Threads.Sched.{
  thread_current, thread_unblock, thread_yield, thread_tick, timer_interrupt, init_thread, pri_max,
}
use cs380l.Threads.Queues.Sched.{count-push_back}
use cs380l.Threads.Queues.{waits, Inv}

abbrev pub unblocked : ℕ → Kernel → Kernel
unblocked t k = set_status (record k { ready_list = push_back k.ready_list t }) t ready

pub thread_unblock-eq-ok :
    (t : ℕ) (k j : Kernel)
    → thread_unblock t k ≡ ok j
    → (is_blocked (k.thread t) ≡ true) × (j ≡ unblocked t k)
unfolding thread_unblock
thread_unblock-eq-ok t k j e = ground arith

-- A thread that no semaphore holds, and that is not the idle thread, is made ready.
unblocked-Inv :
    (t : ℕ) {k : Kernel}
    → is_blocked (k.thread t) ≡ true
    → t ≢ k.idle_thread
    → ((s : ℕ) → count t (k.semaphore s).waiters ≡ 0)
    → Inv k
    → Inv (unblocked t k)
unblocked-Inv t {k} b ne free inv = record {
  queued = record {
    null = ground (arith, q.null);
    run = λ u h. ground (arith, q.run u);
    queue = λ u. ground (arith, q.queue u, q.null, count-push_back u t k.ready_list);
    all = λ u. ground (arith, q.all u);
    waiting = λ s u. ground (arith, q.waiting s u, free s);
    idle_waits = q.idle_waits;
    idle_lives = ground (arith, q.idle_lives);
  };
  current_runs = ground (arith, inv.current_runs);
}
  where
    open inv use {queued as q}

pub thread_unblock-Inv :
    (t : ℕ) {k j : Kernel}
    → t ≢ k.idle_thread
    → ((s : ℕ) → waits s (k.cont t) ≡ false)
    → Inv k
    → thread_unblock t k ≡ ok j
    → Inv j
thread_unblock-Inv t {k} {j} ne free inv e =
    let (b, p) = thread_unblock-eq-ok t k j e in
    rw p (unblocked-Inv t b ne (λ s. ground (arith, inv.queued.waiting s t, free s)) inv)

-- The kernel after the tick, before the interrupt returns.
abbrev pub ticked : Kernel → Kernel
ticked k =
    let n = (k.thread_ticks + 1) % 2 ^ 32 in
    let j =
      if k.current == k.idle_thread
      then record k { idle_ticks = k.idle_ticks + 1; thread_ticks = n }
      else record k { kernel_ticks = k.kernel_ticks + 1; thread_ticks = n } in
    record j { level = off; in_external_intr = false }

abbrev pub interrupted : Kernel → Kernel
interrupted k = set_cont k k.current (restore on (k.cont k.current))

pub timer_interrupt-eq-ok :
    (k j : Kernel)
    → timer_interrupt k ≡ ok j
    → (thread_yield (interrupted (ticked k)) ≡ ok j) ⊎ (j ≡ record (ticked k) { level = k.level })
unfolding timer_interrupt thread_tick thread_current
timer_interrupt-eq-ok k j e = ground arith

pub interrupted-Inv : {k : Kernel} → Inv k → Inv (interrupted k)
interrupted-Inv {k} inv = record {
  queued = record {
    null = q.null;
    run = q.run;
    queue = q.queue;
    all = q.all;
    waiting = λ s u. ground (arith, q.waiting s u);
    idle_waits = λ s. ground (arith, q.idle_waits s);
    idle_lives = q.idle_lives;
  };
  current_runs = inv.current_runs;
}
  where
    open inv use {queued as q}

pub ticked-Inv : (l : Level) {k : Kernel} → Inv k → Inv (record (ticked k) { level = l })
ticked-Inv l {k} inv = elim (Bool-cases (k.current == k.idle_thread)) [
  | inl e ↦ rw e (record {
    queued = record {
      null = q.null;
      run = q.run;
      queue = q.queue;
      all = q.all;
      waiting = q.waiting;
      idle_waits = q.idle_waits;
      idle_lives = q.idle_lives;
    };
    current_runs = inv.current_runs;
  })
  | inr e ↦ rw e (record {
    queued = record {
      null = q.null;
      run = q.run;
      queue = q.queue;
      all = q.all;
      waiting = q.waiting;
      idle_waits = q.idle_waits;
      idle_lives = q.idle_lives;
    };
    current_runs = inv.current_runs;
  })
]
  where
    open inv use {queued as q}

pub timer_interrupt-Inv : {k j : Kernel} → Inv k → timer_interrupt k ≡ ok j → Inv j
timer_interrupt-Inv {k} {j} inv e = elim (timer_interrupt-eq-ok k j e) [
  | inl p ↦ thread_yield-Inv (interrupted-Inv (ticked-Inv off inv)) p
  | inr p ↦ rw p (ticked-Inv k.level inv)
]

abbrev pub fresh_thread : ℕ → Thread
fresh_thread priority = record { tid = 0; status = blocked; priority = priority }

abbrev pub initialised : ℕ → ℕ → Kernel → Kernel
initialised t priority k = record k {
  thread = update k.thread t (some (fresh_thread priority));
  cont = update k.cont t born;
  all_list = push_back k.all_list t;
}

pub init_thread-eq-ok :
    (t priority : ℕ) (k j : Kernel)
    → init_thread t priority k ≡ ok j
    → (t ≢ 0) × (priority ≤ pri_max) × (j ≡ initialised t priority k)
unfolding init_thread
init_thread-eq-ok t priority k j e = ground arith

pub init_thread-Inv :
    (t priority : ℕ) {k j : Kernel}
    → k.thread t ≡ none
    → Inv k
    → init_thread t priority k ≡ ok j
    → Inv j
init_thread-Inv t priority {k} {j} fresh inv e =
    let (ne, le, p) = init_thread-eq-ok t priority k j e in
    rw p (record {
      queued = record {
        null = ground (arith, q.null);
        run = λ u h. ground (arith, q.run u);
        queue = λ u. ground (arith, q.queue u);
        all = λ u. ground (arith, q.all u, count-push_back u t k.all_list);
        waiting = λ s u. ground (arith, q.waiting s u);
        idle_waits = λ s. ground (arith, q.idle_waits s);
        idle_lives = ground (arith, q.idle_lives);
      };
      current_runs = ground (arith, inv.current_runs);
    })
  where
    open inv use {queued as q}
