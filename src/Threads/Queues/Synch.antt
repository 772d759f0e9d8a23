-- ===== src/Threads/Queues/Synch.antt =====
-- The operations of threads/synch.c keep the queues.
use cs380l.Base.{ℕ, suc, ◌≡◌, ◌≢◌, List, ◌==◌, arith, inl, inr, ◌⊎◌, ℕ-cases}
use cs380l.Threads.State.{
  Kernel, Cont, down, Level, off, blocked, ok, count, push_back, set_status, set_cont,
  set_semaphore,
}
use cs380l.Threads.Sched.{thread_current, thread_block}
use cs380l.Threads.Synch.{sema_init, sema_down_round, sema_down, sema_try_down, with_value}
use cs380l.Threads.Queues.Sched.{count-push_back, schedule-Inv}
use cs380l.Threads.Queues.Ops.{thread_block-eq-ok}
use cs380l.Threads.Queues.{waits, Queued, Inv}

-- The queues do not depend on the other fields.
pub other-Inv :
    {k : Kernel} (l : Level) (h : ℕ → ℕ) (n : ℕ) (w : ℕ → List ℕ)
    → Inv k
    → Inv (record k { level = l; holder = h; next_tid = n; cond_waiters = w })
other-Inv l h n w inv = record {
  queued = record {
    null = q.null;
    run = q.run;
    queue = q.queue;
    all = q.all;
    waiting = q.waiting;
    idle_waits = q.idle_waits;
    idle_lives = q.idle_lives;
  };
  current_runs = inv.current_runs;
}
  where
    open inv use {queued as q}

pub set_cont-Inv :
    {k : Kernel} (c : Cont) → k.current ≢ k.idle_thread → Inv k → Inv (set_cont k k.current c)
set_cont-Inv {k} c busy inv = record {
  queued = record {
    null = q.null;
    run = q.run;
    queue = q.queue;
    all = q.all;
    waiting = λ s u. ground (arith, q.waiting s u, inv.current_runs);
    idle_waits = λ s. ground (arith, q.idle_waits s);
    idle_lives = q.idle_lives;
  };
  current_runs = inv.current_runs;
}
  where
    open inv use {queued as q}

-- A new value, with the same waiters.
pub value-Inv :
    {k : Kernel} (s v : ℕ) → Inv k → Inv (set_semaphore k s (with_value v (k.semaphore s)))
value-Inv {k} s v inv = record {
  queued = record {
    null = q.null;
    run = q.run;
    queue = q.queue;
    all = q.all;
    waiting = λ r u. ground (arith, q.waiting r u);
    idle_waits = q.idle_waits;
    idle_lives = q.idle_lives;
  };
  current_runs = inv.current_runs;
}
  where
    open inv use {queued as q}

-- Nobody waits on a new semaphore.
pub sema_init-Inv :
    {k : Kernel} (s v : ℕ)
    → ((t : ℕ) → count t (k.semaphore s).waiters ≡ 0)
    → Inv k
    → Inv (sema_init s v k)
unfolding sema_init
sema_init-Inv {k} s v nobody inv = record {
  queued = record {
    null = q.null;
    run = q.run;
    queue = q.queue;
    all = q.all;
    waiting = λ r u. ground (arith, q.waiting r u, nobody u);
    idle_waits = q.idle_waits;
    idle_lives = q.idle_lives;
  };
  current_runs = inv.current_runs;
}
  where
    open inv use {queued as q}

abbrev pub queueing : ℕ → Kernel → Kernel
queueing s k =
    set_semaphore k s (record { value = 0; waiters = push_back (k.semaphore s).waiters k.current })

pub queueing-Queued :
    {k : Kernel} (s : ℕ)
    → k.current ≢ k.idle_thread
    → ((r : ℕ) → waits r (k.cont k.current) ≡ (s == r))
    → Inv k
    → Queued 0 0 (set_status (queueing s k) k.current blocked)
queueing-Queued {k} s busy here inv = record {
  null = ground (arith, q.null);
  run = λ t h. ground (arith, q.run t);
  queue = λ t. ground (arith, q.queue t, inv.current_runs);
  all = λ t. ground (arith, q.all t, inv.current_runs);
  waiting = λ r t. ground (
    arith,
    q.waiting r t,
    inv.current_runs,
    here r,
    count-push_back t k.current (k.semaphore s).waiters,
  );
  idle_waits = q.idle_waits;
  idle_lives = ground (arith, q.idle_lives);
}
  where
    open inv use {queued as q}

pub sema_down_round_cases :
    (s : ℕ) (old : Level) (c : Cont) (k j : Kernel)
    → sema_down_round s old c k ≡ ok j
    → (((k.semaphore s).value ≡ 0) × (thread_block (queueing s k) ≡ ok j))
      ⊎ ((v : ℕ) × ((k.semaphore s).value ≡ suc v)
          × (j
              ≡ set_cont
                  (set_semaphore (record k { level = old }) s (with_value v (k.semaphore s)))
                  k.current
                  c))
unfolding sema_down_round thread_current
sema_down_round_cases s old c k j e = elim (ℕ-cases (k.semaphore s).value) [
  | inl z ↦ inl (z, ground arith)
  | inr (v, p) ↦ inr (v, p, ground arith)
]

pub sema_down_round-Inv :
    (s : ℕ) (old : Level) (c : Cont) {k j : Kernel}
    → k.current ≢ k.idle_thread
    → ((r : ℕ) → waits r (k.cont k.current) ≡ (s == r))
    → Inv k
    → sema_down_round s old c k ≡ ok j
    → Inv j
sema_down_round-Inv s old c {k} {j} busy here inv e = elim (sema_down_round_cases s old c k j e) [
  | inl (z, p) ↦
      schedule-Inv (queueing-Queued s busy here inv) (thread_block-eq-ok (queueing s k) j p).1
  | inr (v, z, p) ↦
      rw p
        (set_cont-Inv c busy (value-Inv s v (other-Inv old k.holder k.next_tid k.cond_waiters inv)))
]

pub sema_down-Inv :
    (s : ℕ) (c : Cont) {k j : Kernel}
    → k.current ≢ k.idle_thread
    → Inv k
    → sema_down s c k ≡ ok j
    → Inv j
unfolding sema_down
sema_down-Inv s c {k} {j} busy inv e =
    sema_down_round-Inv s k.level c
      {k = set_cont (record k { level = off }) k.current (down s k.level c)} busy
      (λ r. ground arith)
      (set_cont-Inv (down s k.level c) busy (other-Inv off k.holder k.next_tid k.cond_waiters inv))
      (ground arith)

pub sema_try_down-Inv : (s : ℕ) (k : Kernel) → Inv k → Inv (sema_try_down s k).1
unfolding sema_try_down
sema_try_down-Inv s k inv = elim (ℕ-cases (k.semaphore s).value) [
  | inl z ↦ rw (z, sema_try_down) inv
  | inr (v, p) ↦ rw (p, sema_try_down) (value-Inv s v inv)
]
