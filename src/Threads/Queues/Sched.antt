-- ===== src/Threads/Queues/Sched.antt =====
-- The scheduler keeps the queues.
use cs380l.Base.{
  ℕ, suc, Bool-cases, List-cases, ◌-◌, ◌⊎◌, inl, inr, ◌≡◌, ◌≢◌, true, false, ◌&&◌, List, [], ◌∷◌,
  none, ◌==◌, if◌then◌else◌, arith, refl,
}
use cs380l.Threads.State.{
  Kernel, update, running, ok, is_blocked, is_dying, is_thread, count, push_back, remove,
  set_status,
}
use cs380l.Threads.Sched.{next_thread_to_run, thread_schedule_tail, switch_to, schedule}
use cs380l.Threads.Queues.{waits, Queued, Inv}

pub count-push_back :
    (t u : ℕ) (us : List ℕ)
    → count t (push_back us u) ≡ (if u == t then suc (count t us) else count t us)
count-push_back t u [] = refl
count-push_back t u (x ∷ us) = ground (arith, count-push_back t u us)

pub count-remove :
    (t u : ℕ) (us : List ℕ)
    → count t (remove u us) ≡ (if u == t then count t us - 1 else count t us)
count-remove t u [] = ground arith
count-remove t u (x ∷ us) = ground (arith, count-remove t u us)

abbrev started : Kernel → Kernel
started k = record (set_status k k.current running) { thread_ticks = 0 }

abbrev pub freed : ℕ → Kernel → Kernel
freed prev k = record k { thread = update k.thread prev none }

pub tail_cases :
    (prev : ℕ) (k j : Kernel)
    → thread_schedule_tail prev k ≡ ok j
    → (j ≡ started k)
      ⊎ ((is_dying (k.thread prev) ≡ true) × (prev ≢ k.current) × (j ≡ freed prev (started k)))
unfolding thread_schedule_tail
tail_cases prev k j e = ground arith

module _ {k : Kernel} (q : Queued 0 k.current k)
    (w : (s : ℕ) → (is_blocked (k.thread k.current) && waits s (k.cont k.current)) ≡ false)
    (d : is_dying (k.thread k.current) ≡ false) where
  started-Queued : Queued k.current 0 (started k)
  started-Queued = record {
    null = ground (arith, q.null);
    run = λ t h. ground (arith, q.run t, q.null);
    queue = λ t. ground (arith, q.queue t, q.null);
    all = λ t. ground (arith, q.all t);
    waiting = λ s t. ground (arith, q.waiting s t, w s);
    idle_waits = λ s. ground (arith, q.idle_waits s);
    idle_lives = ground (arith, q.idle_lives);
  }

  freed-Queued :
      (prev : ℕ)
      → is_dying (k.thread prev) ≡ true
      → prev ≢ k.current
      → Queued k.current 0 (freed prev (started k))
  freed-Queued prev e ne = record {
    null = ground (arith, q.null);
    run = λ t h. ground (arith, started-Queued.run t);
    queue = λ t. ground (arith, started-Queued.queue t);
    all = λ t. ground (arith, started-Queued.all t);
    waiting = λ s t. ground (arith, started-Queued.waiting s t);
    idle_waits = λ s. started-Queued.idle_waits s;
    idle_lives = ground (arith, started-Queued.idle_lives);
  }

  tail-Inv :
      {j : Kernel} (prev : ℕ)
      → is_thread (k.thread k.current) ≡ true
      → thread_schedule_tail prev k ≡ ok j
      → Inv j
  tail-Inv {j} prev here e = elim (tail_cases prev k j e) [
    | inl p ↦ rw p (record { queued = started-Queued; current_runs = ground arith })
    | inr (dead, ne, p) ↦
        rw p (record { queued = freed-Queued prev dead ne; current_runs = ground arith })
  ]

pub switch_cases :
    (n : ℕ) (k j : Kernel)
    → switch_to n k ≡ ok j
    → (is_thread (k.thread n) ≡ true)
      × (prev : ℕ) × (thread_schedule_tail prev (record k { current = n }) ≡ ok j)
unfolding switch_to
switch_cases n k j e = elim (Bool-cases (k.current == n)) [
  | inl same ↦ (ground arith, 0, ground arith)
  | inr other ↦ (ground arith, k.current, ground arith)
]

switch_to-Inv :
    {n : ℕ} {k j : Kernel}
    → Queued 0 n k
    → ((s : ℕ) → (is_blocked (k.thread n) && waits s (k.cont n)) ≡ false)
    → is_dying (k.thread n) ≡ false
    → switch_to n k ≡ ok j
    → Inv j
switch_to-Inv {n} {k} {j} q w d e =
    let (here, prev, e') = switch_cases n k j e in
    tail-Inv {k = record k { current = n }}
      (record {
        null = q.null;
        run = q.run;
        queue = q.queue;
        all = q.all;
        waiting = q.waiting;
        idle_waits = q.idle_waits;
        idle_lives = q.idle_lives;
      })
      w d prev here e'

pub schedule-Inv : {k j : Kernel} → Queued 0 0 k → schedule k ≡ ok j → Inv j
unfolding schedule next_thread_to_run
schedule-Inv {k} {j} q e = elim (List-cases k.ready_list) [
  | inl none_ready ↦
      switch_to-Inv {n = k.idle_thread} {k = k}
        (record {
          null = q.null;
          run = q.run;
          queue = λ t. ground (arith, q.queue t, q.null);
          all = q.all;
          waiting = q.waiting;
          idle_waits = q.idle_waits;
          idle_lives = q.idle_lives;
        })
        (λ s. ground (arith, q.idle_waits s)) q.idle_lives
        (rw (none_ready, schedule, next_thread_to_run) at e)
  | inr (t, ts, p) ↦
      switch_to-Inv {n = t} {k = record k { ready_list = ts }}
        (record {
          null = q.null;
          run = q.run;
          queue = λ u. ground (arith, q.queue u, q.null, q.queue t);
          all = q.all;
          waiting = q.waiting;
          idle_waits = q.idle_waits;
          idle_lives = q.idle_lives;
        })
        (λ s. ground (arith, q.queue t)) (ground (arith, q.queue t))
        (rw (p, schedule, next_thread_to_run) at e)
]
