-- ===== src/Threads/Queues/Frames.antt =====
-- threads/thread.c: what the scheduler does not change.
use cs380l.Threads.Queues.Sched.{switch_cases, tail_cases}
use cs380l.Base.{ℕ, List-cases, inl, inr, ◌≡◌, ◌≢◌, true, false, arith}
use cs380l.Threads.State.{Kernel, ok, is_blocked, is_dying, is_thread}
use cs380l.Threads.Sched.{next_thread_to_run, thread_schedule_tail, switch_to, schedule}
use cs380l.Threads.Queues.{Queued}

-- What the scheduler leaves alone.
pub record Frame (k j : Kernel) : Type 0 where
  pub cont : j.cont ≡ k.cont
  pub semaphore : j.semaphore ≡ k.semaphore
  pub holder : j.holder ≡ k.holder
  pub cond_waiters : j.cond_waiters ≡ k.cond_waiters
  pub idle_thread : j.idle_thread ≡ k.idle_thread

tail-Frame : (prev : ℕ) (k j : Kernel) → thread_schedule_tail prev k ≡ ok j → Frame k j
tail-Frame prev k j e = elim (tail_cases prev k j e) [
  | inl p ↦ record {
    cont = ground arith;
    semaphore = ground arith;
    holder = ground arith;
    cond_waiters = ground arith;
    idle_thread = ground arith;
  }
  | inr (dead, ne, p) ↦ record {
    cont = ground arith;
    semaphore = ground arith;
    holder = ground arith;
    cond_waiters = ground arith;
    idle_thread = ground arith;
  }
]

switch_to-Frame : (n : ℕ) {k j : Kernel} → switch_to n k ≡ ok j → Frame k j
switch_to-Frame n {k} {j} e =
    let (here, prev, e') = switch_cases n k j e in
    let f = tail-Frame prev (record k { current = n }) j e' in
    record {
      cont = f.cont;
      semaphore = f.semaphore;
      holder = f.holder;
      cond_waiters = f.cond_waiters;
      idle_thread = f.idle_thread;
    }

pub schedule-Frame : {k j : Kernel} → schedule k ≡ ok j → Frame k j
unfolding schedule next_thread_to_run
schedule-Frame {k} {j} e = elim (List-cases k.ready_list) [
  | inl none_ready ↦
      switch_to-Frame k.idle_thread (rw (none_ready, schedule, next_thread_to_run) at e)
  | inr (t, ts, p) ↦
      let f : Frame (record k { ready_list = ts }) j =
        switch_to-Frame t (rw (p, schedule, next_thread_to_run) at e) in
      record {
        cont = f.cont;
        semaphore = f.semaphore;
        holder = f.holder;
        cond_waiters = f.cond_waiters;
        idle_thread = f.idle_thread;
      }
]

-- A blocked thread stays blocked, unless it is the idle thread, and only a dying one is freed.
pub record Keeps (k j : Kernel) : Type 0 where
  pub blocked :
      (t : ℕ) → is_blocked (k.thread t) ≡ true → t ≢ k.idle_thread → is_blocked (j.thread t) ≡ true
  pub lives :
      (t : ℕ)
      → is_thread (k.thread t) ≡ true
      → is_dying (k.thread t) ≡ false
      → is_thread (j.thread t) ≡ true

switch_to-Keeps :
    {n : ℕ} {k j : Kernel}
    → switch_to n k ≡ ok j
    → is_dying (k.thread n) ≡ false
    → ((t : ℕ) → is_blocked (k.thread t) ≡ true → t ≢ k.idle_thread → t ≢ n)
    → Keeps k j
switch_to-Keeps {n} {k} {j} e d other =
    let (here, prev, e') = switch_cases n k j e in
    elim (tail_cases prev (record k { current = n }) j e') [
      | inl p ↦ record {
        blocked = λ t b i. ground (arith, other t b i);
        lives = λ t b d'. ground arith;
      }
      | inr (dead, ne, p) ↦ record {
        blocked = λ t b i. ground (arith, other t b i);
        lives = λ t b d'. ground arith;
      }
    ]

pub schedule-Keeps : {k j : Kernel} → Queued 0 0 k → schedule k ≡ ok j → Keeps k j
unfolding schedule next_thread_to_run
schedule-Keeps {k} {j} q e = elim (List-cases k.ready_list) [
  | inl none_ready ↦
      switch_to-Keeps {n = k.idle_thread} {k = k}
        (rw (none_ready, schedule, next_thread_to_run) at e) q.idle_lives (λ t b i. i)
  | inr (t, ts, p) ↦
      let s : Keeps (record k { ready_list = ts }) j =
        switch_to-Keeps {n = t} {k = record k { ready_list = ts }}
          (rw (p, schedule, next_thread_to_run) at e) (ground (arith, q.queue t))
          (λ u b i. ground (arith, q.queue t)) in
      record { blocked = s.blocked; lives = s.lives }
]
