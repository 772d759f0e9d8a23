-- ===== src/Threads/Conts/Ops.antt =====
-- The effect of each operation of threads/thread.c and of the semaphores on the places.
use cs380l.Base.{ℕ, ◌≡◌, ◌≢◌, ◌⊎◌, inl, inr, true, false, ◌==◌, if◌then◌else◌, arith, refl, ◌∙◌}
use cs380l.Threads.State.{
  Cont, born, down, restore, Level, on, off, Kernel, ok, is_blocked, is_thread, set_cont,
}
use cs380l.Threads.Sched.{
  schedule, thread_block, thread_yield, thread_exit, thread_unblock, timer_interrupt,
}
use cs380l.Threads.Synch.{sema_down_round, sema_down, sema_up}
use cs380l.Threads.Queues.{waits, Inv, Queued}
use cs380l.Threads.Queues.Frames.{schedule-Frame, schedule-Keeps}
use cs380l.Threads.Queues.Ops.{
  blocked-Queued, exiting-Queued, thread_block-eq-ok, thread_exit-eq-ok, thread_yield-eq-ok,
  yielding-Queued,
}
use cs380l.Threads.Queues.Events.{
  interrupted, interrupted-Inv, thread_unblock-eq-ok, ticked, ticked-Inv, timer_interrupt-eq-ok,
}
use cs380l.Threads.Queues.Synch.{
  queueing, queueing-Queued, sema_down_round_cases, set_cont-Inv, other-Inv,
}
use cs380l.Threads.Queues.Wake.{sema_up_cases}
use cs380l.Threads.Conts.Moves.{Moves}

schedule-Moves :
    (next : Cont) {k h j : Kernel}
    → Queued 0 0 h
    → schedule h ≡ ok j
    → ((t : ℕ) → h.cont t ≡ (if k.current == t then next else k.cont t))
    → h.idle_thread ≡ k.idle_thread
    → ((t : ℕ) → is_blocked (k.thread t) ≡ true → is_blocked (h.thread t) ≡ true)
    → (is_thread (k.thread k.idle_thread) ≡ true → is_thread (h.thread k.idle_thread) ≡ true)
    → Moves next k j
schedule-Moves next {k} {h} {j} q e c i b l =
    let f = schedule-Frame e in
    let s = schedule-Keeps q e in
    record {
      cont = λ t. ground (arith, c t, f.cont);
      idle_thread = f.idle_thread ∙ i;
      blocked = λ t p ne _. s.blocked t (b t p) (ground arith);
      idle = λ p. s.lives k.idle_thread (l p) (ground (arith, q.idle_lives));
    }

pub thread_block-Moves :
    {k j : Kernel}
    → Inv k
    → ((s : ℕ) → waits s (k.cont k.current) ≡ false)
    → thread_block k ≡ ok j
    → Moves (k.cont k.current) k j
thread_block-Moves {k} {j} inv w e =
    schedule-Moves (k.cont k.current) (blocked-Queued inv w) (thread_block-eq-ok k j e).1
      (λ t. ground arith) refl (λ t p. ground arith) (λ p. ground arith)

pub thread_yield-Moves :
    {k j : Kernel} → Inv k → thread_yield k ≡ ok j → Moves (restore k.level (k.cont k.current)) k j
thread_yield-Moves {k} {j} inv e =
    schedule-Moves (restore k.level (k.cont k.current)) (yielding-Queued inv)
      (thread_yield-eq-ok k j e).1 (λ t. ground arith) refl
      (λ t p. ground (arith, inv.current_runs)) (λ p. ground arith)

pub thread_exit-Moves :
    {k j : Kernel}
    → Inv k
    → k.current ≢ k.idle_thread
    → thread_exit k ≡ ok j
    → Moves (k.cont k.current) k j
thread_exit-Moves {k} {j} inv busy e =
    schedule-Moves (k.cont k.current) (exiting-Queued inv busy) (thread_exit-eq-ok k j e).1
      (λ t. ground arith) refl (λ t p. ground (arith, inv.current_runs)) (λ p. ground arith)

pub timer_interrupt-Moves :
    {k j : Kernel}
    → Inv k
    → timer_interrupt k ≡ ok j
    → Moves (restore off (restore on (k.cont k.current))) k j ⊎ Moves (k.cont k.current) k j
timer_interrupt-Moves {k} {j} inv e = elim (timer_interrupt-eq-ok k j e) [
  | inl p ↦
      let m =
        thread_yield-Moves {k = interrupted (ticked k)} {j = j}
          (interrupted-Inv (ticked-Inv off inv)) p in
      inl (record {
        cont = λ t. ground (arith, m.cont t);
        idle_thread = ground (arith, m.idle_thread);
        blocked = λ t b i c. ground (arith, m.blocked t, inv.current_runs);
        idle = λ b. ground (arith, m.idle);
      })
  | inr p ↦ inr (record {
    cont = λ t. ground arith;
    idle_thread = ground arith;
    blocked = λ t b i c. ground arith;
    idle = λ b. ground arith;
  })
]

pub sema_down_round-Moves :
    (s : ℕ) (old : Level) (c : Cont) {k j : Kernel}
    → k.current ≢ k.idle_thread
    → ((r : ℕ) → waits r (k.cont k.current) ≡ (s == r))
    → Inv k
    → sema_down_round s old c k ≡ ok j
    → Moves (k.cont k.current) k j ⊎ Moves c k j
sema_down_round-Moves s old c {k} {j} busy here inv e = elim (sema_down_round_cases s old c k j e) [
  | inl (z, p) ↦ inl (
      schedule-Moves (k.cont k.current) (queueing-Queued s busy here inv)
        (thread_block-eq-ok (queueing s k) j p).1 (λ t. ground arith) refl (λ t p. ground arith)
        (λ p. ground arith))
  | inr (v, z, p) ↦ inr (record {
    cont = λ t. ground arith;
    idle_thread = ground arith;
    blocked = λ t b i c. ground arith;
    idle = λ b. ground arith;
  })
]

pub sema_down-Moves :
    (s : ℕ) (c : Cont) {k j : Kernel}
    → k.current ≢ k.idle_thread
    → Inv k
    → sema_down s c k ≡ ok j
    → Moves (down s k.level c) k j ⊎ Moves c k j
unfolding sema_down
sema_down-Moves s c {k} {j} busy inv e =
    let h : Kernel = set_cont (record k { level = off }) k.current (down s k.level c) in
    elim (sema_down_round-Moves s k.level c {k = h} {j = j} busy (λ r. ground arith)
      (set_cont-Inv (down s k.level c) busy (other-Inv off k.holder k.next_tid k.cond_waiters inv))
      (ground arith)) [
        | inl m ↦ inl (record {
          cont = λ t. ground (arith, m.cont t);
          idle_thread = ground (arith, m.idle_thread);
          blocked = λ t b i c. ground (arith, m.blocked t, inv.current_runs);
          idle = λ b. ground (arith, m.idle);
        })
        | inr m ↦ inr (record {
          cont = λ t. ground (arith, m.cont t);
          idle_thread = ground (arith, m.idle_thread);
          blocked = λ t b i c. ground (arith, m.blocked t, inv.current_runs);
          idle = λ b. ground (arith, m.idle);
        })
      ]

pub sema_up-Moves :
    (s : ℕ) {k j : Kernel} → Inv k → sema_up s k ≡ ok j → Moves (k.cont k.current) k j
sema_up-Moves s {k} {j} inv e = elim (sema_up_cases s k j e) [
  | inl (p, h) ↦ record {
    cont = λ t. ground arith;
    idle_thread = ground arith;
    blocked = λ t b i c. ground arith;
    idle = λ b. ground arith;
  }
  | inr (t, ts, p, b, h) ↦ record {
    cont = λ u. ground arith;
    idle_thread = ground arith;
    blocked = λ u b i c. ground (arith, inv.queued.waiting s t);
    idle = λ b. ground arith;
  }
]

pub thread_unblock-Moves :
    (t : ℕ) {k j : Kernel}
    → k.cont t ≢ born
    → thread_unblock t k ≡ ok j
    → Moves (k.cont k.current) k j
thread_unblock-Moves t {k} {j} seen e =
    let (b, p) = thread_unblock-eq-ok t k j e in
    record {
      cont = λ u. ground arith;
      idle_thread = ground arith;
      blocked = λ u b i c. ground arith;
      idle = λ b. ground arith;
    }
