-- ===== src/Threads/Locks/Ops.antt =====
-- What each operation does to the locks.
use cs380l.Base.{ℕ, ◌≡◌, ◌≢◌, inl, inr, true, arith, refl}
use cs380l.Threads.State.{
  Cont, restore, on, Kernel, ok, of_lock, set_cont, set_status, blocked, count,
}
use cs380l.Threads.Sched.{
  schedule, thread_block, thread_yield, thread_exit, timer_interrupt, thread_unblock,
}
use cs380l.Threads.Synch.{sema_up}
use cs380l.Threads.Queues.Frames.{schedule-Frame}
use cs380l.Threads.Queues.Ops.{
  exiting, thread_block-eq-ok, thread_exit-eq-ok, thread_yield-eq-ok, yielding,
}
use cs380l.Threads.Queues.Events.{interrupted, thread_unblock-eq-ok, ticked, timer_interrupt-eq-ok}
use cs380l.Threads.Queues.Wake.{sema_up_cases}
use cs380l.Threads.Locks.{claims, formed, Locks}

-- The locks read nothing else of the state.
pub same-Locks :
    {k j : Kernel}
    → ((l : ℕ) → (j.semaphore (of_lock l)).value ≡ (k.semaphore (of_lock l)).value)
    → ((l : ℕ) → j.holder l ≡ k.holder l)
    → ((l t : ℕ) → claims l (j.cont t) ≡ claims l (k.cont t))
    → ((t : ℕ) → formed (j.cont t) ≡ true)
    → ((v l : ℕ) → count (of_lock l) (j.cond_waiters v) ≡ 0)
    → Locks k
    → Locks j
same-Locks v h c f w s = record {
  bound = λ l. ground (arith, s.bound l, v l);
  free = λ l t e. ground (arith, s.free l t, v l, h l, c l t);
  one = λ l t u p q. ground (arith, s.one l t u, c l t, c l u);
  sole = λ l t p. ground (arith, s.sole l t, c l t, h l);
  form = f;
  conds = w;
}

-- The scheduler leaves the locks alone.
pub schedule-Locks :
    (k h : Kernel) {j : Kernel}
    → schedule h ≡ ok j
    → h.semaphore ≡ k.semaphore
    → h.holder ≡ k.holder
    → h.cond_waiters ≡ k.cond_waiters
    → ((l t : ℕ) → claims l (h.cont t) ≡ claims l (k.cont t))
    → ((t : ℕ) → formed (h.cont t) ≡ true)
    → Locks k
    → Locks j
schedule-Locks k h {j} e sem own cw c f s =
    let g = schedule-Frame e in
    same-Locks (λ l. ground (arith, g.semaphore)) (λ l. ground (arith, g.holder))
      (λ l t. ground (arith, g.cont, c l t)) (λ t. ground (arith, g.cont, f t))
      (λ v l. ground (arith, g.cond_waiters, s.conds v l)) s

module _ {k : Kernel} (s : Locks k) where
  pub thread_block-Locks : {j : Kernel} → thread_block k ≡ ok j → Locks j
  thread_block-Locks {j} e =
      schedule-Locks k (set_status k k.current blocked) (thread_block-eq-ok k j e).1 refl refl refl
        (λ l t. refl) s.form s

  pub thread_yield-Locks : {j : Kernel} → thread_yield k ≡ ok j → Locks j
  thread_yield-Locks {j} e =
      schedule-Locks k (yielding k) (thread_yield-eq-ok k j e).1 refl refl refl
        (λ l t. ground arith) (λ t. ground (arith, s.form t)) s

  pub thread_exit-Locks : {j : Kernel} → thread_exit k ≡ ok j → Locks j
  thread_exit-Locks {j} e =
      schedule-Locks k (exiting k) (thread_exit-eq-ok k j e).1 refl refl refl (λ l t. refl) s.form s

  -- A change of the current thread's place.
  pub set_cont-Locks :
      (c : Cont)
      → ((l : ℕ) → claims l c ≡ claims l (k.cont k.current))
      → formed c ≡ true
      → Locks (set_cont k k.current c)
  set_cont-Locks c same f =
      same-Locks {k = k} {j = set_cont k k.current c} (λ l. refl) (λ l. refl)
        (λ l t. ground (arith, same l)) (λ t. ground (arith, s.form t)) s.conds s

  -- Other fields do not matter.
  pub other-Locks :
      {j : Kernel}
      → j.semaphore ≡ k.semaphore
      → j.holder ≡ k.holder
      → j.cont ≡ k.cont
      → j.cond_waiters ≡ k.cond_waiters
      → Locks j
  other-Locks {j} a b c d =
      same-Locks {k = k} {j = j} (λ l. ground arith) (λ l. ground arith) (λ l t. ground arith)
        (λ t. ground (arith, s.form t)) (λ v l. ground (arith, s.conds v l)) s

  pub thread_unblock-Locks : (t : ℕ) {j : Kernel} → thread_unblock t k ≡ ok j → Locks j
  thread_unblock-Locks t {j} e =
      let p = (thread_unblock-eq-ok t k j e).1 in
      other-Locks (ground arith) (ground arith) (ground arith) (ground arith)

  -- A semaphore that is in no lock.
  pub elsewhere-Locks :
      (r : ℕ) {j : Kernel}
      → ((l : ℕ) → r ≢ of_lock l)
      → ((q : ℕ) → r ≢ q → (j.semaphore q).value ≡ (k.semaphore q).value)
      → j.holder ≡ k.holder
      → j.cont ≡ k.cont
      → j.cond_waiters ≡ k.cond_waiters
      → Locks j
  elsewhere-Locks r {j} out v h c d =
      same-Locks {k = k} {j = j} (λ l. v (of_lock l) (out l)) (λ l. ground arith)
        (λ l t. ground arith) (λ t. ground (arith, s.form t)) (λ w l. ground (arith, s.conds w l)) s

  pub sema_up_elsewhere-Locks :
      (r : ℕ) {j : Kernel} → ((l : ℕ) → r ≢ of_lock l) → sema_up r k ≡ ok j → Locks j
  sema_up_elsewhere-Locks r {j} out e = elim (sema_up_cases r k j e) [
    | inl (p, h) ↦
        elsewhere-Locks r out (λ q ne. ground arith) (ground arith) (ground arith) (ground arith)
    | inr (t, ts, p, b, h) ↦
        elsewhere-Locks r out (λ q ne. ground arith) (ground arith) (ground arith) (ground arith)
  ]

module _ {k : Kernel} (s : Locks k) where
  pub timer_interrupt-Locks : {j : Kernel} → timer_interrupt k ≡ ok j → Locks j
  timer_interrupt-Locks {j} e = elim (timer_interrupt-eq-ok k j e) [
    | inl p ↦
        thread_yield-Locks {k = interrupted (ticked k)}
          (set_cont-Locks {k = ticked k}
            (other-Locks s {j = ticked k} (ground arith) (ground arith) (ground arith)
              (ground arith))
            (restore on ((ticked k).cont (ticked k).current)) (λ l. refl)
            (ground (arith, s.form k.current)))
          (ground arith)
    | inr p ↦ other-Locks s (ground arith) (ground arith) (ground arith) (ground arith)
  ]
