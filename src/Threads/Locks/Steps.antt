-- ===== src/Threads/Locks/Steps.antt =====
-- Every step of the kernel keeps the locks in order.
use cs380l.Threads.Locks.Calls.{
  cond_signal-Locks, cond_wait-Locks, current_ne, lock_acquire-Locks, lock_release-Locks,
  lock_try_acquire-eq-ok, resume_at-Locks, thread_create-Locks,
}
use cs380l.Base.{ℕ, ◌*◌, ◌≡◌, ◌≢◌, inl, inr, arith, refl, ℕ-cases}
use cs380l.Threads.State.{user, restore, broadcast, on, off, Kernel, set_cont}
use cs380l.Threads.Sched.{intr_enable, intr_disable}
use cs380l.Threads.Synch.{sema_init, sema_try_down, cond_init, cond_broadcast, idle_round}
use cs380l.Threads.Step.{
  Step, resumes, interrupts, enables, disables, yields, exits, sets_priority, creates_thread, inits,
  downs, tries, ups, acquires, tries_lock, releases, inits_cond, waits_cond, signals, broadcasts,
  starts_idle, idles, thread_init, Reach, start, later,
}
use cs380l.Threads.Safe.{Safe}
use cs380l.Threads.Safe.Ops.{idle_start-eq-ok, sleeping, starting_idle, thread_set_priority-eq-ok}
use cs380l.Threads.Safe.Steps.{Reach-Safe}
use cs380l.Threads.Locks.{Locks}
use cs380l.Threads.Locks.Ops.{
  thread_block-Locks, thread_yield-Locks, thread_exit-Locks, timer_interrupt-Locks, set_cont-Locks,
  other-Locks, elsewhere-Locks, sema_up_elsewhere-Locks,
}
use cs380l.Threads.Locks.Sema.{sema_down-Locks, try_lock-Locks}

-- From a state where the queues, the places of the threads and the locks are in order, each step of the
-- kernel leads to a state where the locks are in order.
pub Step-Locks : {k j : Kernel} → Step k j → Safe k → Locks k → Locks j
unfolding sema_init sema_try_down cond_init cond_broadcast idle_round intr_enable intr_disable
Step-Locks {k} (resumes e) h s = resume_at-Locks s (k.cont k.current) (current_ne s h) refl e
Step-Locks (interrupts _ e) h s = timer_interrupt-Locks s e
Step-Locks {k} {j} (enables _ e) h s =
    let p : j ≡ record k { level = on } = ground arith in rw p (other-Locks s refl refl refl refl)
Step-Locks (disables _) h s = other-Locks s refl refl refl refl
Step-Locks (yields _ e) h s = thread_yield-Locks s e
Step-Locks (exits _ e) h s = thread_exit-Locks s e
Step-Locks {k} {j} (sets_priority p _ e) h s =
    let (th, here, q) = thread_set_priority-eq-ok p k j e in
    rw q (other-Locks s refl refl refl refl)
Step-Locks (creates_thread t p c _ e) h s = thread_create-Locks s t p c.0 e
Step-Locks (inits r v _ _) h s =
    elsewhere-Locks s (3 * r) (λ m. ground arith) (λ q ne. ground arith) refl refl refl
Step-Locks (downs r c e) h s = sema_down-Locks s (λ m. ground arith) (3 * r) user (ground arith) e
Step-Locks {k} (tries r c) h s = elim (ℕ-cases (k.semaphore (3 * r)).value) [
  | inl z ↦ rw (z, sema_try_down) s
  | inr (v, p) ↦
      rw (p, sema_try_down)
        (elsewhere-Locks s (3 * r) (λ m. ground arith) (λ q ne. ground arith) refl refl refl)
]
Step-Locks (ups r c e) h s = sema_up_elsewhere-Locks s (3 * r) (λ m. ground arith) e
Step-Locks (acquires l c e) h s = lock_acquire-Locks s l user (λ m. ground arith) refl e
Step-Locks {k} {j} (tries_lock l b c e) h s = elim (lock_try_acquire-eq-ok l b k j e) [
  | inl p ↦ rw p s
  | inr (v, z, p) ↦ rw (p, c.0) (try_lock-Locks s l v z c.0)
]
Step-Locks (releases l c e) h s =
    lock_release-Locks s l user (current_ne s h) (λ m. ground arith) refl e
Step-Locks (inits_cond v c) h s = record {
  bound = s.bound;
  free = s.free;
  one = s.one;
  sole = s.sole;
  form = s.form;
  conds = λ w m. ground (arith, s.conds w m);
}
Step-Locks (waits_cond v l c e) h s = cond_wait-Locks s v l (current_ne s h) (λ m. ground arith) e
Step-Locks (signals v l c e) h s = cond_signal-Locks s v l e
Step-Locks {k} {j} (broadcasts v l c e) h s =
    let p : j ≡ set_cont k k.current (broadcast v l) = ground arith in
    rw p (set_cont-Locks s (broadcast v l) (λ m. ground arith) refl)
Step-Locks {k} {j} (starts_idle r c _ e) h s =
    sema_up_elsewhere-Locks {k = starting_idle k} (other-Locks s refl refl refl refl) (3 * r)
      (λ m. ground arith) (idle_start-eq-ok (3 * r) k j e)
Step-Locks {k} (idles here i e) h s =
    thread_block-Locks {k = sleeping k}
      (set_cont-Locks {k = record k { level = off }} (other-Locks s refl refl refl refl)
        (restore on user) (λ m. ground arith) refl)
      e

thread_init-Locks : (t : ℕ) → Locks (thread_init t)
unfolding thread_init
thread_init-Locks t = record {
  bound = λ l. ground arith;
  free = λ l u p. (refl, refl);
  one = λ l u w a b. absurd (cc);
  sole = λ l u a. refl;
  form = λ u. refl;
  conds = λ v l. refl;
}

pub Reach-Locks : {t : ℕ} {k : Kernel} → t ≢ 0 → Reach t k → Locks k
Reach-Locks {t} ne start = thread_init-Locks t
Reach-Locks ne (later r e) = Step-Locks e (Reach-Safe ne r) (Reach-Locks ne r)
