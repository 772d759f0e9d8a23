-- ===== src/Threads/Safe/Steps.antt =====
-- Every step of the kernel keeps the queues and the places in order.
use cs380l.Base.{ℕ, ◌*◌, [], ◌≡◌, ◌≢◌, inl, arith, refl}
use cs380l.Threads.State.{
  Cont, born, user, down, restore, set_holder, give, wait, reacquire, broadcast, assign_tid,
  start_thread, Level, on, off, Kernel, ok, update, of_lock, of_waiter, set_cont,
}
use cs380l.Threads.Sched.{intr_enable, intr_disable}
use cs380l.Threads.Synch.{resume, sema_init, sema_try_down, cond_init, cond_broadcast}
use cs380l.Threads.Step.{
  Step, resumes, interrupts, enables, disables, yields, exits, sets_priority, creates_thread, inits,
  downs, tries, ups, acquires, tries_lock, releases, inits_cond, waits_cond, signals, broadcasts,
  starts_idle, idles, thread_init, Reach, start, later,
}
use cs380l.Threads.Safe.{
  Safe, sema_up-Safe, thread_yield-Safe, timer_interrupt-Safe, thread_exit-Safe, inside,
  set_cont-Safe, sema_down-Safe, sema_down_round-Safe, other-Safe,
}
use cs380l.Threads.Safe.Locks.{sema_init-Safe, lock_acquire-Safe, lock_release-Safe, user-Fits}
use cs380l.Threads.Safe.Ops.{
  cond_broadcast_round-Safe, cond_signal-Safe, cond_wait-Safe, lock_try_acquire-Safe,
  sema_try_down-Safe, thread_create-Safe,
}
use cs380l.Threads.Safe.Starts.{
  assign_tid-Safe, busy_at, idle_round-Safe, idle_start-Safe, start_thread-Safe,
  thread_set_priority-Safe,
}

module _ {k : Kernel} (s : Safe k) where
  open s use {inv, conts}

  restored-Safe :
      (old : Level) (c : Cont)
      → k.cont k.current ≡ restore old c
      → Safe (set_cont (record k { level = old }) k.current c)
  restored-Safe old c here = record {
    inv = record {
      queued = record {
        null = q.null;
        run = q.run;
        queue = q.queue;
        all = q.all;
        waiting = λ r t. ground (arith, q.waiting r t);
        idle_waits = λ r. ground (arith, q.idle_waits r);
        idle_lives = q.idle_lives;
      };
      current_runs = inv.current_runs;
    };
    conts = record {
      own = λ u t. ground (arith, conts.own u t);
      pending = λ u t h. ground (arith, conts.pending u t, inv.current_runs);
      unique = λ u v t h i. ground (arith, conts.unique u v t);
      idle_calm = ground (arith, conts.idle_calm);
      idle_here = conts.idle_here;
    };
  }
    where
      open inv use {queued as q}

  -- `resume`, by the place of the current thread.
  resume_at-Safe : (c : Cont) {j : Kernel} → k.cont k.current ≡ c → resume k ≡ ok j → Safe j
  unfolding resume
  resume_at-Safe user {j} here e = let p : j ≡ k = ground arith in rw p s
  resume_at-Safe born {j} here e =
      let busy = busy_at s (ground arith) in
      let p : j ≡ set_cont (record k { level = on }) k.current user = ground arith in
      let h = other-Safe s on k.holder k.next_tid k.cond_waiters in
      rw p (set_cont-Safe h busy user (user-Fits h busy))
  resume_at-Safe (restore old c) {j} here e =
      let p : j ≡ set_cont (record k { level = old }) k.current c = ground arith in
      rw p (restored-Safe old c here)
  resume_at-Safe (down r old c) {j} here e =
      sema_down_round-Safe s (busy_at s (ground arith)) r old c here (rw (here, resume) at e)
  resume_at-Safe (set_holder l c) {j} here e =
      let busy = busy_at s (ground arith) in
      let p : j ≡ set_cont (record k { holder = update k.holder l k.current }) k.current c =
        ground arith in
      let h = other-Safe s k.level (update k.holder l k.current) k.next_tid k.cond_waiters in
      rw p (
        set_cont-Safe h busy c
          (inside h busy c (λ u x. ground (arith, conts.own u k.current)) (λ t x. ground arith)))
  resume_at-Safe (give l c) {j} here e =
      let busy = busy_at s (ground arith) in
      sema_up-Safe
        (set_cont-Safe s busy c
          (inside s busy c (λ u x. ground (arith, conts.own u k.current)) (λ t x. ground arith)))
        (of_lock l) (rw (here, resume) at e)
  resume_at-Safe (wait l) {j} here e =
      let busy = busy_at s (ground arith) in
      sema_down-Safe s busy (of_waiter k.current) (reacquire l)
        (inside s busy (down (of_waiter k.current) k.level (reacquire l)) (λ u x. ground arith)
          (λ t x. cc))
        (inside s busy (reacquire l) (λ u x. cc) (λ t x. cc)) (rw (here, resume) at e)
  resume_at-Safe (reacquire l) {j} here e =
      let busy = busy_at s (ground arith) in
      lock_acquire-Safe s busy l user (user-Fits s busy) (rw (here, resume) at e)
  resume_at-Safe (broadcast v l) {j} here e =
      cond_broadcast_round-Safe s (busy_at s (ground arith)) v l (rw (here, resume) at e)
  resume_at-Safe (assign_tid t) {j} here e = assign_tid-Safe s t here (rw (here, resume) at e)
  resume_at-Safe (start_thread t) {j} here e = start_thread-Safe s t here (rw (here, resume) at e)

  resume-Safe : {j : Kernel} → resume k ≡ ok j → Safe j
  resume-Safe e = resume_at-Safe (k.cont k.current) refl e

-- From a state where the queues and the places of the threads are in order, each step of the kernel
-- leads to such a state.
pub Step-Safe : {k j : Kernel} → Step k j → Safe k → Safe j
unfolding sema_init sema_try_down cond_init cond_broadcast intr_enable intr_disable
Step-Safe (resumes e) s = resume-Safe s e
Step-Safe (interrupts _ e) s = timer_interrupt-Safe s e
Step-Safe {k} {j} (enables _ e) s =
    let p : j ≡ record k { level = on } = ground arith in
    rw p (other-Safe s on k.holder k.next_tid k.cond_waiters)
Step-Safe {k} (disables _) s = other-Safe s off k.holder k.next_tid k.cond_waiters
Step-Safe (yields _ e) s = thread_yield-Safe s e
Step-Safe (exits c e) s = thread_exit-Safe s c.1 e
Step-Safe (sets_priority p _ e) s = thread_set_priority-Safe s p e
Step-Safe (creates_thread t p c fresh e) s = thread_create-Safe s c.1 t p fresh e
Step-Safe (inits r v c unused) s = sema_init-Safe (3 * r) v unused s
Step-Safe (downs r c e) s =
    sema_down-Safe s c.1 (3 * r) user
      (inside s c.1 (down (3 * r) _ user) (λ u x. ground arith) (λ t x. cc)) (user-Fits s c.1) e
Step-Safe (tries r c) s = sema_try_down-Safe s (3 * r)
Step-Safe (ups r c e) s = sema_up-Safe s (3 * r) e
Step-Safe (acquires l c e) s = lock_acquire-Safe s c.1 l user (user-Fits s c.1) e
Step-Safe (tries_lock l b c e) s = lock_try_acquire-Safe s c.1 l b e
Step-Safe (releases l c e) s = lock_release-Safe s c.1 l user (user-Fits s c.1) e
Step-Safe {k} (inits_cond v c) s =
    other-Safe s k.level k.holder k.next_tid (update k.cond_waiters v [])
Step-Safe (waits_cond v l c e) s = cond_wait-Safe s c.1 v l e
Step-Safe (signals v l c e) s = cond_signal-Safe s v l e
Step-Safe {k} {j} (broadcasts v l c e) s =
    let p : j ≡ set_cont k k.current (broadcast v l) = ground arith in
    rw p
      (set_cont-Safe s c.1 (broadcast v l) (inside s c.1 (broadcast v l) (λ u x. cc) (λ t x. cc)))
Step-Safe (starts_idle r c none_yet e) s = idle_start-Safe s (3 * r) c.0 none_yet e
Step-Safe (idles here i e) s = idle_round-Safe s here e

thread_init-Safe : (t : ℕ) → t ≢ 0 → Safe (thread_init t)
unfolding thread_init
thread_init-Safe t ne = record {
  inv = record {
    queued = record {
      null = ground arith;
      run = λ u h. ground arith;
      queue = λ u. ground arith;
      all = λ u. ground arith;
      waiting = λ r u. ground arith;
      idle_waits = λ r. refl;
      idle_lives = ground arith;
    };
    current_runs = ground arith;
  };
  conts = record {
    own = λ u v h. absurd (cc);
    pending = λ u v h. absurd (cc);
    unique = λ u v w h i. absurd (cc);
    idle_calm = refl;
    idle_here = inl refl;
  };
}

pub Reach-Safe : {t : ℕ} {k : Kernel} → t ≢ 0 → Reach t k → Safe k
Reach-Safe {t} ne start = thread_init-Safe t ne
Reach-Safe ne (later r e) = Step-Safe e (Reach-Safe ne r)
