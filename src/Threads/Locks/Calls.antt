-- ===== src/Threads/Locks/Calls.antt =====
-- threads/synch.c: the calls of the current thread keep the locks in order.
use cs380l.Base.{
  ℕ, suc, ◌+◌, ◌≡◌, ◌≢◌, ◌⊎◌, inl, inr, Bool, true, false, arith, refl, List-cases, ℕ-cases, some,
}
use cs380l.Threads.State.{
  Cont, user, born, restore, down, set_holder, give, wait, reacquire, broadcast, assign_tid,
  start_thread, on, Kernel, ok, >>=-eq-ok, of_lock, of_waiter, tid_lock, update, set_cont,
  set_semaphore,
}
use cs380l.Threads.Sched.{thread_current, init_thread}
use cs380l.Threads.Synch.{
  sema_init, sema_try_down, with_value, with_tid, lock_acquire, lock_try_acquire, lock_release,
  lock_held_by_current_thread, cond_wait, cond_signal, cond_broadcast_round, thread_create, resume,
}
use cs380l.Threads.Queues.Events.{init_thread-eq-ok}
use cs380l.Threads.Queues.Sched.{count-push_back}
use cs380l.Threads.Safe.{Safe}
use cs380l.Threads.Safe.Locks.{lock_acquire-eq-ok, lock_release-eq-ok}
use cs380l.Threads.Safe.Ops.{cond_signal-cases, cond_wait-eq-ok, enqueued}
use cs380l.Threads.Locks.{claims, tame, Locks}
use cs380l.Threads.Locks.Ops.{
  same-Locks, set_cont-Locks, other-Locks, thread_unblock-Locks, sema_up_elsewhere-Locks,
}
use cs380l.Threads.Locks.Sema.{
  tame-claims, tame-formed, sema_down_round-Locks, sema_down-Locks, give-Locks,
}

pub lock_try_acquire-eq-ok :
    (l : ℕ) (b : Bool) (k j : Kernel)
    → lock_try_acquire l k ≡ ok (b, j)
    → (j ≡ k)
      ⊎ ((v : ℕ) × ((k.semaphore (of_lock l)).value ≡ suc v)
          × (j
              ≡ set_cont
                  (set_semaphore k (of_lock l) (with_value v (k.semaphore (of_lock l))))
                  k.current
                  (set_holder l (k.cont k.current))))
unfolding lock_try_acquire lock_held_by_current_thread thread_current sema_try_down
lock_try_acquire-eq-ok l b k j e = elim (ℕ-cases (k.semaphore (of_lock l)).value) [
  | inl z ↦ inl (ground arith)
  | inr (v, p) ↦ inr (v, p, ground arith)
]

module _ {k : Kernel} (s : Locks k) where
  pub lock_acquire-Locks :
      (l : ℕ) (c : Cont) {j : Kernel}
      → ((m : ℕ) → claims m (k.cont k.current) ≡ false)
      → tame c ≡ true
      → lock_acquire l c k ≡ ok j
      → Locks j
  lock_acquire-Locks l c {j} quiet t e =
      sema_down-Locks s quiet (of_lock l) (set_holder l c) (ground arith)
        (lock_acquire-eq-ok l c k j e)

  pub lock_release-Locks :
      (l : ℕ) (c : Cont) {j : Kernel}
      → k.current ≢ 0
      → ((m : ℕ) → claims m (k.cont k.current) ≡ false)
      → tame c ≡ true
      → lock_release l c k ≡ ok j
      → Locks j
  lock_release-Locks l c {j} here quiet t e =
      let (h, p) = lock_release-eq-ok l c k j e in
      rw p (record {
        bound = s.bound;
        free = λ m u q. ground (arith, s.free m u, s.free l u, h);
        one = λ m u w a b. ground (arith, s.one m u w, s.sole l u, s.sole l w, h);
        sole = λ m u q. ground (arith, s.sole m u, h);
        form = λ u. ground (arith, s.form u);
        conds = s.conds;
      })

  set_holder-Locks :
      (l : ℕ) (c : Cont)
      → k.cont k.current ≡ set_holder l c
      → Locks (set_cont (record k { holder = update k.holder l k.current }) k.current c)
  set_holder-Locks l c here = record {
    bound = s.bound;
    free =
        λ m u q. ground (arith, s.free m u, s.free l k.current, tame-claims m c, s.form k.current);
    one = λ m u w a b. ground (arith, s.one m u w, tame-claims m c, s.form k.current);
    sole =
        λ m u q. ground (arith, s.sole m u, s.one l u k.current, tame-claims m c, s.form k.current);
    form = λ u. ground (arith, s.form u, s.form k.current, tame-formed c);
    conds = s.conds;
  }

  init_thread-Locks : (t p : ℕ) {j : Kernel} → init_thread t p k ≡ ok j → Locks j
  init_thread-Locks t p {j} e =
      let (ne, le, h) = init_thread-eq-ok t p k j e in
      rw h (record {
        bound = s.bound;
        free = λ m u q. ground (arith, s.free m u);
        one = λ m u w a b. ground (arith, s.one m u w);
        sole = λ m u q. ground (arith, s.sole m u);
        form = λ u. ground (arith, s.form u);
        conds = s.conds;
      })

  pub cond_signal-Locks : (v l : ℕ) {j : Kernel} → cond_signal v l k ≡ ok j → Locks j
  cond_signal-Locks v l {j} e = elim (cond_signal-cases v l k j e) [
    | inl p ↦ rw p s
    | inr (r, rs, p, q) ↦
        sema_up_elsewhere-Locks {k = record k { cond_waiters = update k.cond_waiters v rs }}
          (record {
            bound = s.bound;
            free = s.free;
            one = s.one;
            sole = s.sole;
            form = s.form;
            conds = λ w m. ground (arith, s.conds w m, s.conds v m);
          })
          r (λ m. ground (arith, s.conds v m)) q
  ]

module _ {k : Kernel} (s : Locks k) where
  waiting-Locks :
      (v : ℕ) → Locks (record (sema_init (of_waiter k.current) 0 k) { cond_waiters = enqueued v k })
  unfolding sema_init
  waiting-Locks v =
      same-Locks {k = k}
        {j = record (sema_init (of_waiter k.current) 0 k) { cond_waiters = enqueued v k }}
        (λ m. ground arith) (λ m. refl) (λ m t. refl) s.form
        (λ w m. ground (
          arith,
          s.conds w m,
          s.conds v m,
          count-push_back (of_lock m) (of_waiter k.current) (k.cond_waiters v),
        ))
        s

  pub cond_wait-Locks :
      (v l : ℕ) {j : Kernel}
      → k.current ≢ 0
      → ((m : ℕ) → claims m (k.cont k.current) ≡ false)
      → cond_wait v l k ≡ ok j
      → Locks j
  unfolding sema_init
  cond_wait-Locks v l {j} here quiet e =
      lock_release-Locks (waiting-Locks v) l (wait l) here quiet refl (cond_wait-eq-ok v l k j e)

  cond_broadcast_round-Locks :
      (v l : ℕ) {j : Kernel}
      → k.cont k.current ≡ broadcast v l
      → cond_broadcast_round v l k ≡ ok j
      → Locks j
  unfolding cond_broadcast_round
  cond_broadcast_round-Locks v l {j} here e = elim (List-cases (k.cond_waiters v)) [
    | inl p ↦
        let q : j ≡ set_cont k k.current user = ground arith in
        rw q (set_cont-Locks s user (λ m. ground arith) refl)
    | inr (r, rs, p) ↦ cond_signal-Locks s v l (ground arith)
  ]

  pub resume_at-Locks :
      (c : Cont) {j : Kernel} → k.current ≢ 0 → k.cont k.current ≡ c → resume k ≡ ok j → Locks j
  unfolding resume
  resume_at-Locks user {j} cur here e = let p : j ≡ k = ground arith in rw p s
  resume_at-Locks born {j} cur here e =
      let p : j ≡ set_cont (record k { level = on }) k.current user = ground arith in
      rw p (
        set_cont-Locks {k = record k { level = on }} (other-Locks s refl refl refl refl) user
          (λ m. ground arith) refl)
  resume_at-Locks (restore old c) {j} cur here e =
      let p : j ≡ set_cont (record k { level = old }) k.current c = ground arith in
      rw p (
        set_cont-Locks {k = record k { level = old }} (other-Locks s refl refl refl refl) c
          (λ m. ground arith) (ground (arith, s.form k.current)))
  resume_at-Locks (down r old c) {j} cur here e =
      sema_down_round-Locks s (λ m. ground arith) r old c (ground (arith, s.form k.current))
        (rw (here, resume) at e)
  resume_at-Locks (set_holder l c) {j} cur here e =
      let p : j ≡ set_cont (record k { holder = update k.holder l k.current }) k.current c =
        ground arith in
      rw p (set_holder-Locks s l c here)
  resume_at-Locks (give l c) {j} cur here e = give-Locks s l c here (rw (here, resume) at e)
  resume_at-Locks (wait l) {j} cur here e =
      sema_down-Locks s (λ m. ground arith) (of_waiter k.current) (reacquire l) (ground arith)
        (rw (here, resume) at e)
  resume_at-Locks (reacquire l) {j} cur here e =
      lock_acquire-Locks s l user (λ m. ground arith) refl (rw (here, resume) at e)
  resume_at-Locks (broadcast v l) {j} cur here e =
      cond_broadcast_round-Locks v l here (rw (here, resume) at e)
  resume_at-Locks (assign_tid t) {j} cur here e =
      let f = update k.thread t (with_tid k.next_tid (k.thread t)) in
      lock_release-Locks {k = record k { thread = f; next_tid = k.next_tid + 1 }}
        (other-Locks s refl refl refl refl) tid_lock (start_thread t) cur (λ m. ground arith) refl
        (rw (here, resume) at e)
  resume_at-Locks (start_thread t) {j} cur here e =
      thread_unblock-Locks {k = set_cont k k.current user}
        (set_cont-Locks s user (λ m. ground arith) refl) t (rw (here, resume) at e)

  pub thread_create-Locks :
      (t p : ℕ) {j : Kernel} → k.cont k.current ≡ user → thread_create (some t) p k ≡ ok j → Locks j
  unfolding thread_create
  thread_create-Locks t p {j} here e =
      let (i, b, a) = >>=-eq-ok (init_thread t p k) (lock_acquire tid_lock (assign_tid t)) e in
      let (ne, le, h) = init_thread-eq-ok t p k i a in
      lock_acquire-Locks (init_thread-Locks s t p a) tid_lock (assign_tid t) (λ m. ground arith)
        refl b

  -- The current thread is a thread.
  pub current_ne : Safe k → k.current ≢ 0
  current_ne h e = ground (arith, h.inv.queued.null, h.inv.current_runs)
