-- ===== src/Threads/Safe/Ops.antt =====
-- The calls of threads/thread.c and threads/synch.c keep the queues and the places in order.
use cs380l.Base.{
  ℕ, ◌≡◌, ◌≢◌, ◌⊎◌, ◌∷◌, inl, inr, List, Bool, true, false, arith, Bool-cases, List-cases, none,
  some, ℕ-cases,
}
use cs380l.Threads.State.{
  Cont, user, down, restore, set_holder, wait, assign_tid, Thread, on, off, Kernel, ok, >>=-eq-ok,
  of_waiter, of_lock, tid_lock, set_cont, update, count, push_back,
}
use cs380l.Threads.Sched.{thread_set_priority, thread_current, init_thread}
use cs380l.Threads.Synch.{
  sema_up, sema_try_down, sema_init, lock_acquire, lock_try_acquire, lock_release,
  lock_held_by_current_thread, cond_wait, cond_signal, cond_broadcast_round, thread_create,
  idle_start,
}
use cs380l.Threads.Queues.{waits}
use cs380l.Threads.Queues.Events.{init_thread-Inv, init_thread-eq-ok}
use cs380l.Threads.Queues.Synch.{sema_try_down-Inv}
use cs380l.Threads.Conts.{creates, mentions}
use cs380l.Threads.Conts.Moves.{Fits}
use cs380l.Threads.Safe.{Safe, sema_up-Safe, inside, set_cont-Safe, other-Safe, stay}
use cs380l.Threads.Safe.Locks.{
  sema_init-Safe, lock_acquire-Safe, lock_release-Safe, user-Fits, set_holder-Fits,
}

waits-mentions : (u : ℕ) (c : Cont) → waits (of_waiter u) c ≡ true → mentions u c ≡ true
waits-mentions u (down r old c) h = ground arith
waits-mentions u (restore old c) h = waits-mentions u c h
waits-mentions u user h = absurd (cc)
waits-mentions u _ h = absurd (cc)

-- Nobody waits on the semaphore on the stack of the thread that runs.
waiter-unused :
    {k : Kernel} → Safe k → (t : ℕ) → count t (k.semaphore (of_waiter k.current)).waiters ≡ 0
waiter-unused {k} s t = ground (
  arith,
  s.inv.queued.waiting (of_waiter k.current) t,
  waits-mentions k.current (k.cont t),
  s.conts.own k.current t,
  s.inv.current_runs,
)

pub cond_signal-cases :
    (v l : ℕ) (k j : Kernel)
    → cond_signal v l k ≡ ok j
    → (j ≡ k)
      ⊎ ((r : ℕ) × (rs : List ℕ) × (k.cond_waiters v ≡ r ∷ rs)
          × (sema_up r (record k { cond_waiters = update k.cond_waiters v rs }) ≡ ok j))
unfolding cond_signal lock_held_by_current_thread thread_current
cond_signal-cases v l k j e = elim (List-cases (k.cond_waiters v)) [
  | inl p ↦ inl (ground arith)
  | inr (r, rs, p) ↦ inr (r, rs, p, ground arith)
]

abbrev pub enqueued : ℕ → Kernel → ℕ → List ℕ
enqueued v k = update k.cond_waiters v (push_back (k.cond_waiters v) (of_waiter k.current))

pub cond_wait-eq-ok :
    (v l : ℕ) (k j : Kernel)
    → cond_wait v l k ≡ ok j
    → lock_release l
        (wait l)
        (record (sema_init (of_waiter k.current) 0 k) { cond_waiters = enqueued v k })
      ≡ ok j
unfolding cond_wait lock_held_by_current_thread thread_current sema_init
cond_wait-eq-ok v l k j e = ground arith

pub lock_try_acquire-cases :
    (l : ℕ) (b : Bool) (k j : Kernel)
    → lock_try_acquire l k ≡ ok (b, j)
    → let i = (sema_try_down (of_lock l) k).1 in
      (j ≡ i) ⊎ (j ≡ set_cont i i.current (set_holder l (i.cont i.current)))
unfolding lock_try_acquire lock_held_by_current_thread thread_current
lock_try_acquire-cases l b k j e = ground arith

pub thread_set_priority-eq-ok :
    (p : ℕ) (k j : Kernel)
    → thread_set_priority p k ≡ ok j
    → (th : Thread) × (k.thread k.current ≡ some th)
      × (j ≡ record k { thread = update k.thread k.current (some (record th { priority = p })) })
unfolding thread_set_priority thread_current
thread_set_priority-eq-ok p k j e = ground arith

abbrev pub starting_idle : Kernel → Kernel
starting_idle k = record k { idle_thread = k.current }

pub idle_start-eq-ok :
    (r : ℕ) (k j : Kernel) → idle_start r k ≡ ok j → sema_up r (starting_idle k) ≡ ok j
unfolding idle_start thread_current
idle_start-eq-ok r k j e = ground arith

abbrev pub sleeping : Kernel → Kernel
sleeping k = set_cont (record k { level = off }) k.current (restore on user)

module _ {k : Kernel} (s : Safe k) where
  open s use {inv, conts}

  pub sema_try_down-Safe : (r : ℕ) → Safe (sema_try_down r k).1
  unfolding sema_try_down
  sema_try_down-Safe r = elim (ℕ-cases (k.semaphore r).value) [
    | inl z ↦ rw (z, sema_try_down) s
    | inr (v, p) ↦ record {
      inv = sema_try_down-Inv r k inv;
      conts =
          rw (p, sema_try_down)
            (record {
              own = conts.own;
              pending = conts.pending;
              unique = conts.unique;
              idle_calm = conts.idle_calm;
              idle_here = conts.idle_here;
            });
    }
  ]

  pub cond_signal-Safe : (v l : ℕ) {j : Kernel} → cond_signal v l k ≡ ok j → Safe j
  cond_signal-Safe v l {j} e = elim (cond_signal-cases v l k j e) [
    | inl p ↦ rw p s
    | inr (r, rs, _, p) ↦
        sema_up-Safe (other-Safe s k.level k.holder k.next_tid (update k.cond_waiters v rs)) r p
  ]

  module _ (busy : k.current ≢ k.idle_thread) where
    pub cond_wait-Safe : (v l : ℕ) {j : Kernel} → cond_wait v l k ≡ ok j → Safe j
    unfolding sema_init
    cond_wait-Safe v l {j} e =
        let p = cond_wait-eq-ok v l k j e in
        let i = sema_init-Safe (of_waiter k.current) 0 (waiter-unused s) s in
        let h = other-Safe i k.level k.holder k.next_tid (enqueued v k) in
        lock_release-Safe h busy l (wait l) (inside h busy (wait l) (λ u x. cc) (λ t x. cc)) p

    pub cond_broadcast_round-Safe :
        (v l : ℕ) {j : Kernel} → cond_broadcast_round v l k ≡ ok j → Safe j
    unfolding cond_broadcast_round
    cond_broadcast_round-Safe v l {j} e = elim (List-cases (k.cond_waiters v)) [
      | inl p ↦
          let q : j ≡ set_cont k k.current user = ground arith in
          rw q (set_cont-Safe s busy user (user-Fits s busy))
      | inr (r, rs, p) ↦ cond_signal-Safe v l (ground arith)
    ]

    try_busy : (r : ℕ) → (sema_try_down r k).1.current ≢ (sema_try_down r k).1.idle_thread
    unfolding sema_try_down
    try_busy r = elim (ℕ-cases (k.semaphore r).value) [
      | inl z ↦ rw (z, sema_try_down) busy
      | inr (v, p) ↦ rw (p, sema_try_down) busy
    ]

    pub lock_try_acquire-Safe :
        (l : ℕ) (b : Bool) {j : Kernel} → lock_try_acquire l k ≡ ok (b, j) → Safe j
    unfolding sema_try_down
    lock_try_acquire-Safe l b {j} e =
        let i = (sema_try_down (of_lock l) k).1 in
        let h : Safe i = sema_try_down-Safe (of_lock l) in
        elim (lock_try_acquire-cases l b k j e) [
          | inl p ↦ rw p h
          | inr p ↦ rw p (
              set_cont-Safe h (try_busy (of_lock l)) (set_holder l (i.cont i.current))
                (set_holder-Fits h (try_busy (of_lock l)) l (i.cont i.current) (stay h)))
        ]

    -- The new thread is not known to anybody yet.
    pub init_thread-Safe :
        (t p : ℕ) {j : Kernel}
        → k.thread t ≡ none
        → init_thread t p k ≡ ok j
        → Safe j × Fits (assign_tid t) j × (j.current ≢ j.idle_thread)
    init_thread-Safe t p {j} fresh e =
        let (ne, le, h) = init_thread-eq-ok t p k j e in
        let f : (u : ℕ) → creates t (k.cont u) ≡ false =
          λ u. ground (arith, conts.pending u t, Bool-cases (creates t (k.cont u))) in
        (
          record {
            inv = init_thread-Inv t p fresh inv e;
            conts = rw h (record {
              own = λ u v x. ground (arith, conts.own u v);
              pending = λ u v x. ground (arith, conts.pending u v);
              unique = λ u w v x y. ground (arith, conts.unique u w v);
              idle_calm = ground (arith, conts.idle_calm, conts.idle_here);
              idle_here = ground (arith, conts.idle_here);
            });
          },
          rw h (record {
            own = λ u x. cc;
            pending = λ u x. (ground arith, ground arith);
            unique = λ u v x y. ground (arith, f u);
            idle = inl (ground arith);
          }),
          rw h busy,
        )

    pub thread_create-Safe :
        (t p : ℕ) {j : Kernel} → k.thread t ≡ none → thread_create (some t) p k ≡ ok j → Safe j
    unfolding thread_create
    thread_create-Safe t p {j} fresh e =
        let (i, b, a) = >>=-eq-ok (init_thread t p k) (lock_acquire tid_lock (assign_tid t)) e in
        let (h, f, n) = init_thread-Safe t p fresh a in
        lock_acquire-Safe h n tid_lock (assign_tid t) f b
