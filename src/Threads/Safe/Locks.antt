-- ===== src/Threads/Safe/Locks.antt =====
-- The locks of threads/synch.c keep the queues and the places in order.
use cs380l.Base.{ℕ, ◌≡◌, ◌≢◌, inl, arith, Option}
use cs380l.Threads.State.{
  Cont, user, down, set_holder, give, Thread, Kernel, ok, of_lock, is_blocked, is_ready, is_thread,
  is_running, is_dying, set_cont, update, count,
}
use cs380l.Threads.Sched.{thread_current}
use cs380l.Threads.Synch.{
  sema_down, sema_init, lock_acquire, lock_release, lock_held_by_current_thread,
}
use cs380l.Threads.Queues.Synch.{sema_init-Inv}
use cs380l.Threads.Conts.Moves.{Fits}
use cs380l.Threads.Safe.{Safe, inside, set_cont-Safe, sema_down-Safe, other-Safe}

-- What a thread structure holds beside the status does not matter.
pub same_status-Safe :
    {k : Kernel} (f : ℕ → Option Thread)
    → ((t : ℕ) → is_running (f t) ≡ is_running (k.thread t))
    → ((t : ℕ) → is_ready (f t) ≡ is_ready (k.thread t))
    → ((t : ℕ) → is_blocked (f t) ≡ is_blocked (k.thread t))
    → ((t : ℕ) → is_dying (f t) ≡ is_dying (k.thread t))
    → ((t : ℕ) → is_thread (f t) ≡ is_thread (k.thread t))
    → Safe k
    → Safe (record k { thread = f })
same_status-Safe {k} f run rdy blk die here s = record {
  inv = record {
    queued = record {
      null = ground (arith, q.null, here 0);
      run = λ t h. ground (arith, q.run t, run t);
      queue = λ t. ground (arith, q.queue t, rdy t);
      all = λ t. ground (arith, q.all t, here t, die t);
      waiting = λ r t. ground (arith, q.waiting r t, blk t);
      idle_waits = q.idle_waits;
      idle_lives = ground (arith, q.idle_lives, die k.idle_thread);
    };
    current_runs = ground (arith, s.inv.current_runs, run k.current);
  };
  conts = record {
    own = s.conts.own;
    pending = λ u t h. ground (arith, s.conts.pending u t, blk t);
    unique = s.conts.unique;
    idle_calm = s.conts.idle_calm;
    idle_here = ground (arith, s.conts.idle_here, here k.idle_thread);
  };
}
  where
    open s.inv use {queued as q}

pub sema_init-Safe :
    {k : Kernel} (r v : ℕ)
    → ((t : ℕ) → count t (k.semaphore r).waiters ≡ 0)
    → Safe k
    → Safe (sema_init r v k)
unfolding sema_init
sema_init-Safe {k} r v nobody s = record {
  inv = unfold sema_init in sema_init-Inv r v nobody s.inv;
  conts = record {
    own = s.conts.own;
    pending = s.conts.pending;
    unique = s.conts.unique;
    idle_calm = s.conts.idle_calm;
    idle_here = s.conts.idle_here;
  };
}

pub lock_acquire-eq-ok :
    (l : ℕ) (c : Cont) (k j : Kernel)
    → lock_acquire l c k ≡ ok j
    → sema_down (of_lock l) (set_holder l c) k ≡ ok j
unfolding lock_acquire lock_held_by_current_thread thread_current
lock_acquire-eq-ok l c k j e = ground arith

pub lock_release-eq-ok :
    (l : ℕ) (c : Cont) (k j : Kernel)
    → lock_release l c k ≡ ok j
    → (k.holder l ≡ k.current)
      × (j ≡ set_cont (record k { holder = update k.holder l 0 }) k.current (give l c))
unfolding lock_release lock_held_by_current_thread thread_current
lock_release-eq-ok l c k j e = ground arith

module _ {k : Kernel} (s : Safe k) (busy : k.current ≢ k.idle_thread) where
  open s use {inv, conts}

  pub set_holder-Fits : (l : ℕ) (c : Cont) → Fits c k → Fits (set_holder l c) k
  set_holder-Fits l c f = record {
    own = f.own;
    pending = f.pending;
    unique = f.unique;
    idle = inl busy;
  }

  down-Fits : (l : ℕ) (c : Cont) → Fits c k → Fits (down (of_lock l) k.level c) k
  down-Fits l c f = record {
    own = λ u h. ground (arith, f.own u);
    pending = f.pending;
    unique = f.unique;
    idle = inl busy;
  }

  pub lock_acquire-Safe :
      (l : ℕ) (c : Cont) {j : Kernel} → Fits c k → lock_acquire l c k ≡ ok j → Safe j
  lock_acquire-Safe l c {j} f e =
      let g = set_holder-Fits l c f in
      sema_down-Safe s busy (of_lock l) (set_holder l c) (down-Fits l (set_holder l c) g) g
        (lock_acquire-eq-ok l c k j e)

  pub lock_release-Safe :
      (l : ℕ) (c : Cont) {j : Kernel} → Fits c k → lock_release l c k ≡ ok j → Safe j
  lock_release-Safe l c {j} f e = rw (lock_release-eq-ok l c k j e).1 (
      set_cont-Safe (other-Safe s k.level (update k.holder l 0) k.next_tid k.cond_waiters) busy
        (give l c)
        (record { own = f.own; pending = f.pending; unique = f.unique; idle = inl busy }))

  pub user-Fits : Fits user k
  user-Fits = inside s busy user (λ u h. cc) (λ t h. cc)
