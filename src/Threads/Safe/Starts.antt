-- ===== src/Threads/Safe/Starts.antt =====
-- threads/thread.c: the start of a thread, its number, its priority, and the idle thread.
use cs380l.Threads.Safe.Ops.{idle_start-eq-ok, sleeping, starting_idle, thread_set_priority-eq-ok}
use cs380l.Base.{ℕ, ◌+◌, ◌≡◌, ◌≢◌, inr, false, arith, some}
use cs380l.Threads.State.{user, assign_tid, start_thread, Kernel, ok, tid_lock, set_cont, update}
use cs380l.Threads.Sched.{thread_unblock, thread_set_priority}
use cs380l.Threads.Synch.{lock_release, with_tid, idle_start, idle_round}
use cs380l.Threads.Queues.{waits}
use cs380l.Threads.Queues.Ops.{thread_block-Inv}
use cs380l.Threads.Queues.Events.{thread_unblock-Inv, thread_unblock-eq-ok}
use cs380l.Threads.Conts.{calm}
use cs380l.Threads.Conts.Ops.{thread_block-Moves}
use cs380l.Threads.Safe.{Safe, sema_up-Safe, inside, set_cont-Safe, other-Safe, stay, Moves-Safe}
use cs380l.Threads.Safe.Locks.{same_status-Safe, lock_release-Safe, user-Fits}

module _ {k : Kernel} (s : Safe k) where
  open s use {inv, conts}

  pub busy_at : calm (k.cont k.current) ≡ false → k.current ≢ k.idle_thread
  busy_at h i = ground (arith, conts.idle_calm)

  -- Only the creator can wake a new thread, and it does so once.
  pub start_thread-Safe :
      (t : ℕ) {j : Kernel}
      → k.cont k.current ≡ start_thread t
      → thread_unblock t (set_cont k k.current user) ≡ ok j
      → Safe j
  start_thread-Safe t {j} here e =
      let busy = busy_at (ground arith) in
      let i : Kernel = set_cont k k.current user in
      let h : Safe i = set_cont-Safe s busy user (user-Fits s busy) in
      let (b, c) = conts.pending k.current t (ground arith) in
      let ne : t ≢ k.current = λ x. ground (arith, inv.current_runs) in
      let (b', p) = thread_unblock-eq-ok t i j e in
      record {
        inv =
            thread_unblock-Inv t {k = i} {j = j} (ground (arith, conts.idle_calm))
              (λ r. ground arith) h.inv e;
        conts = rw p (record {
          own = h.conts.own;
          pending = λ u v x. ground (arith, h.conts.pending u v, conts.unique u k.current t);
          unique = h.conts.unique;
          idle_calm = h.conts.idle_calm;
          idle_here = ground (arith, h.conts.idle_here);
        });
      }

  pub thread_set_priority-Safe : (p : ℕ) {j : Kernel} → thread_set_priority p k ≡ ok j → Safe j
  thread_set_priority-Safe p {j} e =
      let (th, here, h) = thread_set_priority-eq-ok p k j e in
      rw h (
        same_status-Safe (update k.thread k.current (some (record th { priority = p })))
          (λ u. ground arith) (λ u. ground arith) (λ u. ground arith) (λ u. ground arith)
          (λ u. ground arith) s)

  pub assign_tid-Safe :
      (t : ℕ) {j : Kernel}
      → k.cont k.current ≡ assign_tid t
      → lock_release tid_lock (start_thread t) (record k {
        thread = update k.thread t (with_tid k.next_tid (k.thread t));
        next_tid = k.next_tid + 1;
      })
        ≡ ok j
      → Safe j
  assign_tid-Safe t {j} here e =
      let busy = busy_at (ground arith) in
      let f = update k.thread t (with_tid k.next_tid (k.thread t)) in
      let h =
        same_status-Safe f (λ u. ground arith) (λ u. ground arith) (λ u. ground arith)
          (λ u. ground arith) (λ u. ground arith) s in
      let i = other-Safe h k.level k.holder (k.next_tid + 1) k.cond_waiters in
      lock_release-Safe i busy tid_lock (start_thread t)
        (inside i busy (start_thread t) (λ u x. cc) (λ u x. ground arith)) e

  pub starting_idle-Safe : k.cont k.current ≡ user → k.idle_thread ≡ 0 → Safe (starting_idle k)
  starting_idle-Safe here none_yet = record {
    inv = record {
      queued = record {
        null = q.null;
        run = q.run;
        queue = λ t. ground (arith, q.queue t, inv.current_runs, q.null);
        all = q.all;
        waiting = q.waiting;
        idle_waits = λ r. ground arith;
        idle_lives = ground (arith, inv.current_runs);
      };
      current_runs = inv.current_runs;
    };
    conts = record {
      own = conts.own;
      pending = conts.pending;
      unique = conts.unique;
      idle_calm = ground arith;
      idle_here = inr (ground (arith, inv.current_runs));
    };
  }
    where
      open inv use {queued as q}

  pub idle_start-Safe :
      (r : ℕ) {j : Kernel}
      → k.cont k.current ≡ user
      → k.idle_thread ≡ 0
      → idle_start r k ≡ ok j
      → Safe j
  idle_start-Safe r {j} here none_yet e =
      sema_up-Safe (starting_idle-Safe here none_yet) r (idle_start-eq-ok r k j e)

  pub sleeping-Safe : k.cont k.current ≡ user → Safe (sleeping k)
  sleeping-Safe here = record {
    inv = record {
      queued = record {
        null = q.null;
        run = q.run;
        queue = q.queue;
        all = q.all;
        waiting = λ r t. ground (arith, q.waiting r t);
        idle_waits = λ r. ground (arith, q.idle_waits r);
        idle_lives = q.idle_lives;
      };
      current_runs = inv.current_runs;
    };
    conts = record {
      own = λ u t. ground (arith, conts.own u t);
      pending = λ u t h. ground (arith, conts.pending u t, inv.current_runs);
      unique = λ u v t h i. ground (arith, conts.unique u v t);
      idle_calm = ground (arith, conts.idle_calm);
      idle_here = conts.idle_here;
    };
  }
    where
      open inv use {queued as q}

  pub idle_round-Safe : {j : Kernel} → k.cont k.current ≡ user → idle_round k ≡ ok j → Safe j
  unfolding idle_round
  idle_round-Safe {j} here e =
      let h = sleeping-Safe here in
      let w : (r : ℕ) → waits r ((sleeping k).cont k.current) ≡ false = λ r. ground arith in
      Moves-Safe h (thread_block-Inv h.inv w e) (thread_block-Moves h.inv w e) (stay h)
