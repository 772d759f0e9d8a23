-- ===== src/Threads/Safe.antt =====
-- Each operation of the kernel keeps the queues and the places in order.
pub mod Locks
pub mod Ops
pub mod Starts
pub mod Steps
use cs380l.Base.{
  ℕ, suc, ◌*◌, ◌+◌, ◌≡◌, ◌≢◌, ◌⊎◌, inl, inr, List, [], ◌∷◌, Bool, true, false, ◌==◌, if◌then◌else◌,
  arith, refl, Bool-cases, List-cases, sym, ap, ◌∙◌, Option, none, some, not,
}
use cs380l.Threads.State.{
  Cont, born, user, down, restore, set_holder, give, wait, reacquire, broadcast, assign_tid,
  start_thread, Level, on, off, Kernel, Result, ok, panic, ◌>>=◌, ◌>>◌, assert, of_waiter, of_lock,
  plain, tid_lock, is_blocked, is_thread, is_running, is_dying, set_cont, set_status, blocked,
  update, set_semaphore, count,
}
use cs380l.Threads.Sched.{
  schedule, thread_block, thread_yield, thread_exit, thread_unblock, timer_interrupt,
  thread_set_priority, thread_current,
}
use cs380l.Threads.Synch.{
  sema_down_round, sema_down, sema_up, with_value, sema_try_down, sema_init, lock_acquire,
  lock_try_acquire, lock_release, lock_held_by_current_thread, cond_init, cond_wait, cond_signal,
  cond_broadcast, cond_broadcast_round, thread_create, with_tid, resume, idle_start, idle_round,
}
use cs380l.Threads.Queues.{waits, Inv, Queued}
use cs380l.Threads.Queues.Ops.{thread_block-Inv, thread_exit-Inv, thread_yield-Inv}
use cs380l.Threads.Queues.Events.{
  init_thread-Inv, init_thread-eq-ok, initialised, thread_unblock-Inv, timer_interrupt-Inv,
}
use cs380l.Threads.Queues.Synch.{
  other-Inv, set_cont-Inv, sema_init-Inv, sema_down-Inv, sema_down_round-Inv, sema_try_down-Inv,
}
use cs380l.Threads.Queues.Wake.{sema_up-Inv}
use cs380l.Threads.Conts.{creates, mentions, calm, Conts}
use cs380l.Threads.Conts.Moves.{Moves, Fits, Fits-inside, Moves-Conts}
use cs380l.Threads.Conts.Ops.{
  thread_block-Moves, thread_yield-Moves, thread_exit-Moves, timer_interrupt-Moves,
  sema_down_round-Moves, sema_down-Moves, sema_up-Moves,
}

pub record Safe (k : Kernel) : Type 0 where
  pub inv : Inv k
  pub conts : Conts k

module _ {k : Kernel} (s : Safe k) where
  open s use {inv, conts}

  -- The old place fits.
  pub stay : Fits (k.cont k.current) k
  stay = record {
    own = λ u h. conts.own u k.current h;
    pending = conts.pending k.current;
    unique = λ v t h i. conts.unique v k.current t i h;
    idle = elim (Bool-cases (k.current == k.idle_thread)) [
      | inl e ↦ inr (ground (arith, conts.idle_calm))
      | inr e ↦ inl (ground arith)
    ];
  }

  pub Moves-Safe : {j : Kernel} {next : Cont} → Inv j → Moves next k j → Fits next k → Safe j
  Moves-Safe i m f = record { inv = i; conts = Moves-Conts conts inv m f }

  pub sema_up-Safe : (r : ℕ) {j : Kernel} → sema_up r k ≡ ok j → Safe j
  sema_up-Safe r e = Moves-Safe (sema_up-Inv r inv e) (sema_up-Moves r inv e) stay

  pub thread_yield-Safe : {j : Kernel} → thread_yield k ≡ ok j → Safe j
  thread_yield-Safe e =
      Moves-Safe (thread_yield-Inv inv e) (thread_yield-Moves inv e)
        (record { own = stay.own; pending = stay.pending; unique = stay.unique; idle = stay.idle })

  pub timer_interrupt-Safe : {j : Kernel} → timer_interrupt k ≡ ok j → Safe j
  timer_interrupt-Safe e = elim (timer_interrupt-Moves inv e) [
    | inl m ↦
        Moves-Safe (timer_interrupt-Inv inv e) m (record {
          own = stay.own;
          pending = stay.pending;
          unique = stay.unique;
          idle = stay.idle;
        })
    | inr m ↦ Moves-Safe (timer_interrupt-Inv inv e) m stay
  ]

  module _ (busy : k.current ≢ k.idle_thread) where
    pub thread_exit-Safe : {j : Kernel} → thread_exit k ≡ ok j → Safe j
    thread_exit-Safe e = Moves-Safe (thread_exit-Inv inv busy e) (thread_exit-Moves inv busy e) stay

    pub inside :
        (next : Cont)
        → ((u : ℕ) → mentions u next ≡ true → u ≡ k.current)
        → ((t : ℕ) → creates t next ≡ true → creates t (k.cont k.current) ≡ true)
        → Fits next k
    inside next = Fits-inside next conts busy

    -- A change of the place alone.
    pub set_cont-Safe : (c : Cont) → Fits c k → Safe (set_cont k k.current c)
    set_cont-Safe c f =
        Moves-Safe (set_cont-Inv c busy inv)
          (record { cont = λ t. refl; idle_thread = refl; blocked = λ t b i c. b; idle = λ b. b }) f

    pub sema_down-Safe :
        (r : ℕ) (c : Cont) {j : Kernel}
        → Fits (down r k.level c) k
        → Fits c k
        → sema_down r c k ≡ ok j
        → Safe j
    sema_down-Safe r c f g e = elim (sema_down-Moves r c busy inv e) [
      | inl m ↦ Moves-Safe (sema_down-Inv r c busy inv e) m f
      | inr m ↦ Moves-Safe (sema_down-Inv r c busy inv e) m g
    ]

    pub sema_down_round-Safe :
        (r : ℕ) (old : Level) (c : Cont) {j : Kernel}
        → k.cont k.current ≡ down r old c
        → sema_down_round r old c k ≡ ok j
        → Safe j
    sema_down_round-Safe r old c here e =
        let i = sema_down_round-Inv r old c busy (λ q. ground arith) inv e in
        elim (sema_down_round-Moves r old c busy (λ q. ground arith) inv e) [
          | inl m ↦ Moves-Safe i m stay
          | inr m ↦
              Moves-Safe i m
                (inside c (λ u h. ground (arith, conts.own u k.current)) (λ t h. ground arith))
        ]

  -- Fields that neither invariant reads.
  pub other-Safe :
      (l : Level) (h : ℕ → ℕ) (n : ℕ) (w : ℕ → List ℕ)
      → Safe (record k { level = l; holder = h; next_tid = n; cond_waiters = w })
  other-Safe l h n w = record {
    inv = other-Inv l h n w inv;
    conts = record {
      own = conts.own;
      pending = conts.pending;
      unique = conts.unique;
      idle_calm = conts.idle_calm;
      idle_here = conts.idle_here;
    };
  }
