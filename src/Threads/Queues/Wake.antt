-- ===== src/Threads/Queues/Wake.antt =====
-- `sema_up` of threads/synch.c, and what is built on it, keep the queues.
use cs380l.Base.{ℕ, ◌≡◌, true, List, [], ◌∷◌, arith, inl, inr, ◌⊎◌, ◌^◌, ◌%◌, ◌+◌, List-cases}
use cs380l.Threads.State.{Kernel, Cont, user, restore, down, ok, is_blocked, set_semaphore}
use cs380l.Threads.Sched.{thread_unblock}
use cs380l.Threads.Synch.{with_value, sema_up}
use cs380l.Threads.Queues.Sched.{count-push_back}
use cs380l.Threads.Queues.Events.{unblocked}
use cs380l.Threads.Queues.Synch.{value-Inv}
use cs380l.Threads.Queues.{waits, Inv}

abbrev pub up : ℕ → ℕ
up v = (v + 1) % 2 ^ 32

abbrev pub woken : ℕ → ℕ → List ℕ → Kernel → Kernel
woken s t ts k =
    set_semaphore
      (unblocked t (set_semaphore k s (record { value = (k.semaphore s).value; waiters = ts }))) s
      (record { value = up (k.semaphore s).value; waiters = ts })

pub sema_up_cases :
    (s : ℕ) (k j : Kernel)
    → sema_up s k ≡ ok j
    → (((k.semaphore s).waiters ≡ [])
        × (j ≡ set_semaphore k s (with_value (up (k.semaphore s).value) (k.semaphore s))))
      ⊎ ((t : ℕ) × (ts : List ℕ) × ((k.semaphore s).waiters ≡ t ∷ ts)
          × (is_blocked (k.thread t) ≡ true)
          × (j ≡ woken s t ts k))
unfolding sema_up thread_unblock
sema_up_cases s k j e = elim (List-cases (k.semaphore s).waiters) [
  | inl p ↦ inl (p, ground arith)
  | inr (t, ts, p) ↦ inr (t, ts, p, ground arith, ground arith)
]

-- A thread waits on one semaphore at a time.
waits_unique : (r s : ℕ) (c : Cont) → waits r c ≡ true → waits s c ≡ true → r ≡ s
waits_unique r s (down u old c) p q = ground arith
waits_unique r s (restore old c) p q = waits_unique r s c p q
waits_unique r s user p q = cc
waits_unique r s _ p q = cc

woken-Inv :
    (s t : ℕ) (ts : List ℕ) {k : Kernel}
    → (k.semaphore s).waiters ≡ t ∷ ts
    → Inv k
    → Inv (woken s t ts k)
woken-Inv s t ts {k} e inv = record {
  queued = record {
    null = ground (arith, q.null);
    run = λ u h. ground (arith, q.run u);
    queue = λ u.
        ground (
          arith,
          q.queue u,
          q.null,
          count-push_back u t k.ready_list,
          q.waiting s t,
          q.idle_waits s,
        );
    all = λ u. ground (arith, q.all u, q.waiting s t);
    waiting = λ r u. ground (
      arith,
      q.waiting r u,
      q.waiting s t,
      q.waiting s u,
      q.waiting r t,
      waits_unique r s (k.cont t),
    );
    idle_waits = q.idle_waits;
    idle_lives = ground (arith, q.idle_lives);
  };
  current_runs = ground (arith, inv.current_runs, q.waiting s t);
}
  where
    open inv use {queued as q}

pub sema_up-Inv : (s : ℕ) {k j : Kernel} → Inv k → sema_up s k ≡ ok j → Inv j
sema_up-Inv s {k} {j} inv e = elim (sema_up_cases s k j e) [
  | inl (p, h) ↦ rw h (value-Inv s (up (k.semaphore s).value) inv)
  | inr (t, ts, p, b, h) ↦ rw h (woken-Inv s t ts p inv)
]
