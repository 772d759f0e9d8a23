-- ===== src/Threads/Locks/Sema.antt =====
-- `sema_down` and `sema_up` on the semaphore of a lock.
use cs380l.Base.{ℕ, suc, ◌≡◌, ◌≢◌, inl, inr, List, true, false, arith, refl}
use cs380l.Threads.State.{
  Cont, user, restore, down, set_holder, give, reacquire, Level, off, Kernel, ok, of_lock, set_cont,
  set_status, set_semaphore, blocked,
}
use cs380l.Threads.Synch.{sema_down_round, sema_down, sema_up, with_value}
use cs380l.Threads.Queues.Ops.{thread_block-eq-ok}
use cs380l.Threads.Queues.Synch.{queueing, sema_down_round_cases}
use cs380l.Threads.Queues.Wake.{sema_up_cases, woken, up}
use cs380l.Threads.Locks.{claims, tame, follows, formed, Locks}
use cs380l.Threads.Locks.Ops.{same-Locks, schedule-Locks, set_cont-Locks, other-Locks}

abbrev pub taken : ℕ → ℕ → Level → Cont → Kernel → Kernel
taken s v old c k =
    set_cont (set_semaphore (record k { level = old }) s (with_value v (k.semaphore s))) k.current c

pub tame-claims : (m : ℕ) (c : Cont) → tame c ≡ true → claims m c ≡ false
tame-claims m user h = refl
tame-claims m (restore old c) h = absurd (cc)
tame-claims m (down r old c) h = refl
tame-claims m (set_holder l c) h = absurd (cc)
tame-claims m (give l c) h = absurd (cc)
tame-claims m _ h = refl

pub tame-formed : (c : Cont) → tame c ≡ true → formed c ≡ true
tame-formed user h = refl
tame-formed (restore old c) h = absurd (cc)
tame-formed (down r old c) h = absurd (cc)
tame-formed (set_holder l c) h = absurd (cc)
tame-formed (give l c) h = absurd (cc)
tame-formed _ h = refl

module _ {k : Kernel} (s : Locks k) (quiet : (l : ℕ) → claims l (k.cont k.current) ≡ false) where
  -- To take the semaphore of a lock is to have the only claim.
  take_lock-Locks :
      (l v : ℕ) (old : Level) (c : Cont)
      → tame c ≡ true
      → (k.semaphore (of_lock l)).value ≡ suc v
      → Locks (taken (of_lock l) v old (set_holder l c) k)
  take_lock-Locks l v old c t e = record {
    bound = λ m. ground (arith, s.bound m, s.bound l);
    free = λ m u p. ground (arith, s.free m u, s.free l u, s.bound l);
    one = λ m u w p q. ground (arith, s.one m u w, s.free l u, s.free l w, s.bound l);
    sole = λ m u p. ground (arith, s.sole m u, s.free l u, s.bound l);
    form = λ u. ground (arith, s.form u);
    conds = s.conds;
  }

  take_other-Locks :
      (r v : ℕ) (old : Level) (c : Cont)
      → ((l : ℕ) → r ≢ of_lock l)
      → ((l : ℕ) → claims l c ≡ false)
      → formed c ≡ true
      → Locks (taken r v old c k)
  take_other-Locks r v old c out none_held f =
      same-Locks {k = k} {j = taken r v old c k} (λ l. ground (arith, out l)) (λ l. refl)
        (λ l t. ground (arith, none_held l, quiet l)) (λ t. ground (arith, s.form t)) s.conds s

  take-Locks :
      (r v : ℕ) (old : Level) (c : Cont)
      → follows r c ≡ true
      → (k.semaphore r).value ≡ suc v
      → Locks (taken r v old c k)
  take-Locks r v old (set_holder l c) f e =
      let p : r ≡ of_lock l = ground arith in
      rw p (take_lock-Locks l v old c (ground arith) (rw p at e))
  take-Locks r v old user f e = take_other-Locks r v old user (λ l. ground arith) (λ l. refl) refl
  take-Locks r v old (reacquire l) f e =
      take_other-Locks r v old (reacquire l) (λ l. ground arith) (λ l. refl) refl
  take-Locks r v old _ f e = absurd (cc)

  pub sema_down_round-Locks :
      (r : ℕ) (old : Level) (c : Cont) {j : Kernel}
      → follows r c ≡ true
      → sema_down_round r old c k ≡ ok j
      → Locks j
  sema_down_round-Locks r old c {j} f e = elim (sema_down_round_cases r old c k j e) [
    | inl (z, p) ↦
        let b = (thread_block-eq-ok (queueing r k) j p).1 in
        schedule-Locks (queueing r k) (set_status (queueing r k) k.current blocked) b refl refl refl
          (λ l t. refl) s.form
          (same-Locks {k = k} {j = queueing r k} (λ l. ground arith) (λ l. refl) (λ l t. refl)
            s.form s.conds s)
    | inr (v, z, p) ↦ rw p (take-Locks r v old c f z)
  ]

module _ {k : Kernel} (s : Locks k) (quiet : (l : ℕ) → claims l (k.cont k.current) ≡ false) where
  pub sema_down-Locks :
      (r : ℕ) (c : Cont) {j : Kernel} → follows r c ≡ true → sema_down r c k ≡ ok j → Locks j
  unfolding sema_down
  sema_down-Locks r c {j} f e =
      sema_down_round-Locks {k = set_cont (record k { level = off }) k.current (down r k.level c)}
        (set_cont-Locks {k = record k { level = off }}
          (other-Locks s {j = record k { level = off }} refl refl refl refl) (down r k.level c)
          (λ l. ground (arith, quiet l)) f)
        (λ l. ground arith) r k.level c f (ground arith)

module _ {k : Kernel} (s : Locks k) where
  -- `sema_try_down` on the semaphore of a lock, and the store to `holder` that follows a success.
  pub try_lock-Locks :
      (l v : ℕ)
      → (k.semaphore (of_lock l)).value ≡ suc v
      → k.cont k.current ≡ user
      → Locks (
          set_cont
            (set_semaphore k (of_lock l) (with_value v (k.semaphore (of_lock l))))
            k.current
            (set_holder l user))
  try_lock-Locks l v e here = take_lock-Locks s (λ m. ground arith) l v k.level user refl e

  -- The thread gives the lock back.
  pub give-Locks :
      (l : ℕ) (c : Cont) {j : Kernel}
      → k.cont k.current ≡ give l c
      → sema_up (of_lock l) (set_cont k k.current c) ≡ ok j
      → Locks j
  give-Locks l c {j} here e = elim (sema_up_cases (of_lock l) (set_cont k k.current c) j e) [
    | inl (p, h) ↦ rw h (given (k.semaphore (of_lock l)).waiters)
    | inr (t, ts, p, b, h) ↦ rw h (
        same-Locks {j = woken (of_lock l) t ts (set_cont k k.current c)} (λ m. ground arith)
          (λ m. refl) (λ m u. refl) (given ts).form s.conds (given ts))
  ]
    where
      calm : (m : ℕ) → claims m c ≡ false
      calm m = tame-claims m c (ground (arith, s.form k.current))

      given :
          (ws : List ℕ)
          → Locks (
              set_semaphore
                (set_cont k k.current c)
                (of_lock l)
                (record { value = up (k.semaphore (of_lock l)).value; waiters = ws }))
      given ws = record {
        bound = λ m. ground (arith, s.bound m, s.bound l, s.free l k.current);
        free = λ m u p. ground (
          arith,
          s.free m u,
          s.free l k.current,
          s.bound l,
          s.sole l k.current,
          s.one l k.current u,
          calm m,
        );
        one = λ m u w p q. ground (arith, s.one m u w, calm m);
        sole = λ m u p. ground (arith, s.sole m u, calm m);
        form = λ u. ground (arith, s.form u, s.form k.current, tame-formed c);
        conds = s.conds;
      }
