-- ===== src/Threads/Conts/Moves.antt =====
-- What one operation of the current thread does to the places where the threads stand.
use cs380l.Base.{ℕ, ◌≡◌, ◌≢◌, ◌⊎◌, inl, true, ◌==◌, if◌then◌else◌, arith}
use cs380l.Threads.State.{Cont, born, Kernel, is_blocked, is_thread}
use cs380l.Threads.Queues.{Inv}
use cs380l.Threads.Conts.{creates, mentions, calm, Conts}

-- The current thread gets a new place, and a blocked thread that was never run stays blocked.
pub record Moves (next : Cont) (k j : Kernel) : Type 0 where
  pub cont : (t : ℕ) → j.cont t ≡ (if k.current == t then next else k.cont t)
  pub idle_thread : j.idle_thread ≡ k.idle_thread
  pub blocked :
      (t : ℕ)
      → is_blocked (k.thread t) ≡ true
      → t ≢ k.idle_thread
      → k.cont t ≡ born
      → is_blocked (j.thread t) ≡ true
  pub idle : is_thread (k.thread k.idle_thread) ≡ true → is_thread (j.thread k.idle_thread) ≡ true

-- What the new place may be.
pub record Fits (next : Cont) (k : Kernel) : Type 0 where
  pub own : (u : ℕ) → mentions u next ≡ true → u ≡ k.current
  pub pending :
      (t : ℕ) → creates t next ≡ true → (is_blocked (k.thread t) ≡ true) × (k.cont t ≡ born)
  pub unique : (v t : ℕ) → creates t next ≡ true → creates t (k.cont v) ≡ true → v ≡ k.current
  pub idle : (k.current ≢ k.idle_thread) ⊎ (calm next ≡ true)

module _ {k j : Kernel} {next : Cont} (v : Conts k) (inv : Inv k) (m : Moves next k j)
    (f : Fits next k) where
  pending-after :
      (u t : ℕ) → creates t (j.cont u) ≡ true → (is_blocked (k.thread t) ≡ true) × (k.cont t ≡ born)
  pending-after u t h = ground (arith, m.cont u, f.pending t, v.pending u t)

  pub Moves-Conts : Conts j
  Moves-Conts = record {
    own = λ u t h. ground (arith, m.cont t, f.own u, v.own u t);
    pending = λ u t h.
        let (b, c) = pending-after u t h in
        (ground (arith, m.blocked t b, v.idle_calm), ground (arith, m.cont t, inv.current_runs));
    unique =
        λ u w t h i. ground (arith, m.cont u, m.cont w, f.unique u t, f.unique w t, v.unique u w t);
    idle_calm = ground (arith, m.cont k.idle_thread, m.idle_thread, f.idle, v.idle_calm);
    idle_here = ground (arith, m.idle, m.idle_thread, v.idle_here);
  }

-- A place inside the old one, for a thread that is not the idle thread.
pub Fits-inside :
    (next : Cont) {k : Kernel}
    → Conts k
    → k.current ≢ k.idle_thread
    → ((u : ℕ) → mentions u next ≡ true → u ≡ k.current)
    → ((t : ℕ) → creates t next ≡ true → creates t (k.cont k.current) ≡ true)
    → Fits next k
Fits-inside next {k} v busy own made = record {
  own = own;
  pending = λ t h. v.pending k.current t (made t h);
  unique = λ u t h i. v.unique u k.current t i (made t h);
  idle = inl busy;
}
