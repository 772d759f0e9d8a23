-- ===== src/Random/Tables.antt =====
-- lib/random.c: the table stays a rearrangement of all bytes.
use mathlib.Core.Path.{subst}
use Prim.Native.Nat.{◌^◌}
use cs380l.Base.{
  ℕ, zero, suc, ◌+◌, ◌%◌, ◌≤◌, ◌<◌, ◌≡◌, refl, ◌∙◌, Bool, true, false, not, ◌==◌, leb, ltb, ◌&&◌,
  if◌then◌else◌, inl, inr, arith, Bool-cases,
}
use cs380l.Files.Disk.{Buffer, byte_of}
use cs380l.Random.State.{
  Random, swap_byte, mix_from, random_init, advance, byte_out, bytes_from, random_bytes,
}

-- The 256 entries are bytes, and no two of them are equal.
pub record IsTable (s : Buffer) : Type 0 where
  pub byte : (p : ℕ) → p < 256 → s p < 256
  pub apart : (p q : ℕ) → p < 256 → q < 256 → s p ≡ s q → p ≡ q

swap_byte-IsTable :
    (a b : ℕ) (s : Buffer) → a < 256 → b < 256 → IsTable s → IsTable (swap_byte a b s)
swap_byte-IsTable a b s small_a small_b t = record {
  byte = λ p h. ground (arith, t.byte p h, t.byte a small_a, t.byte b small_b);
  apart = λ p q h k e. ground (
    arith,
    e,
    t.apart p q h k,
    t.apart a q small_a k,
    t.apart p a h small_a,
    t.apart b q small_b k,
    t.apart p b h small_b,
    t.apart a b small_a small_b,
    t.apart b a small_b small_a,
  );
}

mix_from-IsTable :
    (n seed i j : ℕ) (s : Buffer) → i + n ≤ 256 → IsTable s → IsTable (mix_from n seed i j s)
unfolding mix_from
mix_from-IsTable zero seed i j s fit t = t
mix_from-IsTable (suc n) seed i j s fit t =
    let next = (j + (s i + byte_of seed (i % 4))) % 2 ^ 8 in
    mix_from-IsTable n seed (i + 1) next (swap_byte i next s) (omega arith)
      (swap_byte-IsTable i next s (omega arith) (omega arith) t)

-- A generator that has been initialized has a table, and its indexes are bytes.
pub record IsReady (r : Random) : Type 0 where
  pub table : IsTable r.s
  pub i_byte : r.s_i < 256
  pub j_byte : r.s_j < 256
  pub done : r.inited ≡ true

random_init-IsReady : (seed : ℕ) (r : Random) → r.inited ≡ false → IsReady (random_init seed r)
unfolding random_init
random_init-IsReady seed r fresh = rw fresh (record {
  table = mix_from-IsTable 256 seed 0 0 (λ i. i % 2 ^ 8) (omega arith) start;
  i_byte = omega arith;
  j_byte = omega arith;
  done = refl;
})
  where
    start : IsTable (λ i. i % 2 ^ 8)
    start = record { byte = λ p h. omega arith; apart = λ p q h k e. omega arith }

advance-IsReady : (r : Random) → IsReady r → IsReady (advance r)
advance-IsReady r w =
    let i = (r.s_i + 1) % 2 ^ 8 in
    let j = (r.s_j + r.s i) % 2 ^ 8 in
    record {
      table = swap_byte-IsTable i j r.s (omega arith) (omega arith) w.table;
      i_byte = omega arith;
      j_byte = omega arith;
      done = w.done;
    }

-- The bytes from `k` to the end are written, and no others.
abbrev pub Drawn : ℕ → ℕ → Buffer → Buffer → Type 0
Drawn k end buf out =
    ((p : ℕ) → k ≤ p → p < end → out p < 256)
    × ((p : ℕ) → (leb k p && ltb p end) ≡ false → out p ≡ buf p)

bytes_from-Drawn :
    (size k : ℕ) (buf : Buffer) (r : Random)
    → IsReady r
    → IsReady (bytes_from size k buf r).1 × Drawn k (k + size) buf (bytes_from size k buf r).0
unfolding bytes_from
bytes_from-Drawn zero k buf r w = (w, ((λ p h g. absurd (omega arith)), (λ p h. refl)))
bytes_from-Drawn (suc size) k buf r w =
    let next = advance r in
    let ready = advance-IsReady r w in
    let after : Buffer = λ p. if k == p then byte_out next else buf p in
    let (w2, (drawn, kept)) = bytes_from-Drawn size (k + 1) after next ready in
    let small = ready.table.byte ((next.s next.s_i + next.s next.s_j) % 2 ^ 8) (omega arith) in
    (
      w2,
      (
        (λ p h g. elim (Bool-cases (k == p)) [
          | inl here ↦
              let same = kept p (ground arith) in
              let value : after p ≡ byte_out next = rw here refl in omega arith
          | inr later ↦ drawn p (ground arith) (omega arith)
        ]),
        (λ p out.
            let miss : (k == p) ≡ false = ground arith in kept p (ground arith) ∙ rw miss refl),
      ),
    )

chosen :
    (r : Random) (b : Bool)
    → (b ≡ true → IsReady r)
    → (b ≡ false → IsReady (random_init 0 r))
    → IsReady (if not b then random_init 0 r else r)
chosen r true known fresh = known refl
chosen r false known fresh = fresh refl

-- A generator that is initialized, or was never: random_bytes() leaves it initialized, with 256 different bytes in
-- its table; it writes `size` bytes to the buffer, and nothing behind them.
pub random_bytes-Drawn :
    (buf : Buffer) (size : ℕ) (r : Random)
    → (r.inited ≡ true → IsReady r)
    → IsReady (random_bytes buf size r).1 × Drawn 0 size buf (random_bytes buf size r).0
unfolding random_bytes
random_bytes-Drawn buf size r known =
    let ready = if not r.inited then random_init 0 r else r in
    let here : 0 + size ≡ size = omega arith in
    subst
      (λ end.
        IsReady (bytes_from size 0 buf ready).1 × Drawn 0 end buf (bytes_from size 0 buf ready).0)
      here
      (bytes_from-Drawn size 0 buf ready
        (chosen r r.inited known (λ fresh. random_init-IsReady 0 r fresh)))
