-- ===== src/Strings/Copies.antt =====
-- lib/string.c: `strlcpy` and `strlcat`, which never write behind the room they are given.
use Prim.Native.Nat.{min}
use cs380l.Base.{
  ℕ, suc, ◌+◌, ◌-◌, ◌<◌, ◌≤◌, ◌≡◌, ◌≢◌, ◌⊎◌, ◌==◌, ltb, if◌then◌else◌, ok, arith, Bool-cases, inl,
  inr,
}
use cs380l.Strings.State.{Memory, store, strlcpy, strlcat}
use cs380l.Strings.Blocks.{within, memcpy-copies}
use cs380l.Strings.Length.{IsString, strlen-IsString}

-- `cnt` characters copied from `src` to `dst`, and a null byte behind them.
abbrev pub closed : ℕ → ℕ → ℕ → Memory → Memory
closed dst src cnt mem q =
    if within dst cnt q then mem (src + (q - dst)) else if dst + cnt == q then 0 else mem q

closed-IsString :
    {dst src cnt n : ℕ} {mem : Memory}
    → IsString src n mem
    → cnt ≤ n
    → IsString dst cnt (closed dst src cnt mem)
closed-IsString {dst} {src} {cnt} {n} {mem} s le = record {
  stop = ground arith;
  body = λ i l e. let z : dst + i - dst ≡ i = omega arith in s.body i (omega arith) (ground arith);
}

-- `strlcpy` copies as much of the string at `src` as fits into `size` bytes with its null byte, and
-- returns the length of the whole string. It writes the copied characters and the null byte, and
-- nothing else. The string and the room must not overlap.
pub strlcpy-closed :
    (n limit dst src k : ℕ) (mem : Memory) (q : ℕ)
    → dst ≢ 0
    → src ≢ 0
    → IsString src n mem
    → n < limit
    → (dst + suc k ≤ src) ⊎ (src + n < dst)
    → (after : Memory) × (strlcpy limit dst src (suc k) mem ≡ ok (n, after))
      × (after q ≡ closed dst src (min n k) mem q)
      × IsString dst (min n k) (closed dst src (min n k) mem)
unfolding strlcpy
strlcpy-closed n limit dst src k mem q d z s l apart =
    let (copied, e, f) = memcpy-copies dst src (min n k) mem q d z (ground arith) in
    (
      store (dst + min n k) 0 copied,
      ground (arith, strlen-IsString n limit src mem z s l),
      ground arith,
      closed-IsString s (omega arith),
    )

joined-IsString :
    {dst src m cnt n : ℕ} {mem : Memory}
    → IsString dst m mem
    → IsString src n mem
    → cnt ≤ n
    → IsString dst (m + cnt) (closed (dst + m) src cnt mem)
joined-IsString {dst} {src} {m} {cnt} {n} {mem} t s le = record {
  stop = ground arith;
  body = λ i l e. elim (Bool-cases (ltb i m)) [
    | inl f ↦ t.body i (ground arith) (ground arith)
    | inr f ↦
        let z : src + (dst + i - (dst + m)) ≡ src + (i - m) = ground arith in
        s.body (i - m) (ground arith) (ground arith)
  ];
}

-- `strlcat` appends as much of the string at `src` as fits into `size` bytes with the string that is
-- there and the null byte, and returns the sum of the two lengths. It writes the appended characters
-- and the null byte, and nothing else. The string at `src` and the room must not overlap.
pub strlcat-closed :
    (m n limit dst src k : ℕ) (mem : Memory) (q : ℕ)
    → dst ≢ 0
    → src ≢ 0
    → IsString dst m mem
    → IsString src n mem
    → m < limit
    → n < limit
    → m ≤ k
    → (dst + suc k ≤ src) ⊎ (src + n < dst)
    → (after : Memory) × (strlcat limit dst src (suc k) mem ≡ ok (n + m, after))
      × (after q ≡ closed (dst + m) src (min n (k - m)) mem q)
      × IsString dst (m + min n (k - m)) (closed (dst + m) src (min n (k - m)) mem)
unfolding strlcat
strlcat-closed m n limit dst src k mem q d z t s lm ln fits apart =
    let (copied, e, f) =
      memcpy-copies (dst + m) src (min n (k - m)) mem q (λ x. d (omega arith)) z (ground arith) in
    (
      store (dst + m + min n (k - m)) 0 copied,
      ground
          (arith, strlen-IsString n limit src mem z s ln, strlen-IsString m limit dst mem d t lm),
      ground arith,
      joined-IsString t s (omega arith),
    )
