-- ===== src/Table/Digest.antt =====
-- lib/kernel/hash.c: the Fowler-Noll-Vo hash of a block, of a string and of an integer.
use Prim.Native.Nat.{bit_xor}
use cs380l.Base.{
  ℕ, zero, suc, ◌+◌, ◌-◌, ◌*◌, ◌/◌, ◌%◌, ◌^◌, ◌≤◌, ◌≡◌, refl, ◌∙◌, not, ◌==◌, if◌then◌else◌, Result,
  ok, panic, ◌>>=◌, ◌>>◌, assert, arith, Bool-cases, inl, inr,
}
use cs380l.Strings.State.{Memory, store, length_from, strlen}

-- `hash = (hash * FNV_32_PRIME) ^ *buf++`
unfoldable pub fnv_step : ℕ → ℕ → ℕ
fnv_step hash byte = bit_xor (hash * 16777619 % 2 ^ 32) byte

unfoldable pub hash_block : ℕ → ℕ → ℕ → Memory → ℕ
hash_block zero buf hash mem = hash
hash_block (suc size) buf hash mem = hash_block size (buf + 1) (fnv_step hash (mem buf)) mem

unfoldable pub hash_bytes : ℕ → ℕ → Memory → Result ℕ
hash_bytes buf size mem = do assert (not (buf == 0)); ok (hash_block size buf 2166136261 mem)

-- The loop of `hash_string`, for strings shorter than `limit`.
unfoldable pub hash_chars : ℕ → ℕ → ℕ → Memory → Result ℕ
hash_chars zero s hash mem = panic
hash_chars (suc limit) s hash mem =
    let rest = hash_chars limit (s + 1) (fnv_step hash (mem s)) mem in
    if mem s == 0 then ok hash else rest

unfoldable pub hash_string : ℕ → ℕ → Memory → Result ℕ
hash_string limit s mem = do assert (not (s == 0)); hash_chars limit s 2166136261 mem

-- The four bytes of `i` stand at `&i`.
unfoldable pub hash_int : ℕ → ℕ → Memory → Result ℕ
hash_int p i mem = hash_bytes p 4 (
    store (p + 3) (i / 2 ^ 24 % 2 ^ 8) (
      store (p + 2) (i / 2 ^ 16 % 2 ^ 8)
        (store (p + 1) (i / 2 ^ 8 % 2 ^ 8) (store p (i % 2 ^ 8) mem))))

length_from-le :
    (limit p string n : ℕ) (mem : Memory) → length_from limit p string mem ≡ ok n → p - string ≤ n
unfolding length_from
length_from-le zero p string n mem e = cc
length_from-le (suc limit) p string n mem e =
    let more = length_from-le limit (p + 1) string n mem in ground arith

hash_chars-hash_block :
    (limit p string hash : ℕ) (mem : Memory)
    → string ≤ p
    → hash_chars limit p hash mem
      ≡ (length_from limit p string mem >>= (λ n. ok (hash_block (n - (p - string)) p hash mem)))
unfolding hash_chars length_from hash_block
hash_chars-hash_block zero p string hash mem le = refl
hash_chars-hash_block (suc limit) p string hash mem le =
    let rest =
      hash_chars-hash_block limit (p + 1) string (fnv_step hash (mem p)) mem (omega arith) in
    elim (Bool-cases (mem p == 0)) [
      | inl end ↦
          let none_left : p - string - (p - string) ≡ 0 = omega arith in rw (end, none_left) refl
      | inr char ↦ rw char (rest ∙ step (length_from limit (p + 1) string mem) refl)
    ]
  where
    step :
        (m : Result ℕ)
        → length_from limit (p + 1) string mem ≡ m
        → (m >>= (λ n. ok (hash_block (n - (p + 1 - string)) (p + 1) (fnv_step hash (mem p)) mem)))
          ≡ (m >>= (λ n. ok (hash_block (n - (p - string)) p hash mem)))
    step panic e = refl
    step (ok n) e =
        let le2 = length_from-le limit (p + 1) string n mem e in
        let one_more : n - (p - string) ≡ suc (n - (p + 1 - string)) = omega arith in
        rw one_more refl

-- hash_string() returns the hash that hash_bytes() returns for the characters that strlen() counts, and
-- fails where these fail.
pub hash_string-hash_bytes :
    (limit s : ℕ) (mem : Memory)
    → hash_string limit s mem ≡ (strlen limit s mem >>= (λ n. hash_bytes s n mem))
unfolding hash_string strlen hash_bytes
hash_string-hash_bytes limit s mem = elim (Bool-cases (s == 0)) [
  | inl z ↦ rw z refl
  | inr nz ↦
      let loop = hash_chars-hash_block limit s s 2166136261 mem (omega arith) in
      rw nz (loop ∙ sizes (length_from limit s s mem))
]
  where
    sizes :
        (m : Result ℕ)
        → (m >>= (λ n. ok (hash_block (n - (s - s)) s 2166136261 mem)))
          ≡ (m >>= (λ n. ok (hash_block n s 2166136261 mem)))
    sizes panic = refl
    sizes (ok n) = let e : n - (s - s) ≡ n = omega arith in rw e refl
