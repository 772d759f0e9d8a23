-- ===== src/Strings/Blocks.antt =====
-- lib/string.c: the functions on blocks of bytes.
use cs380l.Base.{
  ℕ, zero, suc, ◌+◌, ◌-◌, ◌%◌, ◌≤◌, ◌≡◌, ◌≢◌, ◌⊎◌, ◌∙◌, refl, Bool, ◌&&◌, ◌==◌, ltb, leb,
  if◌then◌else◌, ok, List, [], ◌∷◌, arith, Bool-cases, inl, inr,
}
use cs380l.Strings.State.{
  Memory, store, Sign, negative, null, positive, copy_up, copy_down, memcpy, memmove, compare_bytes,
  memcmp, set_bytes,
}

-- `q` is one of the `size` addresses from `p` on.
abbrev pub within : ℕ → ℕ → ℕ → Bool
within p size q = leb p q && ltb q (p + size)

copy_up_lem :
    (size dst src : ℕ) (mem : Memory) (q : ℕ)
    → (dst ≤ src) ⊎ (src + size ≤ dst)
    → copy_up size dst src mem q ≡ (if within dst size q then mem (src + (q - dst)) else mem q)
unfolding copy_up
copy_up_lem zero dst src mem q h = ground arith
copy_up_lem (suc n) dst src mem q h = elim (Bool-cases (dst == q)) [
  | inl e ↦
      let z : src + (q - dst) ≡ src = ground arith in
      copy_up_lem n (dst + 1) (src + 1) (store dst (mem src) mem) q (ground arith) ∙ ground arith
  | inr e ↦
      let z : dst + 1 ≤ q → src + 1 + (q - (dst + 1)) ≡ src + (q - dst) = λ l. omega arith in
      copy_up_lem n (dst + 1) (src + 1) (store dst (mem src) mem) q (ground arith)
      ∙ ground (arith, z)
]

copy_down_lem :
    (size dst src : ℕ) (mem : Memory) (q : ℕ)
    → src ≤ dst
    → copy_down size (dst + size) (src + size) mem q
      ≡ (if within dst size q then mem (src + (q - dst)) else mem q)
unfolding copy_down
copy_down_lem zero dst src mem q h = ground arith
copy_down_lem (suc n) dst src mem q h =
    let s : dst + suc n - 1 ≡ dst + n = omega arith in
    let t : src + suc n - 1 ≡ src + n = omega arith in
    rw s (rw t (copy_down_lem n dst src (store (dst + n) (mem (src + n)) mem) q h ∙ step))
  where
    step :
        (if within dst n q
          then store (dst + n) (mem (src + n)) mem (src + (q - dst))
          else store (dst + n) (mem (src + n)) mem q)
        ≡ (if within dst (suc n) q then mem (src + (q - dst)) else mem q)
    step = elim (Bool-cases (dst + n == q)) [
      | inl e ↦ let z : src + (q - dst) ≡ src + n = ground arith in ground arith
      | inr e ↦ ground arith
    ]

-- `memmove` leaves at `dst` the bytes that stood at `src`, also where the blocks overlap, and no other
-- byte changes. It returns the end of the block if `dst` is below `src`, and `dst` otherwise.
pub memmove-copies :
    (dst src size : ℕ) (mem : Memory) (q : ℕ)
    → dst ≢ 0
    → src ≢ 0
    → (after : Memory) × (memmove dst src size mem
        ≡ ok (if ltb dst src then dst + size else dst, after))
      × (after q ≡ (if within dst size q then mem (src + (q - dst)) else mem q))
unfolding memmove
memmove-copies dst src size mem q d s = elim (Bool-cases (ltb dst src)) [
  | inl e ↦
      (copy_up size dst src mem, ground arith, copy_up_lem size dst src mem q (inl (ground arith)))
  | inr e ↦ (
    copy_down size (dst + size) (src + size) mem,
    ground arith,
    copy_down_lem size dst src mem q (ground arith),
  )
]

-- `memcpy` does the same for blocks that do not overlap, and returns `dst`.
pub memcpy-copies :
    (dst src size : ℕ) (mem : Memory) (q : ℕ)
    → dst ≢ 0
    → src ≢ 0
    → (dst + size ≤ src) ⊎ (src + size ≤ dst)
    → (after : Memory) × (memcpy dst src size mem ≡ ok (dst, after))
      × (after q ≡ (if within dst size q then mem (src + (q - dst)) else mem q))
unfolding memcpy
memcpy-copies dst src size mem q d s apart =
    (copy_up size dst src mem, ground arith, copy_up_lem size dst src mem q (ground arith))

pub set_bytes_lem :
    (size dst value : ℕ) (mem : Memory) (q : ℕ)
    → set_bytes size dst value mem q ≡ (if within dst size q then value % 256 else mem q)
unfolding set_bytes
set_bytes_lem zero dst value mem q = ground arith
set_bytes_lem (suc n) dst value mem q =
    set_bytes_lem n (dst + 1) value (store dst (value % 256) mem) q ∙ ground arith

-- The bytes of a block.
unfoldable pub bytes : ℕ → ℕ → Memory → List ℕ
bytes p zero mem = []
bytes p (suc n) mem = mem p ∷ bytes (p + 1) n mem

-- The lexicographic order.
abbrev pub lexical : List ℕ → List ℕ → Sign
lexical [] [] = null
lexical [] (y ∷ ys) = negative
lexical (x ∷ xs) [] = positive
lexical (x ∷ xs) (y ∷ ys) =
    if ltb x y then negative else if ltb y x then positive else lexical xs ys

compare_bytes_lem :
    (size a b : ℕ) (mem : Memory)
    → compare_bytes size a b mem ≡ lexical (bytes a size mem) (bytes b size mem)
unfolding compare_bytes bytes
compare_bytes_lem zero a b mem = refl
compare_bytes_lem (suc n) a b mem = ground (arith, compare_bytes_lem n (a + 1) (b + 1) mem)

-- `memcmp` compares the blocks in the lexicographic order.
pub memcmp-lexical :
    (a b size : ℕ) (mem : Memory)
    → a ≢ 0
    → b ≢ 0
    → memcmp a b size mem ≡ ok (lexical (bytes a size mem) (bytes b size mem))
unfolding memcmp
memcmp-lexical a b size mem p q = ground (arith, compare_bytes_lem size a b mem)
