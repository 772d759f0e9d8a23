-- ===== src/Bitmap/Words.antt =====
-- lib/kernel/bitmap.c: what the operations on one bit do, in terms of the set of the bits that are
-- on.
use Prim.Native.Nat.{bit_and}
use cs380l.Base.{
  ℕ, ◌-◌, ◌/◌, ◌%◌, ◌^◌, ◌<◌, ◌≡◌, ◌≢◌, ◌∙◌, Bool, true, false, not, ◌==◌, if◌then◌else◌, ok, ◌>>=◌,
  arith, Bool-cases, inl, inr,
}
use cs380l.Base.Bits.{
  bit, bit-lt, bit-zero, bit-bit_or, bit-bit_and, bit-bit_xor, bit-pow, bit_mask-complement,
  eq_zero_fuel,
}
use cs380l.Bitmap.State.{Bitmap, bitmap_mark, bitmap_reset, bitmap_flip, bitmap_set, bitmap_test}

-- The bit numbered `i` is on.
abbrev pub member : ℕ → Bitmap → Bool
member i b = bit (i % 32) (b.bits (i / 32)) == 1

-- `x & (1 << m)` is 0 just when the digit is.
masked-zero : (x m : ℕ) → bit m x ≡ 0 → bit_and x (2 ^ m) ≡ 0
masked-zero x m e =
    eq_zero_fuel (bit_and x (2 ^ m)) (bit_and x (2 ^ m)) (omega arith)
      (λ k. bit-bit_and k x (2 ^ m) ∙ ground (arith, bit-pow k m, bit-lt k x))

masked-one : (x m : ℕ) → bit m x ≡ 1 → bit_and x (2 ^ m) ≢ 0
masked-one x m e z =
    let h : bit m (bit_and x (2 ^ m)) ≡ 1 = bit-bit_and m x (2 ^ m) ∙ ground (arith, bit-pow m m) in
    ground (arith, bit-zero m)

masked_lem : (x m : ℕ) → not (bit_and x (2 ^ m) == 0) ≡ (bit m x == 1)
masked_lem x m = elim (Bool-cases (bit m x == 1)) [
  | inl e ↦ ground (arith, masked-one x m)
  | inr e ↦ ground (arith, masked-zero x m, bit-lt m x)
]

pub bitmap_test-member : (i : ℕ) (b : Bitmap) → i < b.bit_cnt → bitmap_test i b ≡ ok (member i b)
unfolding bitmap_test
bitmap_test-member i b p = ground (arith, masked_lem (b.bits (i / 32)) (i % 32))

one_place : (i j : ℕ) → i / 32 ≡ j / 32 → j % 32 ≡ i % 32 → i ≡ j
one_place i j p q = omega arith

same_place : (i j : ℕ) → i / 32 ≡ j / 32 → (j % 32 == i % 32) ≡ (i == j)
same_place i j e = ground (arith, one_place i j e)

pub member-bitmap_mark :
    (i j : ℕ) (b : Bitmap) → member j (bitmap_mark i b) ≡ (if i == j then true else member j b)
unfolding bitmap_mark
member-bitmap_mark i j b = elim (Bool-cases (i / 32 == j / 32)) [
  | inl e ↦ ground (
    arith,
    bit-bit_or (j % 32) (b.bits (i / 32)) (2 ^ (i % 32)),
    bit-pow (j % 32) (i % 32),
    same_place i j,
    bit-lt (j % 32) (b.bits (j / 32)),
  )
  | inr e ↦ ground arith
]

pub member-bitmap_reset :
    (i j : ℕ) (b : Bitmap) → member j (bitmap_reset i b) ≡ (if i == j then false else member j b)
unfolding bitmap_reset
member-bitmap_reset i j b = elim (Bool-cases (i / 32 == j / 32)) [
  | inl e ↦ ground (
    arith,
    bit-bit_and (j % 32) (b.bits (i / 32)) (2 ^ 32 - 1 - 2 ^ (i % 32)),
    bit_mask-complement 32 (j % 32) (i % 32),
    same_place i j,
    bit-lt (j % 32) (b.bits (j / 32)),
  )
  | inr e ↦ ground arith
]

pub member-bitmap_flip :
    (i j : ℕ) (b : Bitmap)
    → member j (bitmap_flip i b) ≡ (if i == j then not (member j b) else member j b)
unfolding bitmap_flip
member-bitmap_flip i j b = elim (Bool-cases (i / 32 == j / 32)) [
  | inl e ↦ ground (
    arith,
    bit-bit_xor (j % 32) (b.bits (i / 32)) (2 ^ (i % 32)),
    bit-pow (j % 32) (i % 32),
    same_place i j,
    bit-lt (j % 32) (b.bits (j / 32)),
  )
  | inr e ↦ ground arith
]

-- A bit that `bitmap_set` has set tests as set, every other bit tests as it did before, and no ASSERT
-- fails, for bits inside the bitmap.
pub bitmap_set-bitmap_test :
    (i j : ℕ) (value : Bool) (b : Bitmap)
    → i < b.bit_cnt
    → j < b.bit_cnt
    → (do c ← bitmap_set i value b; bitmap_test j c)
      ≡ (if i == j then ok value else bitmap_test j b)
unfolding bitmap_set bitmap_mark bitmap_reset
bitmap_set-bitmap_test i j true b p q = ground (
  arith,
  bitmap_test-member j (bitmap_mark i b),
  bitmap_test-member j b,
  member-bitmap_mark i j b,
)
bitmap_set-bitmap_test i j false b p q = ground (
  arith,
  bitmap_test-member j (bitmap_reset i b),
  bitmap_test-member j b,
  member-bitmap_reset i j b,
)

-- `bitmap_flip` inverts the bit that it is given and no other, as `bitmap_test` sees them.
pub bitmap_flip-bitmap_test :
    (i j : ℕ) (b : Bitmap)
    → j < b.bit_cnt
    → bitmap_test j (bitmap_flip i b) ≡ (do x ← bitmap_test j b; ok (if i == j then not x else x))
unfolding bitmap_flip
bitmap_flip-bitmap_test i j b p = ground (
  arith,
  bitmap_test-member j (bitmap_flip i b),
  bitmap_test-member j b,
  member-bitmap_flip i j b,
)
