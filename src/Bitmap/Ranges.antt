-- ===== src/Bitmap/Ranges.antt =====
-- lib/kernel/bitmap.c: the operations on a range of bits.
use cs380l.Base.{
  ℕ, zero, suc, ◌+◌, ◌*◌, ◌^◌, ◌<◌, ◌≤◌, ◌≡◌, ◌∙◌, refl, sym, ap, Bool, true, false, not, ◌&&◌,
  ◌==◌, ltb, leb, if◌then◌else◌, ok, arith, List, [], ◌∷◌,
}
use cs380l.Bitmap.State.{
  Bitmap, bitmap_set, bitmap_mark, bitmap_reset, set_from, bitmap_set_multiple, count_from,
  bitmap_count, contains_from, bitmap_contains, word, same,
}
use cs380l.Bitmap.Words.{member, bitmap_test-member, member-bitmap_mark, member-bitmap_reset}

-- `j` is `b` with the bits from `start` to `start + cnt` set to `value`, and nothing else changed, in
-- the array or behind it.
pub record Filled (start cnt : ℕ) (value : Bool) (b j : Bitmap) : Type 0 where
  pub size : j.bit_cnt ≡ b.bit_cnt
  pub bit :
      (k : ℕ) → member k j ≡ (if leb start k && ltb k (start + cnt) then value else member k b)
  pub frame : (w : ℕ) → b.bit_cnt ≤ 32 * w → j.bits w ≡ b.bits w

bitmap_set-Filled :
    (i : ℕ) (value : Bool) (b : Bitmap)
    → i < b.bit_cnt
    → (j : Bitmap) × (bitmap_set i value b ≡ ok j) × Filled i 1 value b j
unfolding bitmap_set bitmap_mark bitmap_reset
bitmap_set-Filled i true b p = (
  bitmap_mark i b,
  ground arith,
  record {
    size = refl;
    bit = λ k. ground (arith, member-bitmap_mark i k b);
    frame = λ w q. ground arith;
  },
)
bitmap_set-Filled i false b p = (
  bitmap_reset i b,
  ground arith,
  record {
    size = refl;
    bit = λ k. ground (arith, member-bitmap_reset i k b);
    frame = λ w q. ground arith;
  },
)

Filled-append :
    {start n : ℕ} {value : Bool} {b i j : Bitmap}
    → Filled start 1 value b i
    → Filled (start + 1) n value i j
    → Filled start (suc n) value b j
Filled-append f g = record {
  size = g.size ∙ f.size;
  bit = λ k. ground (arith, f.bit k, g.bit k);
  frame = λ w q. ground (arith, f.frame w, g.frame w, f.size);
}

set_from-Filled :
    (n i start : ℕ) (value : Bool) (b : Bitmap)
    → start + i + n ≤ b.bit_cnt
    → b.bit_cnt < 2 ^ 32
    → (j : Bitmap) × (set_from n i start value b ≡ ok j) × Filled (start + i) n value b j
unfolding set_from
set_from-Filled zero i start value b p q =
    (b, refl, record { size = refl; bit = λ k. ground arith; frame = λ w q. refl })
set_from-Filled (suc n) i start value b p q =
    let (a, e, f) = bitmap_set-Filled (start + i) value b (omega arith) in
    let (j, e2, g) =
      set_from-Filled n (i + 1) start value a (ground (arith, f.size)) (ground (arith, f.size)) in
    let h : word (start + i) ≡ start + i = omega arith in
    let h2 : start + (i + 1) ≡ start + i + 1 = omega arith in
    (j, rw h (ground arith), Filled-append f (rw (sym h2) g))

-- `bitmap_set_multiple` on a range inside the bitmap sets the bits of the range and changes no other
-- bit and no word behind the array. No ASSERT fails.
pub bitmap_set_multiple-Filled :
    (start cnt : ℕ) (value : Bool) (b : Bitmap)
    → start + cnt ≤ b.bit_cnt
    → b.bit_cnt < 2 ^ 32
    → (j : Bitmap) × (bitmap_set_multiple start cnt value b ≡ ok j) × Filled start cnt value b j
unfolding bitmap_set_multiple
bitmap_set_multiple-Filled start cnt value b p q =
    let (j, e, f) = set_from-Filled cnt 0 start value b (omega arith) q in
    (j, ground arith, record { size = f.size; bit = λ k. ground (arith, f.bit k); frame = f.frame })

-- The bits of a range, as a list.
unfoldable pub range : ℕ → ℕ → Bitmap → List Bool
range start zero b = []
range start (suc n) b = member start b ∷ range (suc start) n b

-- How often a value stands in a list, and whether it does.
unfoldable pub occurrences : Bool → List Bool → ℕ
occurrences v [] = 0
occurrences v (x ∷ xs) = if same x v then suc (occurrences v xs) else occurrences v xs

count_from-occurrences :
    (n i start : ℕ) (value : Bool) (value_cnt : ℕ) (b : Bitmap)
    → start + i + n ≤ b.bit_cnt
    → b.bit_cnt < 2 ^ 32
    → count_from n i start value value_cnt b
      ≡ ok (value_cnt + occurrences value (range (start + i) n b))
unfolding count_from range occurrences
count_from-occurrences zero i start value c b p q = ap ok (omega arith)
count_from-occurrences (suc n) i start value c b p q =
    let h : word (start + i) ≡ start + i = omega arith in
    let h2 : start + (i + 1) ≡ suc (start + i) = omega arith in
    let t = bitmap_test-member (start + i) b (omega arith) in
    let d : ℕ = if same (member (start + i) b) value then c + 1 else c in
    ground (arith, count_from-occurrences n (i + 1) start value d b (omega arith) q)

-- `bitmap_count` on a range inside the bitmap returns how many bits of the range have the value.
pub bitmap_count-occurrences :
    (start cnt : ℕ) (value : Bool) (b : Bitmap)
    → start + cnt ≤ b.bit_cnt
    → b.bit_cnt < 2 ^ 32
    → bitmap_count start cnt value b ≡ ok (occurrences value (range start cnt b))
unfolding bitmap_count
bitmap_count-occurrences start cnt value b p q =
    let h : start + 0 ≡ start = omega arith in
    ground (arith, count_from-occurrences cnt 0 start value 0 b (omega arith) q)

contains_from-occurrences :
    (n i start : ℕ) (value : Bool) (b : Bitmap)
    → start + i + n ≤ b.bit_cnt
    → b.bit_cnt < 2 ^ 32
    → contains_from n i start value b ≡ ok (not (occurrences value (range (start + i) n b) == 0))
unfolding contains_from range occurrences
contains_from-occurrences zero i start value b p q = refl
contains_from-occurrences (suc n) i start value b p q =
    let h : word (start + i) ≡ start + i = omega arith in
    let h2 : start + (i + 1) ≡ suc (start + i) = omega arith in
    let t = bitmap_test-member (start + i) b (omega arith) in
    ground (arith, contains_from-occurrences n (i + 1) start value b (omega arith) q)

pub bitmap_contains-occurrences :
    (start cnt : ℕ) (value : Bool) (b : Bitmap)
    → start + cnt ≤ b.bit_cnt
    → b.bit_cnt < 2 ^ 32
    → bitmap_contains start cnt value b ≡ ok (not (occurrences value (range start cnt b) == 0))
unfolding bitmap_contains
bitmap_contains-occurrences start cnt value b p q =
    let h : start + 0 ≡ start = omega arith in
    ground (arith, contains_from-occurrences cnt 0 start value b (omega arith) q)
