-- ===== src/Bitmap/State.antt =====
-- lib/kernel/bitmap.c: the bitmap and its operations.
use Prim.Native.Nat.{bit_and, bit_or, bit_xor}
use cs380l.Base.{
  ℕ, zero, suc, ◌+◌, ◌-◌, ◌*◌, ◌/◌, ◌%◌, ◌^◌, Bool, true, false, not, Option, none, some, ◌==◌, leb,
  ltb, if◌then◌else◌, Result, ok, ◌>>=◌, ◌>>◌, assert,
}

-- `elem_type` and `size_t` have 32 bits on the machine that the kernel is built for.
abbrev pub elem_bits : ℕ
elem_bits = 32

abbrev pub word : ℕ → ℕ
word n = n % 2 ^ 32

-- `bits` points into memory: word `w` of it is `bits w`, whether the array has a word `w` or not.
pub record Bitmap : Type 0 where
  pub bit_cnt : ℕ
  pub bits : ℕ → ℕ

abbrev pub elem_idx : ℕ → ℕ
elem_idx bit_idx = bit_idx / elem_bits

abbrev pub bit_mask : ℕ → ℕ
bit_mask bit_idx = 2 ^ (bit_idx % elem_bits)

abbrev pub elem_cnt : ℕ → ℕ
elem_cnt bit_cnt = word (bit_cnt + elem_bits - 1) / elem_bits

abbrev pub byte_cnt : ℕ → ℕ
byte_cnt bit_cnt = word (4 * elem_cnt bit_cnt)

unfoldable pub last_mask : Bitmap → ℕ
last_mask b =
    let last_bits = b.bit_cnt % elem_bits in
    if last_bits == 0 then 2 ^ 32 - 1 else 2 ^ last_bits - 1

abbrev pub store : ℕ → ℕ → Bitmap → Bitmap
store w x b = record b { bits = λ v. if w == v then x else b.bits v }

unfoldable pub bitmap_mark : ℕ → Bitmap → Bitmap
bitmap_mark bit_idx b =
    let idx = elem_idx bit_idx in store idx (bit_or (b.bits idx) (bit_mask bit_idx)) b

unfoldable pub bitmap_reset : ℕ → Bitmap → Bitmap
bitmap_reset bit_idx b =
    let idx = elem_idx bit_idx in store idx (bit_and (b.bits idx) (2 ^ 32 - 1 - bit_mask bit_idx)) b

unfoldable pub bitmap_flip : ℕ → Bitmap → Bitmap
bitmap_flip bit_idx b =
    let idx = elem_idx bit_idx in store idx (bit_xor (b.bits idx) (bit_mask bit_idx)) b

unfoldable pub bitmap_set : ℕ → Bool → Bitmap → Result Bitmap
bitmap_set idx value b = do
  assert (ltb idx b.bit_cnt)
  ok (if value then bitmap_mark idx b else bitmap_reset idx b)

unfoldable pub bitmap_test : ℕ → Bitmap → Result Bool
bitmap_test idx b = do
  assert (ltb idx b.bit_cnt)
  ok (not (bit_and (b.bits (elem_idx idx)) (bit_mask idx) == 0))

-- The loop of `bitmap_set_multiple`, with `n` rounds to go.
unfoldable pub set_from : ℕ → ℕ → ℕ → Bool → Bitmap → Result Bitmap
set_from zero i start value b = ok b
set_from (suc n) i start value b = do
  j ← bitmap_set (word (start + i)) value b
  set_from n (i + 1) start value j

unfoldable pub bitmap_set_multiple : ℕ → ℕ → Bool → Bitmap → Result Bitmap
bitmap_set_multiple start cnt value b = do
  assert (leb start b.bit_cnt)
  assert (leb (word (start + cnt)) b.bit_cnt)
  set_from cnt 0 start value b

unfoldable pub bitmap_set_all : Bool → Bitmap → Result Bitmap
bitmap_set_all value b = bitmap_set_multiple 0 b.bit_cnt value b

-- `struct bitmap` itself has 8 bytes.
abbrev pub bitmap_buf_size : ℕ → ℕ
bitmap_buf_size bit_cnt = word (8 + byte_cnt bit_cnt)

-- `block` is what the memory behind the structure holds before.
unfoldable pub bitmap_create_in_buf : ℕ → (ℕ → ℕ) → ℕ → Result Bitmap
bitmap_create_in_buf bit_cnt block block_size = do
  assert (leb (bitmap_buf_size bit_cnt) block_size)
  bitmap_set_all false (record { bit_cnt = bit_cnt; bits = block })

abbrev pub same : Bool → Bool → Bool
same x y = if x then y else not y

-- The loop of `bitmap_count`.
unfoldable pub count_from : ℕ → ℕ → ℕ → Bool → ℕ → Bitmap → Result ℕ
count_from zero i start value value_cnt b = ok value_cnt
count_from (suc n) i start value value_cnt b = do
  x ← bitmap_test (word (start + i)) b
  count_from n (i + 1) start value (if same x value then value_cnt + 1 else value_cnt) b

unfoldable pub bitmap_count : ℕ → ℕ → Bool → Bitmap → Result ℕ
bitmap_count start cnt value b = do
  assert (leb start b.bit_cnt)
  assert (leb (word (start + cnt)) b.bit_cnt)
  count_from cnt 0 start value 0 b

-- The loop of `bitmap_contains`.
unfoldable pub contains_from : ℕ → ℕ → ℕ → Bool → Bitmap → Result Bool
contains_from zero i start value b = ok false
contains_from (suc n) i start value b =
    let rest = contains_from n (i + 1) start value b in
    do x ← bitmap_test (word (start + i)) b; if same x value then ok true else rest

unfoldable pub bitmap_contains : ℕ → ℕ → Bool → Bitmap → Result Bool
bitmap_contains start cnt value b = do
  assert (leb start b.bit_cnt)
  assert (leb (word (start + cnt)) b.bit_cnt)
  contains_from cnt 0 start value b

unfoldable pub bitmap_any : ℕ → ℕ → Bitmap → Result Bool
bitmap_any start cnt b = bitmap_contains start cnt true b

unfoldable pub bitmap_none : ℕ → ℕ → Bitmap → Result Bool
bitmap_none start cnt b = do x ← bitmap_contains start cnt true b; ok (not x)

unfoldable pub bitmap_all : ℕ → ℕ → Bitmap → Result Bool
bitmap_all start cnt b = do x ← bitmap_contains start cnt false b; ok (not x)

-- The loop of `bitmap_scan`, with `n` values of `i` to go. BITMAP_ERROR is `none`.
unfoldable pub scan_from : ℕ → ℕ → ℕ → Bool → Bitmap → Result (Option ℕ)
scan_from zero i cnt value b = ok none
scan_from (suc n) i cnt value b =
    let rest = scan_from n (i + 1) cnt value b in
    do x ← bitmap_contains i cnt (not value) b; if not x then ok (some i) else rest

unfoldable pub bitmap_scan : ℕ → ℕ → Bool → Bitmap → Result (Option ℕ)
bitmap_scan start cnt value b = do
  assert (leb start b.bit_cnt)
  if leb cnt b.bit_cnt then scan_from (b.bit_cnt - cnt + 1 - start) start cnt value b else ok none

unfoldable pub bitmap_scan_and_flip : ℕ → ℕ → Bool → Bitmap → Result (Option ℕ × Bitmap)
bitmap_scan_and_flip start cnt value b = do
  idx ← bitmap_scan start cnt value b
  elim idx [
    | none ↦ ok (none, b)
    | some i ↦ do j ← bitmap_set_multiple i cnt (not value) b; ok (some i, j)
  ]
