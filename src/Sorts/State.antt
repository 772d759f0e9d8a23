-- ===== src/Sorts/State.antt =====
-- lib/stdlib.c: heap sort and binary search. An array is its bytes by offset, and an element is the bytes from its
-- first one on. `compare`, with its auxiliary data, is a parameter; of its result only the sign counts.
use Prim.Native.Nat.{Ordering}
use cs380l.Base.{
  ℕ, zero, suc, ◌+◌, ◌-◌, ◌*◌, ◌/◌, Bool, true, false, ◌==◌, ltb, leb, ◌&&◌, if◌then◌else◌, Option,
  none, some, Result, ok, panic, ◌>>=◌, ◌>>◌, assert,
}
use cs380l.Files.Disk.{Buffer}

abbrev pub put_byte : ℕ → ℕ → Buffer → Buffer
put_byte o v array = λ p. if o == p then v else array p

-- The loop of `do_swap`, from the byte `i` on for `n` rounds.
unfoldable pub swap_bytes : ℕ → ℕ → ℕ → ℕ → Buffer → Buffer
swap_bytes zero i a b array = array
swap_bytes (suc n) i a b array =
    let t = array (a + i) in
    let half = put_byte (a + i) (array (b + i)) array in
    swap_bytes n (i + 1) a b (put_byte (b + i) t half)

unfoldable pub do_swap : Buffer → ℕ → ℕ → ℕ → Buffer
do_swap array a_idx b_idx size = swap_bytes size 0 ((a_idx - 1) * size) ((b_idx - 1) * size) array

-- The element with a 1-based index.
abbrev pub element : Buffer → ℕ → ℕ → Buffer
element array idx size = λ k. array ((idx - 1) * size + k)

abbrev pub positive : Ordering → Bool
positive Ordering.lt = false
positive Ordering.eq = false
positive Ordering.gt = true

module _ (compare : Buffer → Buffer → Ordering) where
  unfoldable pub do_compare : Buffer → ℕ → ℕ → ℕ → Ordering
  do_compare array a_idx b_idx size = compare (element array a_idx size) (element array b_idx size)

  -- The child `c` when it exists and is larger than the element `max`, or `max`.
  abbrev pub larger : Buffer → ℕ → ℕ → ℕ → ℕ → ℕ
  larger array c max cnt size =
      if leb c cnt && positive (do_compare array c max size) then c else max

  -- `heapify`, for at most `limit` rounds.
  unfoldable pub heapify : ℕ → Buffer → ℕ → ℕ → ℕ → Result Buffer
  heapify zero array i cnt size = panic
  heapify (suc limit) array i cnt size =
      let left = 2 * i in
      let right = 2 * i + 1 in
      let max = larger array right (larger array left i cnt size) cnt size in
      let rest = heapify limit (do_swap array i max size) max cnt size in
      if max == i then ok array else rest

  -- The first loop of `sort`, which makes a heap.
  unfoldable pub build : ℕ → Buffer → ℕ → ℕ → Result Buffer
  build zero array cnt size = ok array
  build (suc i) array cnt size = do
    after ← heapify (cnt + 1) array (suc i) cnt size
    build i after cnt size

  -- The second loop of `sort`, with `i + 1` elements left.
  unfoldable pub extract : ℕ → Buffer → ℕ → Result Buffer
  extract zero array size = ok array
  extract (suc i) array size = do
    after ← heapify (suc i + 1) (do_swap array 1 (suc i + 1) size) 1 (suc i) size
    extract i after size

  unfoldable pub sort : Buffer → ℕ → ℕ → Result Buffer
  sort array cnt size = do
    assert (ltb 0 size)
    heap ← build (cnt / 2) array cnt size
    extract (cnt - 1) heap size

  -- `qsort` and `bsearch` pass on a `compare` without auxiliary data.
  unfoldable pub qsort : Buffer → ℕ → ℕ → Result Buffer
  qsort array cnt size = sort array cnt size

  -- The loop of `binary_search`, for at most `limit` rounds, with the offsets of `first` and `last`.
  unfoldable pub search_between : ℕ → Buffer → Buffer → ℕ → ℕ → ℕ → Result (Option ℕ)
  search_between zero key array first last size = panic
  search_between (suc limit) key array first last size =
      let middle = first + (last - first) / size / 2 * size in
      let below = search_between limit key array first middle size in
      let above = search_between limit key array (middle + size) last size in
      if ltb first last
      then elim (compare key (λ k. array (middle + k))) [
        | Ordering.lt ↦ below
        | Ordering.gt ↦ above
        | Ordering.eq ↦ ok (some middle)
      ]
      else ok none

  -- The offset of an element that equals the key, when there is one.
  unfoldable pub binary_search : Buffer → Buffer → ℕ → ℕ → Result (Option ℕ)
  binary_search key array cnt size = search_between (cnt + 1) key array 0 (size * cnt) size

  unfoldable pub bsearch : Buffer → Buffer → ℕ → ℕ → Result (Option ℕ)
  bsearch key array cnt size = binary_search key array cnt size
