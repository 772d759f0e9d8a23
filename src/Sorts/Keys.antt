-- ===== src/Sorts/Keys.antt =====
-- lib/stdlib.c: orders of elements, exchanges of elements, and heapify().
use Prim.Native.Nat.{compare, Ordering}
use cs380l.Base.{
  ℕ, zero, suc, ◌+◌, ◌*◌, ◌≤◌, ◌<◌, ◌≡◌, inl, inr, sym, ap, ◌∙◌, Bool, true, false, ◌==◌, ltb, leb,
  ◌&&◌, if◌then◌else◌, Result, ok, arith,
}
use cs380l.Files.Disk.{Buffer}
use cs380l.Sorts.State.{do_swap, element, positive, do_compare, larger, heapify}
use cs380l.Sorts.Swaps.{swapped, swapped-ap, element-do_swap}
use cs380l.Sorts.Heaps.{
  Heap, HeapBut, pick, largest, largest-Largest, HeapBut-swapped, Heap-HeapBut,
}

-- The result of `cmp` is that of comparing keys, which are in the bytes of the elements.
pub record IsOrder (cmp : Buffer → Buffer → Ordering) (key : Buffer → ℕ) (size : ℕ) : Type 0 where
  pub agrees : (p q : Buffer) → cmp p q ≡ compare (key p) (key q)
  pub reads : (p q : Buffer) → ((k : ℕ) → k < size → p k ≡ q k) → key p ≡ key q

-- The elements up to `n` have been exchanged, any number of times.
pub data Exchanges (size n : ℕ) : Buffer → Buffer → Type 0 where
  unchanged : {a : Buffer} → Exchanges size n a a
  exchange :
      {a r : Buffer} (x y : ℕ)
      → (x == y) ≡ false
      → 1 ≤ x
      → x ≤ n
      → 1 ≤ y
      → y ≤ n
      → Exchanges size n (do_swap a x y size) r
      → Exchanges size n a r

pub Exchanges-append :
    (size n m : ℕ) {a b c : Buffer}
    → n ≤ m
    → Exchanges size n a b
    → Exchanges size m b c
    → Exchanges size m a c
Exchanges-append size n m h unchanged rest = rest
Exchanges-append size n m h (exchange x y e p q r s more) rest =
    exchange x y e p (omega arith) r (omega arith) (Exchanges-append size n m h more rest)

module _ (cmp : Buffer → Buffer → Ordering) (key : Buffer → ℕ) (size : ℕ)
    (order : IsOrder cmp key size) where
  abbrev pub keys : Buffer → ℕ → ℕ
  keys array j = key (element array j size)

  pub keys-do_swap :
      (array : Buffer) (x y j : ℕ)
      → (x == y) ≡ false
      → 1 ≤ x
      → 1 ≤ y
      → 1 ≤ j
      → keys (do_swap array x y size) j ≡ swapped x y (keys array) j
  keys-do_swap array x y j e p q r =
      order.reads (element (do_swap array x y size) j size)
        (swapped x y (λ i. element array i size) j)
        (λ k h.
          element-do_swap array x y size j k e p q r h
          ∙ sym (swapped-ap (λ b. b k) x y (λ i. element array i size) j))
      ∙ swapped-ap key x y (λ i. element array i size) j

  larger-pick :
      (array : Buffer) (c max cnt : ℕ)
      → larger cmp array c max cnt size ≡ pick (keys array) c max cnt
  unfolding do_compare
  larger-pick array c max cnt =
      let e = order.agrees (element array c size) (element array max size) in
      let test : positive (cmp (element array c size) (element array max size))
          ≡ ltb (keys array max) (keys array c) =
        ap positive e ∙ sign (keys array c) (keys array max) in
      ap (λ b. if leb c cnt && b then c else max) test
    where
      sign : (x y : ℕ) → positive (compare x y) ≡ ltb y x
      sign x y = ground arith

  max-largest :
      (array : Buffer) (i cnt : ℕ)
      → larger cmp array (2 * i + 1) (larger cmp array (2 * i) i cnt size) cnt size
        ≡ largest (keys array) i cnt
  max-largest array i cnt =
      larger-pick array (2 * i + 1) (larger cmp array (2 * i) i cnt size) cnt
      ∙ ap (λ m. pick (keys array) (2 * i + 1) m cnt) (larger-pick array (2 * i) i cnt)

  abbrev decide : ℕ → Buffer → ℕ → ℕ → ℕ → Bool → Result Buffer
  decide limit array i cnt m done =
      if done then ok array else heapify cmp limit (do_swap array i m size) m cnt size

  heapify_round :
      (limit : ℕ) (array : Buffer) (i cnt : ℕ) (b : Bool)
      → (largest (keys array) i cnt == i) ≡ b
      → heapify cmp (suc limit) array i cnt size
        ≡ decide limit array i cnt (largest (keys array) i cnt) b
  unfolding heapify
  heapify_round limit array i cnt b e =
      ap (λ m. decide limit array i cnt m (m == i)) (max-largest array i cnt)
      ∙ ap (decide limit array i cnt (largest (keys array) i cnt)) e

  -- heapify() returns, exchanges elements, and repairs a heap but for the children of `i`.
  pub heapify-Heap :
      (limit : ℕ) (array : Buffer) (lo i cnt : ℕ)
      → 1 ≤ lo
      → lo ≤ i
      → cnt < i + limit
      → 1 ≤ limit
      → HeapBut lo i cnt (keys array)
      → (r : Buffer) × (heapify cmp limit array i cnt size ≡ ok r)
        × Exchanges size cnt array r
        × Heap lo cnt (keys r)
  heapify-Heap zero array lo i cnt low below fuel pos but = absurd (omega arith)
  heapify-Heap (suc limit) array lo i cnt low below fuel pos but =
      let m = largest (keys array) i cnt in
      let (place, up, top) = largest-Largest (keys array) i cnt (omega arith) in
      elim place [
        | inl stays ↦
            let same : m ≡ i = ground arith in
            (
              array,
              heapify_round limit array i cnt true stays,
              unchanged,
              Heap-HeapBut (keys array) lo i cnt but
                  (λ c h e. under (keys array) c m i (top c h e) same),
            )
        | inr (moves, inside, child) ↦
            let next = do_swap array i m size in
            let other : (i == m) ≡ false = ground arith in
            let but2 =
              HeapBut-swapped (keys array) (keys next) lo i m cnt low below (omega arith) inside
                child moves but up top
                (λ j h. keys-do_swap array i m j other (omega arith) (omega arith) h) in
            let (r, loop, swaps, heap) =
              heapify-Heap limit next lo m cnt low (omega arith) (omega arith) (omega arith) but2 in
            (
              r,
              heapify_round limit array i cnt false moves ∙ loop,
              exchange i m other (omega arith) (omega arith) (omega arith) inside swaps,
              heap,
            )
      ]
    where
      under : (f : ℕ → ℕ) (c m i : ℕ) → f c ≤ f m → m ≡ i → f c ≤ f i
      under f c m i h e = let g : f m ≡ f i = ap f e in omega arith
