-- ===== src/Sorts/Phases.antt =====
-- lib/stdlib.c: the two loops of sort().
use Prim.Native.Nat.{Ordering}
use cs380l.Base.{
  ℕ, zero, suc, ◌+◌, ◌-◌, ◌/◌, ◌≤◌, ◌<◌, ◌≡◌, inl, inr, refl, ap, ◌∙◌, Bool, true, false, ◌==◌, ltb,
  ok, arith, Bool-cases,
}
use cs380l.Files.Disk.{Buffer}
use cs380l.Sorts.State.{do_swap, build, extract, sort}
use cs380l.Sorts.Swaps.{swapped}
use cs380l.Sorts.Heaps.{Heap, HeapBut, Heap-root}
use cs380l.Sorts.Keys.{
  IsOrder, Exchanges, unchanged, exchange, Exchanges-append, keys, keys-do_swap, heapify-Heap,
}
use cs380l.Sorts.Counts.{
  passing, Reads, passing-Exchanges, keys-Exchanges_beyond, keys-Exchanges_bound,
}

module _ (cmp : Buffer → Buffer → Ordering) (key : Buffer → ℕ) (size : ℕ)
    (order : IsOrder cmp key size) where
  abbrev k_of : Buffer → ℕ → ℕ
  k_of = keys cmp key size order

  -- The elements behind the first `n` are in their places.
  abbrev pub Placed : ℕ → ℕ → Buffer → Type 0
  Placed n cnt a = (j i : ℕ) → n < j → j ≤ cnt → 1 ≤ i → i ≤ j → k_of a i ≤ k_of a j

  build-Heap :
      (i cnt : ℕ) (array : Buffer)
      → Heap (suc i) cnt (k_of array)
      → (r : Buffer) × (build cmp i array cnt size ≡ ok r)
        × Exchanges size cnt array r
        × Heap 1 cnt (k_of r)
  unfolding build
  build-Heap zero cnt array heap = (array, refl, unchanged, heap)
  build-Heap (suc i) cnt array heap =
      let (a, run, swaps, heap2) =
        heapify-Heap cmp key size order (cnt + 1) array (suc i) (suc i) cnt (omega arith)
          (omega arith) (omega arith) (omega arith)
          ((λ c h p q. heap c h (ground (arith, q))), (λ c h p q. absurd (omega arith))) in
      let (r, run2, swaps2, heap3) = build-Heap i cnt a heap2 in
      (r, rw run run2, Exchanges-append size cnt cnt (omega arith) swaps swaps2, heap3)

  -- The root of the heap goes behind it.
  root-Placed :
      (i cnt : ℕ) (array : Buffer)
      → suc i + 1 ≤ cnt
      → Heap 1 (suc i + 1) (k_of array)
      → Placed (suc i + 1) cnt array
      → let next = do_swap array 1 (suc i + 1) size in
        HeapBut 1 1 (suc i) (k_of next) × Placed (suc i) cnt next
  root-Placed i cnt array fit heap placed = (
    (λ c h p q. below c h p q, λ c h p q. absurd (omega arith)),
    λ j k h g p q. behind j k h g p q,
  )
    where
      next : Buffer
      next = do_swap array 1 (suc i + 1) size

      at : (j : ℕ) → 1 ≤ j → k_of next j ≡ swapped 1 (suc i + 1) (k_of array) j
      at j h =
          keys-do_swap cmp key size order array 1 (suc i + 1) j (ground arith) (omega arith)
            (omega arith) h

      below :
          (c : ℕ) → c ≤ suc i → 1 ≤ c / 2 → (c / 2 == 1) ≡ false → k_of next c ≤ k_of next (c / 2)
      below c h p q =
          let old = heap c (omega arith) p in
          let one = at c (omega arith) in let two = at (c / 2) p in ground (arith, one, two, old)

      behind : (j k : ℕ) → suc i < j → j ≤ cnt → 1 ≤ k → k ≤ j → k_of next k ≤ k_of next j
      behind j k h g p q =
          let one = at k p in
          let two = at j (omega arith) in
          let root = (λ (c : ℕ) (l : 1 ≤ c) (u : c ≤ suc i + 1).
            Heap-root (k_of array) (suc i + 1) heap (c + 1) c (omega arith) l u) in
          elim (Bool-cases (j == suc i + 1)) [
            | inl last ↦
                let top = root k p (ground arith) in
                let top2 = root (suc i + 1) (omega arith) (omega arith) in
                ground (arith, one, two, top, top2)
            | inr more ↦
                let behind_k = placed j k (ground arith) g p q in
                let behind_1 = placed j 1 (ground arith) g (omega arith) (omega arith) in
                let behind_n = placed j (suc i + 1) (ground arith) g (omega arith) (ground arith) in
                ground (arith, one, two, behind_k, behind_1, behind_n)
          ]

  -- Exchanges of the first elements keep what is placed behind them.
  Placed-Exchanges :
      (n cnt : ℕ) {a r : Buffer} → Exchanges size n a r → Placed n cnt a → Placed n cnt r
  Placed-Exchanges n cnt {a = a} {r = r} swaps placed j i h g p q =
      let same = keys-Exchanges_beyond cmp key size order n j h swaps in
      let bound =
        keys-Exchanges_bound cmp key size order n j (k_of a j) (omega arith) swaps
          (λ x l u. placed j x h g l u) i p q in
      omega arith

  extract-Placed :
      (i cnt : ℕ) (array : Buffer)
      → i + 1 ≤ cnt
      → Heap 1 (i + 1) (k_of array)
      → Placed (i + 1) cnt array
      → (r : Buffer) × (extract cmp i array size ≡ ok r)
        × Exchanges size cnt array r
        × Placed 1 cnt r
  unfolding extract
  extract-Placed zero cnt array fit heap placed = (array, refl, unchanged, placed)
  extract-Placed (suc i) cnt array fit heap placed =
      let (but, placed2) = root-Placed i cnt array fit heap placed in
      let next = do_swap array 1 (suc i + 1) size in
      let (a, run, swaps, heap2) =
        heapify-Heap cmp key size order (suc i + 1) next 1 1 (suc i) (omega arith) (omega arith)
          (omega arith) (omega arith) but in
      let placed3 = Placed-Exchanges (suc i) cnt swaps placed2 in
      let (r, run2, swaps2, placed4) =
        extract-Placed i cnt a (omega arith) (narrow i a heap2) (near i a placed3) in
      (
        r,
        rw run run2,
        exchange 1 (suc i + 1) (ground arith) (omega arith) (omega arith) (omega arith) fit
            (Exchanges-append size (suc i) cnt (omega arith) swaps swaps2),
        placed4,
      )
    where
      narrow : (i : ℕ) (a : Buffer) → Heap 1 (suc i) (k_of a) → Heap 1 (i + 1) (k_of a)
      narrow i a heap c h p = heap c (omega arith) p

      near : (i : ℕ) (a : Buffer) → Placed (suc i) cnt a → Placed (i + 1) cnt a
      near i a placed j k h g p q = placed j k (omega arith) g p q

  extract_all :
      (cnt : ℕ) (a : Buffer)
      → Heap 1 cnt (k_of a)
      → (r : Buffer) × (extract cmp (cnt - 1) a size ≡ ok r)
        × Exchanges size cnt a r
        × Placed 1 cnt r
  unfolding extract
  extract_all zero a heap = (a, refl, unchanged, λ j i h g p q. absurd (omega arith))
  extract_all (suc n) a heap =
      let less : suc n - 1 ≡ n = omega arith in
      let (r, run, swaps, placed) =
        extract-Placed n (suc n) a (omega arith) (λ c h p. heap c (omega arith) p)
          (λ j i h g p q. absurd (omega arith)) in
      (r, ap (λ x. extract cmp x a size) less ∙ run, swaps, placed)

  -- When the result of `cmp` is that of comparing keys that stand in the bytes of the elements: sort() returns, the
  -- keys in the array are in ascending order then, and of any kind of element there are as many as before.
  pub sort-sorted :
      (array : Buffer) (cnt : ℕ)
      → 0 < size
      → (r : Buffer) × (sort cmp array cnt size ≡ ok r)
        × ((i j : ℕ)
            → 1 ≤ i
            → i ≤ j
            → j ≤ cnt
            → keys cmp key size order r i ≤ keys cmp key size order r j)
        × ((test : Buffer → Bool)
            → Reads test size
            → passing test r cnt size ≡ passing test array cnt size)
  unfolding sort
  sort-sorted array cnt pos =
      let positive : ltb 0 size ≡ true = ground arith in
      let (a, run, swaps, heap) = build-Heap (cnt / 2) cnt array (λ c h p. absurd (omega arith)) in
      let (r, run2, swaps2, placed) = extract_all cnt a heap in
      (
        r,
        rw (positive, run) run2,
        λ i j p q h. ordered r placed i j p q h,
        λ test reads.
            passing-Exchanges test size cnt reads
              (Exchanges-append size cnt cnt (omega arith) swaps swaps2),
      )
    where
      ordered :
          (r : Buffer) → Placed 1 cnt r → (i j : ℕ) → 1 ≤ i → i ≤ j → j ≤ cnt → k_of r i ≤ k_of r j
      ordered r placed i j p q h = elim (Bool-cases (ltb 1 j)) [
        | inl more ↦ placed j i (ground arith) h p q
        | inr one ↦
            let same : i ≡ j = ground arith in
            let e : k_of r i ≡ k_of r j = ap (k_of r) same in omega arith
      ]
