-- ===== src/Sorts/Counts.antt =====
-- lib/stdlib.c: what exchanges of elements keep.
use Prim.Native.Nat.{Ordering}
use cs380l.Base.{
  ℕ, zero, suc, ◌+◌, ◌≤◌, ◌<◌, ◌≡◌, inl, inr, refl, sym, ap, ◌∙◌, Bool, true, false, ◌==◌,
  if◌then◌else◌, arith, Bool-cases,
}
use cs380l.Files.Disk.{Buffer}
use cs380l.Sorts.State.{do_swap, element}
use cs380l.Sorts.Swaps.{swapped, swapped-ap, element-do_swap}
use cs380l.Sorts.Keys.{IsOrder, Exchanges, unchanged, exchange, keys, keys-do_swap}

abbrev weight : Bool → ℕ
weight b = if b then 1 else 0

-- How many of the numbers from 1 to `n` pass the test.
abbrev pub total : ℕ → (ℕ → Bool) → ℕ
total zero t = 0
total (suc n) t = total n t + weight (t (suc n))

abbrev clear : ℕ → (ℕ → Bool) → ℕ → Bool
clear x t j = if j == x then false else t j

total-agree : (n : ℕ) (t u : ℕ → Bool) → ((j : ℕ) → 1 ≤ j → t j ≡ u j) → total n t ≡ total n u
total-agree zero t u same = refl
total-agree (suc n) t u same = rw (total-agree n t u same, same (suc n) (omega arith)) refl

total-beyond : (n x : ℕ) (t : ℕ → Bool) → n < x → total n (clear x t) ≡ total n t
total-beyond zero x t h = refl
total-beyond (suc n) x t h =
    let miss : (suc n == x) ≡ false = ground arith in
    rw (total-beyond n x t (omega arith), miss) refl

total-clear :
    (n x : ℕ) (t : ℕ → Bool) → 1 ≤ x → x ≤ n → total n t ≡ total n (clear x t) + weight (t x)
total-clear zero x t low high = absurd (omega arith)
total-clear (suc n) x t low high = elim (Bool-cases (suc n == x)) [
  | inl here ↦
      let same : suc n ≡ x = ground arith in
      let rest = total-beyond n x t (omega arith) in
      let at : weight (t (suc n)) ≡ weight (t x) = ap (λ j. weight (t j)) same in
      rw here (omega arith)
  | inr before ↦ let rest = total-clear n x t low (ground arith) in rw before (omega arith)
]

total-swapped :
    (n x y : ℕ) (t : ℕ → Bool)
    → (x == y) ≡ false
    → 1 ≤ x
    → x ≤ n
    → 1 ≤ y
    → y ≤ n
    → total n (swapped x y t) ≡ total n t
total-swapped n x y t other p q r s =
    let u = swapped x y t in
    let back : (y == x) ≡ false = ground arith in
    let hit : (x == x) ≡ true = ground arith in
    let hit2 : (y == y) ≡ true = ground arith in
    let u_x : weight (u x) ≡ weight (t y) = rw hit refl in
    let u_y : weight (clear x u y) ≡ weight (t x) = rw (back, hit2) refl in
    let t_y : weight (clear x t y) ≡ weight (t y) = rw back refl in
    let a = total-clear n x u p q in
    let b = total-clear n y (clear x u) r s in
    let c = total-clear n x t p q in
    let d = total-clear n y (clear x t) r s in
    let e = total-agree n (clear y (clear x u)) (clear y (clear x t)) (λ j h. left j) in omega arith
  where
    left : (j : ℕ) → clear y (clear x (swapped x y t)) j ≡ clear y (clear x t) j
    left j = elim (Bool-cases (j == y)) [
      | inl h ↦ rw h refl
      | inr h ↦ elim (Bool-cases (j == x)) [ inl g ↦ rw (h, g) refl | inr g ↦ rw (h, g) refl ]
    ]

-- How many elements pass a test.
abbrev pub passing : (Buffer → Bool) → Buffer → ℕ → ℕ → ℕ
passing test array cnt size = total cnt (λ j. test (element array j size))

-- The test reads the bytes of an element, and no others.
abbrev pub Reads : (Buffer → Bool) → ℕ → Type 0
Reads test size = (p q : Buffer) → ((k : ℕ) → k < size → p k ≡ q k) → test p ≡ test q

pub passing-Exchanges :
    (test : Buffer → Bool) (size n : ℕ) {a r : Buffer}
    → Reads test size
    → Exchanges size n a r
    → passing test r n size ≡ passing test a n size
passing-Exchanges test size n reads unchanged = refl
passing-Exchanges test size n {a = a} reads (exchange x y other p q s t more) =
    let b = do_swap a x y size in
    let rest = passing-Exchanges test size n reads more in
    let same =
      total-agree n (λ j. test (element b j size)) (swapped x y (λ i. test (element a i size)))
        (λ j low.
          reads (element b j size) (swapped x y (λ i. element a i size) j) (λ k h.
            element-do_swap a x y size j k other p s low h
            ∙ sym (swapped-ap (λ b. b k) x y (λ i. element a i size) j))
          ∙ swapped-ap test x y (λ i. element a i size) j) in
    rest ∙ (same ∙ total-swapped n x y (λ i. test (element a i size)) other p q s t)

module _ (cmp : Buffer → Buffer → Ordering) (key : Buffer → ℕ) (size : ℕ)
    (order : IsOrder cmp key size) where
  pub keys-Exchanges_beyond :
      (n : ℕ) {a r : Buffer} (j : ℕ)
      → n < j
      → Exchanges size n a r
      → keys cmp key size order r j ≡ keys cmp key size order a j
  keys-Exchanges_beyond n j h unchanged = refl
  keys-Exchanges_beyond n {a = a} j h (exchange x y other p q s t more) =
      let rest = keys-Exchanges_beyond n j h more in
      let one = keys-do_swap cmp key size order a x y j other p s (omega arith) in
      let miss : (j == x) ≡ false = ground arith in
      let miss2 : (j == y) ≡ false = ground arith in rest ∙ (one ∙ rw (miss, miss2) refl)

  pub keys-Exchanges_bound :
      (n m bound : ℕ) {a r : Buffer}
      → n ≤ m
      → Exchanges size n a r
      → ((j : ℕ) → 1 ≤ j → j ≤ m → keys cmp key size order a j ≤ bound)
      → (j : ℕ) → 1 ≤ j
      → j ≤ m
      → keys cmp key size order r j ≤ bound
  keys-Exchanges_bound n m bound h unchanged small j low high = small j low high
  keys-Exchanges_bound n m bound {a = a} h (exchange x y other p q s t more) small j low high =
      keys-Exchanges_bound n m bound h more (λ i l u. step i l u) j low high
    where
      step : (i : ℕ) → 1 ≤ i → i ≤ m → keys cmp key size order (do_swap a x y size) i ≤ bound
      step i l u =
          let one = keys-do_swap cmp key size order a x y i other p s l in
          let at_x = small x p (omega arith) in
          let at_y = small y s (omega arith) in let at_i = small i l u in ground (arith, one)
