-- ===== src/Sorts/Swaps.antt =====
-- lib/stdlib.c: do_swap() exchanges two elements.
use cs380l.Base.{
  ℕ, zero, suc, ◌+◌, ◌-◌, ◌*◌, ◌≤◌, ◌<◌, ◌≡◌, ◌⊎◌, inl, inr, refl, ap, ◌∙◌, true, false, ◌==◌, ltb,
  leb, ◌&&◌, if◌then◌else◌, arith, Bool-cases,
}
use cs380l.Files.Disk.{Buffer}
use cs380l.Sorts.State.{put_byte, swap_bytes, do_swap, element}

-- Elements before another one end before it.
mul_lt : (a b s : ℕ) → a < b → a * s + s ≤ b * s
mul_lt a zero s h = absurd (omega arith)
mul_lt zero (suc b) s h = let e : suc b * s ≡ b * s + s = omega arith in omega (arith, e)
mul_lt (suc a) (suc b) s h =
    let before = mul_lt a b s (omega arith) in
    let e : suc b * s ≡ b * s + s = omega arith in
    let f : suc a * s ≡ a * s + s = omega arith in omega arith

-- The bytes of an exchange of two places that do not overlap.
module _ (a b m : ℕ) (apart : (a + m ≤ b) ⊎ (b + m ≤ a)) where
  swap_bytes-outside :
      (n i : ℕ) (array : Buffer) (p : ℕ)
      → i + n ≤ m
      → (leb (a + i) p && ltb p (a + m)) ≡ false
      → (leb (b + i) p && ltb p (b + m)) ≡ false
      → swap_bytes n i a b array p ≡ array p
  unfolding swap_bytes
  swap_bytes-outside zero i array p fit out_a out_b = refl
  swap_bytes-outside (suc n) i array p fit out_a out_b =
      let t = put_byte (b + i) (array (a + i)) (put_byte (a + i) (array (b + i)) array) in
      let miss_a : (a + i == p) ≡ false = ground arith in
      let miss_b : (b + i == p) ≡ false = ground arith in
      let rest = swap_bytes-outside n (i + 1) t p (omega arith) (ground arith) (ground arith) in
      rest ∙ rw (miss_a, miss_b) refl

  swap_bytes-inside :
      (n i : ℕ) (array : Buffer) (k : ℕ)
      → i + n ≤ m
      → i ≤ k
      → k < i + n
      → (swap_bytes n i a b array (a + k) ≡ array (b + k))
        × (swap_bytes n i a b array (b + k) ≡ array (a + k))
  unfolding swap_bytes
  swap_bytes-inside zero i array k fit low high = absurd (omega arith)
  swap_bytes-inside (suc n) i array k fit low high =
      let t = put_byte (b + i) (array (a + i)) (put_byte (a + i) (array (b + i)) array) in
      elim (Bool-cases (i == k)) [
        | inl here ↦
            let same : i ≡ k = ground arith in
            let far : (b + i == a + k) ≡ false = ground arith in
            let hit : (a + i == a + k) ≡ true = ground arith in
            let hit2 : (b + i == b + k) ≡ true = ground arith in
            let left =
              swap_bytes-outside n (i + 1) t (a + k) (omega arith) (ground arith) (ground arith) in
            let right =
              swap_bytes-outside n (i + 1) t (b + k) (omega arith) (ground arith) (ground arith) in
            (
              left ∙ rw (far, hit) (ap (λ x. array (b + x)) same),
              right ∙ rw hit2 (ap (λ x. array (a + x)) same),
            )
        | inr later ↦
            let (left, right) =
              swap_bytes-inside n (i + 1) t k (omega arith) (ground arith) (omega arith) in
            let far : (b + i == a + k) ≡ false = ground arith in
            let far2 : (a + i == b + k) ≡ false = ground arith in
            let miss : (a + i == a + k) ≡ false = ground arith in
            let miss2 : (b + i == b + k) ≡ false = ground arith in
            (left ∙ rw (miss2, far2) refl, right ∙ rw (far, miss) refl)
      ]

-- What stands at an index after an exchange.
abbrev pub swapped {ℓ} : {A : Type ℓ} → ℕ → ℕ → (ℕ → A) → ℕ → A
swapped x y f j = if j == x then f y else if j == y then f x else f j

pub swapped-ap {ℓ m} :
    {A : Type ℓ} {B : Type m} (f : A → B) (x y : ℕ) (g : ℕ → A) (j : ℕ)
    → f (swapped x y g j) ≡ swapped x y (λ i. f (g i)) j
swapped-ap f x y g j = elim (Bool-cases (j == x)) [
  | inl h ↦ rw h refl
  | inr h ↦ elim (Bool-cases (j == y)) [ inl e ↦ rw (h, e) refl | inr e ↦ rw (h, e) refl ]
]

places_apart :
    (x y size : ℕ)
    → (x == y) ≡ false
    → 1 ≤ x
    → 1 ≤ y
    → ((x - 1) * size + size ≤ (y - 1) * size) ⊎ ((y - 1) * size + size ≤ (x - 1) * size)
places_apart x y size other low_x low_y = elim (Bool-cases (ltb x y)) [
  | inl less ↦ inl (mul_lt (x - 1) (y - 1) size (ground arith))
  | inr more ↦ inr (mul_lt (y - 1) (x - 1) size (ground arith))
]

pub element-do_swap :
    (array : Buffer) (x y size j k : ℕ)
    → (x == y) ≡ false
    → 1 ≤ x
    → 1 ≤ y
    → 1 ≤ j
    → k < size
    → element (do_swap array x y size) j size k ≡ swapped x y (λ i. element array i size k) j
unfolding do_swap
element-do_swap array x y size j k other low_x low_y low_j small =
    let a = (x - 1) * size in
    let b = (y - 1) * size in
    let apart = places_apart x y size other low_x low_y in
    let (left, right) =
      swap_bytes-inside a b size apart size 0 array k (omega arith) (omega arith) (omega arith) in
    elim (Bool-cases (j == x)) [
      | inl at ↦
          let same : j ≡ x = ground arith in
          rw at (ap (λ i. swap_bytes size 0 a b array ((i - 1) * size + k)) same ∙ left)
      | inr not_x ↦ elim (Bool-cases (j == y)) [
        | inl at ↦
            let same : j ≡ y = ground arith in
            rw (not_x, at) (ap (λ i. swap_bytes size 0 a b array ((i - 1) * size + k)) same ∙ right)
        | inr not_y ↦
            let far_x = places_apart j x size not_x low_j low_x in
            let far_y = places_apart j y size not_y low_j low_y in
            rw (not_x, not_y)
              (swap_bytes-outside a b size apart size 0 array ((j - 1) * size + k) (omega arith)
                (ground arith) (ground arith))
      ]
    ]
