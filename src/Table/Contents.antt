-- ===== src/Table/Contents.antt =====
-- lib/kernel/hash.c: sums over the elements of a table, and what the steps of the code do to them.
use cs380l.Base.{
  ℕ, zero, suc, ◌+◌, ◌-◌, ◌%◌, ◌^◌, ◌≤◌, ◌<◌, ◌≡◌, inl, inr, refl, ◌==◌, if◌then◌else◌, List, [],
  ◌∷◌, arith, ℕ-cases,
}
use cs380l.Base.Powers.{bit_and-le_right}
use cs380l.Table.State.{Keys, Hash, set_bucket, unlink, bucket_idx, move_bucket, move_buckets}

unfoldable pub weigh : (ℕ → ℕ) → List ℕ → ℕ
weigh w [] = 0
weigh w (x ∷ xs) = w x + weigh w xs

-- The sum over the first `n` buckets.
unfoldable pub total : (ℕ → ℕ) → ℕ → (ℕ → List ℕ) → ℕ
total w zero f = 0
total w (suc n) f = total w n f + weigh w (f n)

abbrev pub one : ℕ → ℕ
one x = 1

abbrev pub is : ℕ → ℕ → ℕ
is a x = if x == a then 1 else 0

-- How many times `a` is in the table, and how many elements it has.
unfoldable pub occurrences : ℕ → Hash → ℕ
occurrences a h = total (is a) h.bucket_cnt h.buckets

unfoldable pub elements : Hash → ℕ
elements h = total one h.bucket_cnt h.buckets

module _ (w : ℕ → ℕ) where
  pub weigh-le-total : (n i : ℕ) (f : ℕ → List ℕ) → i < n → weigh w (f i) ≤ total w n f
  unfolding total
  weigh-le-total zero i f p = absurd (omega arith)
  weigh-le-total (suc n) i f p = elim (ℕ-cases (n - i)) [
    | inl z ↦ let e : i ≡ n = omega arith in rw e (omega arith)
    | inr (m, z) ↦ omega (arith, weigh-le-total n i f (omega arith))
  ]

  pub total-set_out :
      (n i : ℕ) (xs : List ℕ) (f : ℕ → List ℕ) → n ≤ i → total w n (set_bucket i xs f) ≡ total w n f
  unfolding total
  total-set_out zero i xs f p = refl
  total-set_out (suc n) i xs f p = ground (arith, total-set_out n i xs f (omega arith))

  pub total-set_bucket :
      (n i : ℕ) (xs : List ℕ) (f : ℕ → List ℕ)
      → i < n
      → total w n (set_bucket i xs f) + weigh w (f i) ≡ total w n f + weigh w xs
  unfolding total
  total-set_bucket zero i xs f p = absurd (omega arith)
  total-set_bucket (suc n) i xs f p =
      let inner = total-set_bucket n i xs f in
      let outer = total-set_out n i xs f in ground (arith, inner, outer)

  pub total_empty : (n : ℕ) → total w n (λ i. []) ≡ 0
  unfolding total weigh
  total_empty zero = refl
  total_empty (suc n) = omega (arith, total_empty n)

  pub weigh-unlink_absent :
      (e : ℕ) (xs : List ℕ) → weigh (is e) xs ≡ 0 → weigh w (unlink e xs) ≡ weigh w xs
  unfolding weigh unlink
  weigh-unlink_absent e [] p = refl
  weigh-unlink_absent e (x ∷ xs) p = ground (arith, weigh-unlink_absent e xs)

  pub weigh-unlink :
      (e : ℕ) (xs : List ℕ) → 1 ≤ weigh (is e) xs → weigh w (unlink e xs) + w e ≡ weigh w xs
  unfolding weigh unlink
  weigh-unlink e [] p = absurd (omega arith)
  weigh-unlink e (x ∷ xs) p = ground (arith, weigh-unlink e xs)

  pub total-unlink_absent :
      (n e : ℕ) (f : ℕ → List ℕ)
      → total (is e) n f ≡ 0
      → total w n (λ i. unlink e (f i)) ≡ total w n f
  unfolding total
  total-unlink_absent zero e f p = refl
  total-unlink_absent (suc n) e f p =
      omega
        (arith, total-unlink_absent n e f (omega arith), weigh-unlink_absent e (f n) (omega arith))

  pub total-unlink :
      (n e : ℕ) (f : ℕ → List ℕ)
      → total (is e) n f ≡ 1
      → total w n (λ i. unlink e (f i)) + w e ≡ total w n f
  unfolding total
  total-unlink zero e f p = absurd (omega arith)
  total-unlink (suc n) e f p = elim (ℕ-cases (weigh (is e) (f n))) [
    | inl z ↦ omega (arith, total-unlink n e f (omega arith), weigh-unlink_absent e (f n) z)
    | inr (m, z) ↦
        omega (arith, total-unlink_absent n e f (omega arith), weigh-unlink e (f n) (omega arith))
  ]

module _ ⦃keys : Keys⦄ where
  pub bucket_idx-lt : (cnt e : ℕ) → 1 ≤ cnt → cnt ≤ 2 ^ 32 → bucket_idx cnt e < cnt
  unfolding bucket_idx
  bucket_idx-lt cnt e p q =
      omega (arith, bit_and-le_right (keys.hash e) ((cnt + 2 ^ 32 - 1) % 2 ^ 32))

  module _ (w : ℕ → ℕ) (cnt : ℕ) (p : 1 ≤ cnt) (q : cnt ≤ 2 ^ 32) where
    pub total-move_bucket :
        (xs : List ℕ) (g : ℕ → List ℕ)
        → total w cnt (move_bucket cnt xs g) ≡ total w cnt g + weigh w xs
    unfolding move_bucket weigh
    total-move_bucket [] g = omega arith
    total-move_bucket (e ∷ xs) g =
        let i = bucket_idx cnt e in
        omega (
          arith,
          total-move_bucket xs (set_bucket i (e ∷ g i) g),
          total-set_bucket w cnt i (e ∷ g i) g (bucket_idx-lt cnt e p q),
        )

    pub total-move_buckets :
        (n : ℕ) (f : ℕ → List ℕ) → total w cnt (move_buckets cnt n f) ≡ total w n f
    unfolding move_buckets total
    total-move_buckets zero f = total_empty w cnt
    total-move_buckets (suc n) f =
        omega (arith, total-move_bucket (f n) (move_buckets cnt n f), total-move_buckets n f)
