-- ===== src/Table/Walk.antt =====
-- lib/kernel/hash.c: the loops over all elements of a table.
use cs380l.Base.{ℕ, zero, suc, ◌+◌, ◌≡◌, refl, sym, ap, ◌∙◌, List, [], ◌∷◌, ◌++◌, length, arith}
use cs380l.Table.State.{Hash, for_each, apply_from, hash_apply}
use cs380l.Table.Contents.{weigh, total, one, is, occurrences, elements}

-- The elements of `n` buckets from bucket `i` on, one bucket behind the other.
unfoldable pub chained : ℕ → ℕ → (ℕ → List ℕ) → List ℕ
chained zero i f = []
chained (suc n) i f = f i ++ chained n (i + 1) f

unfoldable pub all_of : Hash → List ℕ
all_of h = chained h.bucket_cnt 0 h.buckets

pub weigh-append : (w : ℕ → ℕ) (xs ys : List ℕ) → weigh w (xs ++ ys) ≡ weigh w xs + weigh w ys
unfolding weigh
weigh-append w [] ys = omega arith
weigh-append w (x ∷ xs) ys = omega (arith, weigh-append w xs ys)

total-suc : (w : ℕ → ℕ) (m : ℕ) (f : ℕ → List ℕ) → total w (suc m) f ≡ total w m f + weigh w (f m)
unfolding total
total-suc w m f = refl

total-chained :
    (w : ℕ → ℕ) (n i : ℕ) (f : ℕ → List ℕ)
    → total w i f + weigh w (chained n i f) ≡ total w (n + i) f
unfolding chained weigh
total-chained w zero i f = let e : 0 + i ≡ i = omega arith in omega (arith, ap (λ n. total w n f) e)
total-chained w (suc n) i f =
    let rest = total-chained w n (suc i) f in
    let here = total-suc w i f in
    let e : i + 1 ≡ suc i = omega arith in
    let e2 : suc n + i ≡ n + suc i = omega arith in
    rw (e, e2, weigh-append w (f i) (chained n (suc i) f)) (omega (arith, rest, here))

total-all_of : (w : ℕ → ℕ) (h : Hash) → weigh w (all_of h) ≡ total w h.bucket_cnt h.buckets
unfolding all_of total
total-all_of w h =
    let e : h.bucket_cnt + 0 ≡ h.bucket_cnt = omega arith in
    omega (arith, total-chained w h.bucket_cnt 0 h.buckets, ap (λ n. total w n h.buckets) e)

-- The walk has each element as often as the table.
pub weigh-all_of : (a : ℕ) (h : Hash) → weigh (is a) (all_of h) ≡ occurrences a h
unfolding occurrences
weigh-all_of a h = total-all_of (is a) h

weigh-one : (xs : List ℕ) → weigh one xs ≡ length xs
unfolding weigh
weigh-one [] = refl
weigh-one (x ∷ xs) = omega (arith, weigh-one xs)

pub length-all_of : (h : Hash) → length (all_of h) ≡ elements h
unfolding elements
length-all_of h = omega (arith, weigh-one (all_of h), total-all_of one h)

module _ {ℓ} {S : Type ℓ} where
  pub for_each-append :
      (action : ℕ → S → S) (xs ys : List ℕ) (s : S)
      → for_each action (xs ++ ys) s ≡ for_each action ys (for_each action xs s)
  unfolding for_each
  for_each-append action [] ys s = refl
  for_each-append action (x ∷ xs) ys s = for_each-append action xs ys (action x s)

  apply_from-chained :
      (action : ℕ → S → S) (n i : ℕ) (f : ℕ → List ℕ) (s : S)
      → apply_from n i action f s ≡ for_each action (chained n i f) s
  unfolding apply_from chained for_each
  apply_from-chained action zero i f s = refl
  apply_from-chained action (suc n) i f s =
      apply_from-chained action n (i + 1) f (for_each action (f i) s)
      ∙ sym (for_each-append action (f i) (chained n (i + 1) f) s)

  pub hash_apply-all_of :
      (action : ℕ → S → S) (h : Hash) (s : S) → hash_apply h action s ≡ for_each action (all_of h) s
  unfolding hash_apply all_of
  hash_apply-all_of action h s = apply_from-chained action h.bucket_cnt 0 h.buckets s
