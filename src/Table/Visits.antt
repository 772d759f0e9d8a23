-- ===== src/Table/Visits.antt =====
-- lib/kernel/hash.c: the walk of the iterator.
use mathlib.Core.List.{append_assoc}
use cs380l.Base.{
  ℕ, zero, suc, ◌+◌, ◌-◌, ◌≤◌, ◌<◌, ◌≡◌, refl, sym, ap, ◌∙◌, ltb, if◌then◌else◌, List, [], ◌∷◌,
  ◌++◌, length, ok, arith, true, false,
}
use cs380l.Table.State.{Keys, Hash}
use cs380l.Table.Contents.{weigh, is, occurrences, weigh-le-total}
use cs380l.Table.Valid.{IsValid}
use cs380l.Table.Iterator.{
  Place, head, null, node, Iterator, first, next_node, list_next, hash_first, skip_ended, hash_next,
  hash_cur, visited,
}
use cs380l.Table.Walk.{chained, all_of, weigh-append, length-all_of}

-- Where the walk stands: `rest` is what follows `p` in the list `xs`.
abbrev After : List ℕ → Place → List ℕ → Type 0
After xs p rest = (pre : List ℕ) × (xs ≡ pre ++ rest) × (list_next xs p ≡ ok (first rest))

next-append :
    (pre : List ℕ) (e : ℕ) (rest : List ℕ)
    → weigh (is e) pre ≡ 0
    → next_node (pre ++ e ∷ rest) e ≡ ok (first rest)
unfolding next_node weigh
next-append [] e rest p = ground arith
next-append (x ∷ pre) e rest p = ground (arith, next-append pre e rest)

After-step :
    (xs : List ℕ) (p : Place) (e : ℕ) (rest : List ℕ)
    → weigh (is e) xs ≤ 1
    → After xs p (e ∷ rest)
    → After xs (node e) rest
unfolding list_next weigh
After-step xs p e rest once (pre, split, step) =
    let sum = ap (weigh (is e)) split ∙ weigh-append (is e) pre (e ∷ rest) in
    let before : weigh (is e) pre ≡ 0 = ground arith in
    (
      pre ++ e ∷ [],
      split ∙ sym (append_assoc pre (e ∷ []) rest),
      ap (λ l. next_node l e) split ∙ next-append pre e rest before,
    )

next-skip :
    (h : Hash) (b : ℕ) (p : Place)
    → After (h.buckets b) p []
    → b < h.bucket_cnt
    → hash_next h (record { bucket = b; elem = p }) ≡ (
        if ltb (b + 1) h.bucket_cnt
        then hash_next h (record { bucket = b + 1; elem = head })
        else ok (record { bucket = b + 1; elem = null }))
unfolding hash_next skip_ended list_next
next-skip h b p (_, _, step) small =
    let e : h.bucket_cnt - b + 1 ≡ suc (h.bucket_cnt - (b + 1) + 1) = omega arith in
    rw (step, e) refl

next-node :
    (h : Hash) (b : ℕ) (p : Place) (e : ℕ) (rest : List ℕ)
    → After (h.buckets b) p (e ∷ rest)
    → hash_next h (record { bucket = b; elem = p }) ≡ ok (record { bucket = b; elem = node e })
unfolding hash_next skip_ended
next-node h b p e rest (_, _, step) =
    let s : h.bucket_cnt - b + 1 ≡ suc (h.bucket_cnt - b) = omega arith in rw (step, s) refl

visited-same :
    (n : ℕ) (h : Hash) (i j : Iterator)
    → hash_next h i ≡ hash_next h j
    → visited n h i ≡ visited n h j
unfolding visited
visited-same zero h i j e = refl
visited-same (suc n) h i j e = rw e refl

one_more : (n : ℕ) → 1 ≤ n → (m : ℕ) × (n ≡ suc m)
one_more zero p = absurd (omega arith)
one_more (suc m) p = (m, refl)

module _ ⦃keys : Keys⦄ (h : Hash) (v : IsValid h) where
  once : (b e : ℕ) → b < h.bucket_cnt → weigh (is e) (h.buckets b) ≤ 1
  unfolding occurrences
  once b e p = omega (arith, v.single e, weigh-le-total (is e) h.bucket_cnt b h.buckets p)

  visited-from :
      (k : ℕ) (rest : List ℕ) (n b : ℕ) (p : Place)
      → b + k + 1 ≡ h.bucket_cnt
      → After (h.buckets b) p rest
      → length (rest ++ chained k (b + 1) h.buckets) < n
      → visited n h (record { bucket = b; elem = p }) ≡ ok (rest ++ chained k (b + 1) h.buckets)
  unfolding visited hash_cur chained list_next
  visited-from k (e ∷ rest) zero b p whole at fuel = absurd (omega arith)
  visited-from k (e ∷ rest) (suc n) b p whole at fuel =
      let again =
        visited-from k rest n b (node e) whole
          (After-step (h.buckets b) p e rest (once b e (omega arith)) at) (omega arith) in
      rw (next-node h b p e rest at, again) refl
  visited-from zero [] zero b p whole at fuel = absurd (omega arith)
  visited-from zero [] (suc n) b p whole at fuel =
      let last : ltb (b + 1) h.bucket_cnt ≡ false = ground arith in
      rw (next-skip h b p at (omega arith), last) refl
  visited-from (suc k) [] n b p whole at fuel =
      let more : ltb (b + 1) h.bucket_cnt ≡ true = ground arith in
      let step : hash_next h (record { bucket = b; elem = p })
          ≡ hash_next h (record { bucket = b + 1; elem = head }) =
        next-skip h b p at (omega arith) ∙ rw more refl in
      visited-same n h (record { bucket = b; elem = p }) (record { bucket = b + 1; elem = head })
        step
      ∙ visited-from k (h.buckets (b + 1)) n (b + 1) head (omega arith) ([], refl, refl) fuel

  -- Of a valid table, with more rounds than it has elements: the walk of the iterator returns, and
  -- what it has visited is each element once, in the order in which hash_apply() calls its action.
  pub visited-all_of :
      (limit : ℕ) → h.elem_cnt < limit → visited limit h (hash_first h) ≡ ok (all_of h)
  unfolding all_of hash_first list_next chained
  visited-all_of limit fuel =
      let (m, e) = one_more h.bucket_cnt (omega (arith, v.roomy)) in
      let whole : all_of h ≡ h.buckets 0 ++ chained m 1 h.buckets =
        ap (λ c. chained c 0 h.buckets) e in
      let size = length-all_of h ∙ v.counted in
      visited-from m (h.buckets 0) limit 0 head (omega arith) ([], refl, refl)
        (omega (arith, ap length whole, size))
      ∙ ap ok (sym whole)
