-- ===== src/Table/Valid.antt =====
-- lib/kernel/hash.c: what holds of a table between two calls, and what `hash_find` tells of it.
use cs380l.Base.{
  ℕ, zero, suc, ◌^◌, ◌≤◌, ◌<◌, ◌≡◌, ◌≢◌, inl, inr, refl, sym, ap, ◌∙◌, true, ◌==◌, none, some, List,
  [], ◌∷◌, arith, ℕ-cases, Bool-cases, Option-cases,
}
use cs380l.Table.State.{Keys, Hash, equal, bucket_idx, find_bucket, find_elem, hash_find}
use cs380l.Table.Contents.{weigh, total, is, occurrences, elements, bucket_idx-lt}

total_single :
    (w : ℕ → ℕ) (n j : ℕ) (f : ℕ → List ℕ)
    → j < n
    → ((i : ℕ) → i < n → i ≢ j → weigh w (f i) ≡ 0)
    → total w n f ≡ weigh w (f j)
unfolding total
total_single w zero j f p h = absurd (omega arith)
total_single w (suc n) j f p h = elim (Bool-cases (n == j)) [
  | inl same ↦
      let e : n ≡ j = ground arith in
      let rest = total_zero n (λ i q. h i (omega arith) (λ s. omega arith)) in
      rw (sym e) (omega arith)
  | inr other ↦
      let rest = total_single w n j f (ground arith) (λ i q. h i (omega arith)) in
      omega (arith, h n (omega arith) (λ s. ground arith))
]
  where
    total_zero : (m : ℕ) → ((i : ℕ) → i < m → weigh w (f i) ≡ 0) → total w m f ≡ 0
    total_zero zero g = refl
    total_zero (suc m) g = omega (arith, g m (omega arith), total_zero m (λ i q. g i (omega arith)))

module _ ⦃keys : Keys⦄ where
  pub equal_sym : (a b : ℕ) → equal a b ≡ equal b a
  equal_sym a b = ground arith

  pub equal_refl : (a : ℕ) → equal a a ≡ true
  equal_refl a = rw (keys.less_irrefl a) refl

  -- The number of buckets is a power of 2, the elements are counted, each is in the bucket of its hash
  -- and there once, and no two of them are equal.
  pub record IsValid (h : Hash) : Type 0 where
    pub exponent : ℕ
    pub power : h.bucket_cnt ≡ 2 ^ exponent
    pub roomy : 4 ≤ h.bucket_cnt
    pub bounded : h.bucket_cnt ≤ 2 ^ 32
    pub counted : elements h ≡ h.elem_cnt
    pub word : h.elem_cnt < 2 ^ 32
    pub placed :
        (i a : ℕ)
        → i < h.bucket_cnt
        → 1 ≤ weigh (is a) (h.buckets i)
        → bucket_idx h.bucket_cnt a ≡ i
    pub single : (a : ℕ) → occurrences a h ≤ 1
    pub distinct : (a b : ℕ) → 1 ≤ occurrences a h → 1 ≤ occurrences b h → equal a b ≡ true → a ≡ b

  pub find_elem-some :
      (xs : List ℕ) (q a : ℕ) → find_elem xs q ≡ some a → (1 ≤ weigh (is a) xs) × (equal a q ≡ true)
  unfolding find_elem weigh
  find_elem-some [] q a e = cc
  find_elem-some (x ∷ xs) q a e = elim (Bool-cases (equal x q)) [
    | inl same ↦
        let e2 : x ≡ a = ground arith in (ground arith, ap (λ y. equal y q) (sym e2) ∙ same)
    | inr other ↦ let (p, r) = find_elem-some xs q a (ground arith) in (omega arith, r)
  ]

  pub find_elem-none :
      (xs : List ℕ) (q a : ℕ) → find_elem xs q ≡ none → equal a q ≡ true → weigh (is a) xs ≡ 0
  unfolding find_elem weigh
  find_elem-none [] q a e same = refl
  find_elem-none (x ∷ xs) q a e same = elim (Bool-cases (equal x q)) [
    | inl s ↦ absurd (ground arith)
    | inr other ↦
        let rest = find_elem-none xs q a (ground arith) same in
        elim (Bool-cases (x == a)) [
          | inl s ↦ let e2 : x ≡ a = ground arith in absurd (ground (arith, ap (λ y. equal y q) e2))
          | inr s ↦ ground arith
        ]
  ]

  module _ (h : Hash) (v : IsValid h) where
    pub occurrences-bucket :
        (a : ℕ) → occurrences a h ≡ weigh (is a) (h.buckets (bucket_idx h.bucket_cnt a))
    unfolding occurrences
    occurrences-bucket a =
        total_single (is a) h.bucket_cnt (bucket_idx h.bucket_cnt a) h.buckets
          (bucket_idx-lt h.bucket_cnt a (omega (arith, v.roomy)) v.bounded)
          (λ i p ne. elim (ℕ-cases (weigh (is a) (h.buckets i))) [
            | inl z ↦ z
            | inr (m, z) ↦ absurd (ne (sym (v.placed i a p (omega arith))))
          ])

    pub hash_find-some :
        (q a : ℕ) → hash_find h q ≡ some a → (1 ≤ occurrences a h) × (equal a q ≡ true)
    unfolding hash_find find_bucket bucket_idx
    hash_find-some q a e =
        let (p, same) = find_elem-some (h.buckets (find_bucket h q)) q a e in
        let idx = keys.hash-neither a q same in (rw (occurrences-bucket a, idx) p, same)

    pub hash_find-none : (q a : ℕ) → hash_find h q ≡ none → equal a q ≡ true → occurrences a h ≡ 0
    unfolding hash_find find_bucket bucket_idx
    hash_find-none q a e same =
        let idx = keys.hash-neither a q same in
        rw (occurrences-bucket a, idx) (find_elem-none (h.buckets (find_bucket h q)) q a e same)

    pub hash_find_unique :
        (q a : ℕ) → 1 ≤ occurrences a h → equal a q ≡ true → hash_find h q ≡ some a
    hash_find_unique q a p same = elim (Option-cases (hash_find h q)) [
      | inl e ↦ absurd (omega (arith, hash_find-none q a e same))
      | inr (b, e) ↦
          let (p2, same2) = hash_find-some q b e in
          let r = v.distinct b a p2 p (keys.neither_trans b q a same2 (equal_sym q a ∙ same)) in
          e ∙ ap some r
    ]
