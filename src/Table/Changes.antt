-- ===== src/Table/Changes.antt =====
-- lib/kernel/hash.c: `insert_elem` and `remove_elem`, which the operations are made of.
use cs380l.Base.{
  ℕ, ◌+◌, ◌^◌, ◌≤◌, ◌<◌, ◌≡◌, inl, inr, sym, ap, ◌∙◌, true, ◌==◌, none, some, List, [], ◌∷◌, arith,
  Bool-cases, Option-cases,
}
use cs380l.Table.State.{
  Keys, Hash, unlink, equal, bucket_idx, find_bucket, insert_elem, remove_elem, hash_find,
}
use cs380l.Table.Contents.{
  weigh, total, one, is, occurrences, elements, bucket_idx-lt, total-set_bucket, total-unlink,
}
use cs380l.Table.Valid.{
  IsValid, equal_sym, equal_refl, hash_find-some, hash_find-none, hash_find_unique,
}

weigh-unlink-le : (w : ℕ → ℕ) (e : ℕ) (xs : List ℕ) → weigh w (unlink e xs) ≤ weigh w xs
unfolding weigh unlink
weigh-unlink-le w e [] = omega arith
weigh-unlink-le w e (x ∷ xs) = ground (arith, weigh-unlink-le w e xs)

module _ ⦃keys : Keys⦄ where
  -- Tables that hold the same elements equal to `q` find the same for it.
  pub find-agree :
      (h j : Hash) (q : ℕ)
      → IsValid h
      → IsValid j
      → ((a : ℕ) → equal a q ≡ true → occurrences a j ≡ occurrences a h)
      → hash_find j q ≡ hash_find h q
  find-agree h j q v u same = elim (Option-cases (hash_find h q)) [
    | inr (a, e) ↦
        let (p, r) = hash_find-some h v q a e in
        hash_find_unique j u q a (omega (arith, same a r)) r ∙ sym e
    | inl e ↦ elim (Option-cases (hash_find j q)) [
      | inl e2 ↦ e2 ∙ sym e
      | inr (a, e2) ↦
          let (p, r) = hash_find-some j u q a e2 in
          absurd (omega (arith, same a r, hash_find-none h v q a e r))
    ]
  ]

  -- A new element goes to the front of its bucket.
  module _ (h : Hash) (v : IsValid h) (e : ℕ) where
    sum-insert :
        (w : ℕ → ℕ)
        → total w h.bucket_cnt (insert_elem h (find_bucket h e) e).buckets
          ≡ total w h.bucket_cnt h.buckets + w e
    unfolding insert_elem find_bucket weigh
    sum-insert w =
        let i = bucket_idx h.bucket_cnt e in
        omega (
          arith,
          total-set_bucket w h.bucket_cnt i (e ∷ h.buckets i) h.buckets
              (bucket_idx-lt h.bucket_cnt e (omega (arith, v.roomy)) v.bounded),
        )

    pub occurrences-insert_elem :
        (a : ℕ) → occurrences a (insert_elem h (find_bucket h e) e) ≡ occurrences a h + is a e
    unfolding occurrences insert_elem
    occurrences-insert_elem a = sum-insert (is a)

    insert-placed :
        let j = insert_elem h (find_bucket h e) e in
        (i a : ℕ)
        → i < j.bucket_cnt
        → 1 ≤ weigh (is a) (j.buckets i)
        → bucket_idx j.bucket_cnt a ≡ i
    unfolding insert_elem find_bucket weigh
    insert-placed i a small held =
        let old = v.placed i a small in
        elim (Bool-cases (e == a)) [
          | inl same ↦
              let s : e ≡ a = ground arith in
              let s2 = ap (bucket_idx h.bucket_cnt) s in ground arith
          | inr other ↦ ground arith
        ]

    insert-distinct :
        hash_find h e ≡ none
        → let j = insert_elem h (find_bucket h e) e in
          (a b : ℕ) → 1 ≤ occurrences a j → 1 ≤ occurrences b j → equal a b ≡ true → a ≡ b
    insert-distinct new a b p q same =
        let was_a = occurrences-insert_elem a in
        let was_b = occurrences-insert_elem b in
        elim (Bool-cases (e == a)) [
          | inl at_a ↦
              let s : e ≡ a = ground arith in
              elim (Bool-cases (e == b)) [
                | inl at_b ↦ ground arith
                | inr off_b ↦
                    let r = equal_sym b e ∙ ap (λ x. equal x b) s ∙ same in
                    absurd (ground (arith, hash_find-none h v e b new r))
              ]
          | inr off_a ↦ elim (Bool-cases (e == b)) [
            | inl at_b ↦
                let s : e ≡ b = ground arith in
                let r = ap (equal a) s ∙ same in
                absurd (ground (arith, hash_find-none h v e a new r))
            | inr off_b ↦ v.distinct a b (ground arith) (ground arith) same
          ]
        ]

    pub size-insert_elem :
        h.elem_cnt + 1 < 2 ^ 32 → (insert_elem h (find_bucket h e) e).elem_cnt ≡ h.elem_cnt + 1
    unfolding insert_elem
    size-insert_elem small = omega arith

    pub insert_elem-IsValid :
        hash_find h e ≡ none → h.elem_cnt + 1 < 2 ^ 32 → IsValid (insert_elem h (find_bucket h e) e)
    unfolding elements insert_elem
    insert_elem-IsValid new small = record {
      exponent = v.exponent;
      power = v.power;
      roomy = v.roomy;
      bounded = v.bounded;
      counted = omega (arith, sum-insert one, v.counted);
      word = omega arith;
      placed = insert-placed;
      single = λ a.
          let now = occurrences-insert_elem a in
          let before = v.single a in
          let absent = hash_find-none h v e e new (equal_refl e) in ground arith;
      distinct = insert-distinct new;
    }

    sum-remove :
        1 ≤ occurrences e h
        → (w : ℕ → ℕ)
        → total w h.bucket_cnt (remove_elem h e).buckets + w e ≡ total w h.bucket_cnt h.buckets
    unfolding remove_elem occurrences
    sum-remove held w = total-unlink w h.bucket_cnt e h.buckets (omega (arith, v.single e))

    pub occurrences-remove_elem :
        1 ≤ occurrences e h → (a : ℕ) → occurrences a (remove_elem h e) + is a e ≡ occurrences a h
    unfolding occurrences remove_elem
    occurrences-remove_elem held a = sum-remove held (is a)

    pub remove_elem-IsValid : 1 ≤ occurrences e h → IsValid (remove_elem h e)
    unfolding elements remove_elem
    remove_elem-IsValid held =
        let fewer = occurrences-remove_elem held in
        record {
          exponent = v.exponent;
          power = v.power;
          roomy = v.roomy;
          bounded = v.bounded;
          counted = omega (arith, sum-remove held one, v.counted, v.word);
          word = omega arith;
          placed = λ i a small here.
              v.placed i a small (omega (arith, weigh-unlink-le (is a) e (h.buckets i)));
          single = λ a. omega (arith, fewer a, v.single a);
          distinct = λ a b p q. v.distinct a b (omega (arith, fewer a)) (omega (arith, fewer b));
        }

    pub size-remove_elem : 1 ≤ occurrences e h → (remove_elem h e).elem_cnt + 1 ≡ h.elem_cnt
    unfolding elements remove_elem
    size-remove_elem held = omega (arith, sum-remove held one, v.counted, v.word)

    -- Nothing equal to an element that has been removed is left.
    pub remove_elem-none : (q : ℕ) → hash_find h q ≡ some e → hash_find (remove_elem h e) q ≡ none
    remove_elem-none q found =
        let (held, same) = hash_find-some h v q e found in
        let fewer = occurrences-remove_elem held in
        elim (Option-cases (hash_find (remove_elem h e) q)) [
          | inl n ↦ n
          | inr (b, s) ↦
              let (held2, same2) =
                hash_find-some (remove_elem h e) (remove_elem-IsValid held) q b s in
              let one_of =
                v.distinct b e (omega (arith, fewer b)) held
                  (keys.neither_trans b q e same2 (equal_sym q e ∙ same)) in
              absurd (ground (arith, fewer b, v.single b))
        ]
