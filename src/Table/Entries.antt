-- ===== src/Table/Entries.antt =====
-- lib/kernel/hash.c: what hash_find() returns after one step of an operation.
use cs380l.Base.{
  ℕ, ◌+◌, ◌^◌, ◌≤◌, ◌<◌, ◌≡◌, inl, inr, refl, sym, ap, ◌∙◌, Bool, true, false, ◌==◌, if◌then◌else◌,
  none, some, ok, arith, Bool-cases, Option-cases,
}
use cs380l.Table.State.{Keys, Hash, equal, find_bucket, insert_elem, remove_elem, rehash, hash_find}
use cs380l.Table.Contents.{occurrences}
use cs380l.Table.Valid.{IsValid, equal_sym, hash_find-some, hash_find-none, hash_find_unique}
use cs380l.Table.Resize.{rehash-Keeps}
use cs380l.Table.Changes.{
  find-agree, occurrences-insert_elem, insert_elem-IsValid, occurrences-remove_elem,
  remove_elem-IsValid, remove_elem-none,
}

-- The dictionary after the entry of `e` has become `entry`.
abbrev pub updated {ℓ} : {A : Type ℓ} → Bool → A → A → A
updated same entry old = if same then entry else old

module _ ⦃keys : Keys⦄ where
  differs : (e a q : ℕ) → equal e q ≡ false → equal a q ≡ true → (e == a) ≡ false
  differs e a q other r = elim (Bool-cases (e == a)) [
    | inl s ↦ let s2 : e ≡ a = ground arith in absurd (ground (arith, ap (λ x. equal x q) s2))
    | inr s ↦ s
  ]

  pub equal_congr : (a b q : ℕ) → equal a b ≡ true → equal a q ≡ equal b q
  equal_congr a b q r =
      ground (arith, keys.neither_trans b a q (equal_sym b a ∙ r), keys.neither_trans a b q r)

  -- What is equal to an element for which nothing is found has nothing found for it.
  pub find-none :
      (h : Hash)
      → IsValid h
      → (e q : ℕ) → hash_find h e ≡ none
      → hash_find h q ≡ updated (equal e q) none (hash_find h q)
  find-none h v e q absent = elim (Bool-cases (equal e q)) [
    | inl same ↦ elim (Option-cases (hash_find h q)) [
      | inl n ↦ n ∙ rw same refl
      | inr (a, s) ↦
          let (held, r) = hash_find-some h v q a s in
          let r2 = keys.neither_trans a q e r (equal_sym q e ∙ same) in
          absurd (omega (arith, hash_find-none h v e a absent r2))
    ]
    | inr other ↦ rw other refl
  ]

  -- Equal elements find the same.
  pub find-same :
      (h : Hash)
      → IsValid h
      → (e o q : ℕ) → hash_find h e ≡ some o
      → updated (equal e q) (some o) (hash_find h q) ≡ hash_find h q
  find-same h v e o q old = elim (Bool-cases (equal e q)) [
    | inl same ↦
        let (held, r) = hash_find-some h v e o old in
        rw same (sym (hash_find_unique h v q o held (keys.neither_trans o e q r same)))
    | inr other ↦ rw other refl
  ]

  pub after_rehash :
      (fresh : Bool) (j : Hash)
      → IsValid j
      → (k : Hash) × (rehash fresh j ≡ ok k)
        × IsValid k
        × (k.elem_cnt ≡ j.elem_cnt)
        × ((q : ℕ) → hash_find k q ≡ hash_find j q)
  after_rehash fresh j u =
      let (k, run, keeps, _) = rehash-Keeps fresh j u in
      (k, run, keeps.valid, keeps.size, λ q. find-agree j k q u keeps.valid (λ a _. keeps.same a))

  module _ (h : Hash) (v : IsValid h) (e : ℕ) where
    pub find-insert_elem :
        hash_find h e ≡ none
        → h.elem_cnt + 1 < 2 ^ 32
        → (q : ℕ)
        → hash_find (insert_elem h (find_bucket h e) e) q
          ≡ updated (equal e q) (some e) (hash_find h q)
    find-insert_elem new small q =
        let j = insert_elem h (find_bucket h e) e in
        let u = insert_elem-IsValid h v e new small in
        elim (Bool-cases (equal e q)) [
          | inl same ↦
              rw same
                (hash_find_unique j u q e (ground (arith, occurrences-insert_elem h v e e)) same)
          | inr other ↦ rw other (
              find-agree h j q v u
                (λ a r. ground (arith, occurrences-insert_elem h v e a, differs e a q other r)))
        ]

    pub find-remove_elem :
        (q : ℕ)
        → 1 ≤ occurrences e h
        → hash_find (remove_elem h e) q ≡ updated (equal e q) none (hash_find h q)
    find-remove_elem q held =
        let u = remove_elem-IsValid h v e held in
        elim (Bool-cases (equal e q)) [
          | inl same ↦ rw same (remove_elem-none h v e q (hash_find_unique h v q e held same))
          | inr other ↦ rw other (
              find-agree h (remove_elem h e) q v u (λ a r.
                ground (arith, occurrences-remove_elem h v e held a, differs e a q other r)))
        ]

  pub updated_twice :
      (h : Hash) (o e q : ℕ)
      → equal o q ≡ equal e q
      → hash_find (remove_elem h o) q ≡ updated (equal o q) none (hash_find h q)
      → updated (equal e q) (some e) (hash_find (remove_elem h o) q)
        ≡ updated (equal e q) (some e) (hash_find h q)
  updated_twice h o e q same removed = elim (Bool-cases (equal e q)) [
    | inl s ↦ rw s refl
    | inr s ↦ rw s (removed ∙ rw (same, s) refl)
  ]
