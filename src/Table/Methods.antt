-- ===== src/Table/Methods.antt =====
-- lib/kernel/hash.c: what hash_insert(), hash_replace() and hash_delete() return and what hash_find()
-- returns after them.
use cs380l.Base.{
  ℕ, ◌+◌, ◌^◌, ◌<◌, ◌≡◌, inl, inr, refl, sym, ap, ◌∙◌, Bool, Option, none, some, ok, arith,
  Option-cases,
}
use cs380l.Table.State.{
  Keys, Hash, equal, find_bucket, insert_elem, remove_elem, hash_find, hash_insert, hash_replace,
  hash_delete,
}
use cs380l.Table.Valid.{IsValid, hash_find-some}
use cs380l.Table.Changes.{
  size-insert_elem, size-remove_elem, insert_elem-IsValid, remove_elem-IsValid, remove_elem-none,
}
use cs380l.Table.Entries.{
  updated, equal_congr, find-none, find-same, after_rehash, find-insert_elem, find-remove_elem,
  updated_twice,
}

abbrev pub found : Option ℕ → ℕ
found none = 0
found (some a) = 1

module _ ⦃keys : Keys⦄ where
  -- A call that returned `r.0` and left `r.1`, where an element equal to `e` is found as `entry` now.
  pub record Writes (h : Hash) (e : ℕ) (entry : Option ℕ) (r : Option ℕ × Hash) : Type 0 where
    pub returns : r.0 ≡ hash_find h e
    pub valid : IsValid r.1
    pub size : r.1.elem_cnt + found r.0 ≡ h.elem_cnt + found entry
    pub finds : (q : ℕ) → hash_find r.1 q ≡ updated (equal e q) entry (hash_find h q)

  module _ (fresh : Bool) (h : Hash) (v : IsValid h) (e : ℕ) where
    -- Of a valid table with room for one more element: hash_insert() returns what was found for the element,
    -- leaves a valid table and, when nothing was found, counts one more. Afterwards the old element, or the new one
    -- when there was none, is found for whatever is equal to it, and for everything else what was found before.
    pub hash_insert-Writes :
        h.elem_cnt + 1 < 2 ^ 32
        → (r : Option ℕ × Hash) × (hash_insert fresh h e ≡ ok r)
          × Writes h e (elim (hash_find h e) [ none ↦ some e | some old ↦ some old ]) r
    unfolding hash_insert hash_find
    hash_insert-Writes room = elim (Option-cases (hash_find h e)) [
      | inl new ↦
          let u = insert_elem-IsValid h v e new room in
          let (k, run, valid, size, finds) =
            after_rehash fresh (insert_elem h (find_bucket h e) e) u in
          (
            (none, k),
            rw (new, run) refl,
            record {
              returns = sym new;
              valid = valid;
              size = rw new (omega (arith, size, size-insert_elem h v e room));
              finds = λ q. finds q ∙ find-insert_elem h v e new room q ∙ rw new refl;
            },
          )
      | inr (o, old) ↦
          let (k, run, valid, size, finds) = after_rehash fresh h v in
          (
            (some o, k),
            rw (old, run) refl,
            record {
              returns = sym old;
              valid = valid;
              size = rw (old, size) refl;
              finds = λ q. finds q ∙ rw old (sym (find-same h v e o q old));
            },
          )
    ]

    -- Of a valid table with room for one more element: hash_replace() returns what was found for the element,
    -- leaves a valid table and, when nothing was found, counts one more. Afterwards the new element is found
    -- for whatever is equal to it, and for everything else what was found before.
    pub hash_replace-Writes :
        h.elem_cnt + 1 < 2 ^ 32
        → (r : Option ℕ × Hash) × (hash_replace fresh h e ≡ ok r) × Writes h e (some e) r
    unfolding hash_replace hash_find find_bucket remove_elem
    hash_replace-Writes room = elim (Option-cases (hash_find h e)) [
      | inl new ↦
          let u = insert_elem-IsValid h v e new room in
          let (k, run, valid, size, finds) =
            after_rehash fresh (insert_elem h (find_bucket h e) e) u in
          (
            (none, k),
            rw (new, run) refl,
            record {
              returns = sym new;
              valid = valid;
              size = omega (arith, size, size-insert_elem h v e room);
              finds = λ q. finds q ∙ find-insert_elem h v e new room q;
            },
          )
      | inr (o, old) ↦
          let (held, r) = hash_find-some h v e o old in
          let i = remove_elem h o in
          let v2 = remove_elem-IsValid h v o held in
          let fewer = size-remove_elem h v o held in
          let new = remove_elem-none h v o e old in
          let u = insert_elem-IsValid i v2 e new (omega arith) in
          let (k, run, valid, size, finds) =
            after_rehash fresh (insert_elem i (find_bucket i e) e) u in
          (
            (some o, k),
            rw (old, run) refl,
            record {
              returns = sym old;
              valid = valid;
              size = omega (arith, size, size-insert_elem i v2 e (omega arith));
              finds = λ q.
                  finds q
                  ∙ find-insert_elem i v2 e new (omega arith) q
                  ∙ updated_twice h o e q (equal_congr o e q r) (find-remove_elem h v o q held);
            },
          )
    ]

    -- Of a valid table: hash_delete() returns what was found for the element, leaves a valid table and, when
    -- something was found, counts one less. Afterwards nothing is found for whatever is equal to the element,
    -- and for everything else what was found before.
    pub hash_delete-Writes :
        (r : Option ℕ × Hash) × (hash_delete fresh h e ≡ ok r) × Writes h e none r
    unfolding hash_delete
    hash_delete-Writes = elim (Option-cases (hash_find h e)) [
      | inl absent ↦ (
        (none, h),
        rw (hash_delete, absent) refl,
        record {
          returns = sym absent;
          valid = v;
          size = refl;
          finds = λ q. find-none h v e q absent;
        },
      )
      | inr (o, old) ↦
          let (held, r) = hash_find-some h v e o old in
          let u = remove_elem-IsValid h v o held in
          let (k, run, valid, size, finds) = after_rehash fresh (remove_elem h o) u in
          (
            (some o, k),
            rw (hash_delete, old, run) refl,
            record {
              returns = sym old;
              valid = valid;
              size = omega (arith, size, size-remove_elem h v o held);
              finds = λ q.
                  finds q
                  ∙ find-remove_elem h v o q held
                  ∙ ap (λ t. updated t none (hash_find h q)) (equal_congr o e q r);
            },
          )
    ]
