-- ===== src/Table/Bags.antt =====
-- lib/kernel/hash.c: the order of the elements, which no caller may rely on, forgotten.
use mathlib.Core.Quot
use mathlib.Core.Quot.{Quot, Quot-set}
use cs380l.Base.{
  ℕ, ◌≤◌, ◌≡◌, inl, inr, refl, sym, ap, ◌∙◌, ◌==◌, List, [], ◌∷◌, arith, ok, Bool, Bool-cases,
}
use cs380l.Table.State.{Keys, Hash, unlink, for_each, rehash, hash_apply}
use cs380l.Table.Contents.{weigh, is, weigh-unlink}
use cs380l.Table.Valid.{IsValid}
use cs380l.Table.Resize.{rehash-Keeps}
use cs380l.Table.Walk.{all_of, weigh-all_of, hash_apply-all_of}

abbrev pub SameItems : List ℕ → List ℕ → Type 0
SameItems xs ys = (a : ℕ) → weigh (is a) xs ≡ weigh (is a) ys

abbrev pub Bag : Type 0
Bag = Quot SameItems

abbrev pub contents : Hash → Bag
contents h = Quot.mk (all_of h)

contents-rehash :
    ⦃keys : Keys⦄ (fresh : Bool) (h j : Hash)
    → IsValid h
    → rehash fresh h ≡ ok j
    → contents j ≡ contents h
contents-rehash fresh h j v run =
    let (k, run2, keeps, _) = rehash-Keeps fresh h v in
    let e : k ≡ j = cc in
    ap contents (sym e)
    ∙ Quot.sound (λ a. omega (arith, weigh-all_of a k, weigh-all_of a h, keeps.same a))

module _ {ℓ} {S : Type ℓ} (action : ℕ → S → S)
    (comm : (x y : ℕ) (s : S) → action x (action y s) ≡ action y (action x s)) where
  for_each-front :
      (x : ℕ) (ys : List ℕ) (s : S)
      → 1 ≤ weigh (is x) ys
      → for_each action ys s ≡ for_each action (unlink x ys) (action x s)
  unfolding for_each unlink weigh
  for_each-front x [] s held = absurd (omega arith)
  for_each-front x (y ∷ ys) s held = elim (Bool-cases (y == x)) [
    | inl same ↦
        let e : y ≡ x = ground arith in rw same (ap (λ z. for_each action ys (action z s)) e)
    | inr other ↦
        let rest = for_each-front x ys (action y s) (ground arith) in
        rw other (rest ∙ ap (for_each action (unlink x ys)) (comm x y s))
  ]

  for_each-SameItems :
      (xs ys : List ℕ) (s : S) → SameItems xs ys → for_each action xs s ≡ for_each action ys s
  unfolding for_each weigh
  for_each-SameItems [] [] s same = refl
  for_each-SameItems [] (y ∷ ys) s same = absurd (ground (arith, same y))
  for_each-SameItems (x ∷ xs) ys s same =
      let held : 1 ≤ weigh (is x) ys = ground (arith, same x) in
      for_each-SameItems xs (unlink x ys) (action x s)
        (λ a. ground (arith, weigh-unlink (is a) x ys held, same a))
      ∙ sym (for_each-front x ys s held)

  -- hash_apply() on the contents alone.
  apply_bag : IsSet S → S → Bag → S
  apply_bag set s = Quot.lift set (λ xs. for_each action xs s) (λ xs ys. for_each-SameItems xs ys s)

  hash_apply-apply_bag :
      (set : IsSet S) (h : Hash) (s : S) → hash_apply h action s ≡ apply_bag set s (contents h)
  unfolding apply_bag
  hash_apply-apply_bag set h s = hash_apply-all_of action h s

  -- Of a valid table, and an action that changes a state in a set and whose calls on two elements commute:
  -- hash_apply() has the same effect before and after `rehash`.
  pub hash_apply-rehash :
      ⦃keys : Keys⦄
      → IsSet S
      → (fresh : Bool) (h j : Hash) (s : S) → IsValid h
      → rehash fresh h ≡ ok j
      → hash_apply j action s ≡ hash_apply h action s
  hash_apply-rehash set fresh h j s v run =
      hash_apply-apply_bag set j s
      ∙ ap (apply_bag set s) (contents-rehash fresh h j v run)
      ∙ sym (hash_apply-apply_bag set h s)
