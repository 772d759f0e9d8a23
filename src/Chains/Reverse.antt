-- ===== src/Chains/Reverse.antt =====
-- lib/kernel/list.c: list_reverse().
use mathlib.Core.Path.{subst}
use cs380l.Base.{
  ℕ, ◌<◌, ◌≡◌, ◌≢◌, inl, inr, ◌∙◌, refl, sym, ap, true, false, ◌||◌, ◌==◌, if◌then◌else◌, List, [],
  ◌∷◌, ◌++◌, length, ok, arith, Bool-cases,
}
use cs380l.Chains.State.{Links, head_of, tail_of, list_begin, list_empty, list_end}
use cs380l.Chains.Segments.{elem, unique, Seg, IsList, prev-at, append-nil}
use cs380l.Chains.Reorder.{swap_ends, reverse_from, list_reverse}
use cs380l.Chains.Turns.{
  reverse_onto, elem-reverse_onto, unique-reverse_onto, Seg-Forward, reverse_from-Turned,
}

-- The elements in the other order, once the fields stand the other way round.
reverse_Seg :
    (h k : Links) (head z q t x : ℕ) (xs acc : List ℕ)
    → Seg h x xs q
    → h.prev q ≡ z
    → unique (x ∷ xs) ≡ true
    → x ≢ 0
    → ((y : ℕ) → elem y xs ≡ true → k.next y ≡ h.prev y)
    → ((y : ℕ) → elem y (x ∷ xs) ≡ true → (y == z) ≡ false → k.prev y ≡ h.next y)
    → k.prev z ≡ head
    → k.next head ≡ z
    → Seg k x acc t
    → Seg k head (reverse_onto (x ∷ xs) acc) t
reverse_Seg h k head z q t x [] acc (a, b) last u nz nexts prevs pz nh s =
    let e : z ≡ x = sym last ∙ b in (nh ∙ e, ap k.prev (sym e) ∙ pz, nz, s)
reverse_Seg h k head z q t x (y ∷ ys) acc (a, b, c, rest) last u nz nexts prevs pz nh s =
    let whole : Seg h y (ys ++ []) q = subst (λ w. Seg h y w q) (sym (append-nil ys)) rest in
    let inside : elem z (y ∷ ys) ≡ true =
      ap (λ w. elem w (y ∷ ys)) (sym last) ∙ prev-at h y ys [] q whole in
    let other : (x == z) ≡ false = far x z (y ∷ ys) inside u in
    let hit : (x == x || elem x (y ∷ ys)) ≡ true = ground arith in
    let hit2 : (y == y || elem y ys) ≡ true = ground arith in
    reverse_Seg h k head z q t y ys (x ∷ acc) rest last (ground arith) c
      (λ w e. nexts w (ground arith)) (λ w e n. prevs w (ground arith) n) pz nh
      (nexts y hit2 ∙ b, prevs x hit other ∙ a, nz, s)
  where
    far : (x z : ℕ) (ws : List ℕ) → elem z ws ≡ true → unique (x ∷ ws) ≡ true → (x == z) ≡ false
    far x z ws inside u = elim (Bool-cases (x == z)) [
      | inl same ↦
          let e : x ≡ z = ground arith in
          let both : elem x ws ≡ elem z ws = ap (λ w. elem w ws) e in absurd (ground arith)
      | inr other ↦ other
    ]

next_prev : (h : Links) (p : ℕ) (xs : List ℕ) (q : ℕ) → Seg h p xs q → h.next (h.prev q) ≡ q
next_prev h p [] q (a, b) = ap h.next b ∙ a
next_prev h p (x ∷ xs) q (a, b, c, s) = next_prev h x xs q s

-- What the exchanges at the ends of the list do to the fields that the loop has turned round.
swap_ends-lem :
    (j : Links) (l x z y : ℕ)
    → j.next (head_of l) ≡ x
    → j.prev (tail_of l) ≡ z
    → j.next x ≡ head_of l
    → j.prev z ≡ tail_of l
    → (head_of l == x) ≡ false
    → (tail_of l == z) ≡ false
    → ((swap_ends l j).next y
        ≡ (if x == y then tail_of l else if head_of l == y then z else j.next y))
      × ((swap_ends l j).prev y
          ≡ (if z == y then head_of l else if tail_of l == y then x else j.prev y))
swap_ends-lem j l x z y first last turned_x turned_z miss miss2 =
    let hit : (head_of l == head_of l) ≡ true = ground arith in
    let hit2 : (tail_of l == tail_of l) ≡ true = ground arith in
    (
      rw (hit, hit2, first, last, miss2, turned_z) refl,
      rw (hit, hit2, first, last, miss, turned_x) refl,
    )

elem-other : (p : ℕ) (ws : List ℕ) (y : ℕ) → elem y ws ≡ true → elem p ws ≡ false → (p == y) ≡ false
elem-other p ws y inside gone = elim (Bool-cases (p == y)) [
  | inl same ↦
      let e : p ≡ y = ground arith in
      let both : elem p ws ≡ elem y ws = ap (λ v. elem v ws) e in absurd (ground arith)
  | inr other ↦ other
]

-- A list whose fields stand the other way round and whose ends have been exchanged.
reversed-IsList :
    (h k : Links) (l x : ℕ) (xs : List ℕ) (z : ℕ)
    → IsList h l (x ∷ xs)
    → h.prev (tail_of l) ≡ z
    → elem z (x ∷ xs) ≡ true
    → ((y : ℕ)
        → k.next y ≡ (
            if x == y
            then tail_of l
            else if head_of l == y
            then z
            else if elem y (x ∷ xs)
            then h.prev y
            else h.next y))
    → ((y : ℕ)
        → k.prev y ≡ (
            if z == y
            then head_of l
            else if tail_of l == y
            then x
            else if elem y (x ∷ xs)
            then h.next y
            else h.prev y))
    → IsList k l (reverse_onto (x ∷ xs) [])
reversed-IsList h k l x xs z w last inside nexts prevs =
    let (begin, back, nz, rest) = w.seg in
    let hit : (x == x) ≡ true = ground arith in
    let hit_z : (z == z) ≡ true = ground arith in
    let hit_h : (head_of l == head_of l) ≡ true = ground arith in
    let hit_t : (tail_of l == tail_of l) ≡ true = ground arith in
    let x_h : (x == head_of l) ≡ false = ground (arith, w.no_head) in
    let x_t : (x == tail_of l) ≡ false = ground (arith, w.no_tail) in
    let z_h : (z == head_of l) ≡ false =
      flip (head_of l) z (elem-other (head_of l) (x ∷ xs) z inside w.no_head) in
    let z_t : (z == tail_of l) ≡ false =
      flip (tail_of l) z (elem-other (tail_of l) (x ∷ xs) z inside w.no_tail) in
    let h_t : (head_of l == tail_of l) ≡ false = ground arith in
    let t_h : (tail_of l == head_of l) ≡ false = ground arith in
    record {
      null = w.null;
      before = prevs (head_of l) ∙ (rw (z_h, t_h, w.no_head) w.before);
      behind = nexts (tail_of l) ∙ (rw (w.no_tail, x_t, h_t) w.behind);
      seg =
          reverse_Seg h k (head_of l) z (tail_of l) (tail_of l) x xs [] rest last w.apart nz
            (λ y e. next_inside y e) (λ y e n. prev_inside y e n) (prevs z ∙ rw hit_z refl)
            (nexts (head_of l) ∙ rw (x_h, hit_h) refl)
            (nexts x ∙ rw hit refl, prevs (tail_of l) ∙ rw (z_t, hit_t) refl);
      apart = unique-reverse_onto (x ∷ xs) [] w.apart refl (λ y e. refl);
      no_head = elem-reverse_onto (head_of l) (x ∷ xs) [] ∙ rw w.no_head refl;
      no_tail = elem-reverse_onto (tail_of l) (x ∷ xs) [] ∙ rw w.no_tail refl;
    }
  where
    flip : (a b : ℕ) → (a == b) ≡ false → (b == a) ≡ false
    flip a b e = ground arith

    next_inside : (y : ℕ) → elem y xs ≡ true → k.next y ≡ h.prev y
    next_inside y e =
        let off : elem x xs ≡ false = ground (arith, w.apart) in
        let a = elem-other x xs y e off in
        let into : elem y (x ∷ xs) ≡ true = ground arith in
        let b = elem-other (head_of l) (x ∷ xs) y into w.no_head in nexts y ∙ rw (a, b, e) refl

    prev_inside : (y : ℕ) → elem y (x ∷ xs) ≡ true → (y == z) ≡ false → k.prev y ≡ h.next y
    prev_inside y e n =
        let a = flip y z n in
        let b = elem-other (tail_of l) (x ∷ xs) y e w.no_tail in prevs y ∙ rw (a, b, e) refl

list_reverse-reverse_from :
    (limit l : ℕ) (h j : Links) (x : ℕ)
    → reverse_from limit x l h ≡ ok j
    → (l == 0) ≡ false
    → (x == tail_of l) ≡ false
    → h.next (head_of l) ≡ x
    → list_reverse limit l h ≡ ok (swap_ends l j)
unfolding list_reverse list_empty list_begin list_end
list_reverse-reverse_from limit l h j x run null other begin = rw (null, begin, other, run) refl

-- A list with fewer elements than the limit: list_reverse() returns, and the list holds its elements in the other order.
pub list_reverse-IsList :
    (limit : ℕ) (h : Links) (l : ℕ) (xs : List ℕ)
    → IsList h l xs
    → length xs < limit
    → (k : Links) × (list_reverse limit l h ≡ ok k) × IsList k l (reverse_onto xs [])
unfolding list_reverse list_empty list_begin list_end
list_reverse-IsList limit h l [] w fuel =
    let null : (l == 0) ≡ false = ground (arith, w.null) in
    let next : h.next (head_of l) ≡ tail_of l = w.seg.0 in
    let hit : (tail_of l == tail_of l) ≡ true = ground arith in (h, rw (null, next, hit) refl, w)
list_reverse-IsList limit h l (x ∷ xs) w fuel =
    let (begin, back, nz, rest) = w.seg in
    let H = head_of l in
    let T = tail_of l in
    let z = h.prev T in
    let (j, run, t) =
      reverse_from-Turned limit l h (x ∷ xs) (Seg-Forward h H (x ∷ xs) T w.seg) w.apart w.no_tail
        fuel in
    let whole : Seg h x (xs ++ []) T = subst (λ v. Seg h x v T) (sym (append-nil xs)) rest in
    let inside : elem z (x ∷ xs) ≡ true = prev-at h x xs [] T whole in
    let null : (l == 0) ≡ false = ground (arith, w.null) in
    let x_T : (x == T) ≡ false = ground (arith, w.no_tail) in
    let x_in : elem x (x ∷ xs) ≡ true = ground arith in
    let k = swap_ends l j in
    let facts = (λ (y : ℕ).
      swap_ends-lem j l x z y ((t H).0 ∙ (rw w.no_head begin)) ((t T).1 ∙ rw w.no_tail refl)
        ((t x).0 ∙ rw x_in back) ((t z).1 ∙ rw inside (next_prev h H (x ∷ xs) T w.seg))
        (elem-other H (x ∷ xs) x x_in w.no_head) (elem-other T (x ∷ xs) z inside w.no_tail)) in
    (
      k,
      list_reverse-reverse_from limit l h j x run null x_T begin,
      reversed-IsList h k l x xs z w refl inside
          (λ y. (facts y).0 ∙ ap (λ v. if x == y then T else if H == y then z else v) (t y).0)
          (λ y. (facts y).1 ∙ ap (λ v. if z == y then H else if T == y then x else v) (t y).1),
    )
