-- ===== src/Chains/Insert.antt =====
-- lib/kernel/list.c: the operations that insert.
use cs380l.Base.{ℕ, ◌≡◌, ◌≢◌, refl, true, false, ◌||◌, ◌==◌, List, [], ◌∷◌, ◌++◌, arith, ok}
use cs380l.Chains.State.{
  Links, head_of, tail_of, link, set_next, set_prev, list_init, list_insert, list_push_front,
  list_push_back, list_begin, list_end,
}
use cs380l.Chains.Segments.{
  elem, unique, elem-append, Seg, Seg-frame, prev-at, elem-at, at, append-nil, Seg-begin, at-place,
  unique-append, IsList,
}

link-Seg :
    (h : Links) (p : ℕ) (us vs : List ℕ) (q e : ℕ)
    → Seg h p (us ++ vs) q
    → (elem e (p ∷ us ++ vs) || q == e) ≡ false
    → unique (p ∷ us ++ vs) ≡ true
    → elem q (p ∷ us ++ vs) ≡ false
    → e ≢ 0
    → Seg (link (at q vs) e h) p (us ++ e ∷ vs) q
link-Seg h p [] [] q e (a, b) new uni last ne =
    (ground arith, ground arith, ne, (ground arith, ground arith))
link-Seg h p [] (v ∷ vs) q e (a, b, c, s) new uni last ne = (
  ground arith,
  ground arith,
  ne,
  (
    ground arith,
    ground arith,
    c,
    Seg-frame h (link v e h) v vs q (λ y i. ground arith) (λ y i. ground arith) s,
  ),
)
link-Seg h p (x ∷ us) vs q e (a, b, c, s) new uni last ne =
    let place = elem-at (x ∷ us) vs q (ground arith) (ground arith) in
    let before = prev-at h x us vs q s in
    let more = elem-append p us vs in
    (
      ground arith,
      ground arith,
      c,
      link-Seg h x us vs q e s (ground arith) (ground arith) (ground arith) ne,
    )

-- An element that is not in the list.
pub record IsNew (e l : ℕ) (xs : List ℕ) : Type 0 where
  pub null : e ≢ 0
  pub head : e ≢ head_of l
  pub tail : e ≢ tail_of l
  pub out : elem e xs ≡ false

link-IsList :
    (h : Links) (l : ℕ) (us vs : List ℕ) (e : ℕ)
    → IsList h l (us ++ vs)
    → IsNew e l (us ++ vs)
    → IsList (link (at (tail_of l) vs) e h) l (us ++ e ∷ vs)
link-IsList h l us vs e w n =
    let b = prev-at h l us vs (tail_of l) w.seg in
    let place =
      elem-at (l ∷ us) vs (tail_of l) (ground (arith, w.apart, w.no_head))
        (ground (arith, w.no_tail)) in
    record {
      null = w.null;
      before = ground (arith, w.before, n.head);
      behind = ground (arith, w.behind, n.tail, elem-append (tail_of l) us vs, w.no_tail);
      seg =
          link-Seg h l us vs (tail_of l) e w.seg (ground (arith, n.out, n.head, n.tail))
            (ground (arith, w.apart, w.no_head)) (ground (arith, w.no_tail)) n.null;
      apart = unique-append us vs e w.apart n.out;
      no_head = ground (arith, elem-append l us vs, elem-append l us (e ∷ vs), w.no_head, n.head);
      no_tail = ground (
        arith,
        elem-append (tail_of l) us vs,
        elem-append (tail_of l) us (e ∷ vs),
        w.no_tail,
        n.tail,
      );
    }

-- `list_insert` before the element or tail that follows `us` puts the new element between `us` and
-- the rest. No ASSERT fails.
pub list_insert-IsList :
    (h : Links) (l : ℕ) (us vs : List ℕ) (e : ℕ)
    → IsList h l (us ++ vs)
    → IsNew e l (us ++ vs)
    → (j : Links) × (list_insert (at (tail_of l) vs) e h ≡ ok j) × IsList j l (us ++ e ∷ vs)
unfolding list_insert
list_insert-IsList h l us vs e w n = (
  link (at (tail_of l) vs) e h,
  ground (arith, at-place h l us vs w, n.null),
  link-IsList h l us vs e w n,
)

-- `list_push_back` appends the new element, and `list_push_front` puts it first.
pub list_push-IsList :
    (h : Links) (l : ℕ) (xs : List ℕ) (e : ℕ)
    → IsList h l xs
    → IsNew e l xs
    → ((j : Links) × (list_push_back l e h ≡ ok j) × IsList j l (xs ++ e ∷ []))
      × ((j : Links) × (list_push_front l e h ≡ ok j) × IsList j l (e ∷ xs))
unfolding list_push_back list_push_front list_begin list_end
list_push-IsList h l xs e w n =
    let z = append-nil xs in
    let (j, p, v) = list_insert-IsList h l xs [] e (rw z w) (rw z n) in
    let (i, q, u) = list_insert-IsList h l [] xs e w n in
    let begins : h.next l ≡ at (tail_of l) xs = Seg-begin h l xs (tail_of l) w.seg in
    ((j, ground (arith, w.null), v), (i, ground (arith, w.null), u))

-- `list_init` makes an empty list.
pub list_init-IsList :
    (h : Links) (l : ℕ) → l ≢ 0 → (j : Links) × (list_init l h ≡ ok j) × IsList j l []
unfolding list_init
list_init-IsList h l z = (
  set_next (tail_of l) 0 (set_prev (tail_of l) l (set_next l (tail_of l) (set_prev l 0 h))),
  ground arith,
  record {
    null = z;
    before = ground arith;
    behind = ground arith;
    seg = (ground arith, ground arith);
    apart = refl;
    no_head = refl;
    no_tail = refl;
  },
)
