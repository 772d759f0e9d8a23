-- ===== src/Chains/Remove.antt =====
-- lib/kernel/list.c: the operations that remove.
use cs380l.Base.{ℕ, ◌+◌, ◌≡◌, ◌≢◌, sym, true, false, List, [], ◌∷◌, ◌++◌, arith, List-cases, ok}
use cs380l.Chains.State.{
  Links, tail_of, unlink, is_interior, list_remove, list_pop_front, list_pop_back, list_front,
  list_back, list_empty, list_begin, list_end,
}
use cs380l.Chains.Segments.{
  elem, unique, elem-append, Seg, Seg-frame, Seg-begin, Seg-next, Seg-last, append-nil, Seg-nonzero,
  prev-at, elem-at, at, IsList,
}

unlink-Seg :
    (h : Links) (p : ℕ) (us vs : List ℕ) (q e : ℕ)
    → Seg h p (us ++ e ∷ vs) q
    → unique (p ∷ us ++ e ∷ vs) ≡ true
    → elem q (p ∷ us ++ e ∷ vs) ≡ false
    → Seg (unlink e h) p (us ++ vs) q
unlink-Seg h p [] [] q e (a, b, c, (d, f)) uni last = (ground arith, ground arith)
unlink-Seg h p [] (v ∷ vs) q e (a, b, c, (d, f, g, s)) uni last = (
  ground arith,
  ground arith,
  g,
  Seg-frame h (unlink e h) v vs q (λ y i. ground arith) (λ y i. ground arith) s,
)
unlink-Seg h p (x ∷ us) vs q e (a, b, c, s) uni last =
    let before = prev-at h x us (e ∷ vs) q s in
    let after = Seg-next h x us e vs q s in
    let place = elem-at (x ∷ us) vs q in
    let m1 = elem-append p us (e ∷ vs) in
    let m2 = elem-append x us (e ∷ vs) in
    (
      ground arith,
      ground (arith, distinct x us e vs q),
      c,
      unlink-Seg h x us vs q e s (ground arith) (ground arith),
    )
  where
    distinct :
        (x : ℕ) (us : List ℕ) (e : ℕ) (vs : List ℕ) (q : ℕ)
        → unique (x ∷ us ++ e ∷ vs) ≡ true
        → elem q (x ∷ us ++ e ∷ vs) ≡ false
        → at q vs ≢ x
    distinct x us e [] q u l = ground arith
    distinct x us e (v ∷ vs) q u l = ground (arith, elem-append x us (e ∷ v ∷ vs))

unique-shrink : (us vs : List ℕ) (e : ℕ) → unique (us ++ e ∷ vs) ≡ true → unique (us ++ vs) ≡ true
unique-shrink [] vs e u = ground arith
unique-shrink (x ∷ us) vs e u =
    ground (arith, unique-shrink us vs e, elem-append x us vs, elem-append x us (e ∷ vs))

unlink-IsList :
    (h : Links) (l : ℕ) (us vs : List ℕ) (e : ℕ)
    → IsList h l (us ++ e ∷ vs)
    → IsList (unlink e h) l (us ++ vs)
unlink-IsList h l us vs e w =
    let t = tail_of l in
    let before = prev-at h l us (e ∷ vs) t w.seg in
    let after = Seg-next h l us e vs t w.seg in
    let m0 = elem-append 0 us (e ∷ vs) in
    let m1 = elem-append l us (e ∷ vs) in
    let m2 = elem-append t us (e ∷ vs) in
    let m3 = elem-append l us vs in
    let m4 = elem-append t us vs in
    record {
      null = w.null;
      before = ground (arith, w.before, w.no_head, at-head l vs);
      behind = ground (arith, w.behind, w.no_tail);
      seg =
          unlink-Seg h l us vs t e w.seg (ground (arith, w.apart, w.no_head))
            (ground (arith, w.no_tail));
      apart = unique-shrink us vs e w.apart;
      no_head = ground (arith, w.no_head);
      no_tail = ground (arith, w.no_tail);
    }
  where
    at-head : (l : ℕ) (vs : List ℕ) → elem l vs ≡ false → at (l + 1) vs ≢ l
    at-head l [] z = ground arith
    at-head l (v ∷ vs) z = ground arith

interior :
    (h : Links) (l : ℕ) (us vs : List ℕ) (e : ℕ)
    → IsList h l (us ++ e ∷ vs)
    → is_interior e h ≡ true
interior h l us vs e w =
    let t = tail_of l in
    ground (
      arith,
      prev-at h l us (e ∷ vs) t w.seg,
      Seg-next h l us e vs t w.seg,
      elem-append 0 us (e ∷ vs),
      Seg-nonzero h l (us ++ e ∷ vs) t w.seg,
      w.null,
      List-cases vs,
    )

after_unlink :
    (h : Links) (l : ℕ) (us vs : List ℕ) (e : ℕ)
    → IsList h l (us ++ e ∷ vs)
    → (unlink e h).next e ≡ at (tail_of l) vs
after_unlink h l us vs e w = let t = tail_of l in ground (arith, Seg-next h l us e vs t w.seg)

-- `list_remove` takes the element out of the list that it stands in, and returns the element or tail
-- that followed it. No ASSERT fails.
pub list_remove-IsList :
    (h : Links) (l : ℕ) (us vs : List ℕ) (e : ℕ)
    → IsList h l (us ++ e ∷ vs)
    → (j : Links) × (list_remove e h ≡ ok (at (tail_of l) vs, j)) × IsList j l (us ++ vs)
unfolding list_remove
list_remove-IsList h l us vs e w =
    let t = tail_of l in
    (
      unlink e h,
      ground (arith, interior h l us vs e w, after_unlink h l us vs e w),
      unlink-IsList h l us vs e w,
    )

-- `list_pop_front` takes the first element out of a list that has one, and returns it.
pub list_pop_front-IsList :
    (h : Links) (l e : ℕ) (xs : List ℕ)
    → IsList h l (e ∷ xs)
    → (j : Links) × (list_pop_front l h ≡ ok (e, j)) × IsList j l xs
unfolding list_pop_front list_front list_empty list_begin list_end
list_pop_front-IsList h l e xs w =
    let (j, p, v) = list_remove-IsList h l [] xs e w in
    (j, ground (arith, w.null, w.no_tail, Seg-begin h l (e ∷ xs) (tail_of l) w.seg), v)

-- `list_pop_back` does so with the last element.
pub list_pop_back-IsList :
    (h : Links) (l e : ℕ) (xs : List ℕ)
    → IsList h l (xs ++ e ∷ [])
    → (j : Links) × (list_pop_back l h ≡ ok (e, j)) × IsList j l xs
unfolding list_pop_back list_back list_empty list_begin list_end
list_pop_back-IsList h l e xs w =
    let (j, p, v) = list_remove-IsList h l xs [] e w in
    (
      j,
      ground (
        arith,
        w.null,
        w.no_tail,
        elem-append (tail_of l) xs (e ∷ []),
        Seg-begin h l (xs ++ e ∷ []) (tail_of l) w.seg,
        Seg-last h l xs e (tail_of l) w.seg,
        List-cases xs,
      ),
      rw (sym (append-nil xs)) v,
    )
