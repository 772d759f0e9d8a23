-- ===== src/Chains/Traverse.antt =====
-- lib/kernel/list.c: the operations that walk along a list.
use cs380l.Base.{
  ℕ, zero, suc, ◌+◌, ◌<◌, ◌≡◌, ◌≢◌, refl, sym, Bool, true, false, not, ◌&&◌, ltb, if◌then◌else◌,
  List, [], ◌∷◌, ◌++◌, length, arith, Bool-cases, List-cases, inl, inr, ok,
}
use cs380l.Chains.State.{
  Links, tail_of, list_next, list_begin, size_from, list_size, place_from, list_insert_ordered,
  best_from, list_max,
}
use cs380l.Chains.Segments.{elem, Seg, Seg-begin, Seg-nonzero, at, IsList}
use cs380l.Chains.Insert.{IsNew, list_insert-IsList}

list_next-at :
    (h : Links) (p x : ℕ) (xs : List ℕ) (q : ℕ)
    → Seg h p (x ∷ xs) q
    → p ≢ 0
    → q ≢ 0
    → list_next x h ≡ ok (at q xs)
unfolding list_next
list_next-at h p x xs q (a, b, c, s) np nq =
    ground (arith, Seg-begin h x xs q s, Seg-nonzero h x xs q s, List-cases xs)

list_begin-at :
    (h : Links) (l : ℕ) (xs : List ℕ) → IsList h l xs → list_begin l h ≡ ok (at (tail_of l) xs)
unfolding list_begin
list_begin-at h l xs w = ground (arith, w.null, Seg-begin h l xs (tail_of l) w.seg)

size_from-length :
    (limit p cnt l : ℕ) (xs : List ℕ) (h : Links)
    → Seg h p xs (tail_of l)
    → p ≢ 0
    → elem (tail_of l) xs ≡ false
    → length xs < limit
    → size_from limit (at (tail_of l) xs) cnt l h ≡ ok (cnt + length xs)
unfolding size_from
size_from-length zero p cnt l xs h s np out lt = absurd (omega arith)
size_from-length (suc k) p cnt l [] h s np out lt = ground arith
size_from-length (suc k) p cnt l (x ∷ xs) h (a, b, c, s) np out lt = ground (
  arith,
  list_next-at h p x xs (tail_of l) (a, b, c, s) np (λ z. omega arith),
  size_from-length k x (cnt + 1) l xs h s c (ground arith) (omega arith),
)

-- `list_size` returns the number of elements.
pub list_size-length :
    (limit l : ℕ) (xs : List ℕ) (h : Links)
    → IsList h l xs
    → length xs < limit
    → list_size limit l h ≡ ok (length xs)
unfolding list_size
list_size-length limit l xs h w lt =
    ground
      (arith, list_begin-at h l xs w, size_from-length limit l 0 l xs h w.seg w.null w.no_tail lt)

-- No element is less than the one before it.
abbrev pub ascending : (ℕ → ℕ → Bool) → List ℕ → Bool
ascending less [] = true
ascending less (x ∷ []) = true
ascending less (x ∷ y ∷ ys) = not (less y x) && ascending less (y ∷ ys)

module _ (less : ℕ → ℕ → Bool) (e : ℕ) where
  -- The elements before the first that `e` is less than, and the others.
  abbrev pub smaller : List ℕ → List ℕ
  smaller [] = []
  smaller (x ∷ xs) = if less e x then [] else x ∷ smaller xs

  abbrev pub others : List ℕ → List ℕ
  others [] = []
  others (x ∷ xs) = if less e x then x ∷ xs else others xs

  halves : (xs : List ℕ) → xs ≡ smaller xs ++ others xs
  halves [] = refl
  halves (x ∷ xs) = elim (Bool-cases (less e x)) [
    | inl z ↦ ground arith
    | inr z ↦ ground (arith, halves xs)
  ]

  place_from-others :
      (limit p l : ℕ) (xs : List ℕ) (h : Links)
      → Seg h p xs (tail_of l)
      → p ≢ 0
      → elem (tail_of l) xs ≡ false
      → length xs < limit
      → place_from limit less e (at (tail_of l) xs) l h ≡ ok (at (tail_of l) (others xs))
  unfolding place_from
  place_from-others zero p l xs h s np out lt = absurd (omega arith)
  place_from-others (suc k) p l [] h s np out lt = ground arith
  place_from-others (suc k) p l (x ∷ xs) h (a, b, c, s) np out lt = ground (
    arith,
    list_next-at h p x xs (tail_of l) (a, b, c, s) np (λ z. omega arith),
    place_from-others k x l xs h s c (ground arith) (omega arith),
  )

  ascending-insert :
      (xs : List ℕ)
      → ((x : ℕ) → less e x ≡ true → less x e ≡ false)
      → ascending less xs ≡ true
      → ascending less (smaller xs ++ e ∷ others xs) ≡ true
  ascending-insert [] asym up = refl
  ascending-insert (x ∷ []) asym up = ground (arith, asym x)
  ascending-insert (x ∷ y ∷ ys) asym up =
      ground (arith, asym x, asym y, ascending-insert (y ∷ ys) asym)

-- `list_insert_ordered` puts the new element before the first that it is less than. A list in
-- ascending order stays so, for a comparison that does not hold both ways.
pub list_insert_ordered-ascending :
    (limit l e : ℕ) (less : ℕ → ℕ → Bool) (xs : List ℕ) (h : Links)
    → IsList h l xs
    → IsNew e l xs
    → length xs < limit
    → ((x : ℕ) → less e x ≡ true → less x e ≡ false)
    → ascending less xs ≡ true
    → (j : Links) × (list_insert_ordered limit l e less h ≡ ok j)
      × IsList j l (smaller less e xs ++ e ∷ others less e xs)
      × (ascending less (smaller less e xs ++ e ∷ others less e xs) ≡ true)
unfolding list_insert_ordered
list_insert_ordered-ascending limit l e less xs h w n lt asym up =
    let z = halves less e xs in
    let (j, p, v) =
      list_insert-IsList h l (smaller less e xs) (others less e xs) e (rw (sym z) w)
        (rw (sym z) n) in
    (
      j,
      ground (
        arith,
        w.null,
        n.null,
        list_begin-at h l xs w,
        place_from-others less e limit l l xs h w.seg w.null w.no_tail lt,
      ),
      v,
      ascending-insert less e xs asym up,
    )

-- The loop of `list_max` on the sequence.
abbrev best : (ℕ → ℕ → Bool) → ℕ → List ℕ → ℕ
best less b [] = b
best less b (x ∷ xs) = best less (if less b x then x else b) xs

best_from-best :
    (limit p b l : ℕ) (less : ℕ → ℕ → Bool) (xs : List ℕ) (h : Links)
    → Seg h p xs (tail_of l)
    → p ≢ 0
    → elem (tail_of l) xs ≡ false
    → length xs < limit
    → best_from limit less b (at (tail_of l) xs) l h ≡ ok (best less b xs)
unfolding best_from
best_from-best zero p b l less xs h s np out lt = absurd (omega arith)
best_from-best (suc k) p b l less [] h s np out lt = ground arith
best_from-best (suc k) p b l less (x ∷ xs) h (a, v, c, s) np out lt = ground (
  arith,
  list_next-at h p x xs (tail_of l) (a, v, c, s) np (λ z. omega arith),
  best_from-best k x (if less b x then x else b) l less xs h s c (ground arith) (omega arith),
)

-- The comparison of a key, such as the `tid` of the thread that an element belongs to.
abbrev pub by_key : (ℕ → ℕ) → ℕ → ℕ → Bool
by_key key a b = ltb (key a) (key b)

best-elem : (key : ℕ → ℕ) (b : ℕ) (xs : List ℕ) → elem (best (by_key key) b xs) (b ∷ xs) ≡ true
best-elem key b [] = ground arith
best-elem key b (x ∷ xs) = ground (arith, best-elem key x xs, best-elem key b xs)

best-greatest :
    (key : ℕ → ℕ) (b : ℕ) (xs : List ℕ) (y : ℕ)
    → (elem y (b ∷ xs) && ltb (key (best (by_key key) b xs)) (key y)) ≡ false
best-greatest key b [] y = ground arith
best-greatest key b (x ∷ xs) y = ground (
  arith,
  best-greatest key x xs y,
  best-greatest key b xs y,
  best-greatest key x xs b,
  best-greatest key b xs x,
  best-greatest key x xs x,
  best-greatest key b xs b,
)

-- `list_max` returns an element of a list that has one, and no element `y` has a greater key.
pub list_max-greatest :
    (limit l x : ℕ) (xs : List ℕ) (key : ℕ → ℕ) (h : Links) (y : ℕ)
    → IsList h l (x ∷ xs)
    → length xs < limit
    → (m : ℕ) × (list_max limit l (by_key key) h ≡ ok m)
      × (elem m (x ∷ xs) ≡ true)
      × ((elem y (x ∷ xs) && by_key key m y) ≡ false)
unfolding list_max
list_max-greatest limit l x xs key h y w lt =
    let (a, b, c, s) = w.seg in
    (
      best (by_key key) x xs,
      ground (
        arith,
        w.no_tail,
        list_begin-at h l (x ∷ xs) w,
        list_next-at h l x xs (tail_of l) (a, b, c, s) w.null (λ z. omega arith),
        best_from-best limit x x l (by_key key) xs h s c (ground (arith, w.no_tail)) lt,
      ),
      best-elem key x xs,
      best-greatest key x xs y,
    )
