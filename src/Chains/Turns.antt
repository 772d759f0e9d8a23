-- ===== src/Chains/Turns.antt =====
-- lib/kernel/list.c: the loop of list_reverse().
use cs380l.Base.{
  ℕ, zero, suc, ◌<◌, ◌≡◌, inl, inr, ◌∙◌, refl, sym, ap, true, false, ◌||◌, ◌==◌, if◌then◌else◌,
  List, [], ◌∷◌, length, ok, arith, Bool-cases,
}
use cs380l.Chains.State.{Links, tail_of}
use cs380l.Chains.Segments.{elem, unique, Seg, at, Seg-begin}
use cs380l.Chains.Reorder.{swap_links, reverse_from}

abbrev pub reverse_onto : List ℕ → List ℕ → List ℕ
reverse_onto [] acc = acc
reverse_onto (x ∷ xs) acc = reverse_onto xs (x ∷ acc)

pub elem-reverse_onto :
    (y : ℕ) (xs acc : List ℕ) → elem y (reverse_onto xs acc) ≡ (elem y xs || elem y acc)
elem-reverse_onto y [] acc = refl
elem-reverse_onto y (x ∷ xs) acc = ground (arith, elem-reverse_onto y xs (x ∷ acc))

pub unique-reverse_onto :
    (xs acc : List ℕ)
    → unique xs ≡ true
    → unique acc ≡ true
    → ((y : ℕ) → elem y xs ≡ true → elem y acc ≡ false)
    → unique (reverse_onto xs acc) ≡ true
unique-reverse_onto [] acc u v d = v
unique-reverse_onto (x ∷ xs) acc u v d =
    unique-reverse_onto xs (x ∷ acc) (ground arith) (ground (arith, d x)) (λ y e. apart y e)
  where
    apart : (y : ℕ) → elem y xs ≡ true → elem y (x ∷ acc) ≡ false
    apart y e = elim (Bool-cases (x == y)) [
      | inl same ↦
          let at_y : elem x xs ≡ elem y xs = ap (λ z. elem z xs) (ground arith) in ground (arith, u)
      | inr other ↦ let old = d y (ground arith) in ground arith
    ]

-- The next of each element is the element behind it.
abbrev pub Forward : Links → List ℕ → ℕ → Type 0
Forward h [] q = Unit
Forward h (x ∷ xs) q = (h.next x ≡ at q xs) × Forward h xs q

pub Seg-Forward : (h : Links) (p : ℕ) (xs : List ℕ) (q : ℕ) → Seg h p xs q → Forward h xs q
Seg-Forward h p [] q s = tt
Seg-Forward h p (x ∷ xs) q (a, b, c, s) = (Seg-begin h x xs q s, Seg-Forward h x xs q s)

Forward-swap_links :
    (h : Links) (e : ℕ) (xs : List ℕ) (q : ℕ)
    → elem e xs ≡ false
    → Forward h xs q
    → Forward (swap_links e h) xs q
Forward-swap_links h e [] q out f = tt
Forward-swap_links h e (x ∷ xs) q out (a, f) =
    let miss : (e == x) ≡ false = ground arith in
    (rw miss a, Forward-swap_links h e xs q (ground arith) f)

-- The loop turns the two fields of each element round.
abbrev pub Turned : Links → Links → List ℕ → Type 0
Turned h j xs =
    (y : ℕ)
    → (j.next y ≡ (if elem y xs then h.prev y else h.next y))
      × (j.prev y ≡ (if elem y xs then h.next y else h.prev y))

Turned-swap_links :
    (h j : Links) (x : ℕ) (xs : List ℕ)
    → elem x xs ≡ false
    → Turned (swap_links x h) j xs
    → Turned h j (x ∷ xs)
Turned-swap_links h j x xs out t y = elim (Bool-cases (x == y)) [
  | inl same ↦
      let e : x ≡ y = ground arith in
      let gone : elem y xs ≡ false = ap (λ z. elem z xs) (sym e) ∙ out in
      let (a, b) = t y in (a ∙ rw (gone, same) (ap h.prev e), b ∙ rw (gone, same) (ap h.next e))
  | inr other ↦ let (a, b) = t y in (a ∙ rw other refl, b ∙ rw other refl)
]

pub reverse_from-Turned :
    (limit list : ℕ) (h : Links) (xs : List ℕ)
    → Forward h xs (tail_of list)
    → unique xs ≡ true
    → elem (tail_of list) xs ≡ false
    → length xs < limit
    → (j : Links) × (reverse_from limit (at (tail_of list) xs) list h ≡ ok j) × Turned h j xs
unfolding reverse_from
reverse_from-Turned zero list h xs f u out fuel = absurd (omega arith)
reverse_from-Turned (suc limit) list h [] f u out fuel =
    let here : (tail_of list == tail_of list) ≡ true = ground arith in
    (h, rw here refl, λ y. (refl, refl))
reverse_from-Turned (suc limit) list h (x ∷ xs) (a, f) u out fuel =
    let miss : (x == tail_of list) ≡ false = ground arith in
    let off : elem x xs ≡ false = ground arith in
    let (j, run, t) =
      reverse_from-Turned limit list (swap_links x h) xs
        (Forward-swap_links h x xs (tail_of list) off f) (ground arith) (ground arith)
        (omega arith) in
    let hit : (x == x) ≡ true = ground arith in
    let goes : (swap_links x h).prev x ≡ at (tail_of list) xs = rw hit a in
    (
      j,
      rw miss (ap (λ e. reverse_from limit e list (swap_links x h)) goes ∙ run),
      Turned-swap_links h j x xs off t,
    )
