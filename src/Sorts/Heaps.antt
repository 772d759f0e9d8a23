-- ===== src/Sorts/Heaps.antt =====
-- lib/stdlib.c: heaps of keys, and one round of heapify() on them.
use cs380l.Base.{
  ℕ, zero, suc, ◌+◌, ◌*◌, ◌/◌, ◌≤◌, ◌<◌, ◌≡◌, ◌⊎◌, inl, inr, refl, ap, true, false, ◌==◌, ltb, leb,
  ◌&&◌, if◌then◌else◌, arith, Bool-cases,
}
use cs380l.Sorts.Swaps.{swapped}

-- No key from the children of `lo` on is larger than that of its parent.
abbrev pub Heap : ℕ → ℕ → (ℕ → ℕ) → Type 0
Heap lo cnt f = (c : ℕ) → c ≤ cnt → lo ≤ c / 2 → f c ≤ f (c / 2)

-- The same but for the children of `i`, which are not larger than the parent of `i`.
abbrev pub HeapBut : ℕ → ℕ → ℕ → (ℕ → ℕ) → Type 0
HeapBut lo i cnt f =
    ((c : ℕ) → c ≤ cnt → lo ≤ c / 2 → (c / 2 == i) ≡ false → f c ≤ f (c / 2))
    × ((c : ℕ) → c ≤ cnt → c / 2 ≡ i → lo ≤ i / 2 → f c ≤ f (i / 2))

abbrev pub pick : (ℕ → ℕ) → ℕ → ℕ → ℕ → ℕ
pick f c max cnt = if leb c cnt && ltb (f max) (f c) then c else max

abbrev pub largest : (ℕ → ℕ) → ℕ → ℕ → ℕ
largest f i cnt = pick f (2 * i + 1) (pick f (2 * i) i cnt) cnt

abbrev pub Largest : (ℕ → ℕ) → ℕ → ℕ → ℕ → Type 0
Largest f i cnt m =
    (((m == i) ≡ true) ⊎ (((m == i) ≡ false) × (m ≤ cnt) × (m / 2 ≡ i)))
    × (f i ≤ f m)
    × ((c : ℕ) → c ≤ cnt → c / 2 ≡ i → f c ≤ f m)

pick-lem :
    (f : ℕ → ℕ) (c max cnt : ℕ)
    → (f max ≤ f (pick f c max cnt))
      × (c ≤ cnt → f c ≤ f (pick f c max cnt))
      × ((pick f c max cnt ≡ max) ⊎ ((pick f c max cnt ≡ c) × (c ≤ cnt)))
pick-lem f c max cnt = elim (Bool-cases (leb c cnt && ltb (f max) (f c))) [
  | inl above ↦ (
    rw above (ground (arith, above)),
    λ h. rw above (omega arith),
    inr (rw above refl, ground (arith, above)),
  )
  | inr other ↦ (rw other (omega arith), λ h. rw other (ground (arith, other)), inl (rw other refl))
]

pub largest-Largest : (f : ℕ → ℕ) (i cnt : ℕ) → 1 ≤ i → Largest f i cnt (largest f i cnt)
largest-Largest f i cnt low =
    let m1 = pick f (2 * i) i cnt in
    let (up1, has1, at1) = pick-lem f (2 * i) i cnt in
    let (up2, has2, at2) = pick-lem f (2 * i + 1) m1 cnt in
    (
      place m1 (largest f i cnt) at1 at2,
      omega arith,
      λ c h child. elim (Bool-cases (c == 2 * i)) [
        | inl even ↦
            let e : c ≡ 2 * i = ground arith in
            let up = has1 (omega arith) in let same = ap f e in omega arith
        | inr odd ↦
            let e : c ≡ 2 * i + 1 = ground arith in
            let up = has2 (omega arith) in let same = ap f e in omega arith
      ],
    )
  where
    place :
        (m1 m : ℕ)
        → (m1 ≡ i) ⊎ ((m1 ≡ 2 * i) × (2 * i ≤ cnt))
        → (m ≡ m1) ⊎ ((m ≡ 2 * i + 1) × (2 * i + 1 ≤ cnt))
        → ((m == i) ≡ true) ⊎ (((m == i) ≡ false) × (m ≤ cnt) × (m / 2 ≡ i))
    place m1 m at1 at2 = ground arith

-- The largest of the three is exchanged with the parent.
pub HeapBut-swapped :
    (f g : ℕ → ℕ) (lo i m cnt : ℕ)
    → 1 ≤ lo
    → lo ≤ i
    → i ≤ cnt
    → m ≤ cnt
    → m / 2 ≡ i
    → (m == i) ≡ false
    → HeapBut lo i cnt f
    → f i ≤ f m
    → ((c : ℕ) → c ≤ cnt → c / 2 ≡ i → f c ≤ f m)
    → ((j : ℕ) → 1 ≤ j → g j ≡ swapped i m f j)
    → HeapBut lo m cnt g
HeapBut-swapped f g lo i m cnt low below inside inside_m child other but up top swap =
    (λ c h p not_m. first c h p not_m, λ c h p q. second c h p q)
  where
    at_i : g i ≡ f m
    at_i = ground (arith, swap i (omega arith))

    at_m : g m ≡ f i
    at_m = ground (arith, swap m (omega arith))

    else_same : (j : ℕ) → 1 ≤ j → (j == i) ≡ false → (j == m) ≡ false → g j ≡ f j
    else_same j h p q = ground (arith, swap j h)

    first : (c : ℕ) → c ≤ cnt → lo ≤ c / 2 → (c / 2 == m) ≡ false → g c ≤ g (c / 2)
    first c h p not_m = elim (Bool-cases (c == i)) [
      | inl here ↦
          let e : c ≡ i = ground arith in
          let parent = else_same (i / 2) (omega arith) (ground arith) (ground arith) in
          let old = but.1 m inside_m child (omega arith) in
          let lhs : g c ≡ g i = ap g e in
          let rhs : g (c / 2) ≡ g (i / 2) = ap (λ x. g (x / 2)) e in omega (arith, at_i)
      | inr there ↦ elim (Bool-cases (c / 2 == i)) [
        | inl under ↦
            let e : c / 2 ≡ i = ground arith in
            let rhs : g (c / 2) ≡ g i = ap g e in
            let old = top c h e in
            elim (Bool-cases (c == m)) [
              | inl at ↦
                  let same : c ≡ m = ground arith in
                  let lhs : g c ≡ g m = ap g same in omega (arith, at_i, at_m)
              | inr beside ↦
                  let same = else_same c (omega arith) there beside in omega (arith, at_i)
            ]
        | inr far ↦
            let same = else_same (c / 2) (omega arith) far not_m in
            let old = but.0 c h p far in
            elim (Bool-cases (c == m)) [
              | inl at ↦ absurd (ground (arith, at, far))
              | inr beside ↦ let same2 = else_same c (omega arith) there beside in omega arith
            ]
      ]
    ]

    second : (c : ℕ) → c ≤ cnt → c / 2 ≡ m → lo ≤ m / 2 → g c ≤ g (m / 2)
    second c h p q =
        let same = else_same c (omega arith) (ground arith) (ground arith) in
        let e : f (c / 2) ≡ f m = ap f p in
        let rhs : g (m / 2) ≡ g i = ap g child in
        let old = but.0 c h (omega arith) (ground arith) in omega (arith, at_i)

pub Heap-HeapBut :
    (f : ℕ → ℕ) (lo i cnt : ℕ)
    → HeapBut lo i cnt f
    → ((c : ℕ) → c ≤ cnt → c / 2 ≡ i → f c ≤ f i)
    → Heap lo cnt f
Heap-HeapBut f lo i cnt but top c h p = elim (Bool-cases (c / 2 == i)) [
  | inl under ↦
      let e : c / 2 ≡ i = ground arith in let old = top c h e in let rhs = ap f e in omega arith
  | inr far ↦ but.0 c h p far
]

-- The root of a heap has the largest key.
pub Heap-root :
    (f : ℕ → ℕ) (cnt : ℕ) → Heap 1 cnt f → (limit c : ℕ) → c < limit → 1 ≤ c → c ≤ cnt → f c ≤ f 1
Heap-root f cnt heap zero c fuel low h = absurd (omega arith)
Heap-root f cnt heap (suc limit) c fuel low h = elim (Bool-cases (c == 1)) [
  | inl root ↦ let e : c ≡ 1 = ground arith in let same = ap f e in omega arith
  | inr under ↦
      let two : 2 ≤ c = ground arith in
      let up = heap c h (omega arith) in
      let rest = Heap-root f cnt heap limit (c / 2) (omega arith) (omega arith) (omega arith) in
      omega arith
]
