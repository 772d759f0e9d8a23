-- ===== src/Sorts/Searches.antt =====
-- lib/stdlib.c: binary_search().
use Prim.Native.Nat.{compare, Ordering}
use cs380l.Base.{
  ℕ, zero, suc, ◌+◌, ◌-◌, ◌*◌, ◌/◌, ◌≤◌, ◌<◌, ◌≡◌, ◌≢◌, ◌⊎◌, inl, inr, refl, sym, ap, ◌∙◌, true,
  false, ◌==◌, ltb, leb, if◌then◌else◌, Option, none, some, Result, ok, arith, Bool-cases,
}
use cs380l.Files.Disk.{Buffer}
use cs380l.Sorts.State.{element, search_between, binary_search}
use cs380l.Sorts.Keys.{IsOrder, keys}

mul_minus : (h l s : ℕ) → l ≤ h → h * s - l * s ≡ (h - l) * s
mul_minus h l s p = grind arith

mul_div : (n s : ℕ) → 0 < s → n * s / s ≡ n
mul_div n s p = grind arith

mul_plus : (l n s : ℕ) → l * s + n * s ≡ (l + n) * s
mul_plus l n s = grind arith

ltb_irrefl : (n : ℕ) → ltb n n ≡ false
ltb_irrefl n = ground arith

Ordering-cases : (o : Ordering) → (o ≡ Ordering.lt) ⊎ ((o ≡ Ordering.gt) ⊎ (o ≡ Ordering.eq))
Ordering-cases Ordering.lt = inl refl
Ordering-cases Ordering.gt = inr (inl refl)
Ordering-cases Ordering.eq = inr (inr refl)

module _ (cmp : Buffer → Buffer → Ordering) (key : Buffer → ℕ) (size : ℕ)
    (order : IsOrder cmp key size) (needle array : Buffer) (cnt : ℕ) (pos : 0 < size)
    (sorted : (i j : ℕ)
      → 1 ≤ i
      → i ≤ j
      → j ≤ cnt
      → keys cmp key size order array i ≤ keys cmp key size order array j) where
  abbrev at : ℕ → ℕ
  at = keys cmp key size order array

  -- An element with the needle's key and its offset, or that there is none.
  abbrev pub Found : Option ℕ → Type 0
  Found none = (j : ℕ) → 1 ≤ j → j ≤ cnt → at j ≢ key needle
  Found (some o) = (j : ℕ) × (1 ≤ j) × (j ≤ cnt) × (o ≡ (j - 1) * size) × (at j ≡ key needle)

  -- What the loop does with the result of a comparison at the index `m`, counted from 0.
  abbrev turn : ℕ → ℕ → ℕ → ℕ → Ordering → Result (Option ℕ)
  turn limit first last middle o = elim o [
    | Ordering.lt ↦ search_between cmp limit needle array first middle size
    | Ordering.gt ↦ search_between cmp limit needle array (middle + size) last size
    | Ordering.eq ↦ ok (some middle)
  ]

  middle_of :
      (lo hi : ℕ)
      → lo ≤ hi
      → lo * size + (hi * size - lo * size) / size / 2 * size ≡ (lo + (hi - lo) / 2) * size
  middle_of lo hi h =
      ap (λ n. lo * size + n / size / 2 * size) (mul_minus hi lo size h)
      ∙ (ap (λ n. lo * size + n / 2 * size) (mul_div (hi - lo) size pos)
          ∙ mul_plus lo ((hi - lo) / 2) size)

  round :
      (limit lo hi : ℕ) (o : Ordering)
      → lo < hi
      → compare (key needle) (at (lo + (hi - lo) / 2 + 1)) ≡ o
      → search_between cmp (suc limit) needle array (lo * size) (hi * size) size
        ≡ turn limit (lo * size) (hi * size) ((lo + (hi - lo) / 2) * size) o
  unfolding search_between
  round limit lo hi o less sign =
      let m = lo + (hi - lo) / 2 in
      let more : ltb (lo * size) (hi * size) ≡ true = grind arith in
      let back : m + 1 - 1 ≡ m = omega arith in
      let look : cmp needle (λ k. array (m * size + k)) ≡ o =
        ap (λ x. cmp needle (λ k. array (x * size + k))) (sym back)
        ∙ (order.agrees needle (element array (m + 1) size) ∙ sign) in
      ap
        (λ b.
          if b
          then turn limit (lo * size) (hi * size)
              (lo * size + (hi * size - lo * size) / size / 2 * size)
              (cmp needle (λ k. array (lo * size + (hi * size - lo * size) / size / 2 * size + k)))
          else ok none)
        more
      ∙ (ap (λ x. turn limit (lo * size) (hi * size) x (cmp needle (λ k. array (x + k))))
            (middle_of lo hi (omega arith))
          ∙ ap (turn limit (lo * size) (hi * size) (m * size)) look)

  ends :
      (limit lo hi : ℕ)
      → lo ≡ hi
      → search_between cmp (suc limit) needle array (lo * size) (hi * size) size ≡ ok none
  unfolding search_between
  ends limit lo hi same =
      let stop : ltb (lo * size) (hi * size) ≡ false =
        ap (λ x. ltb (lo * size) (x * size)) (sym same) ∙ ltb_irrefl (lo * size) in
      ap
        (λ b.
          if b
          then turn limit (lo * size) (hi * size)
              (lo * size + (hi * size - lo * size) / size / 2 * size)
              (cmp needle (λ k. array (lo * size + (hi * size - lo * size) / size / 2 * size + k)))
          else ok none)
        stop

  search_between-Found :
      (limit lo hi : ℕ)
      → lo ≤ hi
      → hi ≤ cnt
      → hi < lo + limit
      → ((j : ℕ) → 1 ≤ j → j ≤ lo → at j < key needle)
      → ((j : ℕ) → hi < j → j ≤ cnt → key needle < at j)
      → (r : Option ℕ) × (search_between cmp limit needle array (lo * size) (hi * size) size ≡ ok r)
        × Found r
  search_between-Found zero lo hi p q fuel before after = absurd (omega arith)
  search_between-Found (suc limit) lo hi p q fuel before after = elim (Bool-cases (lo == hi)) [
    | inl empty ↦ (none, ends limit lo hi (ground arith), λ j l u e. nowhere j l u e (ground arith))
    | inr apart ↦
        let less : lo < hi = ground arith in
        let m = lo + (hi - lo) / 2 in
        let inside : (m < hi) × (lo ≤ m) = (omega arith, omega arith) in
        elim (Ordering-cases (compare (key needle) (at (m + 1)))) [
          | inl below ↦
              let (r, run, found) =
                search_between-Found limit lo m inside.1 (omega arith) (omega arith) before
                  (λ j l u. higher j m (ground (arith, below)) l u) in
              (r, round limit lo hi Ordering.lt less below ∙ run, found)
          | inr (inl above) ↦
              let (r, run, found) =
                search_between-Found limit (m + 1) hi (omega arith) q (omega arith)
                  (λ j l u. lower j m (omega arith) (ground (arith, above)) l u) after in
              let next : m * size + size ≡ (m + 1) * size = grind arith in
              (
                r,
                round limit lo hi Ordering.gt less above
                    ∙ (ap (λ x. search_between cmp limit needle array x (hi * size) size) next
                        ∙ run),
                found,
              )
          | inr (inr here) ↦
              let back : m + 1 - 1 ≡ m = omega arith in
              (
                some (m * size),
                round limit lo hi Ordering.eq less here,
                (
                  m + 1,
                  omega arith,
                  omega arith,
                  ap (λ x. x * size) (sym back),
                  ground (arith, here),
                ),
              )
        ]
  ]
    where
      nowhere : (j : ℕ) → 1 ≤ j → j ≤ cnt → at j ≡ key needle → lo ≡ hi → ⊥
      nowhere j l u e same = elim (Bool-cases (leb j lo)) [
        | inl low ↦ let h = before j l (ground arith) in omega arith
        | inr high ↦ let h = after j (ground arith) u in omega arith
      ]

      higher : (j m : ℕ) → key needle < at (m + 1) → m < j → j ≤ cnt → key needle < at j
      higher j m h l u = let up = sorted (m + 1) j (omega arith) (omega arith) u in omega arith

      lower : (j m : ℕ) → m < cnt → at (m + 1) < key needle → 1 ≤ j → j ≤ m + 1 → at j < key needle
      lower j m c h l u = let up = sorted j (m + 1) l u (omega arith) in omega arith

  -- When the result of `cmp` is that of comparing keys that stand in the bytes of the elements, and the keys in the
  -- array are in ascending order: binary_search() returns the offset of an element that has the key it looks for,
  -- or none when no element has it.
  pub binary_search-Found :
      (r : Option ℕ) × (binary_search cmp needle array cnt size ≡ ok r) × Found r
  unfolding binary_search
  binary_search-Found =
      let (r, run, found) =
        search_between-Found (cnt + 1) 0 cnt (omega arith) (omega arith) (omega arith)
          (λ j l u. absurd (omega arith)) (λ j l u. absurd (omega arith)) in
      let start : 0 ≡ 0 * size = grind arith in
      let end : size * cnt ≡ cnt * size = grind arith in
      (
        r,
        ap (λ x. search_between cmp (cnt + 1) needle array 0 x size) end
            ∙ (ap (λ x. search_between cmp (cnt + 1) needle array x (cnt * size) size) start ∙ run),
        found,
      )
