-- ===== src/Bitmap/Scan.antt =====
-- lib/kernel/bitmap.c: the search for a group of bits.
use cs380l.Base.{
  ℕ, zero, suc, ◌+◌, ◌-◌, ◌^◌, ◌<◌, ◌≤◌, ◌≡◌, ◌⊎◌, ◌∙◌, refl, ap, Bool, true, false, not, ◌&&◌,
  ◌==◌, ltb, leb, if◌then◌else◌, Option, none, some, ok, arith, Bool-cases, inl, inr, List, [], ◌∷◌,
}
use cs380l.Bitmap.State.{
  Bitmap, bitmap_contains, bitmap_all, scan_from, bitmap_scan, bitmap_scan_and_flip, same,
}
use cs380l.Bitmap.Words.{member}
use cs380l.Bitmap.Ranges.{
  range, occurrences, bitmap_contains-occurrences, bitmap_set_multiple-Filled,
}

-- All bits of the range have the value.
abbrev pub every : Bool → List Bool → Bool
every v [] = true
every v (x ∷ xs) = same x v && every v xs

abbrev pub group : ℕ → ℕ → Bool → Bitmap → Bool
group start cnt value b = every value (range start cnt b)

every-occurrences : (v : Bool) (xs : List Bool) → (occurrences (not v) xs == 0) ≡ every v xs
unfolding occurrences
every-occurrences v [] = refl
every-occurrences true (true ∷ xs) = every-occurrences true xs
every-occurrences true (false ∷ xs) = ground arith
every-occurrences false (true ∷ xs) = ground arith
every-occurrences false (false ∷ xs) = every-occurrences false xs

-- What a search from `start` tells of position `j`: the group that is found lies in the bitmap at or
-- after `start`, and there is none before it; if none is found there is none at all.
abbrev pub Found : ℕ → ℕ → Bool → Bitmap → ℕ → Option ℕ → Type 0
Found start cnt value b j none =
    (leb start j && leb (j + cnt) b.bit_cnt && group j cnt value b) ≡ false
Found start cnt value b j (some i) =
    (start ≤ i)
    × (i + cnt ≤ b.bit_cnt)
    × (group i cnt value b ≡ true)
    × ((leb start j && ltb j i && group j cnt value b) ≡ false)

-- The search does not depend on the position asked about.
abbrev Searched : ℕ → ℕ → Bool → Bitmap → Option ℕ → Type 0
Searched start cnt value b r = (j : ℕ) → Found start cnt value b j r

module _ (cnt : ℕ) (value : Bool) (b : Bitmap) (small : b.bit_cnt < 2 ^ 32) where
  tested :
      (i : ℕ)
      → i + cnt ≤ b.bit_cnt
      → bitmap_contains i cnt (not value) b ≡ ok (not (group i cnt value b))
  tested i p =
      bitmap_contains-occurrences i cnt (not value) b p small
      ∙ ap (λ x. ok (not x)) (every-occurrences value (range i cnt b))

  skip :
      (i : ℕ) (r : Option ℕ)
      → group i cnt value b ≡ false
      → Searched (i + 1) cnt value b r
      → Searched i cnt value b r
  skip i none g s j = ground (arith, s j)
  skip i (some r) g s j = ground (arith, s j)

  scan_from-Searched :
      (n i : ℕ)
      → (n + i + cnt ≡ b.bit_cnt + 1) ⊎ ((n ≡ 0) × (b.bit_cnt < i + cnt))
      → (r : Option ℕ) × (scan_from n i cnt value b ≡ ok r) × Searched i cnt value b r
  unfolding scan_from
  scan_from-Searched zero i p = (none, refl, λ j. ground arith)
  scan_from-Searched (suc n) i p =
      let t = tested i (ground arith) in
      let (r, e, s) = scan_from-Searched n (i + 1) (inl (ground arith)) in
      elim (Bool-cases (group i cnt value b)) [
        | inl g ↦ (some i, ground arith, λ j. ground arith)
        | inr g ↦ (r, ground arith, skip i r g s)
      ]

bitmap_scan-Searched :
    (start cnt : ℕ) (value : Bool) (b : Bitmap)
    → start ≤ b.bit_cnt
    → b.bit_cnt < 2 ^ 32
    → (r : Option ℕ) × (bitmap_scan start cnt value b ≡ ok r) × Searched start cnt value b r
unfolding bitmap_scan
bitmap_scan-Searched start cnt value b p q = elim (Bool-cases (leb cnt b.bit_cnt)) [
  | inl e ↦
      let (r, f, s) =
        scan_from-Searched cnt value b q (b.bit_cnt - cnt + 1 - start) start (ground arith) in
      (r, ground arith, s)
  | inr e ↦ (none, ground arith, λ j. ground arith)
]

-- `bitmap_scan` returns the first group of `cnt` bits with the value at or after `start`, and
-- BITMAP_ERROR only if there is none. No ASSERT fails.
pub bitmap_scan-first :
    (start cnt : ℕ) (value : Bool) (b : Bitmap) (j : ℕ)
    → start ≤ b.bit_cnt
    → b.bit_cnt < 2 ^ 32
    → (r : Option ℕ) × (bitmap_scan start cnt value b ≡ ok r) × Found start cnt value b j r
bitmap_scan-first start cnt value b j p q =
    let (r, f, s) = bitmap_scan-Searched start cnt value b p q in (r, f, s j)

-- What `bitmap_scan_and_flip` does to bit `k` when it returns `r`.
abbrev pub flipped : ℕ → Bool → Bitmap → ℕ → Option ℕ → Bool
flipped cnt value b k none = member k b
flipped cnt value b k (some i) = if leb i k && ltb k (i + cnt) then not (member k b) else member k b

pub every-member :
    (start cnt k : ℕ) (value : Bool) (b : Bitmap)
    → group start cnt value b ≡ true
    → start ≤ k
    → k < start + cnt
    → member k b ≡ value
unfolding range
every-member start zero k value b g p q = absurd (omega arith)
every-member start (suc n) k value b g p q = elim (Bool-cases (start == k)) [
  | inl e ↦ ground (arith)
  | inr e ↦ every-member (suc start) n k value b (ground arith) (ground arith) (omega arith)
]

-- What `bitmap_scan_and_flip` returns, and leaves behind.
pub record Flips (start cnt : ℕ) (value : Bool) (b j : Bitmap) (r : Option ℕ) : Type 0 where
  pub scan : bitmap_scan start cnt value b ≡ ok r
  pub size : j.bit_cnt ≡ b.bit_cnt
  pub bit : (k : ℕ) → member k j ≡ flipped cnt value b k r
  pub place : (k : ℕ) → Found start cnt value b k r

flip-Flips :
    (start cnt : ℕ) (value : Bool) (b : Bitmap) (r : Option ℕ)
    → b.bit_cnt < 2 ^ 32
    → bitmap_scan start cnt value b ≡ ok r
    → ((k : ℕ) → Found start cnt value b k r)
    → (j : Bitmap) × (bitmap_scan_and_flip start cnt value b ≡ ok (r, j))
      × Flips start cnt value b j r
unfolding bitmap_scan_and_flip
flip-Flips start cnt value b none q e f =
    (b, ground arith, record { scan = e; size = refl; bit = λ k. refl; place = f })
flip-Flips start cnt value b (some i) q e f =
    let (late, inside, all, first) = f 0 in
    let (j, s, h) = bitmap_set_multiple-Filled i cnt (not value) b inside q in
    (
      j,
      ground arith,
      record {
        scan = e;
        size = h.size;
        bit = λ k. ground (arith, h.bit k, every-member i cnt k value b);
        place = f;
      },
    )

pub bitmap_scan_and_flip-Flips :
    (start cnt : ℕ) (value : Bool) (b : Bitmap)
    → start ≤ b.bit_cnt
    → b.bit_cnt < 2 ^ 32
    → (r : Option ℕ) × (j : Bitmap) × (bitmap_scan_and_flip start cnt value b ≡ ok (r, j))
      × Flips start cnt value b j r
bitmap_scan_and_flip-Flips start cnt value b p q =
    let (r, e, f) = bitmap_scan-Searched start cnt value b p q in
    let (j, s, h) = flip-Flips start cnt value b r q e f in (r, j, s, h)

-- `bitmap_scan_and_flip` returns what `bitmap_scan` returns, inverts each bit of the group that it
-- found, and changes no other bit and not the size. No ASSERT fails.
pub bitmap_scan_and_flip-flipped :
    (start cnt : ℕ) (value : Bool) (b : Bitmap) (k : ℕ)
    → start ≤ b.bit_cnt
    → b.bit_cnt < 2 ^ 32
    → (r : Option ℕ) × (j : Bitmap) × (bitmap_scan_and_flip start cnt value b ≡ ok (r, j))
      × (bitmap_scan start cnt value b ≡ ok r)
      × (j.bit_cnt ≡ b.bit_cnt)
      × (member k j ≡ flipped cnt value b k r)
bitmap_scan_and_flip-flipped start cnt value b k p q =
    let (r, j, e, f) = bitmap_scan_and_flip-Flips start cnt value b p q in
    (r, j, e, f.scan, f.size, f.bit k)

-- `bitmap_all` on a range inside the bitmap tells whether each bit of the range is on.
pub bitmap_all-group :
    (start cnt : ℕ) (b : Bitmap)
    → start + cnt ≤ b.bit_cnt
    → b.bit_cnt < 2 ^ 32
    → bitmap_all start cnt b ≡ ok (group start cnt true b)
unfolding bitmap_all
bitmap_all-group start cnt b p q = ground (
  arith,
  bitmap_contains-occurrences start cnt false b p q,
  every-occurrences true (range start cnt b),
)
