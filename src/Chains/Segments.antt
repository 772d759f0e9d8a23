-- ===== src/Chains/Segments.antt =====
-- lib/kernel/list.c: the sequence that the pointers stand for.
use cs380l.Base.{
  ℕ, ◌≡◌, ◌≢◌, ◌∙◌, refl, ap, Bool, true, false, not, ◌||◌, ◌&&◌, ◌==◌, List, [], ◌∷◌, ◌++◌, arith,
}
use cs380l.Chains.State.{Links, head_of, tail_of, is_interior, is_tail}

abbrev pub elem : ℕ → List ℕ → Bool
elem y [] = false
elem y (x ∷ xs) = x == y || elem y xs

abbrev pub unique : List ℕ → Bool
unique [] = true
unique (x ∷ xs) = not (elem x xs) && unique xs

pub elem-append : (y : ℕ) (xs ys : List ℕ) → elem y (xs ++ ys) ≡ (elem y xs || elem y ys)
elem-append y [] ys = refl
elem-append y (x ∷ xs) ys = ground (arith, elem-append y xs ys)

-- The elements between `p` and `q` are `xs`, linked both ways.
abbrev pub Seg : Links → ℕ → List ℕ → ℕ → Type 0
Seg h p [] q = (h.next p ≡ q) × (h.prev q ≡ p)
Seg h p (x ∷ xs) q = (h.next p ≡ x) × (h.prev x ≡ p) × (x ≢ 0) × Seg h x xs q

-- Pointers that agree on the segment.
pub Seg-frame :
    (h j : Links) (p : ℕ) (xs : List ℕ) (q : ℕ)
    → ((y : ℕ) → elem y (p ∷ xs) ≡ true → j.next y ≡ h.next y)
    → ((y : ℕ) → elem y xs || q == y ≡ true → j.prev y ≡ h.prev y)
    → Seg h p xs q
    → Seg j p xs q
Seg-frame h j p [] q n v (a, b) = (n p (ground arith) ∙ a, v q (ground arith) ∙ b)
Seg-frame h j p (x ∷ xs) q n v (a, b, c, s) = (
  n p (ground arith) ∙ a,
  v x (ground arith) ∙ b,
  c,
  Seg-frame h j x xs q (λ y e. n y (ground arith)) (λ y e. v y (ground arith)) s,
)

-- The address where a segment goes on.
abbrev pub at : ℕ → List ℕ → ℕ
at q [] = q
at q (x ∷ xs) = x

-- The list at `l` holds the elements `xs`.
pub record IsList (h : Links) (l : ℕ) (xs : List ℕ) : Type 0 where
  pub null : l ≢ 0
  pub before : h.prev (head_of l) ≡ 0
  pub behind : h.next (tail_of l) ≡ 0
  pub seg : Seg h (head_of l) xs (tail_of l)
  pub apart : unique xs ≡ true
  pub no_head : elem (head_of l) xs ≡ false
  pub no_tail : elem (tail_of l) xs ≡ false

pub prev-at :
    (h : Links) (p : ℕ) (us vs : List ℕ) (q : ℕ)
    → Seg h p (us ++ vs) q
    → elem (h.prev (at q vs)) (p ∷ us) ≡ true
prev-at h p [] [] q (a, b) = ground arith
prev-at h p [] (v ∷ vs) q (a, b, c, s) = ground arith
prev-at h p (x ∷ us) vs q (a, b, c, s) = ground (arith, prev-at h x us vs q s)

pub elem-at :
    (us vs : List ℕ) (q : ℕ)
    → unique (us ++ vs) ≡ true
    → elem q (us ++ vs) ≡ false
    → elem (at q vs) us ≡ false
elem-at [] vs q u l = refl
elem-at (x ∷ us) [] q u l = ground (arith, elem-append q us [], elem-at us [] q)
elem-at (x ∷ us) (v ∷ vs) q u l = ground (arith, elem-append x us (v ∷ vs), elem-at us (v ∷ vs) q)

pub Seg-nonzero : (h : Links) (p : ℕ) (xs : List ℕ) (q : ℕ) → Seg h p xs q → elem 0 xs ≡ false
Seg-nonzero h p [] q s = refl
Seg-nonzero h p (x ∷ xs) q (a, b, c, s) = ground (arith, Seg-nonzero h x xs q s)

pub Seg-begin : (h : Links) (p : ℕ) (xs : List ℕ) (q : ℕ) → Seg h p xs q → h.next p ≡ at q xs
Seg-begin h p [] q (a, b) = a
Seg-begin h p (x ∷ xs) q (a, b, c, s) = a

-- What follows an element.
pub Seg-next :
    (h : Links) (p : ℕ) (us : List ℕ) (v : ℕ) (vs : List ℕ) (q : ℕ)
    → Seg h p (us ++ v ∷ vs) q
    → h.next v ≡ at q vs
Seg-next h p [] v vs q (a, b, c, s) = Seg-begin h v vs q s
Seg-next h p (x ∷ us) v vs q (a, b, c, s) = Seg-next h x us v vs q s

pub unique-append :
    (us vs : List ℕ) (e : ℕ)
    → unique (us ++ vs) ≡ true
    → elem e (us ++ vs) ≡ false
    → unique (us ++ e ∷ vs) ≡ true
unique-append [] vs e u o = ground arith
unique-append (x ∷ us) vs e u o =
    ground (arith, unique-append us vs e, elem-append x us vs, elem-append x us (e ∷ vs))

-- A list where an operation works: what stands there can be given to `list_insert`.
pub at-place :
    (h : Links) (l : ℕ) (us vs : List ℕ)
    → IsList h l (us ++ vs)
    → (is_interior (at (tail_of l) vs) h || is_tail (at (tail_of l) vs) h) ≡ true
at-place h l us [] w = ground (
  arith,
  prev-at h l us [] (tail_of l) w.seg,
  elem-append 0 us [],
  Seg-nonzero h l (us ++ []) (tail_of l) w.seg,
  w.null,
  w.behind,
)
at-place h l us (v ∷ []) w = ground (
  arith,
  prev-at h l us (v ∷ []) (tail_of l) w.seg,
  elem-append 0 us (v ∷ []),
  Seg-nonzero h l (us ++ v ∷ []) (tail_of l) w.seg,
  w.null,
  Seg-next h l us v [] (tail_of l) w.seg,
)
at-place h l us (v ∷ x ∷ vs) w = ground (
  arith,
  prev-at h l us (v ∷ x ∷ vs) (tail_of l) w.seg,
  elem-append 0 us (v ∷ x ∷ vs),
  Seg-nonzero h l (us ++ v ∷ x ∷ vs) (tail_of l) w.seg,
  w.null,
  Seg-next h l us v (x ∷ vs) (tail_of l) w.seg,
)

pub append-nil : (xs : List ℕ) → xs ++ [] ≡ xs
append-nil [] = refl
append-nil (x ∷ xs) = ap (λ ys. x ∷ ys) (append-nil xs)

pub Seg-last : (h : Links) (p : ℕ) (xs : List ℕ) (e q : ℕ) → Seg h p (xs ++ e ∷ []) q → h.prev q ≡ e
Seg-last h p [] e q (a, b, c, (d, f)) = f
Seg-last h p (x ∷ xs) e q (a, b, c, s) = Seg-last h x xs e q s
