-- ===== src/Table/Resize.antt =====
-- lib/kernel/hash.c: `rehash`.
use Prim.Native.Nat.{max}
use cs380l.Base.{
  ℕ, zero, suc, ◌/◌, ◌^◌, ◌≤◌, ◌<◌, ◌≡◌, ◌≢◌, ◌⊎◌, inl, inr, refl, ap, ◌∙◌, Bool, true, ◌==◌, List,
  [], ◌∷◌, ok, arith, Bool-cases,
}
use native.Mathlib.Nat.{pow-suc}
use cs380l.Base.Bits.{pow-pos}
use cs380l.Table.State.{Keys, Hash, set_bucket, bucket_idx, move_bucket, move_buckets, rehash}
use cs380l.Table.Contents.{weigh, total, one, is, occurrences, elements, total-move_buckets}
use cs380l.Table.Powers.{ideal_cnt-largest}
use cs380l.Table.Valid.{IsValid}

-- `rehash` wants as many buckets as the largest power of 2 that is not above half the elements, or 4.
abbrev pub Ideal : ℕ → ℕ → Type 0
Ideal elem_cnt n =
    (k : ℕ) × (n ≡ 2 ^ k) × (n ≤ max 4 (elem_cnt / 2)) × (max 4 (elem_cnt / 2) < 2 ^ suc k)

four_le : (k : ℕ) → 2 ≤ k → 4 ≤ 2 ^ k
four_le zero p = absurd (omega arith)
four_le (suc zero) p = absurd (omega arith)
four_le (suc (suc k)) p = omega (arith, pow-suc 2 k, pow-suc 2 (suc k), pow-pos k)

module _ ⦃keys : Keys⦄ where
  abbrev Placed : ℕ → (ℕ → List ℕ) → Type 0
  Placed cnt f = (i a : ℕ) → i < cnt → 1 ≤ weigh (is a) (f i) → bucket_idx cnt a ≡ i

  set-Placed :
      (cnt e : ℕ) (f : ℕ → List ℕ)
      → Placed cnt f
      → let j = bucket_idx cnt e in Placed cnt (set_bucket j (e ∷ f j) f)
  unfolding weigh
  set-Placed cnt e f p i a small held =
      let j = bucket_idx cnt e in
      let old = p i a small in
      elim (Bool-cases (e == a)) [
        | inl same ↦ let s : e ≡ a = ground arith in let s2 = ap (bucket_idx cnt) s in ground arith
        | inr other ↦ ground arith
      ]

  move_bucket-Placed :
      (cnt : ℕ) (xs : List ℕ) (f : ℕ → List ℕ) → Placed cnt f → Placed cnt (move_bucket cnt xs f)
  unfolding move_bucket
  move_bucket-Placed cnt [] f p = p
  move_bucket-Placed cnt (e ∷ xs) f p =
      move_bucket-Placed cnt xs (set_bucket (bucket_idx cnt e) (e ∷ f (bucket_idx cnt e)) f)
        (set-Placed cnt e f p)

  move_buckets-Placed : (cnt n : ℕ) (f : ℕ → List ℕ) → Placed cnt (move_buckets cnt n f)
  unfolding move_buckets weigh
  move_buckets-Placed cnt zero f i a small held = absurd (omega arith)
  move_buckets-Placed cnt (suc n) f i a small held =
      move_bucket-Placed cnt (f n) (move_buckets cnt n f) (move_buckets-Placed cnt n f) i a small
        held

  -- `j` is a table with the elements of `h`.
  pub record Keeps (h j : Hash) : Type 0 where
    pub valid : IsValid j
    pub size : j.elem_cnt ≡ h.elem_cnt
    pub same : (a : ℕ) → occurrences a j ≡ occurrences a h

  moved-Keeps :
      (h : Hash) (k : ℕ)
      → IsValid h
      → 2 ^ k ≤ 2 ^ 32
      → 4 ≤ 2 ^ k
      → Keeps h (record {
        elem_cnt = h.elem_cnt;
        bucket_cnt = 2 ^ k;
        buckets = move_buckets (2 ^ k) h.bucket_cnt h.buckets;
      })
  unfolding occurrences elements
  moved-Keeps h k v top low =
      let keep : (w : ℕ → ℕ)
          → total w (2 ^ k) (move_buckets (2 ^ k) h.bucket_cnt h.buckets)
            ≡ total w h.bucket_cnt h.buckets =
        λ w. total-move_buckets w (2 ^ k) (omega arith) top h.bucket_cnt h.buckets in
      record {
        size = refl;
        same = λ a. keep (is a);
        valid = record {
          exponent = k;
          power = refl;
          roomy = low;
          bounded = top;
          counted = keep one ∙ v.counted;
          word = v.word;
          placed = move_buckets-Placed (2 ^ k) h.bucket_cnt h.buckets;
          single = λ a. omega (arith, keep (is a), v.single a);
          distinct =
              λ a b p q. v.distinct a b (omega (arith, keep (is a))) (omega (arith, keep (is b)));
        };
      }

  -- Of a valid table: the call returns, the table it leaves is valid and has the same elements, and when there
  -- is memory, or no other number of buckets is wanted, it has the wanted number of buckets.
  pub rehash-Keeps :
      (fresh : Bool) (h : Hash)
      → IsValid h
      → (j : Hash) × (rehash fresh h ≡ ok j)
        × Keeps h j
        × ((fresh ≡ true) ⊎ (j.bucket_cnt ≢ h.bucket_cnt) → Ideal h.elem_cnt j.bucket_cnt)
  unfolding rehash
  rehash-Keeps fresh h v =
      let (k, run, two, low, high) = ideal_cnt-largest h.elem_cnt v.word in
      let four : 4 ≤ 2 ^ k = four_le k two in
      elim (Bool-cases (2 ^ k == h.bucket_cnt)) [
        | inl e ↦ (
          h,
          rw (run) (ground arith),
          record { valid = v; size = refl; same = λ a. refl },
          λ _. (k, ground arith, ground arith, high),
        )
        | inr e ↦ elim (Bool-cases fresh) [
          | inl f ↦ (
            record { elem_cnt = h.elem_cnt; bucket_cnt = 2 ^ k; buckets = _ },
            rw (run, e, f) refl,
            moved-Keeps h k v (omega (arith, v.word)) four,
            λ _. (k, refl, low, high),
          )
          | inr f ↦ (
            h,
            rw (run, e, f) refl,
            record { valid = v; size = refl; same = λ a. refl },
            λ t. elim t [ inl g ↦ absurd (cc) | inr g ↦ absurd (g refl) ],
          )
        ]
      ]
