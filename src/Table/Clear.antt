-- ===== src/Table/Clear.antt =====
-- lib/kernel/hash.c: hash_clear(), hash_init() and the empty table.
use cs380l.Base.{
  ℕ, zero, suc, ◌+◌, ◌^◌, ◌≤◌, ◌<◌, ◌≡◌, refl, sym, ap, ◌∙◌, Bool, true, false, leb, ltb, ◌&&◌,
  if◌then◌else◌, List, [], ◌++◌, arith, Option, none, some,
}
use cs380l.Table.State.{
  Keys, Hash, for_each, find_elem, find_bucket, hash_find, clear_from, hash_clear, hash_init,
  set_bucket,
}
use cs380l.Table.Contents.{weigh, total, one, is, occurrences, elements, bucket_idx-lt}
use cs380l.Table.Valid.{IsValid}
use cs380l.Table.Walk.{chained, all_of, for_each-append}

chained-set_out :
    (n i k : ℕ) (f : ℕ → List ℕ) → k < i → chained n i (set_bucket k [] f) ≡ chained n i f
unfolding chained
chained-set_out zero i k f p = refl
chained-set_out (suc n) i k f p = ground (arith, chained-set_out n (i + 1) k f (omega arith))

-- The call of a destructor, when there is one, for each element.
abbrev pub destroyed {ℓ} : {S : Type ℓ} → Option (ℕ → S → S) → List ℕ → S → S
destroyed none xs s = s
destroyed (some d) xs s = for_each d xs s

module _ {ℓ} {S : Type ℓ} where
  destroyed-append :
      (d : Option (ℕ → S → S)) (xs ys : List ℕ) (s : S)
      → destroyed d (xs ++ ys) s ≡ destroyed d ys (destroyed d xs s)
  destroyed-append none xs ys s = refl
  destroyed-append (some d) xs ys s = for_each-append d xs ys s

  clear_from-state :
      (n i : ℕ) (d : Option (ℕ → S → S)) (f : ℕ → List ℕ) (s : S)
      → (clear_from n i d (f, s)).1 ≡ destroyed d (chained n i f) s
  unfolding clear_from chained for_each
  clear_from-state zero i none f s = refl
  clear_from-state zero i (some d) f s = refl
  clear_from-state (suc n) i none f s = clear_from-state n (i + 1) none (set_bucket i [] f) s
  clear_from-state (suc n) i (some d) f s =
      clear_from-state n (i + 1) (some d) (set_bucket i [] f) (for_each d (f i) s)
      ∙ ap (λ xs. for_each d xs (for_each d (f i) s)) (chained-set_out n (i + 1) i f (omega arith))
      ∙ sym (destroyed-append (some d) (f i) (chained n (i + 1) f) s)

  clear_from-bucket :
      (n i k : ℕ) (d : Option (ℕ → S → S)) (f : ℕ → List ℕ) (s : S)
      → (clear_from n i d (f, s)).0 k ≡ (if leb i k && ltb k (i + n) then [] else f k)
  unfolding clear_from
  clear_from-bucket zero i k d f s = ground arith
  clear_from-bucket (suc n) i k none f s =
      clear_from-bucket n (i + 1) k none (set_bucket i [] f) s ∙ ground arith
  clear_from-bucket (suc n) i k (some d) f s =
      clear_from-bucket n (i + 1) k (some d) (set_bucket i [] f) (for_each d (f i) s) ∙ ground arith

module _ ⦃keys : Keys⦄ where
  -- A valid table with no element, in which nothing is found.
  pub record IsEmpty (h : Hash) : Type 0 where
    pub valid : IsValid h
    pub no_elem : h.elem_cnt ≡ 0
    pub nothing : (q : ℕ) → hash_find h q ≡ none

  total_none : (w : ℕ → ℕ) (n : ℕ) (f : ℕ → List ℕ) → ((i : ℕ) → i < n → f i ≡ []) → total w n f ≡ 0
  unfolding total weigh
  total_none w zero f h = refl
  total_none w (suc n) f h =
      let rest = total_none w n f (λ i p. h i (omega arith)) in
      omega (arith, rest, ap (weigh w) (h n (omega arith)))

  pub make-IsEmpty :
      (h : Hash) (k : ℕ)
      → h.bucket_cnt ≡ 2 ^ k
      → 4 ≤ h.bucket_cnt
      → h.bucket_cnt ≤ 2 ^ 32
      → h.elem_cnt ≡ 0
      → ((i : ℕ) → i < h.bucket_cnt → h.buckets i ≡ [])
      → IsEmpty h
  unfolding occurrences elements hash_find find_elem weigh find_bucket
  make-IsEmpty h k power roomy bounded cnt gone =
      let no = λ (w : ℕ → ℕ). total_none w h.bucket_cnt h.buckets gone in
      record {
        no_elem = cnt;
        nothing = λ q.
            ap (λ xs. find_elem xs q)
              (gone (find_bucket h q) (bucket_idx-lt h.bucket_cnt q (omega arith) bounded));
        valid = record {
          exponent = k;
          power = power;
          roomy = roomy;
          bounded = bounded;
          counted = omega (arith, no one);
          word = omega arith;
          placed = λ i a p held. absurd (omega (arith, ap (weigh (is a)) (gone i p)));
          single = λ a. omega (arith, no (is a));
          distinct = λ a b p q. absurd (omega (arith, no (is a)));
        };
      }

  -- hash_clear() leaves an empty table with as many buckets, of a valid table, and has called the
  -- destructor, when there is one, for each element once.
  pub hash_clear-IsEmpty {ℓ} :
      {S : Type ℓ} (h : Hash) (d : Option (ℕ → S → S)) (s : S)
      → IsValid h
      → let r = hash_clear h d s in
        IsEmpty r.0 × (r.0.bucket_cnt ≡ h.bucket_cnt) × (r.1 ≡ destroyed d (all_of h) s)
  unfolding hash_clear all_of
  hash_clear-IsEmpty h d s v = (
    make-IsEmpty (hash_clear h d s).0 v.exponent v.power v.roomy v.bounded refl
        (λ i p. clear_from-bucket h.bucket_cnt 0 i d h.buckets s ∙ ground arith),
    refl,
    clear_from-state h.bucket_cnt 0 d h.buckets s,
  )

  -- hash_init() returns whether there was memory, and then leaves an empty table of 4 buckets.
  pub hash_init-IsEmpty :
      (fresh : Bool) (garbage : ℕ → List ℕ)
      → let r = hash_init fresh garbage in
        (r.0 ≡ fresh) × (r.1.bucket_cnt ≡ 4) × (fresh ≡ true → IsEmpty r.1)
  unfolding hash_init hash_clear
  hash_init-IsEmpty true garbage = (
    refl,
    refl,
    λ _.
        make-IsEmpty (hash_init true garbage).1 2 refl (omega arith) (omega arith) refl
          (λ i p. clear_from-bucket {S = Unit {0}} 4 0 i none garbage tt ∙ ground arith),
  )
  hash_init-IsEmpty false garbage = (refl, refl, λ e. absurd (cc))
