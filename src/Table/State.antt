-- ===== src/Table/State.antt =====
-- lib/kernel/hash.c: the table and its operations. An element is the address of its `struct hash_elem`,
-- a bucket is the list of its elements from the front, and `hash` and `less` with their `aux` are the
-- parameter `Keys`. Whether malloc() returns memory is an argument, `fresh`.
use Prim.Native.Nat.{bit_and}
use cs380l.Base.{
  ℕ, zero, suc, ◌+◌, ◌-◌, ◌/◌, ◌%◌, ◌^◌, ◌≡◌, Bool, true, false, not, ◌&&◌, ◌==◌, ltb,
  if◌then◌else◌, Option, none, some, List, [], ◌∷◌, Result, ok, panic, ◌>>=◌,
}

-- `!less (a, b) && !less (b, a)`
abbrev pub neither : (ℕ → ℕ → Bool) → ℕ → ℕ → Bool
neither less a b = not (less a b) && not (less b a)

-- What the owner of a table passes to hash_init(), with what the table relies on: no element is
-- less than itself, and elements neither of which is less are interchangeable and hash alike.
pub record Keys : Type 0 where
  pub hash : ℕ → ℕ
  pub less : ℕ → ℕ → Bool
  pub less_irrefl : (a : ℕ) → less a a ≡ false
  pub neither_trans :
      (a b c : ℕ) → neither less a b ≡ true → neither less b c ≡ true → neither less a c ≡ true
  pub hash-neither : (a b : ℕ) → neither less a b ≡ true → hash a ≡ hash b

pub record Hash : Type 0 where
  pub elem_cnt : ℕ
  pub bucket_cnt : ℕ
  pub buckets : ℕ → List ℕ

abbrev pub set_bucket : ℕ → List ℕ → (ℕ → List ℕ) → ℕ → List ℕ
set_bucket i xs f = λ j. if i == j then xs else f j

-- `list_remove (e)`, on a list that may hold `e`.
unfoldable pub unlink : ℕ → List ℕ → List ℕ
unlink e [] = []
unlink e (x ∷ xs) = let rest = unlink e xs in if x == e then xs else x ∷ rest

unfoldable pub turn_off_least_1bit : ℕ → ℕ
turn_off_least_1bit x = bit_and x ((x + 2 ^ 32 - 1) % 2 ^ 32)

unfoldable pub is_power_of_2 : ℕ → Bool
is_power_of_2 x = not (x == 0) && turn_off_least_1bit x == 0

-- The loop of `rehash` on `new_bucket_cnt`, for at most `limit` rounds.
unfoldable pub round_down : ℕ → ℕ → Result ℕ
round_down zero x = panic
round_down (suc limit) x =
    let rest = round_down limit (turn_off_least_1bit x) in if is_power_of_2 x then ok x else rest

-- The number of buckets that `rehash` wants. Each round clears a bit.
unfoldable pub ideal_cnt : ℕ → Result ℕ
ideal_cnt elem_cnt = round_down 32 (if ltb (elem_cnt / 2) 4 then 4 else elem_cnt / 2)

module _ ⦃keys : Keys⦄ where
  abbrev pub equal : ℕ → ℕ → Bool
  equal a b = neither keys.less a b

  unfoldable pub bucket_idx : ℕ → ℕ → ℕ
  bucket_idx bucket_cnt e = bit_and (keys.hash e) ((bucket_cnt + 2 ^ 32 - 1) % 2 ^ 32)

  unfoldable pub find_bucket : Hash → ℕ → ℕ
  find_bucket h e = bucket_idx h.bucket_cnt e

  unfoldable pub find_elem : List ℕ → ℕ → Option ℕ
  find_elem [] e = none
  find_elem (hi ∷ bucket) e = let rest = find_elem bucket e in if equal hi e then some hi else rest

  unfoldable pub insert_elem : Hash → ℕ → ℕ → Hash
  insert_elem h bucket e = record {
    elem_cnt = (h.elem_cnt + 1) % 2 ^ 32;
    bucket_cnt = h.bucket_cnt;
    buckets = set_bucket bucket (e ∷ h.buckets bucket) h.buckets;
  }

  unfoldable pub remove_elem : Hash → ℕ → Hash
  remove_elem h e = record {
    elem_cnt = (h.elem_cnt + 2 ^ 32 - 1) % 2 ^ 32;
    bucket_cnt = h.bucket_cnt;
    buckets = λ i. unlink e (h.buckets i);
  }

  -- The inner loop that moves old elements: `cnt` new buckets, then the elements of an old one.
  unfoldable pub move_bucket : ℕ → List ℕ → (ℕ → List ℕ) → ℕ → List ℕ
  move_bucket cnt [] new_buckets = new_buckets
  move_bucket cnt (e ∷ old_bucket) new_buckets =
      let i = bucket_idx cnt e in
      move_bucket cnt old_bucket (set_bucket i (e ∷ new_buckets i) new_buckets)

  -- The outer loop: `n` old buckets are moved.
  unfoldable pub move_buckets : ℕ → ℕ → (ℕ → List ℕ) → ℕ → List ℕ
  move_buckets cnt zero old_buckets = λ i. []
  move_buckets cnt (suc n) old_buckets =
      move_bucket cnt (old_buckets n) (move_buckets cnt n old_buckets)

  unfoldable pub rehash : Bool → Hash → Result Hash
  rehash fresh h = ideal_cnt h.elem_cnt >>= (λ new_bucket_cnt.
      if new_bucket_cnt == h.bucket_cnt
      then ok h
      else if not fresh
      then ok h
      else ok (record {
        elem_cnt = h.elem_cnt;
        bucket_cnt = new_bucket_cnt;
        buckets = move_buckets new_bucket_cnt h.bucket_cnt h.buckets;
      }))

  unfoldable pub hash_insert : Bool → Hash → ℕ → Result (Option ℕ × Hash)
  hash_insert fresh h new =
      let bucket = find_bucket h new in
      let old = find_elem (h.buckets bucket) new in
      do j ← rehash fresh (elim old [ none ↦ insert_elem h bucket new | some o ↦ h ]); ok (old, j)

  unfoldable pub hash_replace : Bool → Hash → ℕ → Result (Option ℕ × Hash)
  hash_replace fresh h new =
      let bucket = find_bucket h new in
      let old = find_elem (h.buckets bucket) new in
      do
        j ← rehash fresh (insert_elem (elim old [ none ↦ h | some o ↦ remove_elem h o ]) bucket new)
        ok (old, j)

  unfoldable pub hash_find : Hash → ℕ → Option ℕ
  hash_find h e = find_elem (h.buckets (find_bucket h e)) e

  unfoldable pub hash_delete : Bool → Hash → ℕ → Result (Option ℕ × Hash)
  hash_delete fresh h e = elim (hash_find h e) [
    | none ↦ ok (none, h)
    | some found ↦ do j ← rehash fresh (remove_elem h found); ok (some found, j)
  ]

unfoldable pub hash_size : Hash → ℕ
hash_size h = h.elem_cnt

unfoldable pub hash_empty : Hash → Bool
hash_empty h = h.elem_cnt == 0

-- A destructor changes the state `S` of the rest of the program.
module _ {ℓ} {S : Type ℓ} where
  -- The call for each element of a bucket, from the front.
  unfoldable pub for_each : (ℕ → S → S) → List ℕ → S → S
  for_each action [] s = s
  for_each action (e ∷ bucket) s = for_each action bucket (action e s)

  unfoldable pub clear_from : ℕ → ℕ → Option (ℕ → S → S) → (ℕ → List ℕ) × S → (ℕ → List ℕ) × S
  clear_from zero i destructor (f, s) = (f, s)
  clear_from (suc n) i destructor (f, s) =
      clear_from n (i + 1) destructor
        (set_bucket i [] f, elim destructor [ none ↦ s | some d ↦ for_each d (f i) s ])

  unfoldable pub hash_clear : Hash → Option (ℕ → S → S) → S → Hash × S
  hash_clear h destructor s =
      let r = clear_from h.bucket_cnt 0 destructor (h.buckets, s) in
      (record { elem_cnt = 0; bucket_cnt = h.bucket_cnt; buckets = r.0 }, r.1)

  unfoldable pub apply_from : ℕ → ℕ → (ℕ → S → S) → (ℕ → List ℕ) → S → S
  apply_from zero i action f s = s
  apply_from (suc n) i action f s = apply_from n (i + 1) action f (for_each action (f i) s)

  unfoldable pub hash_apply : Hash → (ℕ → S → S) → S → S
  hash_apply h action s = apply_from h.bucket_cnt 0 action h.buckets s

  -- The table is gone afterwards.
  unfoldable pub hash_destroy : Hash → Option (ℕ → S → S) → S → S
  hash_destroy h none s = s
  hash_destroy h (some destructor) s = (hash_clear h (some destructor) s).1

-- The memory from malloc() holds anything, `garbage`.
unfoldable pub hash_init : Bool → (ℕ → List ℕ) → Bool × Hash
hash_init fresh garbage =
    let h : Hash = record { elem_cnt = 0; bucket_cnt = 4; buckets = garbage } in
    if fresh then (true, (hash_clear {S = Unit {0}} h none tt).0) else (false, h)
