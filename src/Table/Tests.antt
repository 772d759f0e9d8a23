-- ===== src/Table/Tests.antt =====
-- lib/kernel/hash.c: tests, on elements whose key is the last digit of their address.
use Prim.Native.Nat.{suc, max, ◌/◌}
use cs380l.Base.{
  ℕ, ◌+◌, ◌%◌, ◌^◌, ◌≤◌, ◌<◌, ◌≡◌, ◌⊎◌, ◌≢◌, refl, Bool, true, false, ltb, ◌==◌, if◌then◌else◌,
  Option, none, some, List, [], ◌∷◌, Result, ok, panic, arith,
}
use native.Mathlib.Nat.{ℕ_set}
use cs380l.Strings.State.{Memory}
use cs380l.Table.State.{
  Keys, neither, Hash, find_bucket, find_elem, bucket_idx, insert_elem, remove_elem, unlink,
  move_buckets, ideal_cnt, rehash, hash_insert, hash_replace, hash_find, hash_delete, hash_clear,
  hash_apply, round_down, is_power_of_2, turn_off_least_1bit,
}
use cs380l.Table.Powers.{ideal_cnt-largest}
use cs380l.Table.Valid.{IsValid}
use cs380l.Table.Resize.{Keeps, Ideal, rehash-Keeps}
use cs380l.Table.Changes.{insert_elem-IsValid}
use cs380l.Table.Methods.{Writes, hash_insert-Writes, hash_replace-Writes, hash_delete-Writes}
use cs380l.Table.Iterator.{hash_first, visited}
use cs380l.Table.Walk.{all_of}
use cs380l.Table.Visits.{visited-all_of}
use cs380l.Table.Bags.{hash_apply-rehash}
use cs380l.Table.Clear.{IsEmpty, destroyed, make-IsEmpty, hash_clear-IsEmpty}
use cs380l.Table.Digest.{hash_string, hash_bytes, fnv_step, hash_chars, hash_block}

last_digit_irrefl : (a : ℕ) → ltb (a % 10) (a % 10) ≡ false
last_digit_irrefl a = ground arith

abbrev by_last_digit : ℕ → ℕ → Bool
by_last_digit a b = ltb (a % 10) (b % 10)

last_digit_trans :
    (a b c : ℕ)
    → neither by_last_digit a b ≡ true
    → neither by_last_digit b c ≡ true
    → neither by_last_digit a c ≡ true
last_digit_trans a b c p q = ground arith

last_digit_hash : (a b : ℕ) → neither by_last_digit a b ≡ true → a % 10 ≡ b % 10
last_digit_hash a b p = ground arith

instance abbrev last_digit : Keys
last_digit = record {
  hash = λ a. a % 10;
  less = by_last_digit;
  less_irrefl = last_digit_irrefl;
  neither_trans = last_digit_trans;
  hash-neither = last_digit_hash;
}

abbrev nowhere : ℕ → List ℕ
nowhere i = []

abbrev empty : Hash
empty = record { elem_cnt = 0; bucket_cnt = 4; buckets = nowhere }

empty-IsValid : IsValid empty
empty-IsValid = (make-IsEmpty empty 2 refl (omega arith) (omega arith) refl (λ i p. refl)).valid

-- One element, 13.
abbrev single : Hash
single = record {
  elem_cnt = 1;
  bucket_cnt = 4;
  buckets = λ j. if 3 == j then 13 ∷ [] else nowhere j;
}

single-IsValid : IsValid single
unfolding insert_elem find_bucket bucket_idx hash_find find_elem
single-IsValid = insert_elem-IsValid empty empty-IsValid 13 refl (omega arith)

abbrev lookup_after : ℕ → Result (Option ℕ × Hash) → Option ℕ
lookup_after q panic = none
lookup_after q (ok r) = hash_find r.1 q

insert_23 : lookup_after 3 (hash_insert true single 23) ≡ some 13
unfolding hash_insert find_bucket bucket_idx find_elem rehash ideal_cnt round_down is_power_of_2
    turn_off_least_1bit hash_find
insert_23 = refl

replace_23 : lookup_after 3 (hash_replace true single 23) ≡ some 23
unfolding hash_replace find_bucket bucket_idx find_elem rehash ideal_cnt round_down is_power_of_2
    turn_off_least_1bit hash_find insert_elem remove_elem unlink
replace_23 = refl

hash_insert-Writes_example :
    (r : Option ℕ × Hash) × (hash_insert true single 24 ≡ ok r)
    × Writes single 24 (elim (hash_find single 24) [ none ↦ some 24 | some old ↦ some old ]) r
hash_insert-Writes_example = hash_insert-Writes true single single-IsValid 24 (omega arith)

hash_replace-Writes_example :
    (r : Option ℕ × Hash) × (hash_replace false single 23 ≡ ok r) × Writes single 23 (some 23) r
hash_replace-Writes_example = hash_replace-Writes false single single-IsValid 23 (omega arith)

hash_delete-Writes_example :
    (r : Option ℕ × Hash) × (hash_delete true single 3 ≡ ok r) × Writes single 3 none r
hash_delete-Writes_example = hash_delete-Writes true single single-IsValid 3

rehash-Keeps_example :
    (j : Hash) × (rehash true single ≡ ok j)
    × Keeps single j
    × ((true ≡ true) ⊎ (j.bucket_cnt ≢ single.bucket_cnt) → Ideal single.elem_cnt j.bucket_cnt)
rehash-Keeps_example = rehash-Keeps true single single-IsValid

ideal_cnt-largest_example :
    (k : ℕ) × (ideal_cnt 27 ≡ ok (2 ^ k))
    × (2 ≤ k)
    × (2 ^ k ≤ max 4 (27 / 2))
    × (max 4 (27 / 2) < 2 ^ suc k)
ideal_cnt-largest_example = ideal_cnt-largest 27 (omega arith)

visited-all_of_example : visited 2 single (hash_first single) ≡ ok (all_of single)
visited-all_of_example = visited-all_of single single-IsValid 2 (omega arith)

-- A table with more buckets than it needs, before and after `rehash`.
abbrev wide : Hash
wide = record { elem_cnt = 1; bucket_cnt = 8; buckets = λ j. if 3 == j then 13 ∷ [] else nowhere j }

wide-IsValid : IsValid wide
unfolding insert_elem find_bucket bucket_idx hash_find find_elem
wide-IsValid =
    let e : Hash = record { elem_cnt = 0; bucket_cnt = 8; buckets = nowhere } in
    let v = (make-IsEmpty e 3 refl (omega arith) (omega arith) refl (λ i p. refl)).valid in
    insert_elem-IsValid e v 13 refl (omega arith)

abbrev narrow : Hash
narrow = record { elem_cnt = 1; bucket_cnt = 4; buckets = move_buckets 4 8 wide.buckets }

hash_apply-rehash_example : hash_apply narrow (λ e s. e + s) 1 ≡ hash_apply wide (λ e s. e + s) 1
unfolding rehash ideal_cnt round_down is_power_of_2 turn_off_least_1bit
hash_apply-rehash_example =
    hash_apply-rehash (λ e s. e + s) (λ x y s. omega arith) ℕ_set true wide narrow 1 wide-IsValid
      refl

hash_clear-IsEmpty_example :
    let r = hash_clear single (some (λ e s. e + s)) 1 in
    IsEmpty r.0 × (r.0.bucket_cnt ≡ 4) × (r.1 ≡ destroyed (some (λ e s. e + s)) (all_of single) 1)
hash_clear-IsEmpty_example = hash_clear-IsEmpty single (some (λ e s. e + s)) 1 single-IsValid

abbrev hi : Memory
hi p = if p == 100 then 104 else if p == 101 then 105 else 0

hash_string-hi : hash_string 5 100 hi ≡ hash_bytes 100 2 hi
unfolding hash_string hash_bytes hash_chars hash_block fnv_step
hash_string-hi = refl
