-- ===== src/Table/Iterator.antt =====
-- lib/kernel/hash.c: the iterator. Its element is a place in the list of a bucket.
use cs380l.Base.{
  ℕ, zero, suc, ◌+◌, ◌-◌, ◌==◌, ltb, if◌then◌else◌, List, [], ◌∷◌, Result, ok, panic, ◌>>=◌,
}
use cs380l.Table.State.{Hash}

pub data Place : Type 0 where
  head tail null : Place
  node : ℕ → Place

pub record Iterator : Type 0 where
  pub bucket : ℕ
  pub elem : Place

-- `list_begin`
abbrev pub first : List ℕ → Place
first [] = tail
first (x ∷ xs) = node x

-- `list_next`, of an element that the list holds.
unfoldable pub next_node : List ℕ → ℕ → Result Place
next_node [] e = panic
next_node (x ∷ xs) e = let rest = next_node xs e in if x == e then ok (first xs) else rest

unfoldable pub list_next : List ℕ → Place → Result Place
list_next xs head = ok (first xs)
list_next xs (node e) = next_node xs e
list_next xs tail = panic
list_next xs null = panic

unfoldable pub hash_first : Hash → Iterator
hash_first h = record { bucket = 0; elem = head }

-- The loop of `hash_next`, which leaves one bucket in each round.
unfoldable pub skip_ended : ℕ → Hash → ℕ → Place → Result Iterator
skip_ended zero h bucket elem = panic
skip_ended (suc n) h bucket head = ok (record { bucket = bucket; elem = head })
skip_ended (suc n) h bucket null = ok (record { bucket = bucket; elem = null })
skip_ended (suc n) h bucket (node e) = ok (record { bucket = bucket; elem = node e })
skip_ended (suc n) h bucket tail =
    let rest = skip_ended n h (bucket + 1) (first (h.buckets (bucket + 1))) in
    if ltb (bucket + 1) h.bucket_cnt then rest else ok (record { bucket = bucket + 1; elem = null })

unfoldable pub hash_next : Hash → Iterator → Result Iterator
hash_next h i = do
  elem ← list_next (h.buckets i.bucket) i.elem
  skip_ended (h.bucket_cnt - i.bucket + 1) h i.bucket elem

unfoldable pub hash_cur : Iterator → Place
hash_cur i = i.elem

-- The loop that the comment on `hash_first` gives, for at most `limit` calls of `hash_next`: the
-- elements that `hash_cur` returned.
unfoldable pub visited : ℕ → Hash → Iterator → Result (List ℕ)
visited zero h i = panic
visited (suc limit) h i = do
  j ← hash_next h i
  elim (hash_cur j) [ node e ↦ do rest ← visited limit h j; ok (e ∷ rest) | _ ↦ ok [] ]
