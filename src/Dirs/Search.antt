-- ===== src/Dirs/Search.antt =====
-- filesys/directory.c: the loops over the entries of a directory.
use cs380l.Base.{
  ℕ, zero, suc, ◌+◌, ◌*◌, ◌/◌, ◌≤◌, ◌<◌, ◌≡◌, inl, inr, refl, sym, ap, ◌∙◌, Bool, true, false, not,
  ◌==◌, ◌&&◌, if◌then◌else◌, Option, none, some, List, length, ok, arith, Bool-cases,
}
use cs380l.Files.Disk.{Buffer, Device, Inode}
use cs380l.Files.Reads.{OnDevice, byte_at, reach, inode_read_at-byte_at}
use cs380l.Files.State.{FileSys}
use cs380l.Dirs.State.{
  Dir, entry_size, name_max, in_use, is_name, name_of, read_entry, lookup_from, slot_from,
}
use cs380l.Dirs.Names.{is_name-agree}

-- Entry `i` of a directory, and how many there are.
abbrev pub entry : Device → Inode → ℕ → Buffer
entry d inode i = λ k. byte_at d inode (i * entry_size + k)

abbrev pub entries : Inode → ℕ
entries inode = inode.inode_disk.length / entry_size

abbrev pub matches : Device → Inode → List ℕ → ℕ → Bool
matches d inode name i = in_use (entry d inode i) && is_name name (name_of (entry d inode i))

-- The first of the `m` numbers from `i` on that passes the test.
unfoldable pub search : ℕ → ℕ → (ℕ → Bool) → Option ℕ
search zero i test = none
search (suc m) i test = if test i then some i else search m (i + 1) test

-- What a lookup returns stands for the entry with that number.
abbrev pub Located : Device → Inode → Option (Buffer × ℕ) → Option ℕ → Type 0
Located d inode none none = Unit
Located d inode none (some j) = true ≡ false
Located d inode (some x) none = true ≡ false
Located d inode (some x) (some j) =
    (x.1 ≡ j * entry_size) × ((k : ℕ) → k < entry_size → x.0 k ≡ entry d inode j k)

-- The number of the free entry, or of the place behind the last entry.
abbrev pub slot_at : ℕ → Option ℕ → ℕ
slot_at n none = n
slot_at n (some j) = j

pub search-none :
    (m i : ℕ) (test : ℕ → Bool) (k : ℕ)
    → search m i test ≡ none
    → i ≤ k
    → k < i + m
    → test k ≡ false
unfolding search
search-none zero i test k e p q = absurd (omega arith)
search-none (suc m) i test k e p q = elim (Bool-cases (i == k)) [
  | inl here ↦ let same : i ≡ k = ground arith in ground (arith, ap test same)
  | inr later ↦ search-none m (i + 1) test k (ground arith) (ground arith) (omega arith)
]

pub search-some :
    (m i : ℕ) (test : ℕ → Bool) (j : ℕ)
    → search m i test ≡ some j
    → (i ≤ j) × (j < i + m) × (test j ≡ true)
unfolding search
search-some zero i test j e = cc
search-some (suc m) i test j e = elim (Bool-cases (test i)) [
  | inl here ↦
      let same : i ≡ j = ground arith in (omega arith, omega arith, ap test (sym same) ∙ here)
  | inr later ↦
      let (p, q, t) = search-some m (i + 1) test j (ground arith) in (omega arith, omega arith, t)
]

pub search-agree :
    (m i : ℕ) (test test2 : ℕ → Bool)
    → ((k : ℕ) → i ≤ k → k < i + m → test k ≡ test2 k)
    → search m i test ≡ search m i test2
unfolding search
search-agree zero i test test2 same = refl
search-agree (suc m) i test test2 same =
    let rest = search-agree m (i + 1) test test2 (λ k p q. same k (omega arith) (omega arith)) in
    rw (same i (omega arith) (omega arith), rest) refl

pub search_only :
    (m i : ℕ) (test : ℕ → Bool) (j : ℕ)
    → i ≤ j
    → j < i + m
    → test j ≡ true
    → ((k : ℕ) → i ≤ k → k < i + m → (j == k) ≡ false → test k ≡ false)
    → search m i test ≡ some j
unfolding search
search_only zero i test j p q here others = absurd (omega arith)
search_only (suc m) i test j p q here others = elim (Bool-cases (j == i)) [
  | inl at ↦
      let same : j ≡ i = ground arith in
      let hit = ap test (sym same) ∙ here in rw hit (ap some (sym same))
  | inr later ↦
      let miss = others i (omega arith) (omega arith) later in
      rw miss (
        search_only m (i + 1) test j (ground arith) (omega arith) here
          (λ k r s. others k (omega arith) (omega arith)))
]

module _ (sys : FileSys) (dir : Dir) (on : OnDevice sys.fs_device (sys.inodes dir.inode)) where
  abbrev d : Device
  d = sys.fs_device

  abbrev inode : Inode
  inode = sys.inodes dir.inode

  read_entry_inside :
      (e : Buffer) (i : ℕ)
      → i < entries inode
      → (b : Buffer) × (read_entry true sys dir e (i * entry_size) ≡ ok (true, b))
        × ((k : ℕ) → k < entry_size → b k ≡ entry d inode i k)
  unfolding read_entry
  read_entry_inside e i small =
      let (b, run, bytes) = inode_read_at-byte_at d inode e entry_size (i * entry_size) on in
      let whole : reach inode entry_size (i * entry_size) ≡ entry_size = ground arith in
      (b, rw run (ap (λ n. ok (n == entry_size, b)) whole), λ k h. ground (arith, bytes k))

  read_entry_end :
      (e : Buffer)
      → (b : Buffer) × (read_entry true sys dir e (entries inode * entry_size) ≡ ok (false, b))
  unfolding read_entry
  read_entry_end e =
      let (b, run, bytes) =
        inode_read_at-byte_at d inode e entry_size (entries inode * entry_size) on in
      let short : (reach inode entry_size (entries inode * entry_size) == entry_size) ≡ false =
        ground arith in
      (b, rw (run, short) refl)

  pub lookup_from-search :
      (m i limit : ℕ) (name : List ℕ) (e : Buffer)
      → i + m ≡ entries inode
      → m < limit
      → length name ≤ name_max
      → (r : Option (Buffer × ℕ)) × (lookup_from limit true sys dir name e (i * entry_size) ≡ ok r)
        × Located d inode r (search m i (matches d inode name))
  unfolding lookup_from search
  lookup_from-search m i zero name e whole fuel short = absurd (omega arith)
  lookup_from-search zero i (suc limit) name e whole fuel short =
      let at : i ≡ entries inode = omega arith in
      let (b, run) = read_entry_end e in
      let run2 = ap (λ x. read_entry true sys dir e (x * entry_size)) at ∙ run in
      (none, rw run2 refl, tt)
  lookup_from-search (suc m) i (suc limit) name e whole fuel short =
      let (b, run, bytes) = read_entry_inside e i (omega arith) in
      let next : i * entry_size + entry_size ≡ (i + 1) * entry_size = omega arith in
      let used : in_use b ≡ in_use (entry d inode i) =
        ap (λ x. not (x == 0)) (bytes 19 (omega arith)) in
      let named : is_name name (name_of b) ≡ is_name name (name_of (entry d inode i)) =
        is_name-agree name (name_of b) (name_of (entry d inode i))
          (λ k h. bytes (k + 4) (omega arith)) in
      let (r, rest, at) =
        lookup_from-search m (i + 1) limit name b (omega arith) (omega arith) short in
      let rest2 = ap (lookup_from limit true sys dir name b) next ∙ rest in
      let tested : in_use b && is_name name (name_of b) ≡ matches d inode name i =
        ap (λ x. x && is_name name (name_of b)) used
        ∙ ap (λ x. in_use (entry d inode i) && x) named in
      elim (Bool-cases (matches d inode name i)) [
        | inl here ↦ (some (b, i * entry_size), rw (run, tested, here) refl, rw here (refl, bytes))
        | inr later ↦ (r, rw (run, tested, later) rest2, rw later at)
      ]

  pub slot_from-search :
      (m i limit : ℕ) (e : Buffer)
      → i + m ≡ entries inode
      → m < limit
      → (r : Buffer × ℕ) × (slot_from limit true sys dir e (i * entry_size) ≡ ok r)
        × (r.1
            ≡ slot_at (entries inode) (search m i (λ j. not (in_use (entry d inode j))))
              * entry_size)
  unfolding slot_from search
  slot_from-search m i zero e whole fuel = absurd (omega arith)
  slot_from-search zero i (suc limit) e whole fuel =
      let at : i ≡ entries inode = omega arith in
      let (b, run) = read_entry_end e in
      let run2 = ap (λ x. read_entry true sys dir e (x * entry_size)) at ∙ run in
      ((b, i * entry_size), rw run2 refl, ap (λ x. x * entry_size) at)
  slot_from-search (suc m) i (suc limit) e whole fuel =
      let (b, run, bytes) = read_entry_inside e i (omega arith) in
      let next : i * entry_size + entry_size ≡ (i + 1) * entry_size = omega arith in
      let used : in_use b ≡ in_use (entry d inode i) =
        ap (λ x. not (x == 0)) (bytes 19 (omega arith)) in
      let (r, rest, at) = slot_from-search m (i + 1) limit b (omega arith) (omega arith) in
      let rest2 = ap (slot_from limit true sys dir b) next ∙ rest in
      elim (Bool-cases (in_use (entry d inode i))) [
        | inl taken ↦ (r, rw (run, used, taken) rest2, rw taken at)
        | inr free ↦ ((b, i * entry_size), rw (run, used, free) refl, rw free refl)
      ]
