-- ===== src/Files/Opens.antt =====
-- filesys/inode.c and filesys/file.c: who has an inode open, and who denies writes to it.
use cs380l.Base.{ℕ, ◌+◌, ◌-◌, ◌≤◌, ◌≡◌, ◌==◌, ◌&&◌, if◌then◌else◌, List, [], ◌∷◌, ◌++◌, arith}
use cs380l.Files.State.{File, FileSys, without}

-- How many of the files have the inode `a` open, and how many of these deny writes.
unfoldable pub opens : ℕ → List File → ℕ
opens a [] = 0
opens a (f ∷ files) = (if f.inode == a then 1 else 0) + opens a files

unfoldable pub denies : ℕ → List File → ℕ
denies a [] = 0
denies a (f ∷ files) = (if f.inode == a && f.deny_write then 1 else 0) + denies a files

unfoldable pub listed : ℕ → List ℕ → ℕ
listed a [] = 0
listed a (b ∷ bs) = (if b == a then 1 else 0) + listed a bs

-- The list of open inodes and the counters agree with the open files.
pub record IsShared (files : List File) (sys : FileSys) : Type 0 where
  pub in_list : (a : ℕ) → 1 ≤ opens a files → listed a sys.open_inodes ≡ 1
  pub not_in_list : (a : ℕ) → opens a files ≡ 0 → listed a sys.open_inodes ≡ 0
  pub open_cnt : (a : ℕ) → 1 ≤ opens a files → (sys.inodes a).open_cnt ≡ opens a files
  pub deny_cnt : (a : ℕ) → 1 ≤ opens a files → (sys.inodes a).deny_write_cnt ≡ denies a files
  pub no_null : opens 0 files ≡ 0
  pub one_each :
      (a b : ℕ)
      → 1 ≤ opens a files
      → 1 ≤ opens b files
      → (sys.inodes a).sector ≡ (sys.inodes b).sector
      → a ≡ b

pub opens-append : (a : ℕ) (xs ys : List File) → opens a (xs ++ ys) ≡ opens a xs + opens a ys
unfolding opens
opens-append a [] ys = omega arith
opens-append a (f ∷ xs) ys = omega (arith, opens-append a xs ys)

pub denies-append : (a : ℕ) (xs ys : List File) → denies a (xs ++ ys) ≡ denies a xs + denies a ys
unfolding denies
denies-append a [] ys = omega arith
denies-append a (f ∷ xs) ys = omega (arith, denies-append a xs ys)

pub denies-le-opens : (a : ℕ) (files : List File) → denies a files ≤ opens a files
unfolding opens denies
denies-le-opens a [] = omega arith
denies-le-opens a (f ∷ files) = ground (arith, denies-le-opens a files)

-- One file in the middle of the others.
abbrev pub with_file : List File → File → List File → List File
with_file pre f post = pre ++ f ∷ post

pub opens-with_file :
    (a : ℕ) (pre : List File) (f : File) (post : List File)
    → opens a (with_file pre f post) ≡ (if f.inode == a then 1 else 0) + opens a (pre ++ post)
unfolding opens
opens-with_file a pre f post = omega (arith, opens-append a pre (f ∷ post), opens-append a pre post)

pub denies-with_file :
    (a : ℕ) (pre : List File) (f : File) (post : List File)
    → denies a (with_file pre f post)
      ≡ (if f.inode == a && f.deny_write then 1 else 0) + denies a (pre ++ post)
unfolding denies
denies-with_file a pre f post =
    omega (arith, denies-append a pre (f ∷ post), denies-append a pre post)

pub listed-without :
    (a b : ℕ) (bs : List ℕ) → listed a (without b bs) ≡ listed a bs - (if b == a then 1 else 0)
unfolding listed without
listed-without a b [] = ground arith
listed-without a b (c ∷ bs) = ground (arith, listed-without a b bs)
