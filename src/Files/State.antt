-- ===== src/Files/State.antt =====
-- filesys/inode.c and filesys/file.c: the open inodes and files. An inode or a file is known by the address of its
-- structure, and 0 is the null pointer. `fresh` is the address that malloc() returns, and the other
-- Boolean arguments say whether it returns a buffer.
use cs380l.Base.{
  ℕ, ◌+◌, ◌-◌, ◌/◌, ◌%◌, Bool, true, false, not, ◌==◌, ltb, leb, if◌then◌else◌, Option, none, some,
  List, [], ◌∷◌, Result, ok, panic, ◌>>=◌, ◌>>◌, assert, ◌≡◌, inl, inr, refl, ap, ◌∙◌, arith,
  Bool-cases,
}
use cs380l.Bitmap.State.{Bitmap, bitmap_all, bitmap_set_multiple, byte_cnt}
use cs380l.Files.Disk.{
  Buffer, Device, block_read, block_write, Inode, inode_from, inode_bytes, bytes_to_sectors,
  byte_of,
}
use cs380l.Files.Sectors.{inode_write_at}

-- `struct file`
pub record File : Type 0 where
  pub inode : ℕ
  pub pos : ℕ
  pub deny_write : Bool

pub record FileSys : Type 0 where
  pub fs_device : Device
  pub free_map : Bitmap
  pub free_map_file : Option File
  pub open_inodes : List ℕ
  pub inodes : ℕ → Inode

abbrev pub set_inode : ℕ → Inode → FileSys → FileSys
set_inode a i sys = record sys { inodes = λ b. if a == b then i else sys.inodes b }

-- The words of the bitmap as bytes.
abbrev pub map_bytes : Bitmap → Buffer
map_bytes b k = byte_of (b.bits (k / 4)) (k % 4)

unfoldable pub file_write_at : Bool → File → Buffer → ℕ → ℕ → FileSys → Result (ℕ × FileSys)
file_write_at bounce file buffer size file_ofs sys = do
  (bytes_written, d) ←
      inode_write_at bounce sys.fs_device (sys.inodes file.inode) buffer size file_ofs
  ok (bytes_written, record sys { fs_device = d })

unfoldable pub bitmap_write : Bool → Bitmap → File → FileSys → Result (Bool × FileSys)
bitmap_write bounce b file sys = do
  (written, after) ← file_write_at bounce file (map_bytes b) (byte_cnt b.bit_cnt) 0 sys
  ok (written == byte_cnt b.bit_cnt, after)

-- The map is written to its file, through the pointer `free_map_file`.
unfoldable pub write_map : Bool → Option File → FileSys → Result FileSys
write_map bounce none sys = panic
write_map bounce (some file) sys = do
  (_, after) ← bitmap_write bounce sys.free_map file sys
  ok after

unfoldable pub free_map_release : Bool → ℕ → ℕ → FileSys → Result FileSys
free_map_release bounce sector cnt sys = do
  held ← bitmap_all sector cnt sys.free_map
  assert held
  map ← bitmap_set_multiple sector cnt false sys.free_map
  write_map bounce sys.free_map_file (record sys { free_map = map })

unfoldable pub find_open : ℕ → List ℕ → (ℕ → Inode) → Option ℕ
find_open sector [] inodes = none
find_open sector (a ∷ open_inodes) inodes =
    let rest = find_open sector open_inodes inodes in
    if (inodes a).sector == sector then some a else rest

unfoldable pub inode_reopen : ℕ → FileSys → FileSys
inode_reopen a sys =
    let i = sys.inodes a in
    if not (a == 0) then set_inode a (record i { open_cnt = i.open_cnt + 1 }) sys else sys

unfoldable pub inode_open : ℕ → ℕ → FileSys → Result (ℕ × FileSys)
inode_open fresh sector sys = elim (find_open sector sys.open_inodes sys.inodes) [
  | some a ↦ ok (a, inode_reopen a sys)
  | none ↦ if fresh == 0 then ok (0, sys) else do
    bytes ← block_read sys.fs_device sector
    ok (
      fresh,
      set_inode fresh
          (record {
            sector = sector;
            open_cnt = 1;
            removed = false;
            deny_write_cnt = 0;
            inode_disk = inode_from bytes;
          })
          (record sys { open_inodes = fresh ∷ sys.open_inodes }),
    )
]

unfoldable pub without : ℕ → List ℕ → List ℕ
without a [] = []
without a (b ∷ bs) = let rest = without a bs in if b == a then bs else b ∷ rest

-- The sectors of a removed inode.
unfoldable pub release_inode : Bool → Inode → FileSys → Result FileSys
release_inode bounce i sys = do
  after ← free_map_release bounce i.sector 1 sys
  free_map_release bounce i.inode_disk.start (bytes_to_sectors i.inode_disk.length) after

-- An open inode has a positive `open_cnt`.
unfoldable pub inode_close : Bool → ℕ → FileSys → Result FileSys
inode_close bounce a sys =
    let i = sys.inodes a in
    let closed = set_inode a (record i { open_cnt = i.open_cnt - 1 }) sys in
    let last = record closed { open_inodes = without a sys.open_inodes } in
    if a == 0
    then ok sys
    else if i.open_cnt == 1
    then (if i.removed then release_inode bounce i last else ok last)
    else ok closed

unfoldable pub inode_remove : ℕ → FileSys → Result FileSys
inode_remove a sys = do
  assert (not (a == 0))
  ok (set_inode a (record (sys.inodes a) { removed = true }) sys)

unfoldable pub inode_deny_write : ℕ → FileSys → Result FileSys
inode_deny_write a sys =
    let i = sys.inodes a in
    do
      assert (leb (i.deny_write_cnt + 1) i.open_cnt)
      ok (set_inode a (record i { deny_write_cnt = i.deny_write_cnt + 1 }) sys)

unfoldable pub inode_allow_write : ℕ → FileSys → Result FileSys
inode_allow_write a sys =
    let i = sys.inodes a in
    do
      assert (ltb 0 i.deny_write_cnt)
      assert (leb i.deny_write_cnt i.open_cnt)
      ok (set_inode a (record i { deny_write_cnt = i.deny_write_cnt - 1 }) sys)

unfoldable pub inode_length : ℕ → FileSys → ℕ
inode_length a sys = (sys.inodes a).inode_disk.length

unfoldable pub inode_get_inumber : ℕ → FileSys → ℕ
inode_get_inumber a sys = (sys.inodes a).sector

unfoldable pub inode_get_symlink : ℕ → FileSys → Result Bool
inode_get_symlink a sys = do assert (not (a == 0)); ok (sys.inodes a).inode_disk.is_symlink

unfoldable pub inode_set_symlink : ℕ → Bool → FileSys → Result FileSys
inode_set_symlink a is_symlink sys =
    let i = sys.inodes a in
    let disk = record i.inode_disk { is_symlink = is_symlink } in
    do
      d ← block_write sys.fs_device i.sector (inode_bytes disk)
      ok (record (set_inode a (record i { inode_disk = disk }) sys) { fs_device = d })

-- A field that a write to an inode does not change.
pub keeps-set_inode :
    (g : Inode → ℕ) (a b : ℕ) (i : Inode) (sys : FileSys)
    → g i ≡ g (sys.inodes a)
    → g ((set_inode a i sys).inodes b) ≡ g (sys.inodes b)
keeps-set_inode g a b i sys e = elim (Bool-cases (a == b)) [
  | inl s ↦ let same : a ≡ b = ground arith in rw s (e ∙ ap (λ x. g (sys.inodes x)) same)
  | inr s ↦ rw s refl
]
