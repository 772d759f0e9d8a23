-- ===== src/Dirs/Paths.antt =====
-- filesys/filesys.c: files by their names. `fresh` gives the address for each inode that is opened in turn, and the
-- Boolean arguments say whether there is memory.
use cs380l.Base.{
  ℕ, zero, suc, ◌+◌, Bool, true, false, not, ◌==◌, ◌&&◌, if◌then◌else◌, Option, none, some, List,
  [], ◌∷◌, Result, ok, panic, ◌>>=◌, ◌>>◌, assert,
}
use cs380l.Files.Disk.{Buffer, Device}
use cs380l.Files.Sectors.{inode_read_at, inode_write_at}
use cs380l.Files.State.{File, FileSys, free_map_release, inode_get_symlink, inode_set_symlink}
use cs380l.Files.Handles.{file_open, file_close, file_get_inode}
use cs380l.Files.FreeMap.{
  free_map_allocate, free_map_init, free_map_open, free_map_close, free_map_create, inode_create,
  root_dir_sector,
}
use cs380l.Dirs.State.{
  Dir, name_max, dir_create, dir_open_root, dir_close, dir_add, dir_lookup, dir_remove,
}

-- `do_format`, without its messages.
unfoldable pub do_format : Bool → Bool → ℕ → FileSys → Result FileSys
do_format got bounce fresh sys = do
  mapped ← free_map_create got got bounce fresh sys
  (made, rooted) ← dir_create got bounce root_dir_sector 16 mapped
  assert made
  free_map_close bounce rooted

-- `filesys_init`, with the block device in the role of the file system when there is one.
unfoldable pub filesys_init :
    Bool → Bool → (ℕ → ℕ) → (ℕ → ℕ) → Option Device → Bool → FileSys → Result FileSys
filesys_init got bounce fresh garbage none format sys = panic
filesys_init got bounce fresh garbage (some d) format sys = do
  mapped ← free_map_init got garbage (record sys { fs_device = d; open_inodes = [] })
  formatted ← if format then do_format got bounce (fresh 0) mapped else ok mapped
  free_map_open got bounce (fresh 1) formatted

unfoldable pub filesys_done : Bool → FileSys → Result FileSys
filesys_done bounce sys = free_map_close bounce sys

-- The conjunction in `filesys_create`: whether all its parts succeed, and `inode_sector` then.
unfoldable pub make_file :
    ℕ → Bool → Bool → Option Dir → List ℕ → ℕ → Buffer → FileSys → Result (Bool × (ℕ × FileSys))
make_file limit got bounce none name initial_size e sys = ok (false, (0, sys))
make_file limit got bounce (some dir) name initial_size e sys = do
  (o, taken) ← free_map_allocate bounce 1 sys
  elim o [
    | none ↦ ok (false, (0, taken))
    | some sector ↦ do
      (created, made) ← inode_create got bounce sector initial_size taken
      if not created then ok (false, (sector, made)) else (do
        (added, after) ← dir_add limit bounce made dir name sector e
        ok (added, (sector, after)))
  ]

unfoldable pub filesys_create :
    ℕ → Bool → Bool → ℕ → List ℕ → ℕ → Buffer → FileSys → Result (Bool × FileSys)
filesys_create limit got bounce fresh name initial_size e sys = do
  (dir, mid) ← dir_open_root fresh got bounce sys
  (success, (inode_sector, made)) ← make_file limit got bounce dir name initial_size e mid
  kept ←
      if not success && not (inode_sector == 0)
      then free_map_release bounce inode_sector 1 made
      else ok made
  after ← dir_close bounce dir kept
  ok (success, after)

-- `dir_lookup` in the root directory, when this is open.
unfoldable pub root_lookup :
    ℕ → Bool → ℕ → Option Dir → List ℕ → Buffer → FileSys → Result (ℕ × FileSys)
root_lookup limit bounce fresh none name e sys = ok (0, sys)
root_lookup limit bounce fresh (some dir) name e sys = dir_lookup limit bounce fresh sys dir name e

-- The string at the start of a buffer of `n` bytes. A buffer without a null character is not a string.
unfoldable pub string_at : ℕ → Buffer → Result (List ℕ)
string_at zero p = panic
string_at (suc n) p = do
  rest ← if p 0 == 0 then ok [] else string_at n (λ k. p (k + 1))
  ok (if p 0 == 0 then [] else p 0 ∷ rest)

-- A link: the target's name is in the first bytes of the file, and `target` holds anything at first. The second
-- directory is closed only when the target exists.
unfoldable pub follow :
    ℕ → Bool → Bool → (ℕ → ℕ) → ℕ → Buffer → Buffer → FileSys → Result (ℕ × FileSys)
follow limit got bounce fresh inode target e sys = do
  (_, bytes) ← inode_read_at bounce sys.fs_device (sys.inodes inode) target (name_max + 1) 0
  (root, mid) ← dir_open_root (fresh 2) got bounce sys
  elim root [
    | none ↦ panic
    | some dir ↦ do
      name ← string_at (name_max + 1) bytes
      (found, after) ← dir_lookup limit bounce (fresh 3) mid dir name e
      if found == 0
          then ok (0, after)
          else (do closed ← dir_close bounce (some dir) after; ok (found, closed))
  ]

unfoldable pub filesys_open :
    ℕ → Bool → Bool → (ℕ → ℕ) → List ℕ → Buffer → FileSys → Result (Option File × FileSys)
filesys_open limit got bounce fresh name e sys = do
  (dir, mid) ← dir_open_root (fresh 0) got bounce sys
  (inode, looked) ← root_lookup limit bounce (fresh 1) dir name e mid
  after ← dir_close bounce dir looked
  if inode == 0 then ok (none, after) else (do
    link ← inode_get_symlink inode after
    (end, last) ← if link then follow limit got bounce fresh inode e e after else ok (inode, after)
    if link && end == 0 then ok (none, last) else file_open got bounce end last)

unfoldable pub filesys_remove :
    ℕ → Bool → Bool → (ℕ → ℕ) → List ℕ → Buffer → FileSys → Result (Bool × FileSys)
filesys_remove limit got bounce fresh name e sys = do
  (dir, mid) ← dir_open_root (fresh 0) got bounce sys
  (success, gone) ← elim dir [
    | none ↦ ok (false, mid)
    | some d ↦ dir_remove limit bounce (fresh 1) mid d name e
  ]
  after ← dir_close bounce dir gone
  ok (success, after)

-- `filesys_symlink`. Without the file, the code follows a null pointer.
unfoldable pub filesys_symlink :
    ℕ → Bool → Bool → (ℕ → ℕ) → Buffer → List ℕ → Buffer → FileSys → Result (Bool × FileSys)
filesys_symlink limit got bounce fresh target linkpath e sys = do
  (success, made) ← filesys_create limit got bounce (fresh 4) linkpath 15 e sys
  (symlink, opened) ← filesys_open limit got bounce fresh linkpath e made
  elim symlink [
    | none ↦ panic
    | some file ↦ do
      linked ← inode_set_symlink (file_get_inode file) true opened
      (_, d) ←
          inode_write_at bounce linked.fs_device (linked.inodes (file_get_inode file)) target
            (name_max + 1) 0
      closed ← file_close bounce (some file) (record linked { fs_device = d })
      ok (success, closed)
  ]
