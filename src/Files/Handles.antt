-- ===== src/Files/Handles.antt =====
-- filesys/file.c: the operations on an open file. `file_open` and `file_close` are given the file as a value,
-- and `none` is the null pointer.
use cs380l.Base.{
  ℕ, ◌+◌, Bool, true, false, not, ◌==◌, ◌&&◌, if◌then◌else◌, Option, none, some, Result, ok, ◌>>=◌,
}
use cs380l.Files.Disk.{Buffer}
use cs380l.Files.Sectors.{inode_read_at}
use cs380l.Files.State.{
  File, FileSys, inode_reopen, inode_close, inode_deny_write, inode_allow_write, inode_length,
  file_write_at,
}

-- `got` says whether calloc() returns memory for the structure.
unfoldable pub file_open : Bool → Bool → ℕ → FileSys → Result (Option File × FileSys)
file_open got bounce inode sys =
    if not (inode == 0) && got
    then ok (some (record { inode = inode; pos = 0; deny_write = false }), sys)
    else do after ← inode_close bounce inode sys; ok (none, after)

unfoldable pub file_reopen : Bool → Bool → File → FileSys → Result (Option File × FileSys)
file_reopen got bounce file sys = file_open got bounce file.inode (inode_reopen file.inode sys)

unfoldable pub file_get_inode : File → ℕ
file_get_inode file = file.inode

unfoldable pub file_deny_write : File → FileSys → Result (File × FileSys)
file_deny_write file sys =
    if not file.deny_write
    then (do after ← inode_deny_write file.inode sys; ok (record file { deny_write = true }, after))
    else ok (file, sys)

unfoldable pub file_allow_write : File → FileSys → Result (File × FileSys)
file_allow_write file sys =
    if file.deny_write
    then (do
      after ← inode_allow_write file.inode sys
      ok (record file { deny_write = false }, after))
    else ok (file, sys)

unfoldable pub file_close : Bool → Option File → FileSys → Result FileSys
file_close bounce none sys = ok sys
file_close bounce (some file) sys = do
  (_, after) ← file_allow_write file sys
  inode_close bounce file.inode after

unfoldable pub file_read_at : Bool → File → Buffer → ℕ → ℕ → FileSys → Result (ℕ × Buffer)
file_read_at bounce file buffer size file_ofs sys =
    inode_read_at bounce sys.fs_device (sys.inodes file.inode) buffer size file_ofs

unfoldable pub file_read : Bool → File → Buffer → ℕ → FileSys → Result (ℕ × (Buffer × File))
file_read bounce file buffer size sys = do
  (bytes_read, after) ←
      inode_read_at bounce sys.fs_device (sys.inodes file.inode) buffer size file.pos
  ok (bytes_read, (after, record file { pos = file.pos + bytes_read }))

unfoldable pub file_write : Bool → File → Buffer → ℕ → FileSys → Result (ℕ × (File × FileSys))
file_write bounce file buffer size sys = do
  (bytes_written, after) ← file_write_at bounce file buffer size file.pos sys
  ok (bytes_written, (record file { pos = file.pos + bytes_written }, after))

unfoldable pub file_length : File → FileSys → ℕ
file_length file sys = inode_length file.inode sys

unfoldable pub file_seek : File → ℕ → File
file_seek file new_pos = record file { pos = new_pos }

unfoldable pub file_tell : File → ℕ
file_tell file = file.pos
