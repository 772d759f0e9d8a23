-- ===== src/Files/FreeMap.antt =====
-- filesys/free-map.c: the map of the sectors in use, and `inode_create` of filesys/inode.c.
use Prim.Native.Nat.{bit_and}
use cs380l.Base.{
  ℕ, zero, suc, ◌+◌, ◌-◌, ◌*◌, ◌%◌, ◌^◌, Bool, true, false, ◌==◌, ltb, if◌then◌else◌, Option, none,
  some, Result, ok, panic, ◌>>=◌, ◌>>◌, assert,
}
use cs380l.Bitmap.State.{
  Bitmap, byte_cnt, elem_cnt, last_mask, bitmap_mark, bitmap_set_all, bitmap_scan_and_flip,
  bitmap_set_multiple,
}
use cs380l.Files.Disk.{Device, block_write, inode_magic, inode_bytes, bytes_to_sectors, word_at}
use cs380l.Files.Sectors.{zeros}
use cs380l.Files.State.{File, FileSys, bitmap_write, inode_open, map_bytes}
use cs380l.Files.Handles.{file_open, file_close, file_read_at}

abbrev pub free_map_sector : ℕ
free_map_sector = 0

abbrev pub root_dir_sector : ℕ
root_dir_sector = 1

-- The map with a group marked is written to its file, or the marks are taken back.
unfoldable pub keep_group : Bool → ℕ → ℕ → Option File → FileSys → Result (Option ℕ × FileSys)
keep_group bounce cnt sector none sys = ok (some sector, sys)
keep_group bounce cnt sector (some file) sys = do
  (written, after) ← bitmap_write bounce sys.free_map file sys
  if written then ok (some sector, after) else (do
    map ← bitmap_set_multiple sector cnt false sys.free_map
    ok (none, record after { free_map = map }))

-- `free_map_allocate` after the search.
unfoldable pub record_group : Bool → ℕ → Option ℕ → FileSys → Result (Option ℕ × FileSys)
record_group bounce cnt none sys = ok (none, sys)
record_group bounce cnt (some sector) sys = keep_group bounce cnt sector sys.free_map_file sys

unfoldable pub free_map_allocate : Bool → ℕ → FileSys → Result (Option ℕ × FileSys)
free_map_allocate bounce cnt sys = do
  (sector, map) ← bitmap_scan_and_flip 0 cnt false sys.free_map
  record_group bounce cnt sector (record sys { free_map = map })

-- `got` says whether bitmap_create() has memory, and `garbage` is what this holds.
unfoldable pub free_map_init : Bool → (ℕ → ℕ) → FileSys → Result FileSys
free_map_init got garbage sys =
    if got
    then (do
      map ← bitmap_set_all false (record { bit_cnt = sys.fs_device.size; bits = garbage })
      ok (record sys { free_map = bitmap_mark root_dir_sector (bitmap_mark free_map_sector map) }))
    else panic

-- `bitmap_read`: the words from the bytes of the file.
unfoldable pub bitmap_read : Bool → Bitmap → File → FileSys → Result (Bool × Bitmap)
bitmap_read bounce b file sys =
    if ltb 0 b.bit_cnt
    then (do
      (bytes_read, buffer) ← file_read_at bounce file (map_bytes b) (byte_cnt b.bit_cnt) 0 sys
      let words = λ (w : ℕ). word_at buffer (4 * w)
      let last = elem_cnt b.bit_cnt - 1
      ok (
        bytes_read == byte_cnt b.bit_cnt,
        record b { bits = λ w. if w == last then bit_and (words w) (last_mask b) else words w },
      ))
    else ok (true, b)

abbrev pub with_map_file : Option File → FileSys → FileSys
with_map_file o sys = record sys { free_map_file = o }

-- `free_map_open` from the test of `free_map_file` on.
unfoldable pub load_map : Bool → Option File → FileSys → Result FileSys
load_map bounce none sys = panic
load_map bounce (some file) sys = do
  (success, map) ← bitmap_read bounce sys.free_map file sys
  assert success
  ok (record (with_map_file (some file) sys) { free_map = map })

unfoldable pub free_map_open : Bool → Bool → ℕ → FileSys → Result FileSys
free_map_open got bounce fresh sys = do
  (a, mid) ← inode_open fresh free_map_sector sys
  (o, after) ← file_open got bounce a mid
  load_map bounce o after

unfoldable pub free_map_close : Bool → FileSys → Result FileSys
free_map_close bounce sys = file_close bounce sys.free_map_file sys

-- The loop that writes zeros to the sectors of a new inode, from sector `start + i` on.
unfoldable pub zero_sectors : ℕ → ℕ → ℕ → Device → Result Device
zero_sectors zero start i d = ok d
zero_sectors (suc n) start i d = do
  e ← block_write d ((start + i) % 2 ^ 32) zeros
  zero_sectors n start (i + 1) e

-- `inode_create` once sectors are allocated.
unfoldable pub write_inode : ℕ → ℕ → Option ℕ → FileSys → Result (Bool × FileSys)
write_inode sector length none sys = ok (false, sys)
write_inode sector length (some start) sys = do
  d ← block_write sys.fs_device sector (
      inode_bytes (record {
        start = start;
        length = length;
        magic = inode_magic;
        is_symlink = false;
        unused = zeros;
      }))
  e ← zero_sectors (bytes_to_sectors length) start 0 d
  ok (true, record sys { fs_device = e })

-- `got` says whether calloc() returns memory for the sector.
unfoldable pub inode_create : Bool → Bool → ℕ → ℕ → FileSys → Result (Bool × FileSys)
inode_create got bounce sector length sys =
    if got
    then (do
      (start, after) ← free_map_allocate bounce (bytes_to_sectors length) sys
      write_inode sector length start after)
    else ok (false, sys)

-- `free_map_create` from the test of `free_map_file` on.
unfoldable pub store_map : Bool → Option File → FileSys → Result FileSys
store_map bounce none sys = panic
store_map bounce (some file) sys = do
  (written, after) ← bitmap_write bounce sys.free_map file (with_map_file (some file) sys)
  assert written
  ok after

unfoldable pub free_map_create : Bool → Bool → Bool → ℕ → FileSys → Result FileSys
free_map_create got got_file bounce fresh sys = do
  (created, made) ← inode_create got bounce free_map_sector (byte_cnt sys.free_map.bit_cnt) sys
  assert created
  (a, mid) ← inode_open fresh free_map_sector made
  (o, after) ← file_open got_file bounce a mid
  store_map bounce o after
