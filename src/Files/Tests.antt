-- ===== src/Files/Tests.antt =====
-- filesys/inode.c, filesys/file.c and filesys/free-map.c: tests on a device of eight sectors.
use cs380l.Files.Disk.{block_filesys}
use cs380l.Base.{
  ℕ, ◌+◌, ◌-◌, ◌<◌, ◌≡◌, refl, Bool, true, false, ◌==◌, ltb, leb, ◌&&◌, if◌then◌else◌, Option, some,
  List, [], ◌∷◌, ok, arith,
}
use cs380l.Bitmap.State.{Bitmap}
use cs380l.Bitmap.Words.{member}
use cs380l.Base.Bits.{bit}
use cs380l.Files.Disk.{Buffer, Device, Inode}
use cs380l.Files.Sectors.{zeros, inode_read_at, inode_write_at}
use cs380l.Files.Reads.{OnDevice, byte_at, reach, inode_read_at-byte_at}
use cs380l.Files.Writes.{Written, inode_write_at-Written}
use cs380l.Files.RoundTrips.{inode_read_at-inode_write_at}
use cs380l.Files.State.{
  File, FileSys, set_inode, find_open, inode_open, inode_reopen, inode_close, inode_deny_write,
  inode_allow_write, free_map_release,
}
use cs380l.Files.Handles.{file_open, file_allow_write, file_write}
use cs380l.Files.FreeMap.{free_map_allocate, inode_create}
use cs380l.Files.Opens.{opens, denies, listed, IsShared}
use cs380l.Files.Denials.{file_allow_write-IsShared, file_write_denied}
use cs380l.Files.Calls.{
  FileSteps, opening, taking, forbidding, permitting, dropping, denier, stay, and_then,
}
use cs380l.Files.Histories.{FileSteps-IsShared}
use cs380l.Files.Allocs.{HasMap, Allocated, free_map_allocate-Allocated}
use cs380l.Files.Releases.{free_map_release-free_map_allocate}
use cs380l.Files.Fresh.{Fresh, inode_open-inode_create}

abbrev disk : Device
disk = record { block_type = block_filesys; size = 8; content = λ s o. s }

abbrev inode_at : ℕ → ℕ → Inode
inode_at start length = record {
  sector = 0;
  open_cnt = 1;
  removed = false;
  deny_write_cnt = 0;
  inode_disk = record {
    start = start;
    length = length;
    magic = 0;
    is_symlink = false;
    unused = zeros;
  };
}

-- 1000 bytes in sectors 3 and 4.
abbrev data_inode : Inode
data_inode = inode_at 3 1000

data_inode-OnDevice : OnDevice disk data_inode
data_inode-OnDevice = record {
  native = refl;
  inside = omega arith;
  word = omega arith;
  offsets = omega arith;
}

inode_read_at-byte_at_example :
    (b : Buffer) × (inode_read_at true disk data_inode zeros 20 500
      ≡ ok (reach data_inode 20 500, b))
    × ((k : ℕ)
        → b k ≡ (
            if ltb k (reach data_inode 20 500) then byte_at disk data_inode (500 + k) else zeros k))
inode_read_at-byte_at_example =
    inode_read_at-byte_at disk data_inode zeros 20 500 data_inode-OnDevice

inode_write_at-Written_example :
    (e : Device) × (inode_write_at true disk data_inode (λ k. k + 7) 20 500
      ≡ ok (reach data_inode 20 500, e))
    × Written disk e data_inode (λ k. k + 7) 0 (reach data_inode 20 500) 500
inode_write_at-Written_example =
    inode_write_at-Written disk data_inode (λ k. k + 7) 20 500 data_inode-OnDevice refl

inode_read_at-inode_write_at_example :
    (e : Device) × (b : Buffer) × (inode_write_at true disk data_inode (λ k. k + 7) 20 500
      ≡ ok (reach data_inode 20 500, e))
    × (inode_read_at true e data_inode zeros 30 505 ≡ ok (reach data_inode 30 505, b))
    × ((k : ℕ)
        → k < reach data_inode 30 505
        → b k ≡ (
            if leb 500 (505 + k) && ltb (505 + k) (500 + reach data_inode 20 500)
            then 505 + k - 500 + 7
            else byte_at disk data_inode (505 + k)))
inode_read_at-inode_write_at_example =
    inode_read_at-inode_write_at disk data_inode (λ k. k + 7) zeros 20 500 30 505
      data_inode-OnDevice refl

-- Sectors 0, 1 and 2 are in use, and the inode at 40 is that of the map.
abbrev used_map : Bitmap
used_map = record { bit_cnt = 8; bits = λ w. if w == 0 then 7 else 0 }

abbrev map_file : File
map_file = record { inode = 40; pos = 0; deny_write = false }

abbrev sys : FileSys
sys = record {
  fs_device = disk;
  free_map = used_map;
  free_map_file = some map_file;
  open_inodes = 40 ∷ [];
  inodes = λ a. inode_at 2 4;
}

sys-HasMap : HasMap sys
sys-HasMap = record {
  native = refl;
  small = omega arith;
  file_on = λ file e. record {
    native = refl;
    inside = omega arith;
    word = omega arith;
    offsets = omega arith;
  };
}

free_map_allocate-Allocated_example :
    (r : Option ℕ × FileSys) × (free_map_allocate true 2 sys ≡ ok r) × Allocated sys 2 r
free_map_allocate-Allocated_example = free_map_allocate-Allocated true 2 sys sys-HasMap

free_map_release-free_map_allocate_example :
    (r : Option ℕ × FileSys) × (free_map_allocate true 2 sys ≡ ok r)
    × ((s : ℕ)
        → r.0 ≡ some s
        → (after : FileSys) × (free_map_release true s 2 r.1 ≡ ok after)
          × ((k : ℕ) → member k after.free_map ≡ member k used_map))
free_map_release-free_map_allocate_example =
    free_map_release-free_map_allocate true true 2 sys map_file sys-HasMap refl

inode_open-inode_create_example :
    (r : Bool × FileSys) × (inode_create true true 1 700 sys ≡ ok r)
    × (r.0 ≡ true
        → (q : ℕ × FileSys) × (inode_open 50 1 r.1 ≡ ok q)
          × (q.0 ≡ 50)
          × Fresh q.1.fs_device (q.1.inodes 50) 700)
unfolding bit find_open
inode_open-inode_create_example =
    inode_open-inode_create true 1 700 50 sys sys-HasMap (omega arith) (omega arith) (omega arith)
      refl (omega arith) (λ e. ground arith) refl

-- Two open files of one inode.
abbrev one_file : File
one_file = record { inode = 60; pos = 0; deny_write = false }

abbrev denying_file : File
denying_file = record { inode = 60; pos = 9; deny_write = true }

abbrev shared_inode : Inode
shared_inode = record (inode_at 3 1000) { open_cnt = 2; deny_write_cnt = 1 }

abbrev shared : FileSys
shared = record sys { open_inodes = 60 ∷ []; inodes = λ a. shared_inode }

shared-IsShared : IsShared (one_file ∷ denying_file ∷ []) shared
unfolding opens denies listed
shared-IsShared = record {
  in_list = λ a p. ground arith;
  not_in_list = λ a p. ground arith;
  open_cnt = λ a p. ground arith;
  deny_cnt = λ a p. ground arith;
  no_null = refl;
  one_each = λ a b p q e. ground arith;
}

file_allow_write-IsShared_example :
    (r : File × FileSys) × (file_allow_write denying_file shared ≡ ok r)
    × (r.0.deny_write ≡ false)
    × (r.0.inode ≡ 60)
    × IsShared (one_file ∷ r.0 ∷ []) r.1
file_allow_write-IsShared_example =
    file_allow_write-IsShared (one_file ∷ []) denying_file [] shared shared-IsShared

file_write_denied_example : file_write true one_file zeros 5 shared ≡ ok (0, (one_file, shared))
unfolding denies
file_write_denied_example =
    file_write_denied [] one_file (denying_file ∷ []) shared shared-IsShared true zeros 5
      (omega arith)

-- A further file is opened. Then someone opens the inode without a file, denies writes, allows them and closes it.
abbrev counted : ℕ → ℕ → Inode
counted opened denied = record shared_inode { open_cnt = opened; deny_write_cnt = denied }

abbrev third_file : File
third_file = record { inode = 60; pos = 0; deny_write = false }

abbrev opened_once : FileSys
opened_once = set_inode 60 (counted 3 1) shared

abbrev opened_twice : FileSys
opened_twice = set_inode 60 (counted 4 1) opened_once

abbrev denied_twice : FileSys
denied_twice = set_inode 60 (counted 4 2) opened_twice

abbrev allowed_again : FileSys
allowed_again = set_inode 60 (counted 4 1) denied_twice

abbrev closed_again : FileSys
closed_again = set_inode 60 (counted 3 1) allowed_again

abbrev three_files : List File
three_files = third_file ∷ one_file ∷ denying_file ∷ []

history : FileSteps (one_file ∷ denying_file ∷ []) shared three_files closed_again
unfolding inode_open find_open inode_reopen file_open inode_deny_write inode_allow_write inode_close
    opens
history =
    and_then
      (and_then
        (and_then
          (and_then (and_then stay (opening 70 0 true true refl refl refl)) (taking 70 0 refl refl))
          (forbidding [] third_file three_files refl refl))
        (permitting [] (denier true third_file) three_files refl refl))
      (dropping [] third_file three_files true refl refl)

FileSteps-IsShared_example : IsShared three_files closed_again
FileSteps-IsShared_example = FileSteps-IsShared history shared-IsShared
