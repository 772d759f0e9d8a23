-- ===== src/Dirs/Tests.antt =====
-- filesys/directory.c: tests on a directory of two entries.
use cs380l.Base.{◌≡◌, refl, Bool, true, false, ◌==◌, ltb, if◌then◌else◌, none, [], ◌∷◌, ok, arith}
use cs380l.Files.Disk.{block_filesys, Device, Inode}
use cs380l.Files.Sectors.{zeros}
use cs380l.Files.Reads.{OnDevice}
use cs380l.Files.State.{FileSys}
use cs380l.Dirs.State.{Dir, filled_entry, dir_add}
use cs380l.Dirs.Adds.{Added, dir_add-sector_of}

-- Sector 3 holds the name "a" for sector 7, and a free entry.
abbrev disk : Device
disk = record {
  block_type = block_filesys;
  size = 8;
  content = λ s o. if s == 3 then (if ltb o 20 then filled_entry zeros (97 ∷ []) 7 o else 0) else 0;
}

abbrev dir_inode : Inode
dir_inode = record {
  sector = 1;
  open_cnt = 1;
  removed = false;
  deny_write_cnt = 0;
  inode_disk = record { start = 3; length = 40; magic = 0; is_symlink = false; unused = zeros };
}

abbrev system : FileSys
system = record {
  fs_device = disk;
  free_map = record { bit_cnt = 8; bits = λ w. 0 };
  free_map_file = none;
  open_inodes = 9 ∷ [];
  inodes = λ a. dir_inode;
}

abbrev root : Dir
root = record { inode = 9; pos = 0 }

dir_inode-OnDevice : OnDevice disk dir_inode
dir_inode-OnDevice = record {
  native = refl;
  inside = omega arith;
  word = omega arith;
  offsets = omega arith;
}

dir_add-sector_of_example :
    (r : Bool × FileSys) × (dir_add 3 true system root (98 ∷ 99 ∷ []) 5 zeros ≡ ok r)
    × Added system root (98 ∷ 99 ∷ []) 5 r
dir_add-sector_of_example =
    dir_add-sector_of 3 system root (98 ∷ 99 ∷ []) 5 zeros dir_inode-OnDevice refl refl
      (omega arith) (omega arith) (omega arith) (omega arith)
