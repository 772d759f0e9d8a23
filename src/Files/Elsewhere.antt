-- ===== src/Files/Elsewhere.antt =====
-- filesys/inode.c and filesys/free-map.c: calls that leave the open inodes as they are.
use cs380l.Base.{
  ℕ, refl, Bool, true, false, Option, none, some, ok, Yields, Yields->>=, Yields-all, Yields-if,
  Yields-map,
}
use cs380l.Bitmap.State.{Bitmap, bitmap_scan_and_flip, bitmap_set_multiple, byte_cnt}
use cs380l.Files.Disk.{bytes_to_sectors, block_write}
use cs380l.Files.FreeMap.{
  keep_group, record_group, free_map_allocate, write_inode, zero_sectors, inode_create,
}
use cs380l.Files.State.{File, FileSys, file_write_at, bitmap_write, map_bytes}
use cs380l.Files.Closes.{SameInodes, SameInodes-trans, file_write_at-SameInodes}

pub bitmap_write-SameInodes :
    (bounce : Bool) (b : Bitmap) (file : File) (sys : FileSys)
    → Yields (λ r. SameInodes sys r.1) (bitmap_write bounce b file sys)
unfolding bitmap_write
bitmap_write-SameInodes bounce b file sys =
    Yields->>= (λ r. SameInodes sys r.1) (λ r. SameInodes sys r.1)
      (file_write_at bounce file (map_bytes b) (byte_cnt b.bit_cnt) 0 sys) _
      (file_write_at-SameInodes bounce file (map_bytes b) (byte_cnt b.bit_cnt) 0 sys) (λ w t. t)

keep_group-SameInodes :
    (bounce : Bool) (cnt sector : ℕ) (o : Option File) (sys : FileSys)
    → Yields (λ r. SameInodes sys r.1) (keep_group bounce cnt sector o sys)
unfolding keep_group
keep_group-SameInodes bounce cnt sector none sys = record { list = refl; inodes = refl }
keep_group-SameInodes bounce cnt sector (some file) sys =
    Yields->>= (λ r. SameInodes sys r.1) (λ r. SameInodes sys r.1)
      (bitmap_write bounce sys.free_map file sys) _
      (bitmap_write-SameInodes bounce sys.free_map file sys)
      (λ w t.
        Yields-if (λ r. SameInodes sys r.1) w.0 (ok (some sector, w.1)) _ t
          (Yields-all (λ r. SameInodes sys r.1) (bitmap_set_multiple sector cnt false sys.free_map)
            _ (λ map. record { list = t.list; inodes = t.inodes })))

record_group-SameInodes :
    (bounce : Bool) (cnt : ℕ) (o : Option ℕ) (sys : FileSys)
    → Yields (λ r. SameInodes sys r.1) (record_group bounce cnt o sys)
unfolding record_group
record_group-SameInodes bounce cnt none sys = record { list = refl; inodes = refl }
record_group-SameInodes bounce cnt (some sector) sys =
    keep_group-SameInodes bounce cnt sector sys.free_map_file sys

pub free_map_allocate-SameInodes :
    (bounce : Bool) (cnt : ℕ) (sys : FileSys)
    → Yields (λ r. SameInodes sys r.1) (free_map_allocate bounce cnt sys)
unfolding free_map_allocate
free_map_allocate-SameInodes bounce cnt sys =
    Yields-all (λ r. SameInodes sys r.1) (bitmap_scan_and_flip 0 cnt false sys.free_map) _
      (λ w.
        Yields-map (record_group bounce cnt w.0 (record sys { free_map = w.1 }))
          (λ r t. record { list = t.list; inodes = t.inodes })
          (record_group-SameInodes bounce cnt w.0 (record sys { free_map = w.1 })))

write_inode-SameInodes :
    (sector length : ℕ) (o : Option ℕ) (sys : FileSys)
    → Yields (λ r. SameInodes sys r.1) (write_inode sector length o sys)
unfolding write_inode
write_inode-SameInodes sector length none sys = record { list = refl; inodes = refl }
write_inode-SameInodes sector length (some start) sys =
    Yields-all (λ r. SameInodes sys r.1) (block_write sys.fs_device sector _) _
      (λ d.
        Yields-all (λ r. SameInodes sys r.1) (zero_sectors (bytes_to_sectors length) start 0 d) _
          (λ e. record { list = refl; inodes = refl }))

pub inode_create-SameInodes :
    (got bounce : Bool) (sector length : ℕ) (sys : FileSys)
    → Yields (λ r. SameInodes sys r.1) (inode_create got bounce sector length sys)
unfolding inode_create
inode_create-SameInodes false bounce sector length sys = record { list = refl; inodes = refl }
inode_create-SameInodes true bounce sector length sys =
    Yields->>= (λ r. SameInodes sys r.1) (λ r. SameInodes sys r.1)
      (free_map_allocate bounce (bytes_to_sectors length) sys) _
      (free_map_allocate-SameInodes bounce (bytes_to_sectors length) sys)
      (λ w t.
        Yields-map (write_inode sector length w.0 w.1) (λ r u. SameInodes-trans t u)
          (write_inode-SameInodes sector length w.0 w.1))
