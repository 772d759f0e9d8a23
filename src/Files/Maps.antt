-- ===== src/Files/Maps.antt =====
-- filesys/free-map.c: the calls that open and close the file of the map.
use mathlib.Core.Path.{subst}
use cs380l.Base.{
  ℕ, ◌≡◌, refl, sym, Bool, true, false, Option, none, some, List, Yields, Yields->>=, Yields->>,
  Yields-all, Yields-both, ok, assert,
}
use cs380l.Bitmap.State.{Bitmap, bitmap_set_all, byte_cnt}
use cs380l.Files.State.{File, FileSys, file_write_at, map_bytes, bitmap_write, inode_open}
use cs380l.Files.Handles.{file_open}
use cs380l.Files.Sectors.{inode_write_at}
use cs380l.Files.FreeMap.{
  free_map_sector, free_map_init, bitmap_read, with_map_file, load_map, free_map_open, inode_create,
  store_map, free_map_create,
}
use cs380l.Files.Opens.{opens, IsShared}
use cs380l.Files.Closes.{SameInodes, SameInodes-IsShared}
use cs380l.Files.Calls.{added}
use cs380l.Files.Openers.{Opened, inode_open-Opened, file_open-Opened}
use cs380l.Files.Elsewhere.{bitmap_write-SameInodes, inode_create-SameInodes}

pub free_map_init-SameInodes :
    (got : Bool) (garbage : ℕ → ℕ) (sys : FileSys)
    → Yields (SameInodes sys) (free_map_init got garbage sys)
unfolding free_map_init
free_map_init-SameInodes false garbage sys = tt
free_map_init-SameInodes true garbage sys =
    Yields-all (SameInodes sys)
      (bitmap_set_all false (record { bit_cnt = sys.fs_device.size; bits = garbage })) _
      (λ map. record { list = refl; inodes = refl })

-- The file of the map, if there is one, is one more of the open files.
abbrev pub Mapped : List File → FileSys → Type 0
Mapped files sys = IsShared (added sys.free_map_file files) sys

load_map-Mapped :
    (bounce : Bool) (files : List File) (o : Option File) (sys : FileSys)
    → IsShared (added o files) sys
    → Yields (Mapped files) (load_map bounce o sys)
unfolding load_map
load_map-Mapped bounce files none sys s = tt
load_map-Mapped bounce files (some file) sys s =
    Yields-all (Mapped files) (bitmap_read bounce sys.free_map file sys) _ (λ r.
      Yields->> (Mapped files) (assert r.0) _ (
        SameInodes-IsShared (added (some file) files) sys
          (record (with_map_file (some file) sys) { free_map = r.1 })
          (record { list = refl; inodes = refl }) s))

bitmap_write-free_map_file :
    (bounce : Bool) (b : Bitmap) (file : File) (sys : FileSys)
    → Yields (λ r. r.1.free_map_file ≡ sys.free_map_file) (bitmap_write bounce b file sys)
unfolding bitmap_write file_write_at
bitmap_write-free_map_file bounce b file sys =
    Yields->>= (λ r. r.1.free_map_file ≡ sys.free_map_file)
      (λ r. r.1.free_map_file ≡ sys.free_map_file)
      (file_write_at bounce file (map_bytes b) (byte_cnt b.bit_cnt) 0 sys) _
      (Yields-all (λ r. r.1.free_map_file ≡ sys.free_map_file)
        (inode_write_at bounce sys.fs_device (sys.inodes file.inode) (map_bytes b)
          (byte_cnt b.bit_cnt) 0)
        _ (λ w. refl))
      (λ w e. e)

store_map-Mapped :
    (bounce : Bool) (files : List File) (o : Option File) (sys : FileSys)
    → IsShared (added o files) sys
    → Yields (Mapped files) (store_map bounce o sys)
unfolding store_map
store_map-Mapped bounce files none sys s = tt
store_map-Mapped bounce files (some file) sys s =
    let named = with_map_file (some file) sys in
    Yields->>= (λ r. SameInodes named r.1 × (r.1.free_map_file ≡ some file)) (Mapped files)
      (bitmap_write bounce sys.free_map file named) _
      (Yields-both (λ r. SameInodes named r.1) (λ r. r.1.free_map_file ≡ some file)
        (bitmap_write bounce sys.free_map file named)
        (bitmap_write-SameInodes bounce sys.free_map file named)
        (bitmap_write-free_map_file bounce sys.free_map file named))
      (λ r t. Yields->> (Mapped files) (assert r.0) (ok r.1) (
        subst (λ o. IsShared (added o files) r.1) (sym t.1)
          (SameInodes-IsShared (added (some file) files) sys r.1
            (record { list = t.0.list; inodes = t.0.inodes }) s)))

module _ (got bounce : Bool) (files : List File) (fresh : ℕ) (unused : opens fresh files ≡ 0) where
  pub free_map_open-Mapped :
      (sys : FileSys)
      → IsShared files sys
      → Yields (Mapped files) (free_map_open got bounce fresh sys)
  unfolding free_map_open
  free_map_open-Mapped sys s =
      Yields->>= (Opened files) (Mapped files) (inode_open fresh free_map_sector sys) _
        (inode_open-Opened files sys fresh free_map_sector s unused)
        (λ r t.
          Yields->>= (λ q. IsShared (added q.0 files) q.1) (Mapped files)
            (file_open got bounce r.0 r.1) _ (file_open-Opened files got bounce r.0 r.1 t)
            (λ q. load_map-Mapped bounce files q.0 q.1))

  pub free_map_create-Mapped :
      (memory : Bool) (sys : FileSys)
      → IsShared files sys
      → Yields (Mapped files) (free_map_create memory got bounce fresh sys)
  unfolding free_map_create
  free_map_create-Mapped memory sys s =
      Yields->>= (λ r. SameInodes sys r.1) (Mapped files)
        (inode_create memory bounce free_map_sector (byte_cnt sys.free_map.bit_cnt) sys) _
        (inode_create-SameInodes memory bounce free_map_sector (byte_cnt sys.free_map.bit_cnt) sys)
        (λ made same. Yields->> (Mapped files) (assert made.0) _ (
          Yields->>= (Opened files) (Mapped files) (inode_open fresh free_map_sector made.1) _
            (inode_open-Opened files made.1 fresh free_map_sector
              (SameInodes-IsShared files sys made.1 same s) unused)
            (λ r t.
              Yields->>= (λ q. IsShared (added q.0 files) q.1) (Mapped files)
                (file_open got bounce r.0 r.1) _ (file_open-Opened files got bounce r.0 r.1 t)
                (λ q. store_map-Mapped bounce files q.0 q.1))))
