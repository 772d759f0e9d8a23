-- ===== src/Files/Allocs.antt =====
-- filesys/free-map.c: free_map_allocate() and free_map_release().
use cs380l.Files.Disk.{is_foreign, shape}
use cs380l.Base.{
  ℕ, ◌+◌, ◌^◌, ◌≤◌, ◌<◌, ◌≡◌, inl, inr, refl, ap, ◌∙◌, Bool, true, false, ◌==◌, ltb, leb, ◌&&◌,
  ◌||◌, Option, none, some, ok, arith, Bool-cases, Option-cases,
}
use cs380l.Bitmap.State.{Bitmap, byte_cnt}
use cs380l.Bitmap.Words.{member}
use cs380l.Bitmap.Ranges.{bitmap_set_multiple-Filled}
use cs380l.Bitmap.Scan.{Flips, every-member, bitmap_scan_and_flip-Flips}
use cs380l.Files.Disk.{Device}
use cs380l.Files.Reads.{OnDevice}
use cs380l.Files.Totals.{inode_write_at_total}
use cs380l.Files.State.{File, FileSys, file_write_at, bitmap_write, map_bytes}
use cs380l.Files.FreeMap.{keep_group, record_group, free_map_allocate}

-- The device is not foreign, the map is not too long, and the data of its file are on the device.
pub record HasMap (sys : FileSys) : Type 0 where
  pub native : is_foreign sys.fs_device.block_type ≡ false
  pub small : sys.free_map.bit_cnt < 2 ^ 32
  pub file_on :
      (file : File) → sys.free_map_file ≡ some file → OnDevice sys.fs_device (sys.inodes file.inode)

-- All but the data on the device and the map is as before.
pub record SameRest (sys after : FileSys) : Type 0 where
  pub device : shape after.fs_device ≡ shape sys.fs_device
  pub length : after.free_map.bit_cnt ≡ sys.free_map.bit_cnt
  pub map_file : after.free_map_file ≡ sys.free_map_file
  pub list : after.open_inodes ≡ sys.open_inodes
  pub inodes : after.inodes ≡ sys.inodes

abbrev pub in_group : ℕ → ℕ → ℕ → Bool
in_group s cnt k = leb s k && ltb k (s + cnt)

pub bitmap_write_total :
    (bounce : Bool) (b : Bitmap) (file : File) (sys : FileSys)
    → OnDevice sys.fs_device (sys.inodes file.inode)
    → (written : Bool) × (d : Device) × (bitmap_write bounce b file sys
        ≡ ok (written, record sys { fs_device = d }))
      × (shape d ≡ shape sys.fs_device)
unfolding bitmap_write file_write_at
bitmap_write_total bounce b file sys on =
    let (r, run, same) =
      inode_write_at_total bounce sys.fs_device (sys.inodes file.inode) (map_bytes b)
        (byte_cnt b.bit_cnt) 0 on in
    (r.0 == byte_cnt b.bit_cnt, r.1, rw run refl, same)

-- What a call of free_map_allocate() that returned `r.0` leaves.
unfoldable pub Allocated : FileSys → ℕ → Option ℕ × FileSys → Type 0
Allocated sys cnt (none, after) =
    SameRest sys after × ((k : ℕ) → member k after.free_map ≡ member k sys.free_map)
Allocated sys cnt (some s, after) =
    SameRest sys after
    × (s + cnt ≤ sys.free_map.bit_cnt)
    × ((k : ℕ) → in_group s cnt k ≡ true → member k sys.free_map ≡ false)
    × ((k : ℕ) → member k after.free_map ≡ in_group s cnt k || member k sys.free_map)

-- The group that was found has been free.
found_free :
    (cnt s : ℕ) (b map : Bitmap)
    → Flips 0 cnt false b map (some s)
    → (s + cnt ≤ b.bit_cnt)
      × ((k : ℕ) → in_group s cnt k ≡ true → member k b ≡ false)
      × ((k : ℕ) → member k map ≡ in_group s cnt k || member k b)
found_free cnt s b map flips =
    let (_, inside, all, _) = flips.place 0 in
    let free = λ (k : ℕ) (p : in_group s cnt k ≡ true).
      every-member s cnt k false b all (ground arith) (ground arith) in
    (inside, free, λ k. ground (arith, flips.bit k, free k))

record_group-Allocated :
    (bounce : Bool) (cnt : ℕ) (sys : FileSys) (map : Bitmap) (r : Option ℕ)
    → HasMap sys
    → Flips 0 cnt false sys.free_map map r
    → (q : Option ℕ × FileSys) × (record_group bounce cnt r (record sys { free_map = map }) ≡ ok q)
      × Allocated sys cnt q
unfolding record_group Allocated keep_group
record_group-Allocated bounce cnt sys map none has flips = (
  (none, record sys { free_map = map }),
  refl,
  (
    record { device = refl; length = flips.size; map_file = refl; list = refl; inodes = refl },
    flips.bit,
  ),
)
record_group-Allocated bounce cnt sys map (some s) has flips =
    let (inside, free, bits) = found_free cnt s sys.free_map map flips in
    let found : FileSys = record sys { free_map = map } in
    elim (Option-cases sys.free_map_file) [
      | inl e ↦ (
        (some s, found),
        ap (λ o. keep_group bounce cnt s o found) e,
        (
          record {
            device = refl;
            length = flips.size;
            map_file = refl;
            list = refl;
            inodes = refl;
          },
          inside,
          free,
          bits,
        ),
      )
      | inr (file, e) ↦
          let (written, d, run, size) =
            bitmap_write_total bounce map file found (has.file_on file e) in
          elim (Bool-cases written) [
            | inl w ↦ (
              (some s, record found { fs_device = d }),
              ap (λ o. keep_group bounce cnt s o found) e ∙ rw (run, w) refl,
              (
                record {
                  device = size;
                  length = flips.size;
                  map_file = refl;
                  list = refl;
                  inodes = refl;
                },
                inside,
                free,
                bits,
              ),
            )
            | inr w ↦
                let (j, run2, fill) =
                  bitmap_set_multiple-Filled s cnt false map (omega (arith, flips.size))
                    (omega (arith, flips.size, has.small)) in
                (
                  (none, record found { fs_device = d; free_map = j }),
                  ap (λ o. keep_group bounce cnt s o found) e ∙ rw (run, w, run2) refl,
                  (
                    record {
                      device = size;
                      length = fill.size ∙ flips.size;
                      map_file = refl;
                      list = refl;
                      inodes = refl;
                    },
                    λ k. ground (arith, fill.bit k, bits k, free k),
                  ),
                )
          ]
    ]

-- When the device is not foreign, the map is not too long and the data of its file are on the device, free_map_allocate() returns. Either the sectors that it found were free and are marked now, or the map is as it was, also
-- when the map cannot be written to its file. Nothing else changes but the data on the device.
pub free_map_allocate-Allocated :
    (bounce : Bool) (cnt : ℕ) (sys : FileSys)
    → HasMap sys
    → (r : Option ℕ × FileSys) × (free_map_allocate bounce cnt sys ≡ ok r) × Allocated sys cnt r
unfolding free_map_allocate
free_map_allocate-Allocated bounce cnt sys has =
    let (r, map, run, flips) =
      bitmap_scan_and_flip-Flips 0 cnt false sys.free_map (omega arith) has.small in
    let (q, run2, done) = record_group-Allocated bounce cnt sys map r has flips in
    (q, rw run run2, done)
