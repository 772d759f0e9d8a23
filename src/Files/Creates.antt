-- ===== src/Files/Creates.antt =====
-- filesys/inode.c: inode_create(), and what inode_open() reads of a new inode.
use cs380l.Files.Disk.{is_foreign, shape}
use cs380l.Base.{
  ℕ, zero, suc, ◌+◌, ◌%◌, ◌^◌, ◌≤◌, ◌<◌, ◌≡◌, refl, ap, ◌∙◌, Bool, true, false, not, ◌==◌, ltb,
  ◌&&◌, if◌then◌else◌, Option, none, some, ok, arith,
}
use cs380l.Bitmap.Words.{member}
use cs380l.Files.Disk.{
  Buffer, Device, InodeDisk, block_sector_size, bytes_to_sectors, inode_magic, inode_bytes,
  inode_from, SameFields, inode_from-inode_bytes, block_write,
}
use cs380l.Files.Sectors.{zeros}
use cs380l.Files.Writes.{put, block_write_lem}
use cs380l.Files.State.{FileSys}
use cs380l.Files.FreeMap.{zero_sectors, write_inode, inode_create}
use cs380l.Files.Allocs.{HasMap, in_group, Allocated, free_map_allocate-Allocated}

zero_sectors-zeros :
    (n i start : ℕ) (d : Device)
    → is_foreign d.block_type ≡ false
    → start + i + n ≤ d.size
    → d.size < 2 ^ 32
    → (e : Device) × (zero_sectors n start i d ≡ ok e)
      × (shape e ≡ shape d)
      × ((s o : ℕ)
          → e.content s o
            ≡ (if in_group (start + i) n s && ltb o block_sector_size then 0 else d.content s o))
unfolding zero_sectors
zero_sectors-zeros zero i start d native p q = (d, refl, refl, λ s o. ground arith)
zero_sectors-zeros (suc n) i start d native p q =
    let w : (start + i) % 2 ^ 32 ≡ start + i = omega arith in
    let first = put d (start + i) zeros in
    let (e, run, same, bytes) = zero_sectors-zeros n (i + 1) start first native (omega arith) q in
    let step =
      ap (λ s. block_write d s zeros) w
      ∙ block_write_lem d (start + i) zeros native (omega arith) in
    (e, rw step run, same, λ s o. ground (arith, bytes s o))

abbrev pub new_inode_disk : ℕ → ℕ → InodeDisk
new_inode_disk start length = record {
  start = start;
  length = length;
  magic = inode_magic;
  is_symlink = false;
  unused = zeros;
}

-- Sector `sector` of the device holds an inode of that length, and its data are zeros on the device.
pub record Created (d : Device) (sector length : ℕ) : Type 0 where
  pub native : is_foreign d.block_type ≡ false
  pub start : ℕ
  pub same : SameFields (inode_from (d.content sector)) (new_inode_disk start length)
  pub inside : start + bytes_to_sectors length ≤ d.size
  pub clear :
      (s o : ℕ)
      → in_group start (bytes_to_sectors length) s ≡ true
      → o < block_sector_size
      → d.content s o ≡ 0

-- Only the first bytes matter.
inode_from-agree :
    (f g : Buffer)
    → ((o : ℕ) → o < block_sector_size → f o ≡ g o)
    → SameFields (inode_from f) (inode_from g)
unfolding inode_from
inode_from-agree f g same =
    let near = λ (o : ℕ) (p : o < block_sector_size). same o p in
    record {
      start = omega (
        arith,
        near 0 (omega arith),
        near 1 (omega arith),
        near 2 (omega arith),
        near 3 (omega arith),
      );
      length = omega (
        arith,
        near 4 (omega arith),
        near 5 (omega arith),
        near 6 (omega arith),
        near 7 (omega arith),
      );
      magic = omega (
        arith,
        near 8 (omega arith),
        near 9 (omega arith),
        near 10 (omega arith),
        near 11 (omega arith),
      );
      is_symlink = ap (λ b. not (b == 0)) (same 12 (omega arith));
    }

write_inode-Created :
    (sector length start : ℕ) (sys : FileSys)
    → is_foreign sys.fs_device.block_type ≡ false
    → sector < sys.fs_device.size
    → sys.fs_device.size < 2 ^ 32
    → length < 2 ^ 31
    → start + bytes_to_sectors length ≤ sys.fs_device.size
    → in_group start (bytes_to_sectors length) sector ≡ false
    → (d : Device) × (write_inode sector length (some start) sys
        ≡ ok (true, record sys { fs_device = d }))
      × (shape d ≡ shape sys.fs_device)
      × Created d sector length
unfolding write_inode
write_inode-Created sector length start sys native small word short inside apart =
    let disk = new_inode_disk start length in
    let first = put sys.fs_device sector (inode_bytes disk) in
    let (e, run, size, bytes) =
      zero_sectors-zeros (bytes_to_sectors length) 0 start first native (omega arith) word in
    let held : (o : ℕ) → o < block_sector_size → e.content sector o ≡ inode_bytes disk o =
      λ o p. ground (arith, bytes sector o) in
    let now = inode_from-agree (e.content sector) (inode_bytes disk) held in
    let back = inode_from-inode_bytes disk (omega arith) (omega arith) (omega arith) in
    (
      e,
      rw (block_write_lem sys.fs_device sector (inode_bytes disk) native small, run) refl,
      size,
      record {
        start = start;
        native = ap (λ x. is_foreign x.1) size ∙ native;
        inside = omega (arith, ap (λ x. x.0) size);
        clear = λ s o p q. ground (arith, bytes s o);
        same = record {
          start = now.start ∙ back.start;
          length = now.length ∙ back.length;
          magic = now.magic ∙ back.magic;
          is_symlink = now.is_symlink ∙ back.is_symlink;
        };
      },
    )

-- What a call of inode_create() that returned `r.0` leaves.
unfoldable pub Creates : FileSys → ℕ → ℕ → Bool × FileSys → Type 0
Creates sys sector length (false, after) = Unit
Creates sys sector length (true, after) =
    Created after.fs_device sector length
    × (shape after.fs_device ≡ shape sys.fs_device)
    × (after.open_inodes ≡ sys.open_inodes)
    × (after.inodes ≡ sys.inodes)

module _ (bounce : Bool) (sector length : ℕ) (sys : FileSys) (has : HasMap sys)
    (covered : sys.free_map.bit_cnt ≤ sys.fs_device.size) (word : sys.fs_device.size < 2 ^ 32)
    (small : sector < sys.fs_device.size) (marked : member sector sys.free_map ≡ true)
    (short : length < 2 ^ 31) where
  write_inode-Creates :
      (o : Option ℕ) (mid : FileSys)
      → Allocated sys (bytes_to_sectors length) (o, mid)
      → (r : Bool × FileSys) × (write_inode sector length o mid ≡ ok r)
        × Creates sys sector length r
  unfolding write_inode Allocated Creates
  write_inode-Creates none mid done = ((false, mid), refl, tt)
  write_inode-Creates (some start) mid (same, inside, free, bits) =
      let (d, run, size, made) =
        write_inode-Created sector length start mid
          (ap (λ x. is_foreign x.1) same.device ∙ has.native)
          (omega (arith, ap (λ x. x.0) same.device)) (omega (arith, ap (λ x. x.0) same.device))
          short (omega (arith, ap (λ x. x.0) same.device)) (ground (arith, free sector)) in
      (
        (true, record mid { fs_device = d }),
        run,
        (made, size ∙ same.device, same.list, same.inodes),
      )

  -- When the device is not foreign, the map is not too long and the data of its file are on the device, the map has no sector that is not on
  -- the device, `sector` is marked in it, the length fits and there is memory: inode_create() returns, and when it
  -- reports success, `sector` holds an inode of that length whose data are zeros.
  pub inode_create-Creates :
      (r : Bool × FileSys) × (inode_create true bounce sector length sys ≡ ok r)
      × Creates sys sector length r
  unfolding inode_create
  inode_create-Creates =
      let ((o, mid), run, done) =
        free_map_allocate-Allocated bounce (bytes_to_sectors length) sys has in
      let (r, run2, made) = write_inode-Creates o mid done in (r, rw run run2, made)
