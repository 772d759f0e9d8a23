-- ===== src/Files/Releases.antt =====
-- filesys/free-map.c: free_map_release(), also after free_map_allocate().
use mathlib.Core.Path.{subst}
use cs380l.Files.Disk.{is_foreign}
use cs380l.Base.{
  ℕ, zero, suc, ◌+◌, ◌≤◌, ◌≡◌, refl, sym, ap, ◌∙◌, Bool, true, false, not, ◌&&◌, Option, some, ok,
  arith,
}
use cs380l.Bitmap.State.{Bitmap}
use cs380l.Bitmap.Words.{member}
use cs380l.Bitmap.Ranges.{range, bitmap_set_multiple-Filled}
use cs380l.Bitmap.Scan.{group, bitmap_all-group}
use cs380l.Files.Reads.{OnDevice}
use cs380l.Files.Writes.{OnDevice-Written}
use cs380l.Files.State.{File, FileSys, bitmap_write, write_map, free_map_release}
use cs380l.Files.FreeMap.{free_map_allocate}
use cs380l.Files.Allocs.{
  HasMap, SameRest, in_group, bitmap_write_total, Allocated, free_map_allocate-Allocated,
}

group-member :
    (n start : ℕ) (b : Bitmap)
    → ((k : ℕ) → in_group start n k ≡ true → member k b ≡ true)
    → group start n true b ≡ true
unfolding range
group-member zero start b held = refl
group-member (suc n) start b held =
    let here = held start (ground arith) in
    let rest = group-member n (suc start) b (λ k p. held k (ground arith)) in ground arith

write_some :
    (bounce written : Bool) (file : File) (sys after : FileSys)
    → bitmap_write bounce sys.free_map file sys ≡ ok (written, after)
    → write_map bounce (some file) sys ≡ ok after
unfolding write_map
write_some bounce written file sys after run = rw run refl

-- When the device is not foreign, the map is not too long, its file is open and its data are on the device, and all sectors of the group are marked:
-- free_map_release() returns, clears their marks and no others, and changes nothing else but the data on the device.
pub free_map_release-frees :
    (bounce : Bool) (sector cnt : ℕ) (sys : FileSys) (file : File)
    → HasMap sys
    → sys.free_map_file ≡ some file
    → sector + cnt ≤ sys.free_map.bit_cnt
    → ((k : ℕ) → in_group sector cnt k ≡ true → member k sys.free_map ≡ true)
    → (after : FileSys) × (free_map_release bounce sector cnt sys ≡ ok after)
      × SameRest sys after
      × ((k : ℕ) → member k after.free_map ≡ not (in_group sector cnt k) && member k sys.free_map)
unfolding free_map_release
free_map_release-frees bounce sector cnt sys file has e inside held =
    let all = group-member cnt sector sys.free_map held in
    let test = bitmap_all-group sector cnt sys.free_map inside has.small in
    let (map, run, fill) =
      bitmap_set_multiple-Filled sector cnt false sys.free_map inside has.small in
    let found : FileSys = record sys { free_map = map } in
    let (written, d, run2, size) = bitmap_write_total bounce map file found (has.file_on file e) in
    (
      record sys { free_map = map; fs_device = d },
      rw (test, all, run)
          (ap (λ o. write_map bounce o found) e
            ∙ write_some bounce written file found (record found { fs_device = d }) run2),
      record { device = size; length = fill.size; map_file = refl; list = refl; inodes = refl },
      λ k. ground (arith, fill.bit k),
    )

HasMap-SameRest : (sys after : FileSys) → SameRest sys after → HasMap sys → HasMap after
HasMap-SameRest sys after same has = record {
  native = ap (λ x. is_foreign x.1) same.device ∙ has.native;
  small = omega (arith, same.length, has.small);
  file_on = λ file e.
      let on = has.file_on file (sym same.map_file ∙ e) in
      let on2 =
        OnDevice-Written sys.fs_device after.fs_device (sys.inodes file.inode) same.device on in
      subst (λ i. OnDevice after.fs_device (i file.inode)) (sym same.inodes) on2;
}

-- When the device is not foreign, the map is not too long, its file is open and its data are on the device: free_map_release() of the sectors that free_map_allocate() has
-- given out leaves each sector as it was marked before.
pub free_map_release-free_map_allocate :
    (bounce bounce2 : Bool) (cnt : ℕ) (sys : FileSys) (file : File)
    → HasMap sys
    → sys.free_map_file ≡ some file
    → (r : Option ℕ × FileSys) × (free_map_allocate bounce cnt sys ≡ ok r)
      × ((s : ℕ)
          → r.0 ≡ some s
          → (after : FileSys) × (free_map_release bounce2 s cnt r.1 ≡ ok after)
            × ((k : ℕ) → member k after.free_map ≡ member k sys.free_map))
unfolding Allocated
free_map_release-free_map_allocate bounce bounce2 cnt sys file has open_file =
    let ((o, mid), run, done) = free_map_allocate-Allocated bounce cnt sys has in
    ((o, mid), run, λ s e. released s mid (subst (λ x. Allocated sys cnt (x, mid)) e done))
  where
    released :
        (s : ℕ) (mid : FileSys)
        → Allocated sys cnt (some s, mid)
        → (after : FileSys) × (free_map_release bounce2 s cnt mid ≡ ok after)
          × ((k : ℕ) → member k after.free_map ≡ member k sys.free_map)
    released s mid (same, inside, free, bits) =
        let (after, run, _, cleared) =
          free_map_release-frees bounce2 s cnt mid file (HasMap-SameRest sys mid same has)
            (same.map_file ∙ open_file) (omega (arith, same.length))
            (λ k p. ground (arith, bits k)) in
        (after, run, λ k. ground (arith, cleared k, bits k, free k))
