-- ===== src/Dirs/Adds.antt =====
-- filesys/directory.c: dir_add().
use mathlib.Core.Path.{subst}
use Prim.Native.Nat.{◌^◌}
use cs380l.Base.{
  ℕ, ◌*◌, ◌≤◌, ◌<◌, ◌≡◌, refl, ap, ◌∙◌, Bool, true, false, not, ◌==◌, ltb, ◌&&◌, ◌||◌,
  if◌then◌else◌, Option, none, some, List, length, ok, arith,
}
use cs380l.Files.Disk.{Buffer, Device, Inode}
use cs380l.Files.Reads.{OnDevice, reach}
use cs380l.Files.Writes.{Written, inode_write_at-Written}
use cs380l.Files.State.{FileSys}
use cs380l.Dirs.State.{Dir, entry_size, name_max, filled_entry, write_entry, lookup, dir_add}
use cs380l.Dirs.Names.{clean, same_name}
use cs380l.Dirs.Search.{
  entry, entries, matches, search, slot_at, Located, search-some, lookup_from-search,
  slot_from-search,
}
use cs380l.Dirs.Knows.{
  sector_of, is_free, found, match-agree, inode_sector-agree, entry_other, sector_in-agree,
}
use cs380l.Dirs.Filled.{sector_in_added}

-- What dir_add() leaves behind: the directory with the name, or as it was.
abbrev pub Added : FileSys → Dir → List ℕ → ℕ → Bool × FileSys → Type 0
Added sys dir name sector r =
    let d = sys.fs_device in
    let inode = sys.inodes dir.inode in
    ((q : List ℕ)
      → clean q ≡ true
      → length q ≤ name_max
      → sector_of r.1 dir q
        ≡ (if r.0 && same_name q name then some sector else sector_of sys dir q))
    × (r.0 ≡ (
        not (found (sector_of sys dir name)) && found (search (entries inode) 0 (is_free d inode))))

module _ (limit : ℕ) (sys : FileSys) (dir : Dir) (name : List ℕ) (sector : ℕ) (e : Buffer)
    (on : OnDevice sys.fs_device (sys.inodes dir.inode))
    (allowed : (sys.inodes dir.inode).deny_write_cnt ≡ 0) (cn : clean name ≡ true)
    (some_char : 0 < length name) (short : length name ≤ name_max) (word : sector < 2 ^ 32)
    (fuel : entries (sys.inodes dir.inode) < limit) where
  abbrev d : Device
  d = sys.fs_device

  abbrev inode : Inode
  inode = sys.inodes dir.inode

  valid_name : (length name == 0 || ltb name_max (length name)) ≡ false
  valid_name = ground arith

  -- The write to the slot that the loop has found.
  write_slot :
      (slot : Buffer) (s : Option ℕ)
      → search (entries inode) 0 (is_free d inode) ≡ s
      → search (entries inode) 0 (matches d inode name) ≡ none
      → (r : Bool × FileSys) × (write_entry true sys dir
            (filled_entry slot name sector)
            (slot_at (entries inode) s * entry_size)
          ≡ ok r)
        × ((q : List ℕ)
            → clean q ≡ true
            → length q ≤ name_max
            → sector_of r.1 dir q
              ≡ (if r.0 && same_name q name then some sector else sector_of sys dir q))
        × (r.0 ≡ found s)
  unfolding write_entry
  write_slot slot none at absent =
      let full = filled_entry slot name sector in
      let n = entries inode in
      let (f, run, w) =
        inode_write_at-Written d inode full entry_size (n * entry_size) on allowed in
      let part : (reach inode entry_size (n * entry_size) == entry_size) ≡ false = ground arith in
      let small : reach inode entry_size (n * entry_size) ≤ entry_size = ground arith in
      let same = λ (i : ℕ) (k : ℕ) (h : i < n) (b : k < entry_size).
        entry_other d f inode full (reach inode entry_size (n * entry_size)) n w i k small
          (ground arith) b in
      (
        (false, record sys { fs_device = f }),
        rw (run, part) refl,
        λ q cq sq.
            sector_in-agree d f inode q
              (λ i h. match-agree q (entry f inode i) (entry d inode i) sq (λ k b. same i k h b))
              (λ i h hit.
                inode_sector-agree (entry f inode i) (entry d inode i) (λ k b. same i k h b)),
        refl,
      )
  write_slot slot (some j) at absent =
      let full = filled_entry slot name sector in
      let (p, h, free) = search-some (entries inode) 0 (is_free d inode) j at in
      let inside : j < entries inode = omega arith in
      let (f, run, w) =
        inode_write_at-Written d inode full entry_size (j * entry_size) on allowed in
      let whole : reach inode entry_size (j * entry_size) ≡ entry_size = ground arith in
      let w2 : Written d f inode full 0 entry_size (j * entry_size) =
        subst (λ m. Written d f inode full 0 m (j * entry_size)) whole w in
      (
        (true, record sys { fs_device = f }),
        rw run (ap (λ n. ok (n == entry_size, record sys { fs_device = f })) whole),
        λ q cq sq.
            sector_in_added d f inode slot name sector j w2 inside free cn short word q cq sq
              absent,
        refl,
      )

  dir_add_from :
      (r : Option (Buffer × ℕ)) (s : Option ℕ)
      → lookup limit true sys dir name e ≡ ok r
      → search (entries inode) 0 (matches d inode name) ≡ s
      → Located d inode r s
      → (res : Bool × FileSys) × (dir_add limit true sys dir name sector e ≡ ok res)
        × Added sys dir name sector res
  unfolding dir_add
  dir_add_from none (some j) run known at = cc
  dir_add_from (some x) none run known at = cc
  dir_add_from (some x) (some j) run known at =
      ((false, sys), rw (valid_name, run) refl, (λ q cq sq. refl, rw known refl))
  dir_add_from none none run known at =
      let (x, loop, place) =
        slot_from-search sys dir on (entries inode) 0 limit e (omega arith) fuel in
      let (r, write, names, done) =
        write_slot x.0 (search (entries inode) 0 (is_free d inode)) refl known in
      let write2 = ap (write_entry true sys dir (filled_entry x.0 name sector)) place ∙ write in
      (r, rw (valid_name, run, loop) write2, (names, rw known done))

  -- When the directory lies on the device, which is not foreign, no one denies writes to it, there is memory and the name has 1 to 14
  -- characters that are not null: dir_add() succeeds exactly when the directory does not hold the name and has a
  -- free entry. Then the name stands for the new sector and every other name for what it stood for before; when
  -- dir_add() fails, all names stand for what they stood for before.
  pub dir_add-sector_of :
      (r : Bool × FileSys) × (dir_add limit true sys dir name sector e ≡ ok r)
      × Added sys dir name sector r
  unfolding lookup
  dir_add-sector_of =
      let (r, run, at) =
        lookup_from-search sys dir on (entries inode) 0 limit name e (omega arith) fuel short in
      dir_add_from r (search (entries inode) 0 (matches d inode name)) run refl at
