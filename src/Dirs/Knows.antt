-- ===== src/Dirs/Knows.antt =====
-- filesys/directory.c: the names that a directory knows.
use cs380l.Base.{
  ℕ, ◌+◌, ◌-◌, ◌*◌, ◌≤◌, ◌<◌, ◌≡◌, refl, ap, ◌∙◌, Bool, true, false, not, ◌==◌, ltb, leb, ◌&&◌,
  Option, none, some, List, length, ok, arith,
}
use cs380l.Files.Disk.{Buffer, Device, Inode}
use cs380l.Files.Reads.{OnDevice}
use cs380l.Files.Writes.{Written}
use cs380l.Files.RoundTrips.{byte_at-Written}
use cs380l.Files.State.{FileSys}
use cs380l.Dirs.State.{Dir, entry_size, name_max, in_use, is_name, name_of, inode_sector, lookup}
use cs380l.Dirs.Names.{is_name-agree}
use cs380l.Dirs.Search.{
  entry, entries, matches, search, Located, search-some, search-agree, lookup_from-search,
}

abbrev pub sector_in : Device → Inode → Option ℕ → Option ℕ
sector_in d inode none = none
sector_in d inode (some j) = some (inode_sector (entry d inode j))

-- The sector that a directory holds for a name.
abbrev pub sector_of : FileSys → Dir → List ℕ → Option ℕ
sector_of sys dir q =
    let d = sys.fs_device in
    let inode = sys.inodes dir.inode in
    sector_in d inode (search (entries inode) 0 (matches d inode q))

abbrev pub is_free : Device → Inode → ℕ → Bool
is_free d inode i = not (in_use (entry d inode i))

abbrev pub found : Option ℕ → Bool
found none = false
found (some j) = true

-- The sector in what a lookup returns.
abbrev pub sector_at : Option (Buffer × ℕ) → Option ℕ
sector_at none = none
sector_at (some x) = some (inode_sector x.0)

pub match-agree :
    (q : List ℕ) (a b : Buffer)
    → length q ≤ name_max
    → ((k : ℕ) → k < entry_size → a k ≡ b k)
    → (in_use a && is_name q (name_of a)) ≡ (in_use b && is_name q (name_of b))
match-agree q a b short same =
    let used : in_use a ≡ in_use b = ap (λ x. not (x == 0)) (same 19 (omega arith)) in
    let named = is_name-agree q (name_of a) (name_of b) (λ k h. same (k + 4) (omega arith)) in
    ap (λ x. x && is_name q (name_of a)) used ∙ ap (λ x. in_use b && x) named

pub inode_sector-agree :
    (a b : Buffer) → ((k : ℕ) → k < entry_size → a k ≡ b k) → inode_sector a ≡ inode_sector b
inode_sector-agree a b same =
    ground (
      arith,
      same 0 (omega arith),
      same 1 (omega arith),
      same 2 (omega arith),
      same 3 (omega arith),
    )

Located-sector_in :
    (d : Device) (inode : Inode) (r : Option (Buffer × ℕ)) (s : Option ℕ)
    → Located d inode r s
    → sector_at r ≡ sector_in d inode s
Located-sector_in d inode none none at = refl
Located-sector_in d inode none (some j) at = cc
Located-sector_in d inode (some x) none at = cc
Located-sector_in d inode (some x) (some j) at =
    ap some (inode_sector-agree x.0 (entry d inode j) at.1)

-- When the directory lies on the device, which is not foreign, there is memory and the name is not too long: lookup() returns,
-- and it finds the sector that the directory holds for the name.
pub lookup-sector_of :
    (limit : ℕ) (sys : FileSys) (dir : Dir) (name : List ℕ) (e : Buffer)
    → OnDevice sys.fs_device (sys.inodes dir.inode)
    → length name ≤ name_max
    → entries (sys.inodes dir.inode) < limit
    → (r : Option (Buffer × ℕ)) × (lookup limit true sys dir name e ≡ ok r)
      × (sector_at r ≡ sector_of sys dir name)
unfolding lookup
lookup-sector_of limit sys dir name e on short fuel =
    let d = sys.fs_device in
    let inode = sys.inodes dir.inode in
    let (r, run, at) =
      lookup_from-search sys dir on (entries inode) 0 limit name e (omega arith) fuel short in
    (r, run, Located-sector_in d inode r (search (entries inode) 0 (matches d inode name)) at)

-- An entry after a write to another one.
module _ (d e : Device) (inode : Inode) (buffer : Buffer) (m j : ℕ)
    (w : Written d e inode buffer 0 m (j * entry_size)) where
  pub entry_other :
      (i k : ℕ)
      → m ≤ entry_size
      → (j == i) ≡ false
      → k < entry_size
      → entry e inode i k ≡ entry d inode i k
  entry_other i k small other h =
      let byte = byte_at-Written d e inode buffer m (j * entry_size) (i * entry_size + k) w in
      let outside : (leb (j * entry_size) (i * entry_size + k)
            && ltb (i * entry_size + k) (j * entry_size + m))
          ≡ false =
        ground arith in
      byte ∙ rw outside refl

  pub entry_here : (k : ℕ) → m ≡ entry_size → k < entry_size → entry e inode j k ≡ buffer k
  entry_here k whole h =
      let byte = byte_at-Written d e inode buffer m (j * entry_size) (j * entry_size + k) w in
      let inside : (leb (j * entry_size) (j * entry_size + k)
            && ltb (j * entry_size + k) (j * entry_size + m))
          ≡ true =
        ground arith in
      let back : j * entry_size + k - j * entry_size ≡ k = omega arith in
      byte ∙ rw inside (ap buffer back)

-- Two devices whose entries agree where the test passes know the same sector.
pub sector_in-agree :
    (d e : Device) (inode : Inode) (q : List ℕ)
    → ((i : ℕ) → i < entries inode → matches e inode q i ≡ matches d inode q i)
    → ((i : ℕ)
        → i < entries inode
        → matches d inode q i ≡ true
        → inode_sector (entry e inode i) ≡ inode_sector (entry d inode i))
    → sector_in e inode (search (entries inode) 0 (matches e inode q))
      ≡ sector_in d inode (search (entries inode) 0 (matches d inode q))
sector_in-agree d e inode q same sectors =
    let tests =
      search-agree (entries inode) 0 (matches e inode q) (matches d inode q)
        (λ k p h. same k (omega arith)) in
    ap (sector_in e inode) tests
    ∙ at (search (entries inode) 0 (matches d inode q))
        (λ j found. search-some (entries inode) 0 (matches d inode q) j found)
  where
    at :
        (s : Option ℕ)
        → ((j : ℕ) → s ≡ some j → (0 ≤ j) × (j < 0 + entries inode) × (matches d inode q j ≡ true))
        → sector_in e inode s ≡ sector_in d inode s
    at none known = refl
    at (some j) known = let (p, h, hit) = known j refl in ap some (sectors j (omega arith) hit)
