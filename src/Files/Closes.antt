-- ===== src/Files/Closes.antt =====
-- filesys/inode.c: inode_close().
use cs380l.Base.{
  ℕ, ◌+◌, ◌-◌, ◌≤◌, ◌≡◌, ◌≢◌, inl, inr, refl, sym, ap, ◌∙◌, Bool, false, ◌==◌, if◌then◌else◌,
  Option, none, some, List, ◌++◌, ok, Yields, Yields->>=, Yields->>, Yields-all, Yields-map,
  Yields-if, assert, arith, Bool-cases,
}
use cs380l.Bitmap.State.{bitmap_all, bitmap_set_multiple, byte_cnt}
use cs380l.Files.Disk.{Buffer, Inode, bytes_to_sectors}
use cs380l.Files.Sectors.{inode_write_at}
use cs380l.Files.State.{
  File, FileSys, set_inode, keeps-set_inode, without, release_inode, inode_close, free_map_release,
  write_map, bitmap_write, file_write_at, map_bytes,
}
use cs380l.Files.Opens.{
  opens, denies, listed, IsShared, with_file, opens-with_file, denies-with_file, listed-without,
}

-- What the counters and the list are made of is the same.
pub record SameInodes (sys sys2 : FileSys) : Type 0 where
  pub list : sys2.open_inodes ≡ sys.open_inodes
  pub inodes : sys2.inodes ≡ sys.inodes

pub SameInodes-IsShared :
    (files : List File) (sys sys2 : FileSys)
    → SameInodes sys sys2
    → IsShared files sys
    → IsShared files sys2
SameInodes-IsShared files sys sys2 same s = record {
  in_list = λ a p. ap (listed a) same.list ∙ s.in_list a p;
  not_in_list = λ a p. ap (listed a) same.list ∙ s.not_in_list a p;
  open_cnt = λ a p. ap (λ i. (i a).open_cnt) same.inodes ∙ s.open_cnt a p;
  deny_cnt = λ a p. ap (λ i. (i a).deny_write_cnt) same.inodes ∙ s.deny_cnt a p;
  no_null = s.no_null;
  one_each = λ a b p q e.
      s.one_each a b p q
        (sym (ap (λ i. (i a).sector) same.inodes) ∙ e ∙ ap (λ i. (i b).sector) same.inodes);
}

pub file_write_at-SameInodes :
    (bounce : Bool) (file : File) (buffer : Buffer) (size file_ofs : ℕ) (sys : FileSys)
    → Yields (λ r. SameInodes sys r.1) (file_write_at bounce file buffer size file_ofs sys)
unfolding file_write_at
file_write_at-SameInodes bounce file buffer size file_ofs sys =
    Yields-all (λ r. SameInodes sys r.1)
      (inode_write_at bounce sys.fs_device (sys.inodes file.inode) buffer size file_ofs) _
      (λ w. record { list = refl; inodes = refl })

pub SameInodes-trans : {a b c : FileSys} → SameInodes a b → SameInodes b c → SameInodes a c
SameInodes-trans p q = record { list = q.list ∙ p.list; inodes = q.inodes ∙ p.inodes }

write_map-SameInodes :
    (bounce : Bool) (o : Option File) (sys : FileSys)
    → Yields (SameInodes sys) (write_map bounce o sys)
unfolding write_map bitmap_write
write_map-SameInodes bounce none sys = tt
write_map-SameInodes bounce (some file) sys =
    let bytes = map_bytes sys.free_map in
    let size = byte_cnt sys.free_map.bit_cnt in
    Yields->>= (λ r. SameInodes sys r.1) (SameInodes sys)
      (bitmap_write bounce sys.free_map file sys) _
      (Yields->>= (λ r. SameInodes sys r.1) (λ r. SameInodes sys r.1)
        (file_write_at bounce file bytes size 0 sys) _
        (file_write_at-SameInodes bounce file bytes size 0 sys) (λ w t. t))
      (λ r t. t)

pub free_map_release-SameInodes :
    (bounce : Bool) (sector cnt : ℕ) (sys : FileSys)
    → Yields (SameInodes sys) (free_map_release bounce sector cnt sys)
unfolding free_map_release
free_map_release-SameInodes bounce sector cnt sys =
    Yields-all (SameInodes sys) (bitmap_all sector cnt sys.free_map) _ (λ held.
      Yields->> (SameInodes sys) (assert held) _ (
        Yields-all (SameInodes sys) (bitmap_set_multiple sector cnt false sys.free_map) _ (λ map.
          Yields-map (write_map bounce sys.free_map_file (record sys { free_map = map }))
            (λ r t. record { list = t.list; inodes = t.inodes })
            (write_map-SameInodes bounce sys.free_map_file (record sys { free_map = map })))))

release_inode-SameInodes :
    (bounce : Bool) (i : Inode) (sys : FileSys)
    → Yields (SameInodes sys) (release_inode bounce i sys)
unfolding release_inode
release_inode-SameInodes bounce i sys =
    Yields->>= (SameInodes sys) (SameInodes sys) (free_map_release bounce i.sector 1 sys) _
      (free_map_release-SameInodes bounce i.sector 1 sys)
      (λ after t.
        Yields-map
          (free_map_release bounce i.inode_disk.start (bytes_to_sectors i.inode_disk.length) after)
          (λ r u. SameInodes-trans t u)
          (free_map_release-SameInodes bounce i.inode_disk.start
            (bytes_to_sectors i.inode_disk.length) after))

module _ (pre : List File) (f : File) (post : List File) (sys : FileSys)
    (s : IsShared (with_file pre f post) sys) (no_deny : f.deny_write ≡ false) where
  abbrev closed : Inode
  closed = record (sys.inodes f.inode) { open_cnt = (sys.inodes f.inode).open_cnt - 1 }

  others :
      (b : ℕ)
      → (opens b (pre ++ post) ≤ opens b (with_file pre f post))
        × (denies b (with_file pre f post) ≡ denies b (pre ++ post))
        × (opens b (with_file pre f post) ≡ (if f.inode == b then 1 else 0) + opens b (pre ++ post))
  others b =
      let o = opens-with_file b pre f post in
      let d = denies-with_file b pre f post in (omega arith, ground arith, o)

  one_each_closed :
      (sys2 : FileSys)
      → ((b : ℕ) → (sys2.inodes b).sector ≡ (sys.inodes b).sector)
      → (b c : ℕ) → 1 ≤ opens b (pre ++ post)
      → 1 ≤ opens c (pre ++ post)
      → (sys2.inodes b).sector ≡ (sys2.inodes c).sector
      → b ≡ c
  one_each_closed sys2 same b c p q e =
      s.one_each b c (omega (arith, (others b).0)) (omega (arith, (others c).0))
        (sym (same b) ∙ e ∙ same c)

  -- Others have the inode open.
  open-IsShared :
      (sys.inodes f.inode).open_cnt ≢ 1 → IsShared (pre ++ post) (set_inode f.inode closed sys)
  open-IsShared more = record {
    in_list = λ b p. s.in_list b (omega (arith, (others b).0));
    not_in_list = λ b p. ground (arith, others b, s.not_in_list b, s.open_cnt b);
    open_cnt = λ b p. ground (arith, others b, s.open_cnt b, s.open_cnt f.inode, others f.inode);
    deny_cnt = λ b p. ground (arith, others b, s.deny_cnt b, s.deny_cnt f.inode, others f.inode);
    no_null = omega (arith, (others 0).0, s.no_null);
    one_each =
        one_each_closed (set_inode f.inode closed sys)
          (λ b. keeps-set_inode (λ x. x.sector) f.inode b closed sys refl);
  }

  -- No one else has it open.
  last-IsShared :
      (sys.inodes f.inode).open_cnt ≡ 1
      → IsShared
          (pre ++ post)
          (record (set_inode f.inode closed sys) { open_inodes = without f.inode sys.open_inodes })
  last-IsShared only =
      let gone : opens f.inode (pre ++ post) ≡ 0 =
        ground (arith, s.open_cnt f.inode, others f.inode) in
      let apart = λ (b : ℕ) (p : 1 ≤ opens b (pre ++ post)). distinct b gone p in
      record {
        in_list = λ b p.
            ground
              (arith, listed-without b f.inode sys.open_inodes, s.in_list b, others b, apart b p);
        not_in_list = λ b p. elim (Bool-cases (f.inode == b)) [
          | inl z ↦
              let e : f.inode ≡ b = ground arith in
              ground (arith, listed-without b f.inode sys.open_inodes, s.in_list b, others b)
          | inr n ↦
              ground (arith, listed-without b f.inode sys.open_inodes, s.not_in_list b, others b)
        ];
        open_cnt = λ b p. ground (arith, others b, s.open_cnt b, apart b p);
        deny_cnt = λ b p. ground (arith, others b, s.deny_cnt b, apart b p);
        no_null = omega (arith, (others 0).0, s.no_null);
        one_each =
            one_each_closed (set_inode f.inode closed sys)
              (λ b. keeps-set_inode (λ x. x.sector) f.inode b closed sys refl);
      }
    where
      distinct :
          (b : ℕ)
          → opens f.inode (pre ++ post) ≡ 0
          → 1 ≤ opens b (pre ++ post)
          → (f.inode == b) ≡ false
      distinct b gone p = elim (Bool-cases (f.inode == b)) [
        | inl z ↦
            let e : f.inode ≡ b = ground arith in
            absurd (omega (arith, ap (λ x. opens x (pre ++ post)) e))
        | inr n ↦ n
      ]

  -- inode_close() for one of the open files, which does not deny writes: if it returns, the counters agree with the
  -- other files.
  pub inode_close-IsShared :
      (bounce : Bool) → Yields (IsShared (pre ++ post)) (inode_close bounce f.inode sys)
  unfolding inode_close
  inode_close-IsShared bounce =
      let i = sys.inodes f.inode in
      let last = record (set_inode f.inode closed sys) {
        open_inodes = without f.inode sys.open_inodes;
      } in
      elim (Bool-cases (f.inode == 0)) [
        | inl z ↦
            let e : f.inode ≡ 0 = ground arith in
            absurd (omega (arith, ap (λ x. opens x (with_file pre f post)) e, s.no_null, is_open))
        | inr nz ↦ elim (Bool-cases (i.open_cnt == 1)) [
          | inr more ↦ rw (nz, more) (open-IsShared (λ e. ground arith))
          | inl only ↦
              let sh = last-IsShared (ground arith) in
              rw (nz, only)
                (Yields-if (IsShared (pre ++ post)) i.removed (release_inode bounce i last)
                  (ok last)
                  (Yields-map (release_inode bounce i last)
                    (λ r t. SameInodes-IsShared (pre ++ post) last r t sh)
                    (release_inode-SameInodes bounce i last))
                  sh)
        ]
      ]
    where
      is_open : 1 ≤ opens f.inode (with_file pre f post)
      is_open = ground (arith, opens-with_file f.inode pre f post)
