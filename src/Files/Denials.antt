-- ===== src/Files/Denials.antt =====
-- filesys/file.c: file_deny_write() and file_allow_write().
use cs380l.Base.{
  ℕ, ◌+◌, ◌-◌, ◌≤◌, ◌≡◌, inl, inr, refl, sym, ap, ◌∙◌, Bool, true, false, ◌==◌, ltb, leb, List,
  ◌++◌, ok, arith, Bool-cases,
}
use cs380l.Files.Disk.{Buffer}
use cs380l.Files.Sectors.{inode_write_at}
use cs380l.Files.State.{
  File, FileSys, set_inode, keeps-set_inode, inode_deny_write, inode_allow_write, file_write_at,
}
use cs380l.Files.Handles.{file_deny_write, file_allow_write, file_write}
use cs380l.Files.Opens.{
  opens, denies, listed, IsShared, with_file, opens-with_file, denies-with_file, denies-le-opens,
}

-- Only the counters of denials differ.
module _ {files files2 : List File} {sys sys2 : FileSys} (s : IsShared files sys)
    (same : (a : ℕ) → opens a files2 ≡ opens a files)
    (same_list : sys2.open_inodes ≡ sys.open_inodes)
    (same_cnt : (a : ℕ) → (sys2.inodes a).open_cnt ≡ (sys.inodes a).open_cnt)
    (same_sector : (a : ℕ) → (sys2.inodes a).sector ≡ (sys.inodes a).sector)
    (deny_cnt : (a : ℕ)
      → 1 ≤ opens a files
      → (sys2.inodes a).deny_write_cnt ≡ denies a files2) where
  pub redeny : IsShared files2 sys2
  redeny = record {
    in_list = λ a p. ap (listed a) same_list ∙ s.in_list a (omega (arith, same a));
    not_in_list = λ a p. ap (listed a) same_list ∙ s.not_in_list a (omega (arith, same a));
    open_cnt = λ a p. omega (arith, same_cnt a, same a, s.open_cnt a (omega (arith, same a)));
    deny_cnt = λ a p. deny_cnt a (omega (arith, same a));
    no_null = omega (arith, same 0, s.no_null);
    one_each = λ a b p q e.
        s.one_each a b (omega (arith, same a)) (omega (arith, same b))
          (omega (arith, same_sector a, same_sector b));
  }

module _ (pre : List File) (f : File) (post : List File) (sys : FileSys)
    (s : IsShared (with_file pre f post) sys) where
  is_open : 1 ≤ opens f.inode (with_file pre f post)
  is_open = ground (arith, opens-with_file f.inode pre f post)

  -- When the counters agree with the open files, file_deny_write() on one of these fails no ASSERT, and afterwards that
  -- file denies writes and the counters agree.
  pub file_deny_write-IsShared :
      (r : File × FileSys) × (file_deny_write f sys ≡ ok r)
      × (r.0.deny_write ≡ true)
      × IsShared (with_file pre r.0 post) r.1
  unfolding file_deny_write inode_deny_write
  file_deny_write-IsShared = elim (Bool-cases f.deny_write) [
    | inl denied ↦ ((f, sys), rw denied refl, denied, s)
    | inr not_yet ↦
        let i = sys.inodes f.inode in
        let f2 : File = record f { deny_write = true } in
        let room : leb (i.deny_write_cnt + 1) i.open_cnt ≡ true = ground (
          arith,
          opens-with_file f.inode pre f post,
          denies-with_file f.inode pre f post,
          denies-le-opens f.inode (pre ++ post),
          s.open_cnt f.inode is_open,
          s.deny_cnt f.inode is_open,
        ) in
        (
          (f2, set_inode f.inode (record i { deny_write_cnt = i.deny_write_cnt + 1 }) sys),
          rw (not_yet, room) refl,
          refl,
          redeny s (λ a. opens-with_file a pre f2 post ∙ sym (opens-with_file a pre f post)) refl
              (λ a.
                keeps-set_inode (λ x. x.open_cnt) f.inode a
                  (record i { deny_write_cnt = i.deny_write_cnt + 1 }) sys refl)
              (λ a.
                keeps-set_inode (λ x. x.sector) f.inode a
                  (record i { deny_write_cnt = i.deny_write_cnt + 1 }) sys refl)
              (λ a p. ground (
                arith,
                denies-with_file a pre f2 post,
                denies-with_file a pre f post,
                s.deny_cnt a p,
                s.deny_cnt f.inode is_open,
              )),
        )
  ]

  -- When the counters agree with the open files, file_allow_write() on one of these fails no ASSERT, and afterwards
  -- that file does not deny writes and the counters agree.
  pub file_allow_write-IsShared :
      (r : File × FileSys) × (file_allow_write f sys ≡ ok r)
      × (r.0.deny_write ≡ false)
      × (r.0.inode ≡ f.inode)
      × IsShared (with_file pre r.0 post) r.1
  unfolding file_allow_write inode_allow_write
  file_allow_write-IsShared = elim (Bool-cases f.deny_write) [
    | inr allowed ↦ ((f, sys), rw allowed refl, allowed, refl, s)
    | inl denied ↦
        let i = sys.inodes f.inode in
        let f2 : File = record f { deny_write = false } in
        let j = record i { deny_write_cnt = i.deny_write_cnt - 1 } in
        let opened = s.open_cnt f.inode is_open in
        let cnt = s.deny_cnt f.inode is_open in
        let here = denies-with_file f.inode pre f post in
        let most = denies-le-opens f.inode (with_file pre f post) in
        let some_deny : ltb 0 i.deny_write_cnt ≡ true = ground arith in
        let not_more : leb i.deny_write_cnt i.open_cnt ≡ true = ground arith in
        (
          (f2, set_inode f.inode j sys),
          rw (denied, some_deny, not_more) refl,
          refl,
          refl,
          redeny s (λ a. opens-with_file a pre f2 post ∙ sym (opens-with_file a pre f post)) refl
              (λ a. keeps-set_inode (λ x. x.open_cnt) f.inode a j sys refl)
              (λ a. keeps-set_inode (λ x. x.sector) f.inode a j sys refl)
              (λ a p. ground (
                arith,
                denies-with_file a pre f2 post,
                denies-with_file a pre f post,
                s.deny_cnt a p,
              )),
        )
  ]

  -- When the counters agree with the open files, and some open file of the same inode denies writes, file_write()
  -- writes nothing and leaves everything as it was.
  pub file_write_denied :
      (bounce : Bool) (buffer : Buffer) (size : ℕ)
      → 1 ≤ denies f.inode (with_file pre f post)
      → file_write bounce f buffer size sys ≡ ok (0, (f, sys))
  unfolding file_write file_write_at inode_write_at
  file_write_denied bounce buffer size someone =
      let cnt : ((sys.inodes f.inode).deny_write_cnt == 0) ≡ false =
        ground (arith, s.deny_cnt f.inode is_open) in
      let e : f.pos + 0 ≡ f.pos = omega arith in rw (cnt, e) refl
