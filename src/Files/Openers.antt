-- ===== src/Files/Openers.antt =====
-- filesys/inode.c and filesys/file.c: one who opens an inode, directly or as a file.
use mathlib.Core.Path.{subst}
use cs380l.Base.{
  ℕ, ◌≤◌, ◌≡◌, ◌⊎◌, inl, inr, refl, sym, ◌∙◌, Bool, true, false, ◌==◌, List, [], ◌∷◌, ok, Yields,
  Yields->>=, Yields-all, arith, Bool-cases, Option-cases, ℕ-cases,
}
use cs380l.Files.Disk.{Inode, Device, block_read, block_write, inode_bytes, inode_from}
use cs380l.Files.State.{
  File, FileSys, set_inode, keeps-set_inode, find_open, inode_open, inode_close, inode_deny_write,
  inode_allow_write, inode_set_symlink,
}
use cs380l.Files.Handles.{file_open, file_deny_write, file_allow_write}
use cs380l.Files.Opens.{opens, IsShared, with_file, opens-with_file, denies-with_file}
use cs380l.Files.Denials.{redeny, file_deny_write-IsShared, file_allow_write-IsShared}
use cs380l.Files.Shares.{find_open-some, reopen-IsShared, fresh-IsShared}
use cs380l.Files.Closes.{inode_close-IsShared}
use cs380l.Files.Calls.{added, new_file, denier}

pub file_open-IsShared :
    (files : List File) (a : ℕ) (got bounce : Bool) (sys : FileSys)
    → IsShared (new_file a ∷ files) sys
    → Yields (λ r. IsShared (added r.0 files) r.1) (file_open got bounce a sys)
unfolding file_open opens
file_open-IsShared files a got bounce sys s = elim (Bool-cases (a == 0)) [
  | inl z ↦ absurd (ground (arith, s.no_null))
  | inr nz ↦ elim (Bool-cases got) [
    | inl g ↦ rw (nz, g) s
    | inr g ↦
        rw (nz, g)
          (Yields->>= (IsShared files) (λ r. IsShared (added r.0 files) r.1)
            (inode_close bounce a sys) _
            (inode_close-IsShared [] (new_file a) files sys s refl bounce) (λ after t. t))
  ]
]

-- What inode_open() leaves: nothing new, or one opener more.
abbrev pub Opened : List File → ℕ × FileSys → Type 0
Opened files r = ((r.0 ≡ 0) × IsShared files r.1) ⊎ IsShared (new_file r.0 ∷ files) r.1

pub inode_open-Opened :
    (files : List File) (sys : FileSys) (fresh sector : ℕ)
    → IsShared files sys
    → opens fresh files ≡ 0
    → Yields (Opened files) (inode_open fresh sector sys)
unfolding inode_open
inode_open-Opened files sys fresh sector s unused =
    elim (Option-cases (find_open sector sys.open_inodes sys.inodes)) [
      | inr (a, e) ↦
          let (held, _) = find_open-some sector a sys.open_inodes sys.inodes e in
          let used : 1 ≤ opens a files = elim (ℕ-cases (opens a files)) [
            | inl z ↦ absurd (omega (arith, s.not_in_list a z))
            | inr (m, z) ↦ omega arith
          ] in
          rw (inode_open, e) (inr (reopen-IsShared files sys s a used))
      | inl e ↦ elim (Bool-cases (fresh == 0)) [
        | inl z ↦ rw (inode_open, e, z) (inl (refl, s))
        | inr nz ↦
            rw (inode_open, e, nz)
              (Yields-all (Opened files) (block_read sys.fs_device sector) _ (λ bytes. inr (
                fresh-IsShared files sys s fresh
                  (record {
                    sector = sector;
                    open_cnt = 1;
                    removed = false;
                    deny_write_cnt = 0;
                    inode_disk = inode_from bytes;
                  })
                  (λ q. ground arith) unused e refl refl)))
      ]
    ]

pub file_open-null :
    (files : List File) (got bounce : Bool) (sys : FileSys)
    → IsShared files sys
    → Yields (λ r. IsShared (added r.0 files) r.1) (file_open got bounce 0 sys)
unfolding file_open inode_close
file_open-null files got bounce sys s = s

-- The file that is opened on what inode_open() has left.
pub file_open-Opened :
    (files : List File) (got bounce : Bool) (a : ℕ) (sys : FileSys)
    → Opened files (a, sys)
    → Yields (λ r. IsShared (added r.0 files) r.1) (file_open got bounce a sys)
file_open-Opened files got bounce a sys (inl (z, s)) = rw z (file_open-null files got bounce sys s)
file_open-Opened files got bounce a sys (inr s) = file_open-IsShared files a got bounce sys s

abbrev pub moved : File → ℕ → File
moved f p = record f { pos = p }

pub moved-IsShared :
    (pre : List File) (f : File) (post : List File) (p : ℕ) (sys : FileSys)
    → IsShared (with_file pre f post) sys
    → IsShared (with_file pre (moved f p) post) sys
moved-IsShared pre f post p sys s =
    redeny s (λ a. opens-with_file a pre (moved f p) post ∙ sym (opens-with_file a pre f post)) refl
      (λ a. refl) (λ a. refl)
      (λ a q.
        s.deny_cnt a q
        ∙ denies-with_file a pre f post
        ∙ sym (denies-with_file a pre (moved f p) post))

-- What `redeny` needs when nothing that the counters are made of differs.
pub set_inode-IsShared :
    {files : List File} {sys : FileSys} (a : ℕ) (i : Inode) (d : Device)
    → IsShared files sys
    → i.open_cnt ≡ (sys.inodes a).open_cnt
    → i.sector ≡ (sys.inodes a).sector
    → i.deny_write_cnt ≡ (sys.inodes a).deny_write_cnt
    → IsShared files (record (set_inode a i sys) { fs_device = d })
set_inode-IsShared {sys = sys} a i d s p q r =
    redeny s (λ b. refl) refl (λ b. keeps-set_inode (λ x. x.open_cnt) a b i sys p)
      (λ b. keeps-set_inode (λ x. x.sector) a b i sys q)
      (λ b h. keeps-set_inode (λ x. x.deny_write_cnt) a b i sys r ∙ s.deny_cnt b h)

pub inode_set_symlink-IsShared :
    {files : List File} {sys : FileSys} (a : ℕ) (is_symlink : Bool)
    → IsShared files sys
    → Yields (IsShared files) (inode_set_symlink a is_symlink sys)
unfolding inode_set_symlink
inode_set_symlink-IsShared {files} {sys} a is_symlink s =
    let i = sys.inodes a in
    let disk = record i.inode_disk { is_symlink = is_symlink } in
    Yields-all (IsShared files) (block_write sys.fs_device i.sector (inode_bytes disk)) _
      (λ d. set_inode-IsShared a (record i { inode_disk = disk }) d s refl refl refl)

pub inode_deny_write-IsShared :
    (pre : List File) (f : File) (post : List File) {sys after : FileSys}
    → IsShared (with_file pre f post) sys
    → f.deny_write ≡ false
    → inode_deny_write f.inode sys ≡ ok after
    → IsShared (with_file pre (denier true f) post) after
unfolding file_deny_write
inode_deny_write-IsShared pre f post {sys} {after} s calm run =
    let (r, e, _, t) = file_deny_write-IsShared pre f post sys s in
    let e2 : file_deny_write f sys ≡ ok (denier true f, after) = rw (calm, run) refl in
    let same : r ≡ (denier true f, after) = cc in
    subst (λ x. IsShared (with_file pre x.0 post) x.1) same t

pub inode_allow_write-IsShared :
    (pre : List File) (f : File) (post : List File) {sys after : FileSys}
    → IsShared (with_file pre f post) sys
    → f.deny_write ≡ true
    → inode_allow_write f.inode sys ≡ ok after
    → IsShared (with_file pre (denier false f) post) after
unfolding file_allow_write
inode_allow_write-IsShared pre f post {sys} {after} s denies run =
    let (r, e, _, _, t) = file_allow_write-IsShared pre f post sys s in
    let e2 : file_allow_write f sys ≡ ok (denier false f, after) = rw (denies, run) refl in
    let same : r ≡ (denier false f, after) = cc in
    subst (λ x. IsShared (with_file pre x.0 post) x.1) same t
