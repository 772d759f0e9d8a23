-- ===== src/Files/Histories.antt =====
-- filesys/inode.c, filesys/file.c and filesys/free-map.c: the histories of the open inodes.
use mathlib.Core.Path.{subst}
use cs380l.Base.{
  some, Bool, ℕ, ◌+◌, ◌≡◌, inl, inr, refl, sym, ap, ◌∙◌, true, not, ◌==◌, List, ◌++◌, ok, Yields-ok,
  Yields->>=, Yields->>, Yields-all, assert, arith, Bool-cases,
}
use cs380l.Files.FreeMap.{
  free_map_allocate, inode_create, free_map_init, free_map_open, free_map_create, free_map_close,
}
use cs380l.Files.Maps.{
  Mapped, free_map_init-SameInodes, free_map_open-Mapped, free_map_create-Mapped,
}
use cs380l.Files.State.{
  File, FileSys, set_inode, keeps-set_inode, inode_reopen, inode_open, inode_close, inode_remove,
  file_write_at, inode_set_symlink, free_map_release,
}
use cs380l.Files.Handles.{file_open, file_reopen, file_close, file_read, file_write, file_seek}
use cs380l.Files.Sectors.{inode_read_at}
use cs380l.Files.Opens.{opens, IsShared, with_file, opens-with_file}
use cs380l.Files.Denials.{redeny, file_deny_write-IsShared, file_allow_write-IsShared}
use cs380l.Files.Shares.{reopen-IsShared}
use cs380l.Files.Closes.{
  SameInodes, SameInodes-IsShared, file_write_at-SameInodes, free_map_release-SameInodes,
  inode_close-IsShared,
}
use cs380l.Files.Calls.{
  added, taken, FileStep, opening, reopening, denying, allowing, closing, writing, reading, seeking,
  removing, taking, retaking, dropping, forbidding, permitting, linking, storing, writing_at,
  allocating, releasing, creating, initializing, mapping, creating_map, unmapping, FileSteps, stay,
  and_then,
}
use cs380l.Files.Openers.{
  file_open-IsShared, Opened, inode_open-Opened, file_open-Opened, moved, moved-IsShared,
  inode_set_symlink-IsShared, inode_deny_write-IsShared, inode_allow_write-IsShared,
}
use cs380l.Files.Elsewhere.{free_map_allocate-SameInodes, inode_create-SameInodes}

taken-IsShared :
    (files : List File) (a : ℕ) (sys : FileSys)
    → Opened files (a, sys)
    → IsShared (taken a files) sys
unfolding opens
taken-IsShared files a sys (inl (z, t)) = let hit : (a == 0) ≡ true = ground arith in rw hit t
taken-IsShared files a sys (inr t) = elim (Bool-cases (a == 0)) [
  | inl z ↦ absurd (ground (arith, t.no_null))
  | inr n ↦ rw n t
]

file_close-IsShared :
    (pre : List File) (f : File) (post : List File) (bounce : Bool) {sys after : FileSys}
    → IsShared (with_file pre f post) sys
    → file_close bounce (some f) sys ≡ ok after
    → IsShared (pre ++ post) after
unfolding file_close
file_close-IsShared pre f post bounce {sys} {after} s run =
    let (q, e, no_deny, same, t) = file_allow_write-IsShared pre f post sys s in
    Yields-ok (IsShared (pre ++ post)) (inode_close bounce q.0.inode q.1) after
      (inode_close-IsShared pre q.0 post q.1 t no_deny bounce)
      (ap (λ x. inode_close bounce x q.1) same ∙ (rw e at run))

-- If the counters and the list of open inodes agree with the open files before a call, they do after it.
pub FileStep-IsShared :
    {files files2 : List File} {sys sys2 : FileSys}
    → FileStep files sys files2 sys2
    → IsShared files sys
    → IsShared files2 sys2
unfolding file_reopen file_read file_write file_seek inode_remove free_map_close
FileStep-IsShared
      (opening {files} {sys} {mid} {after} {a} {o} fresh sector got bounce unused run run2) s =
    let t =
      Yields-ok (Opened files) (inode_open fresh sector sys) (a, mid)
        (inode_open-Opened files sys fresh sector s unused) run in
    Yields-ok (λ r. IsShared (added r.0 files) r.1) (file_open got bounce a mid) (o, after)
      (file_open-Opened files got bounce a mid t) run2
FileStep-IsShared (reopening {sys} {after} {o} pre f post got bounce run) s =
    Yields-ok (λ r. IsShared (added r.0 (with_file pre f post)) r.1)
      (file_open got bounce f.inode (inode_reopen f.inode sys)) (o, after)
      (file_open-IsShared (with_file pre f post) f.inode got bounce (inode_reopen f.inode sys) (
        reopen-IsShared (with_file pre f post) sys s f.inode
          (ground (arith, opens-with_file f.inode pre f post))))
      run
FileStep-IsShared (denying {sys} {r} pre f post run) s =
    let (q, e, _, t) = file_deny_write-IsShared pre f post sys s in
    let same : q ≡ r = cc in subst (λ x. IsShared (with_file pre x.0 post) x.1) same t
FileStep-IsShared (allowing {sys} {r} pre f post run) s =
    let (q, e, _, _, t) = file_allow_write-IsShared pre f post sys s in
    let same : q ≡ r = cc in subst (λ x. IsShared (with_file pre x.0 post) x.1) same t
FileStep-IsShared (closing pre f post bounce run) s = file_close-IsShared pre f post bounce s run
FileStep-IsShared (writing {sys} {r} pre f post bounce buffer size run) s =
    Yields-ok (λ q. IsShared (with_file pre q.1.0 post) q.1.1) (file_write bounce f buffer size sys)
      r
      (Yields->>= (λ w. SameInodes sys w.1) (λ q. IsShared (with_file pre q.1.0 post) q.1.1)
        (file_write_at bounce f buffer size f.pos sys) _
        (file_write_at-SameInodes bounce f buffer size f.pos sys)
        (λ w t.
          SameInodes-IsShared (with_file pre (moved f (f.pos + w.0)) post) sys w.1 t
            (moved-IsShared pre f post (f.pos + w.0) sys s)))
      run
FileStep-IsShared (reading {sys} {r} pre f post bounce buffer size run) s =
    Yields-ok (λ q. IsShared (with_file pre q.1.1 post) sys) (file_read bounce f buffer size sys) r
      (Yields-all (λ q. IsShared (with_file pre q.1.1 post) sys)
        (inode_read_at bounce sys.fs_device (sys.inodes f.inode) buffer size f.pos) _
        (λ w. moved-IsShared pre f post (f.pos + w.0) sys s))
      run
FileStep-IsShared (seeking {sys} pre f post new_pos) s = moved-IsShared pre f post new_pos sys s
FileStep-IsShared (removing {files} {sys} {after} a run) s =
    let i = record (sys.inodes a) { removed = true } in
    Yields-ok (IsShared files) (inode_remove a sys) after
      (Yields->> (IsShared files) (assert (not (a == 0))) (ok (set_inode a i sys)) (
        redeny s (λ b. refl) refl (λ b. keeps-set_inode (λ x. x.open_cnt) a b i sys refl)
          (λ b. keeps-set_inode (λ x. x.sector) a b i sys refl)
          (λ b p. keeps-set_inode (λ x. x.deny_write_cnt) a b i sys refl ∙ s.deny_cnt b p)))
      run
FileStep-IsShared (taking {files} {sys} {after} {a} fresh sector unused run) s =
    let both =
      Yields-ok (Opened files) (inode_open fresh sector sys) (a, after)
        (inode_open-Opened files sys fresh sector s unused) run in
    taken-IsShared files a after both
FileStep-IsShared (retaking {sys} pre f post) s =
    reopen-IsShared (with_file pre f post) sys s f.inode
      (ground (arith, opens-with_file f.inode pre f post))
FileStep-IsShared (dropping {sys} {after} pre f post bounce calm run) s =
    Yields-ok (IsShared (pre ++ post)) (inode_close bounce f.inode sys) after
      (inode_close-IsShared pre f post sys s calm bounce) run
FileStep-IsShared (forbidding pre f post calm run) s =
    inode_deny_write-IsShared pre f post s calm run
FileStep-IsShared (permitting pre f post denies run) s =
    inode_allow_write-IsShared pre f post s denies run
FileStep-IsShared (linking {files} {sys} {after} a is_symlink run) s =
    Yields-ok (IsShared files) (inode_set_symlink a is_symlink sys) after
      (inode_set_symlink-IsShared a is_symlink s) run
FileStep-IsShared (storing {files} {sys} {r} a bounce buffer size offset run) s =
    SameInodes-IsShared files sys (record sys { fs_device = r.1 })
      (record { list = refl; inodes = refl }) s
FileStep-IsShared (writing_at {files} {sys} {r} f bounce buffer size ofs run) s =
    SameInodes-IsShared files sys r.1
      (Yields-ok (λ x. SameInodes sys x.1) (file_write_at bounce f buffer size ofs sys) r
        (file_write_at-SameInodes bounce f buffer size ofs sys) run)
      s
FileStep-IsShared (allocating {files} {sys} {r} bounce cnt run) s =
    SameInodes-IsShared files sys r.1
      (Yields-ok (λ x. SameInodes sys x.1) (free_map_allocate bounce cnt sys) r
        (free_map_allocate-SameInodes bounce cnt sys) run)
      s
FileStep-IsShared (releasing {files} {sys} {after} bounce sector cnt run) s =
    SameInodes-IsShared files sys after
      (Yields-ok (SameInodes sys) (free_map_release bounce sector cnt sys) after
        (free_map_release-SameInodes bounce sector cnt sys) run)
      s
FileStep-IsShared (creating {files} {sys} {r} got bounce sector length run) s =
    SameInodes-IsShared files sys r.1
      (Yields-ok (λ x. SameInodes sys x.1) (inode_create got bounce sector length sys) r
        (inode_create-SameInodes got bounce sector length sys) run)
      s
FileStep-IsShared (initializing {files} {sys} {after} got garbage run) s =
    SameInodes-IsShared files sys after
      (Yields-ok (SameInodes sys) (free_map_init got garbage sys) after
        (free_map_init-SameInodes got garbage sys) run)
      s
FileStep-IsShared (mapping {files} {sys} {after} got bounce fresh unused run) s =
    Yields-ok (Mapped files) (free_map_open got bounce fresh sys) after
      (free_map_open-Mapped got bounce files fresh unused sys s) run
FileStep-IsShared (creating_map {files} {sys} {after} memory got bounce fresh unused run) s =
    Yields-ok (Mapped files) (free_map_create memory got bounce fresh sys) after
      (free_map_create-Mapped got bounce files fresh unused memory sys s) run
FileStep-IsShared (unmapping {sys} {after} pre f post bounce e run) s =
    file_close-IsShared pre f post bounce s (ap (λ o. file_close bounce o sys) (sym e) ∙ run)

-- After any sequence of calls of inode_open, inode_reopen, inode_close, inode_remove, inode_deny_write, inode_allow_write,
-- inode_set_symlink, inode_write_at, inode_create, file_open, file_reopen, file_close, file_deny_write,
-- file_allow_write, file_read, file_write, file_write_at, file_seek, free_map_init, free_map_create, free_map_open,
-- free_map_close, free_map_allocate and free_map_release that keep to the rules of FileStep, the counters and the list
-- of open inodes agree with those who have inodes open, if they did before:
-- an inode is in the list once while it is open, a sector has one inode, open_cnt is the number of those who have it
-- open and deny_write_cnt the number of those of them that deny writes.
pub FileSteps-IsShared :
    {files files2 : List File} {sys sys2 : FileSys}
    → FileSteps files sys files2 sys2
    → IsShared files sys
    → IsShared files2 sys2
FileSteps-IsShared stay s = s
FileSteps-IsShared (and_then steps step) s = FileStep-IsShared step (FileSteps-IsShared steps s)
