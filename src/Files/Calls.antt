-- ===== src/Files/Calls.antt =====
-- filesys/inode.c, filesys/file.c and filesys/free-map.c: the calls of a history.
use cs380l.Base.{
  ℕ, ◌≡◌, Bool, true, false, ◌==◌, Option, none, some, List, ◌∷◌, ◌++◌, ok, if◌then◌else◌,
}
use cs380l.Files.Disk.{Buffer, Device}
use cs380l.Files.Sectors.{inode_write_at}
use cs380l.Files.FreeMap.{
  free_map_allocate, inode_create, free_map_init, free_map_open, free_map_create, free_map_close,
}
use cs380l.Files.State.{
  File, FileSys, inode_reopen, inode_open, inode_close, inode_remove, file_write_at,
  inode_deny_write, inode_allow_write, inode_set_symlink, free_map_release,
}
use cs380l.Files.Handles.{
  file_open, file_reopen, file_close, file_deny_write, file_allow_write, file_read, file_write,
  file_seek,
}
use cs380l.Files.Opens.{opens, with_file}

-- The open files after a call that opens one, or fails to.
abbrev pub added : Option File → List File → List File
added none files = files
added (some f) files = f ∷ files

abbrev pub new_file : ℕ → File
new_file a = record { inode = a; pos = 0; deny_write = false }

-- The same for an inode that is opened, unless its address is null.
abbrev pub taken : ℕ → List File → List File
taken a files = if a == 0 then files else new_file a ∷ files

abbrev pub denier : Bool → File → File
denier b f = record f { deny_write = b }

-- A call of filesys/inode.c, filesys/file.c or filesys/free-map.c. Whoever has an inode open without a file, a directory
-- for instance, stands in the list as a file, too. One of the list is `f`, with the others before and behind it; an address from
-- malloc() is not in use. As the source asks for, one who closes an inode or calls inode_deny_write() does not deny
-- writes, and one who calls inode_allow_write() does.
pub data FileStep : List File → FileSys → List File → FileSys → Type 0 where
  opening :
      {files : List File} {sys mid after : FileSys} {a : ℕ} {o : Option File} (fresh sector : ℕ)
      (got bounce : Bool)
      → opens fresh files ≡ 0
      → inode_open fresh sector sys ≡ ok (a, mid)
      → file_open got bounce a mid ≡ ok (o, after)
      → FileStep files sys (added o files) after
  reopening :
      {sys after : FileSys} {o : Option File} (pre : List File) (f : File) (post : List File)
      (got bounce : Bool)
      → file_reopen got bounce f sys ≡ ok (o, after)
      → FileStep (with_file pre f post) sys (added o (with_file pre f post)) after
  denying :
      {sys : FileSys} {r : File × FileSys} (pre : List File) (f : File) (post : List File)
      → file_deny_write f sys ≡ ok r
      → FileStep (with_file pre f post) sys (with_file pre r.0 post) r.1
  allowing :
      {sys : FileSys} {r : File × FileSys} (pre : List File) (f : File) (post : List File)
      → file_allow_write f sys ≡ ok r
      → FileStep (with_file pre f post) sys (with_file pre r.0 post) r.1
  closing :
      {sys after : FileSys} (pre : List File) (f : File) (post : List File) (bounce : Bool)
      → file_close bounce (some f) sys ≡ ok after
      → FileStep (with_file pre f post) sys (pre ++ post) after
  writing :
      {sys : FileSys} {r : ℕ × (File × FileSys)} (pre : List File) (f : File) (post : List File)
      (bounce : Bool) (buffer : Buffer) (size : ℕ)
      → file_write bounce f buffer size sys ≡ ok r
      → FileStep (with_file pre f post) sys (with_file pre r.1.0 post) r.1.1
  reading :
      {sys : FileSys} {r : ℕ × (Buffer × File)} (pre : List File) (f : File) (post : List File)
      (bounce : Bool) (buffer : Buffer) (size : ℕ)
      → file_read bounce f buffer size sys ≡ ok r
      → FileStep (with_file pre f post) sys (with_file pre r.1.1 post) sys
  seeking :
      {sys : FileSys} (pre : List File) (f : File) (post : List File) (new_pos : ℕ)
      → FileStep (with_file pre f post) sys (with_file pre (file_seek f new_pos) post) sys
  removing :
      {files : List File} {sys after : FileSys} (a : ℕ)
      → inode_remove a sys ≡ ok after
      → FileStep files sys files after
  taking :
      {files : List File} {sys after : FileSys} {a : ℕ} (fresh sector : ℕ)
      → opens fresh files ≡ 0
      → inode_open fresh sector sys ≡ ok (a, after)
      → FileStep files sys (taken a files) after
  retaking :
      {sys : FileSys} (pre : List File) (f : File) (post : List File)
      → FileStep
          (with_file pre f post)
          sys
          (new_file f.inode ∷ with_file pre f post)
          (inode_reopen f.inode sys)
  dropping :
      {sys after : FileSys} (pre : List File) (f : File) (post : List File) (bounce : Bool)
      → f.deny_write ≡ false
      → inode_close bounce f.inode sys ≡ ok after
      → FileStep (with_file pre f post) sys (pre ++ post) after
  forbidding :
      {sys after : FileSys} (pre : List File) (f : File) (post : List File)
      → f.deny_write ≡ false
      → inode_deny_write f.inode sys ≡ ok after
      → FileStep (with_file pre f post) sys (with_file pre (denier true f) post) after
  permitting :
      {sys after : FileSys} (pre : List File) (f : File) (post : List File)
      → f.deny_write ≡ true
      → inode_allow_write f.inode sys ≡ ok after
      → FileStep (with_file pre f post) sys (with_file pre (denier false f) post) after
  linking :
      {files : List File} {sys after : FileSys} (a : ℕ) (is_symlink : Bool)
      → inode_set_symlink a is_symlink sys ≡ ok after
      → FileStep files sys files after
  storing :
      {files : List File} {sys : FileSys} {r : ℕ × Device} (a : ℕ) (bounce : Bool) (buffer : Buffer)
      (size offset : ℕ)
      → inode_write_at bounce sys.fs_device (sys.inodes a) buffer size offset ≡ ok r
      → FileStep files sys files (record sys { fs_device = r.1 })
  writing_at :
      {files : List File} {sys : FileSys} {r : ℕ × FileSys} (f : File) (bounce : Bool)
      (buffer : Buffer) (size file_ofs : ℕ)
      → file_write_at bounce f buffer size file_ofs sys ≡ ok r
      → FileStep files sys files r.1
  allocating :
      {files : List File} {sys : FileSys} {r : Option ℕ × FileSys} (bounce : Bool) (cnt : ℕ)
      → free_map_allocate bounce cnt sys ≡ ok r
      → FileStep files sys files r.1
  releasing :
      {files : List File} {sys after : FileSys} (bounce : Bool) (sector cnt : ℕ)
      → free_map_release bounce sector cnt sys ≡ ok after
      → FileStep files sys files after
  creating :
      {files : List File} {sys : FileSys} {r : Bool × FileSys} (got bounce : Bool)
      (sector length : ℕ)
      → inode_create got bounce sector length sys ≡ ok r
      → FileStep files sys files r.1
  initializing :
      {files : List File} {sys after : FileSys} (got : Bool) (garbage : ℕ → ℕ)
      → free_map_init got garbage sys ≡ ok after
      → FileStep files sys files after
  mapping :
      {files : List File} {sys after : FileSys} (got bounce : Bool) (fresh : ℕ)
      → opens fresh files ≡ 0
      → free_map_open got bounce fresh sys ≡ ok after
      → FileStep files sys (added after.free_map_file files) after
  creating_map :
      {files : List File} {sys after : FileSys} (memory got bounce : Bool) (fresh : ℕ)
      → opens fresh files ≡ 0
      → free_map_create memory got bounce fresh sys ≡ ok after
      → FileStep files sys (added after.free_map_file files) after
  unmapping :
      {sys after : FileSys} (pre : List File) (f : File) (post : List File) (bounce : Bool)
      → sys.free_map_file ≡ some f
      → free_map_close bounce sys ≡ ok after
      → FileStep (with_file pre f post) sys (pre ++ post) after

pub data FileSteps : List File → FileSys → List File → FileSys → Type 0 where
  stay : {files : List File} {sys : FileSys} → FileSteps files sys files sys
  and_then :
      {files files2 files3 : List File} {sys sys2 sys3 : FileSys}
      → FileSteps files sys files2 sys2
      → FileStep files2 sys2 files3 sys3
      → FileSteps files sys files3 sys3
