-- ===== src/Files/Fresh.antt =====
-- filesys/inode.c: inode_open() of a new inode.
use mathlib.Core.Path.{subst}
use cs380l.Base.{
  ℕ, ◌+◌, ◌/◌, ◌%◌, ◌^◌, ◌≤◌, ◌<◌, ◌≡◌, ◌≢◌, refl, sym, ap, ◌∙◌, Bool, true, false, ◌==◌, none, ◌∷◌,
  ok, arith,
}
use cs380l.Bitmap.Words.{member}
use cs380l.Files.Disk.{Device, Inode, block_sector_size, inode_from}
use cs380l.Files.Reads.{OnDevice, byte_at, block_read_lem}
use cs380l.Files.State.{FileSys, set_inode, find_open, inode_open}
use cs380l.Files.FreeMap.{inode_create}
use cs380l.Files.Allocs.{HasMap}
use cs380l.Files.Creates.{Created, Creates, inode_create-Creates}

-- The inode that is read from the device after inode_create(): it has the length, and the bytes of its
-- data are zero.
pub record Fresh (d : Device) (i : Inode) (length : ℕ) : Type 0 where
  pub size : i.inode_disk.length ≡ length
  pub on_device : OnDevice d i
  pub clear : (pos : ℕ) → pos < length → byte_at d i pos ≡ 0

Created-Fresh :
    (d : Device) (sector length : ℕ) (i : Inode)
    → Created d sector length
    → d.size < 2 ^ 32
    → length < 2 ^ 31
    → i.inode_disk ≡ inode_from (d.content sector)
    → Fresh d i length
Created-Fresh d sector length i made word short e =
    let start = ap (λ x. x.start) e ∙ made.same.start in
    let size = ap (λ x. x.length) e ∙ made.same.length in
    record {
      size = size;
      on_device = record {
        native = made.native;
        inside = omega (arith, start, size, made.inside);
        word = word;
        offsets = omega (arith, size);
      };
      clear = λ pos p.
          made.clear (i.inode_disk.start + pos / block_sector_size) (pos % block_sector_size)
            (ground (arith, start)) (omega arith);
    }

inode_open_new :
    (fresh sector : ℕ) (sys : FileSys)
    → fresh ≢ 0
    → find_open sector sys.open_inodes sys.inodes ≡ none
    → sector < sys.fs_device.size
    → (q : ℕ × FileSys) × (inode_open fresh sector sys ≡ ok q)
      × (q.0 ≡ fresh)
      × (q.1.fs_device ≡ sys.fs_device)
      × ((q.1.inodes fresh).inode_disk ≡ inode_from (sys.fs_device.content sector))
unfolding inode_open
inode_open_new fresh sector sys nz absent small =
    let not_null : (fresh == 0) ≡ false = ground arith in
    let here : (fresh == fresh) ≡ true = ground arith in
    (
      (
        fresh,
        set_inode fresh
            (record {
              sector = sector;
              open_cnt = 1;
              removed = false;
              deny_write_cnt = 0;
              inode_disk = inode_from (sys.fs_device.content sector);
            })
            (record sys { open_inodes = fresh ∷ sys.open_inodes }),
      ),
      rw (inode_open, absent, not_null, block_read_lem sys.fs_device sector small) refl,
      refl,
      refl,
      rw here refl,
    )

-- When the device is not foreign, the map is not too long and the data of its file are on the device, the map has no sector that is not on
-- the device, `sector` is marked in it and not open, the length fits and there is memory: after a successful inode_create(),
-- inode_open() of the sector gives an inode of that length, with its data on the device, all zeros.
pub inode_open-inode_create :
    (bounce : Bool) (sector length fresh : ℕ) (sys : FileSys)
    → HasMap sys
    → sys.free_map.bit_cnt ≤ sys.fs_device.size
    → sys.fs_device.size < 2 ^ 32
    → sector < sys.fs_device.size
    → member sector sys.free_map ≡ true
    → length < 2 ^ 31
    → fresh ≢ 0
    → find_open sector sys.open_inodes sys.inodes ≡ none
    → (r : Bool × FileSys) × (inode_create true bounce sector length sys ≡ ok r)
      × (r.0 ≡ true
          → (q : ℕ × FileSys) × (inode_open fresh sector r.1 ≡ ok q)
            × (q.0 ≡ fresh)
            × Fresh q.1.fs_device (q.1.inodes fresh) length)
unfolding Creates
inode_open-inode_create bounce sector length fresh sys has covered word small marked short nz
      absent =
    let (r, run, made) =
      inode_create-Creates bounce sector length sys has covered word small marked short in
    (r, run, opened r.0 r.1 made)
  where
    opened :
        (b : Bool) (after : FileSys)
        → Creates sys sector length (b, after)
        → b ≡ true
        → (q : ℕ × FileSys) × (inode_open fresh sector after ≡ ok q)
          × (q.0 ≡ fresh)
          × Fresh q.1.fs_device (q.1.inodes fresh) length
    opened false after made e = absurd (cc)
    opened true after (made, size, list, inodes) e =
        let none_open : find_open sector after.open_inodes after.inodes ≡ none =
          ap (λ l. find_open sector l after.inodes) list
          ∙ ap (find_open sector sys.open_inodes) inodes
          ∙ absent in
        let (q, run, is_fresh, device, disk) =
          inode_open_new fresh sector after nz none_open (omega (arith, ap (λ x. x.0) size)) in
        let made2 = subst (λ d. Created d sector length) (sym device) made in
        (
          q,
          run,
          is_fresh,
          Created-Fresh q.1.fs_device sector length (q.1.inodes fresh) made2
              (omega (arith, ap (λ d. d.size) device, ap (λ x. x.0) size)) short
              (disk ∙ ap (λ d. inode_from (d.content sector)) (sym device)),
        )
