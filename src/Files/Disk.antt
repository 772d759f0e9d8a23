-- ===== src/Files/Disk.antt =====
-- devices/block.c: a device of sectors, and filesys/inode.c: the inode on it. What the drivers do is
-- that of a disk: a sector holds the bytes that were written last. A buffer is a function from
-- the offset to the byte. `off_t` values are not negative here.
use cs380l.Base.{
  ℕ, true, false, zero, suc, ◌+◌, ◌-◌, ◌*◌, ◌/◌, ◌%◌, ◌^◌, ◌<◌, ◌≡◌, Bool, not, ◌==◌, ltb, ◌&&◌,
  if◌then◌else◌, Result, ok, ◌>>◌, assert, arith,
}

abbrev pub block_sector_size : ℕ
block_sector_size = 512

abbrev pub Buffer : Type 0
Buffer = ℕ → ℕ

-- `enum block_type`
pub data BlockType : Type 0 where
  block_kernel : BlockType
  block_filesys : BlockType
  block_scratch : BlockType
  block_swap : BlockType
  block_raw : BlockType
  block_foreign : BlockType

abbrev pub is_foreign : BlockType → Bool
is_foreign block_foreign = true
is_foreign _ = false

-- `struct block`: its type, its size in sectors and what the driver keeps.
pub record Device : Type 0 where
  pub block_type : BlockType
  pub size : ℕ
  pub content : ℕ → Buffer

-- What a write keeps of a device.
abbrev pub shape : Device → ℕ × BlockType
shape d = (d.size, d.block_type)

unfoldable pub check_sector : Device → ℕ → Result (Unit {0})
check_sector d sector = assert (ltb sector d.size)

unfoldable pub block_read : Device → ℕ → Result Buffer
block_read d sector = do check_sector d sector; ok (d.content sector)

-- The first `block_sector_size` bytes of the buffer are written.
unfoldable pub block_write : Device → ℕ → Buffer → Result Device
block_write d sector buffer = do
  check_sector d sector
  assert (not (is_foreign d.block_type))
  ok (record d {
    content = λ s o. if sector == s && ltb o block_sector_size then buffer o else d.content s o;
  })

-- `struct inode_disk`. The bytes behind `is_symlink` are `unused`.
pub record InodeDisk : Type 0 where
  pub start : ℕ
  pub length : ℕ
  pub magic : ℕ
  pub is_symlink : Bool
  pub unused : ℕ → ℕ

abbrev pub inode_magic : ℕ
inode_magic = 1229868868

abbrev pub bytes_to_sectors : ℕ → ℕ
bytes_to_sectors size = (size + block_sector_size - 1) / block_sector_size

-- `struct inode`, without its place in the list of open inodes.
pub record Inode : Type 0 where
  pub sector : ℕ
  pub open_cnt : ℕ
  pub removed : Bool
  pub deny_write_cnt : ℕ
  pub inode_disk : InodeDisk

-- -1 stands for no sector.
unfoldable pub byte_to_sector : Inode → ℕ → ℕ
byte_to_sector inode pos =
    if ltb pos inode.inode_disk.length
    then (inode.inode_disk.start + pos / block_sector_size) % 2 ^ 32
    else 2 ^ 32 - 1

abbrev pub byte_of : ℕ → ℕ → ℕ
byte_of x zero = x % 256
byte_of x (suc k) = byte_of (x / 256) k

abbrev pub word_at : Buffer → ℕ → ℕ
word_at f o = f o + 256 * (f (o + 1) + 256 * (f (o + 2) + 256 * f (o + 3)))

-- The structure as the bytes of a sector, the low byte of a word first.
unfoldable pub inode_bytes : InodeDisk → Buffer
inode_bytes d o =
    if ltb o 4
    then byte_of d.start o
    else if ltb o 8
    then byte_of d.length (o - 4)
    else if ltb o 12
    then byte_of d.magic (o - 8)
    else if o == 12
    then (if d.is_symlink then 1 else 0)
    else d.unused o

unfoldable pub inode_from : Buffer → InodeDisk
inode_from f = record {
  start = word_at f 0;
  length = word_at f 4;
  magic = word_at f 8;
  is_symlink = not (f 12 == 0);
  unused = f;
}

-- The fields of `d` and `e` are the same.
pub record SameFields (d e : InodeDisk) : Type 0 where
  pub start : d.start ≡ e.start
  pub length : d.length ≡ e.length
  pub magic : d.magic ≡ e.magic
  pub is_symlink : d.is_symlink ≡ e.is_symlink

-- What is read back from the bytes of an inode are its fields, when they are words.
pub inode_from-inode_bytes :
    (d : InodeDisk)
    → d.start < 2 ^ 32
    → d.length < 2 ^ 32
    → d.magic < 2 ^ 32
    → SameFields (inode_from (inode_bytes d)) d
unfolding inode_from inode_bytes
inode_from-inode_bytes d p q r = record {
  start = omega arith;
  length = omega arith;
  magic = omega arith;
  is_symlink = ground arith;
}
