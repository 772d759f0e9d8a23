-- ===== src/Dirs/State.antt =====
-- filesys/directory.c: directories, as files of entries. A name is the list of its characters, none of
-- which is the null character, and an entry is the bytes of its structure.
use Prim.Native.Nat.{min}
use cs380l.Base.{
  ℕ, zero, suc, ◌+◌, ◌-◌, ◌*◌, Bool, true, false, not, ◌==◌, ltb, ◌&&◌, ◌||◌, if◌then◌else◌, Option,
  none, some, List, [], ◌∷◌, length, get_or, Result, ok, panic, ◌>>=◌,
}
use cs380l.Files.Disk.{Buffer, byte_of, word_at}
use cs380l.Files.Sectors.{inode_read_at, inode_write_at}
use cs380l.Files.State.{FileSys, inode_open, inode_reopen, inode_close, inode_remove}
use cs380l.Files.FreeMap.{inode_create, root_dir_sector}

-- `struct dir`
pub record Dir : Type 0 where
  pub inode : ℕ
  pub pos : ℕ

abbrev pub name_max : ℕ
name_max = 14

-- `sizeof (struct dir_entry)`: four bytes for the sector, fifteen for the name and one for `in_use`.
abbrev pub entry_size : ℕ
entry_size = 20

abbrev pub in_use : Buffer → Bool
in_use e = not (e 19 == 0)

abbrev pub inode_sector : Buffer → ℕ
inode_sector e = word_at e 0

-- `!strcmp (name, p)`
unfoldable pub is_name : List ℕ → Buffer → Bool
is_name [] p = p 0 == 0
is_name (c ∷ name) p = let rest = is_name name (λ k. p (k + 1)) in p 0 == c && rest

abbrev pub name_of : Buffer → Buffer
name_of e = λ k. e (k + 4)

-- The entry after `strlcpy (e.name, name, sizeof e.name)` and with the two other fields set.
abbrev pub filled_entry : Buffer → List ℕ → ℕ → Buffer
filled_entry e name sector = λ o.
    let len = min (length name) name_max in
    if ltb o 4
    then byte_of sector o
    else if ltb (o - 4) len
    then get_or name (o - 4) 0
    else if o - 4 == len
    then 0
    else if o == 19
    then 1
    else e o

unfoldable pub dir_create : Bool → Bool → ℕ → ℕ → FileSys → Result (Bool × FileSys)
dir_create got bounce sector entry_cnt sys =
    inode_create got bounce sector (entry_cnt * entry_size) sys

unfoldable pub dir_open : Bool → Bool → ℕ → FileSys → Result (Option Dir × FileSys)
dir_open got bounce inode sys =
    if not (inode == 0) && got
    then ok (some (record { inode = inode; pos = 0 }), sys)
    else do after ← inode_close bounce inode sys; ok (none, after)

unfoldable pub dir_open_root : ℕ → Bool → Bool → FileSys → Result (Option Dir × FileSys)
dir_open_root fresh got bounce sys = do
  (a, mid) ← inode_open fresh root_dir_sector sys
  dir_open got bounce a mid

unfoldable pub dir_reopen : Bool → Bool → Dir → FileSys → Result (Option Dir × FileSys)
dir_reopen got bounce dir sys = dir_open got bounce dir.inode (inode_reopen dir.inode sys)

unfoldable pub dir_close : Bool → Option Dir → FileSys → Result FileSys
dir_close bounce none sys = ok sys
dir_close bounce (some dir) sys = inode_close bounce dir.inode sys

unfoldable pub dir_get_inode : Dir → ℕ
dir_get_inode dir = dir.inode

-- One round of a loop over the entries: the entry at `ofs`, when all of it could be read.
unfoldable pub read_entry : Bool → FileSys → Dir → Buffer → ℕ → Result (Bool × Buffer)
read_entry bounce sys dir e ofs = do
  (n, after) ← inode_read_at bounce sys.fs_device (sys.inodes dir.inode) e entry_size ofs
  ok (n == entry_size, after)

-- The loop of `lookup`, for at most `limit` entries: the entry and its offset.
unfoldable pub lookup_from :
    ℕ → Bool → FileSys → Dir → List ℕ → Buffer → ℕ → Result (Option (Buffer × ℕ))
lookup_from zero bounce sys dir name e ofs = panic
lookup_from (suc limit) bounce sys dir name e ofs = read_entry bounce sys dir e ofs >>= (λ r.
    let rest = lookup_from limit bounce sys dir name r.1 (ofs + entry_size) in
    if not r.0
    then ok none
    else if in_use r.1 && is_name name (name_of r.1)
    then ok (some (r.1, ofs))
    else rest)

-- The loop of `dir_add`: the entry that is free or that could not be read, and its offset.
unfoldable pub slot_from : ℕ → Bool → FileSys → Dir → Buffer → ℕ → Result (Buffer × ℕ)
slot_from zero bounce sys dir e ofs = panic
slot_from (suc limit) bounce sys dir e ofs = read_entry bounce sys dir e ofs >>= (λ r.
    let rest = slot_from limit bounce sys dir r.1 (ofs + entry_size) in
    if not r.0 then ok (r.1, ofs) else if not (in_use r.1) then ok (r.1, ofs) else rest)

-- `e` holds anything at first.
unfoldable pub lookup : ℕ → Bool → FileSys → Dir → List ℕ → Buffer → Result (Option (Buffer × ℕ))
lookup limit bounce sys dir name e = lookup_from limit bounce sys dir name e 0

unfoldable pub write_entry : Bool → FileSys → Dir → Buffer → ℕ → Result (Bool × FileSys)
write_entry bounce sys dir e ofs = do
  (n, d) ← inode_write_at bounce sys.fs_device (sys.inodes dir.inode) e entry_size ofs
  ok (n == entry_size, record sys { fs_device = d })

unfoldable pub dir_add : ℕ → Bool → FileSys → Dir → List ℕ → ℕ → Buffer → Result (Bool × FileSys)
dir_add limit bounce sys dir name sector e =
    if length name == 0 || ltb name_max (length name)
    then ok (false, sys)
    else lookup limit bounce sys dir name e >>= (λ r. elim r [
      | some x ↦ ok (false, sys)
      | none ↦ do
        (slot, ofs) ← slot_from limit bounce sys dir e 0
        write_entry bounce sys dir (filled_entry slot name sector) ofs
    ])

unfoldable pub dir_lookup : ℕ → Bool → ℕ → FileSys → Dir → List ℕ → Buffer → Result (ℕ × FileSys)
dir_lookup limit bounce fresh sys dir name e =
    lookup limit bounce sys dir name e
    >>= (λ r. elim r [ none ↦ ok (0, sys) | some x ↦ inode_open fresh (inode_sector x.0) sys ])

-- The entry with `in_use` cleared.
abbrev pub cleared_entry : Buffer → Buffer
cleared_entry e = λ o. if o == 19 then 0 else e o

-- `dir_remove` once the inode is open.
unfoldable pub erase_entry : Bool → FileSys → Dir → ℕ → Buffer → ℕ → Result (Bool × FileSys)
erase_entry bounce sys dir inode e ofs = do
  (written, mid) ← write_entry bounce sys dir (cleared_entry e) ofs
  if written
      then (do
        gone ← inode_remove inode mid
        after ← inode_close bounce inode gone
        ok (true, after))
      else (do after ← inode_close bounce inode mid; ok (false, after))

unfoldable pub dir_remove : ℕ → Bool → ℕ → FileSys → Dir → List ℕ → Buffer → Result (Bool × FileSys)
dir_remove limit bounce fresh sys dir name e = lookup limit bounce sys dir name e >>= (λ r. elim r [
  | none ↦ ok (false, sys)
  | some x ↦
      inode_open fresh (inode_sector x.0) sys
      >>= (λ i. if i.0 == 0 then ok (false, i.1) else erase_entry bounce i.1 dir i.0 x.0 x.1)
])

-- The loop of `dir_readdir`: the name in the next entry in use, and the position behind it.
unfoldable pub dir_readdir : ℕ → Bool → FileSys → Dir → Buffer → Result (Option Buffer × Dir)
dir_readdir zero bounce sys dir e = panic
dir_readdir (suc limit) bounce sys dir e = read_entry bounce sys dir e dir.pos >>= (λ r.
    let next : Dir = record dir { pos = dir.pos + entry_size } in
    let rest = dir_readdir limit bounce sys next r.1 in
    if not r.0 then ok (none, dir) else if in_use r.1 then ok (some (name_of r.1), next) else rest)
