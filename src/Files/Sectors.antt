-- ===== src/Files/Sectors.antt =====
-- filesys/inode.c: reading and writing the data of an inode, sector by sector.
use Prim.Native.Nat.{min}
use cs380l.Base.{
  ℕ, zero, suc, ◌+◌, ◌-◌, ◌%◌, Bool, not, ◌==◌, ltb, leb, ◌&&◌, ◌||◌, if◌then◌else◌, Result, ok,
  panic, ◌>>=◌, Option, none, some,
}
use cs380l.Files.Disk.{
  Buffer, Device, block_read, block_write, block_sector_size, Inode, byte_to_sector,
}

-- `memcpy (buffer + n, source + from, cnt)`, between buffers that do not overlap.
abbrev pub copied : Buffer → ℕ → Buffer → ℕ → ℕ → Buffer
copied buffer n source from cnt =
    λ k. if leb n k && ltb k (n + cnt) then source (from + (k - n)) else buffer k

-- `chunk_size`. A negative difference in the source is 0 here, and stops the loop too.
abbrev pub chunk_size : Inode → ℕ → ℕ → ℕ
chunk_size inode size offset =
    min size
      (min (inode.inode_disk.length - offset) (block_sector_size - offset % block_sector_size))

-- The sector that a round of `inode_read_at` reads from, into the caller's buffer or the bounce buffer;
-- `none` when there is no memory for that. `fresh` says whether malloc() returns memory.
unfoldable pub read_chunk : Bool → Device → ℕ → ℕ → ℕ → Result (Option Buffer)
read_chunk fresh d sector_idx sector_ofs chunk =
    if sector_ofs == 0 && chunk == block_sector_size
    then block_read d sector_idx >>= (λ b. ok (some b))
    else if fresh
    then block_read d sector_idx >>= (λ b. ok (some b))
    else ok none

-- The loop of `inode_read_at`, for at most `limit` rounds.
unfoldable pub read_sectors : ℕ → Bool → Device → Inode → Buffer → ℕ → ℕ → ℕ → Result (ℕ × Buffer)
read_sectors zero fresh d inode buffer size offset bytes_read =
    if size == 0 then ok (bytes_read, buffer) else panic
read_sectors (suc limit) fresh d inode buffer size offset bytes_read =
    let sector_ofs = offset % block_sector_size in
    let chunk = chunk_size inode size offset in
    if size == 0 || chunk == 0
    then ok (bytes_read, buffer)
    else read_chunk fresh d (byte_to_sector inode offset) sector_ofs chunk >>= (λ r. elim r [
      | none ↦ ok (bytes_read, buffer)
      | some sector ↦
          read_sectors limit fresh d inode (copied buffer bytes_read sector sector_ofs chunk)
            (size - chunk) (offset + chunk) (bytes_read + chunk)
    ])

unfoldable pub inode_read_at : Bool → Device → Inode → Buffer → ℕ → ℕ → Result (ℕ × Buffer)
inode_read_at fresh d inode buffer size offset =
    read_sectors size fresh d inode buffer size offset 0

abbrev pub zeros : Buffer
zeros o = 0

-- What the loop of `inode_write_at` reads into its bounce buffer.
unfoldable pub bounced : Device → ℕ → Bool → Result Buffer
bounced d sector_idx partial = if partial then block_read d sector_idx else ok zeros

-- The device after the sector of a round of `inode_write_at` has been written from `buffer + n`.
unfoldable pub write_chunk : Bool → Device → ℕ → ℕ → ℕ → Buffer → ℕ → Result (Option Device)
write_chunk fresh d sector_idx sector_ofs chunk buffer n =
    let sector_left = block_sector_size - sector_ofs in
    if sector_ofs == 0 && chunk == block_sector_size
    then block_write d sector_idx (λ o. buffer (n + o)) >>= (λ e. ok (some e))
    else if fresh
    then (do
      bounce ← bounced d sector_idx (ltb 0 sector_ofs || ltb chunk sector_left)
      e ← block_write d sector_idx (copied bounce sector_ofs buffer n chunk)
      ok (some e))
    else ok none

-- The loop of `inode_write_at`, for at most `limit` rounds.
unfoldable pub write_sectors : ℕ → Bool → Device → Inode → Buffer → ℕ → ℕ → ℕ → Result (ℕ × Device)
write_sectors zero fresh d inode buffer size offset bytes_written =
    if size == 0 then ok (bytes_written, d) else panic
write_sectors (suc limit) fresh d inode buffer size offset bytes_written =
    let sector_ofs = offset % block_sector_size in
    let chunk = chunk_size inode size offset in
    if size == 0 || chunk == 0
    then ok (bytes_written, d)
    else write_chunk fresh d (byte_to_sector inode offset) sector_ofs chunk buffer bytes_written
      >>= (λ r. elim r [
        | none ↦ ok (bytes_written, d)
        | some e ↦
            write_sectors limit fresh e inode buffer (size - chunk) (offset + chunk)
              (bytes_written + chunk)
      ])

unfoldable pub inode_write_at : Bool → Device → Inode → Buffer → ℕ → ℕ → Result (ℕ × Device)
inode_write_at fresh d inode buffer size offset =
    if not (inode.deny_write_cnt == 0)
    then ok (0, d)
    else write_sectors size fresh d inode buffer size offset 0
