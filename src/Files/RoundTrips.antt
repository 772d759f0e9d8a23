-- ===== src/Files/RoundTrips.antt =====
-- filesys/inode.c: inode_read_at() after inode_write_at().
use cs380l.Base.{
  ℕ, ◌+◌, ◌-◌, ◌/◌, ◌%◌, ◌<◌, ◌≡◌, ap, ◌∙◌, true, ltb, leb, ◌&&◌, if◌then◌else◌, ok, arith, lt→ltb,
}
use cs380l.Files.Disk.{Buffer, Device, block_sector_size, Inode}
use cs380l.Files.Sectors.{inode_write_at, inode_read_at}
use cs380l.Files.Reads.{OnDevice, byte_at, reach, inode_read_at-byte_at}
use cs380l.Files.Writes.{pos_of, Written, OnDevice-Written, inode_write_at-Written}

-- A byte of the file after a write.
pub byte_at-Written :
    (d e : Device) (inode : Inode) (buffer : Buffer) (m offset pos : ℕ)
    → Written d e inode buffer 0 m offset
    → byte_at e inode pos ≡ (
        if leb offset pos && ltb pos (offset + m)
        then buffer (pos - offset)
        else byte_at d inode pos)
byte_at-Written d e inode buffer m offset pos w =
    let s = inode.inode_disk.start + pos / block_sector_size in
    let here : pos_of inode s (pos % block_sector_size) ≡ pos = omega arith in
    let byte = ap (λ p. buffer (0 + (p - offset))) here in
    let zero_plus = ap buffer (zero_add (pos - offset)) in
    let at_pos = w.content s (pos % block_sector_size) in ground arith
  where
    zero_add : (x : ℕ) → 0 + x ≡ x
    zero_add x = omega arith

-- When the data lie on the device, which is not foreign, no one denies writes and there is memory: inode_read_at() after
-- inode_write_at() returns the bytes that were written where it reads these, and elsewhere the bytes that were there before.
pub inode_read_at-inode_write_at :
    (d : Device) (inode : Inode) (buffer blank : Buffer) (size offset size2 offset2 : ℕ)
    → OnDevice d inode
    → inode.deny_write_cnt ≡ 0
    → let n = reach inode size offset in
      let n2 = reach inode size2 offset2 in
      (e : Device) × (b : Buffer) × (inode_write_at true d inode buffer size offset ≡ ok (n, e))
      × (inode_read_at true e inode blank size2 offset2 ≡ ok (n2, b))
      × ((k : ℕ)
          → k < n2
          → b k ≡ (
              if leb offset (offset2 + k) && ltb (offset2 + k) (offset + n)
              then buffer (offset2 + k - offset)
              else byte_at d inode (offset2 + k)))
inode_read_at-inode_write_at d inode buffer blank size offset size2 offset2 on allowed =
    let (e, run, w) = inode_write_at-Written d inode buffer size offset on allowed in
    let (b, run2, bytes) =
      inode_read_at-byte_at e inode blank size2 offset2 (OnDevice-Written d e inode w.same on) in
    (
      e,
      b,
      run,
      run2,
      λ k small.
          bytes k
          ∙ rw (lt→ltb k (reach inode size2 offset2) small)
              (byte_at-Written d e inode buffer (reach inode size offset) offset (offset2 + k) w),
    )
