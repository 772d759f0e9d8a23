-- ===== src/Files/Totals.antt =====
-- filesys/inode.c: inode_write_at() returns, with and without memory for a bounce buffer.
use mathlib.Core.Path.{subst}
use cs380l.Files.Disk.{shape}
use cs380l.Base.{
  ℕ, zero, suc, ◌+◌, ◌-◌, ◌/◌, ◌%◌, ◌≤◌, ◌<◌, ◌≡◌, inl, inr, refl, ◌∙◌, Bool, true, false, ◌==◌,
  ltb, ◌&&◌, ◌||◌, Option, none, some, ok, arith, Bool-cases, Option-cases,
}
use cs380l.Files.Disk.{Buffer, Device, Inode, block_sector_size, byte_to_sector}
use cs380l.Files.Sectors.{
  chunk_size, copied, bounced, zeros, write_chunk, write_sectors, inode_write_at,
}
use cs380l.Files.Reads.{OnDevice, byte_to_sector_lem, block_read_lem}
use cs380l.Files.Writes.{put, block_write_lem, OnDevice-Written}

-- The device is as large, and of the same type, as before.
abbrev Sized : Device → Option Device → Type 0
Sized d none = Unit
Sized d (some e) = shape e ≡ shape d

bounced_total :
    (d : Device) (s : ℕ) (partial : Bool) → s < d.size → (b : Buffer) × (bounced d s partial ≡ ok b)
unfolding bounced
bounced_total d s true small = (d.content s, block_read_lem d s small)
bounced_total d s false small = (zeros, refl)

write_chunk_total :
    (bounce : Bool) (d : Device) (inode : Inode) (offset c n : ℕ) (buffer : Buffer)
    → OnDevice d inode
    → offset < inode.inode_disk.length
    → (r : Option Device) × (write_chunk bounce d
          (byte_to_sector inode offset)
          (offset % block_sector_size)
          c
          buffer
          n
        ≡ ok r)
      × Sized d r
unfolding write_chunk
write_chunk_total bounce d inode offset c n buffer on small =
    let (e, p) = byte_to_sector_lem d inode offset on small in
    let s = inode.inode_disk.start + offset / block_sector_size in
    let ofs = offset % block_sector_size in
    let partial = ltb 0 ofs || ltb c (block_sector_size - ofs) in
    let (b, run) = bounced_total d s partial p in
    elim (Bool-cases (ofs == 0 && c == block_sector_size)) [
      | inl whole ↦ (
        some (put d s (λ o. buffer (n + o))),
        rw (e, whole, block_write_lem d s (λ o. buffer (n + o)) on.native p) refl,
        refl,
      )
      | inr part ↦ elim (Bool-cases bounce) [
        | inl got ↦ (
          some (put d s (copied b ofs buffer n c)),
          rw (e, part, got, run, block_write_lem d s (copied b ofs buffer n c) on.native p) refl,
          refl,
        )
        | inr no_memory ↦ (none, rw (part, no_memory) refl, tt)
      ]
    ]

write_sectors_total :
    (limit : ℕ) (bounce : Bool) (d : Device) (inode : Inode) (buffer : Buffer) (size offset n : ℕ)
    → OnDevice d inode
    → size ≤ limit
    → (r : ℕ × Device) × (write_sectors limit bounce d inode buffer size offset n ≡ ok r)
      × (shape r.1 ≡ shape d)
unfolding write_sectors
write_sectors_total zero bounce d inode buffer size offset n on fuel = ((n, d), ground arith, refl)
write_sectors_total (suc limit) bounce d inode buffer size offset n on fuel =
    let c = chunk_size inode size offset in
    elim (Bool-cases (size == 0 || c == 0)) [
      | inl done ↦ ((n, d), rw done refl, refl)
      | inr more ↦
          let (r, run, sized) =
            write_chunk_total bounce d inode offset c n buffer on (ground arith) in
          elim (Option-cases r) [
            | inl none_written ↦ ((n, d), rw (more, run, none_written) refl, refl)
            | inr (e, written) ↦
                let same : shape e ≡ shape d = subst (Sized d) written sized in
                let (q, run2, same2) =
                  write_sectors_total limit bounce e inode buffer (size - c) (offset + c) (n + c)
                    (OnDevice-Written d e inode same on) (ground arith) in
                (q, rw (more, run, written) run2, same2 ∙ same)
          ]
    ]

pub inode_write_at_total :
    (bounce : Bool) (d : Device) (inode : Inode) (buffer : Buffer) (size offset : ℕ)
    → OnDevice d inode
    → (r : ℕ × Device) × (inode_write_at bounce d inode buffer size offset ≡ ok r)
      × (shape r.1 ≡ shape d)
unfolding inode_write_at
inode_write_at_total bounce d inode buffer size offset on =
    elim (Bool-cases (inode.deny_write_cnt == 0)) [
      | inr denied ↦ ((0, d), rw denied refl, refl)
      | inl allowed ↦
          let (r, run, same) =
            write_sectors_total size bounce d inode buffer size offset 0 on (omega arith) in
          (r, rw allowed run, same)
    ]
