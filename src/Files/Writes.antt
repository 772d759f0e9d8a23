-- ===== src/Files/Writes.antt =====
-- filesys/inode.c: inode_write_at().
use mathlib.Core.Path.{subst}
use cs380l.Files.Disk.{is_foreign, shape}
use cs380l.Base.{
  false, ℕ, zero, suc, ◌+◌, ◌-◌, ◌*◌, ◌/◌, ◌%◌, ◌≤◌, ◌<◌, ◌≡◌, inl, inr, refl, ap, ◌∙◌, Bool, true,
  ◌==◌, ltb, leb, ◌&&◌, ◌||◌, if◌then◌else◌, some, ok, arith, Bool-cases,
}
use cs380l.Files.Disk.{
  Buffer, Device, check_sector, block_write, block_sector_size, Inode, byte_to_sector,
}
use cs380l.Files.Sectors.{copied, chunk_size, bounced, write_chunk, write_sectors, inode_write_at}
use cs380l.Files.Reads.{OnDevice, reach, byte_to_sector_lem, block_read_lem}

-- The position in the data of the inode of byte `o` of sector `s`.
abbrev pub pos_of : Inode → ℕ → ℕ → ℕ
pos_of inode s o = (s - inode.inode_disk.start) * block_sector_size + o

abbrev pub covers : Inode → ℕ → ℕ → ℕ → ℕ → Bool
covers inode offset m s o =
    leb inode.inode_disk.start s
    && ltb o block_sector_size
    && leb offset (pos_of inode s o)
    && ltb (pos_of inode s o) (offset + m)

-- `e` is `d` with the `m` bytes from the offset on written from `buffer + n`, and nothing else changed.
pub record Written (d e : Device) (inode : Inode) (buffer : Buffer) (n m offset : ℕ) : Type 0 where
  pub same : shape e ≡ shape d
  pub content :
      (s o : ℕ)
      → e.content s o ≡ (
          if covers inode offset m s o
          then buffer (n + (pos_of inode s o - offset))
          else d.content s o)

Written-append :
    {d e f : Device} {inode : Inode} {buffer : Buffer} {n c m offset : ℕ}
    → Written d e inode buffer n c offset
    → Written e f inode buffer (n + c) m (offset + c)
    → Written d f inode buffer n (c + m) offset
Written-append {d} {e} {f} {inode} {buffer} {n} {c} {m} {offset} w v = record {
  same = v.same ∙ w.same;
  content = λ s o.
      let p = pos_of inode s o in
      let same : offset + c ≤ p → n + c + (p - (offset + c)) ≡ n + (p - offset) =
        λ q. omega arith in
      let byte : offset + c ≤ p → buffer (n + c + (p - (offset + c))) ≡ buffer (n + (p - offset)) =
        λ q. ap buffer (same q) in
      let first = w.content s o in
      let second = v.content s o in ground (arith, byte, first, second);
}

abbrev pub put : Device → ℕ → Buffer → Device
put d s b = record d {
  content = λ t o. if s == t && ltb o block_sector_size then b o else d.content t o;
}

pub block_write_lem :
    (d : Device) (s : ℕ) (b : Buffer)
    → is_foreign d.block_type ≡ false
    → s < d.size
    → block_write d s b ≡ ok (put d s b)
unfolding block_write check_sector
block_write_lem d s b native small = ground arith

-- The bytes of a round are in one sector.
covers-chunk :
    (inode : Inode) (offset c t o : ℕ)
    → c ≤ block_sector_size - offset % block_sector_size
    → covers inode offset c t o ≡ (
        inode.inode_disk.start + offset / block_sector_size == t
        && (leb (offset % block_sector_size) o && ltb o (offset % block_sector_size + c)))
covers-chunk inode offset c t o fits = ground arith

pos_of-chunk :
    (inode : Inode) (offset t o : ℕ)
    → inode.inode_disk.start + offset / block_sector_size ≡ t
    → pos_of inode t o - offset ≡ o - offset % block_sector_size
pos_of-chunk inode offset t o e = omega arith

chunk-content :
    (d : Device) (inode : Inode) (buffer sector : Buffer) (n c offset t o : ℕ)
    → c ≤ block_sector_size - offset % block_sector_size
    → let s = inode.inode_disk.start + offset / block_sector_size in
      ((i : ℕ)
        → i < block_sector_size
        → sector i ≡ copied (d.content s) (offset % block_sector_size) buffer n c i)
      → (put d s sector).content t o ≡ (
          if covers inode offset c t o
          then buffer (n + (pos_of inode t o - offset))
          else d.content t o)
chunk-content d inode buffer sector n c offset t o fits bytes =
    let s = inode.inode_disk.start + offset / block_sector_size in
    let cov = covers-chunk inode offset c t o fits in
    elim (Bool-cases (s == t)) [
      | inl same ↦
          let st : s ≡ t = ground arith in
          let byte = ap (λ i. buffer (n + i)) (pos_of-chunk inode offset t o st) in
          let cont = ap (λ x. d.content x o) st in let here = bytes o in ground arith
      | inr other ↦ rw other (rw (cov, other) refl)
    ]

write_chunk-Written :
    (d : Device) (inode : Inode) (buffer : Buffer) (n c offset : ℕ)
    → OnDevice d inode
    → offset < inode.inode_disk.length
    → c ≤ block_sector_size - offset % block_sector_size
    → (e : Device) × (write_chunk true d
          (byte_to_sector inode offset)
          (offset % block_sector_size)
          c
          buffer
          n
        ≡ ok (some e))
      × Written d e inode buffer n c offset
unfolding write_chunk bounced
write_chunk-Written d inode buffer n c offset on small fits =
    let (e, p) = byte_to_sector_lem d inode offset on small in
    let s = inode.inode_disk.start + offset / block_sector_size in
    let ofs = offset % block_sector_size in
    elim (Bool-cases (ofs == 0 && c == block_sector_size)) [
      | inl whole ↦ (
        put d s (λ o. buffer (n + o)),
        rw (e, whole, block_write_lem d s (λ o. buffer (n + o)) on.native p) refl,
        record {
          same = refl;
          content = λ t o.
              chunk-content d inode buffer (λ i. buffer (n + i)) n c offset t o fits
                (λ i q. ground arith);
        },
      )
      | inr part ↦
          let partial : (ltb 0 ofs || ltb c (block_sector_size - ofs)) ≡ true = ground arith in
          (
            put d s (copied (d.content s) ofs buffer n c),
            rw
                (
                  e,
                  part,
                  partial,
                  block_read_lem d s p,
                  block_write_lem d s (copied (d.content s) ofs buffer n c) on.native p,
                )
                refl,
            record {
              same = refl;
              content = λ t o.
                  chunk-content d inode buffer (copied (d.content s) ofs buffer n c) n c offset t o
                    fits (λ i q. refl);
            },
          )
    ]

pub OnDevice-Written :
    (d e : Device) (inode : Inode) → shape e ≡ shape d → OnDevice d inode → OnDevice e inode
OnDevice-Written d e inode same on = record {
  native = ap (λ x. is_foreign x.1) same ∙ on.native;
  inside = omega (arith, ap (λ x. x.0) same, on.inside);
  word = omega (arith, ap (λ x. x.0) same, on.word);
  offsets = on.offsets;
}

write_sectors-Written :
    (limit : ℕ) (d : Device) (inode : Inode) (buffer : Buffer) (size offset n : ℕ)
    → OnDevice d inode
    → size ≤ limit
    → let m = reach inode size offset in
      (e : Device) × (write_sectors limit true d inode buffer size offset n ≡ ok (n + m, e))
      × Written d e inode buffer n m offset
unfolding write_sectors
write_sectors-Written zero d inode buffer size offset n on fuel =
    (d, ground arith, record { same = refl; content = λ s o. ground arith })
write_sectors-Written (suc limit) d inode buffer size offset n on fuel =
    let c = chunk_size inode size offset in
    elim (Bool-cases (size == 0 || c == 0)) [
      | inl done ↦
          let none_left : reach inode size offset ≡ 0 = ground arith in
          (
            d,
            rw done (ap (λ x. ok (x, d)) (omega arith)),
            record { same = refl; content = λ s o. ground arith },
          )
      | inr more ↦
          let (e, chunk, first) =
            write_chunk-Written d inode buffer n c offset on (ground arith) (omega arith) in
          let (f, run, rest) =
            write_sectors-Written limit e inode buffer (size - c) (offset + c) (n + c)
              (OnDevice-Written d e inode first.same on) (ground arith) in
          let sum : c + reach inode (size - c) (offset + c) ≡ reach inode size offset =
            ground arith in
          (
            f,
            rw (more, chunk) (run ∙ ap (λ x. ok (x, f)) (omega arith)),
            subst (λ m. Written d f inode buffer n m offset) sum (Written-append first rest),
          )
    ]

-- When the data lie on the device, which is not foreign, no one denies writes and there is memory, inode_write_at() writes
-- the bytes from the offset on, as many as are given or as the file has room for, and no other byte of the device.
pub inode_write_at-Written :
    (d : Device) (inode : Inode) (buffer : Buffer) (size offset : ℕ)
    → OnDevice d inode
    → inode.deny_write_cnt ≡ 0
    → let n = reach inode size offset in
      (e : Device) × (inode_write_at true d inode buffer size offset ≡ ok (n, e))
      × Written d e inode buffer 0 n offset
unfolding inode_write_at
inode_write_at-Written d inode buffer size offset on allowed =
    let (e, run, w) = write_sectors-Written size d inode buffer size offset 0 on (omega arith) in
    let none_deny : (inode.deny_write_cnt == 0) ≡ true = ground arith in
    (e, rw none_deny (run ∙ ap (λ x. ok (x, e)) (omega arith)), w)
