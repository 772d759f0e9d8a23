-- ===== src/Files/Reads.antt =====
-- filesys/inode.c: inode_read_at().
use Prim.Native.Nat.{min}
use cs380l.Files.Disk.{is_foreign}
use cs380l.Base.{
  false, ℕ, zero, suc, ◌+◌, ◌-◌, ◌/◌, ◌%◌, ◌^◌, ◌≤◌, ◌<◌, ◌≡◌, inl, inr, ap, ◌∙◌, true, ◌==◌, ltb,
  leb, ◌&&◌, ◌||◌, if◌then◌else◌, some, ok, arith, Bool-cases,
}
use cs380l.Files.Disk.{
  Buffer, Device, check_sector, block_read, block_sector_size, bytes_to_sectors, Inode,
  byte_to_sector,
}
use cs380l.Files.Sectors.{copied, chunk_size, read_chunk, read_sectors, inode_read_at}

-- The data of the inode lie on the device, which is not of the type BLOCK_FOREIGN.
pub record OnDevice (d : Device) (inode : Inode) : Type 0 where
  pub native : is_foreign d.block_type ≡ false
  pub inside : inode.inode_disk.start + bytes_to_sectors inode.inode_disk.length ≤ d.size
  pub word : d.size < 2 ^ 32
  pub offsets : inode.inode_disk.length < 2 ^ 31

-- Byte `pos` of the data of the inode.
abbrev pub byte_at : Device → Inode → ℕ → ℕ
byte_at d inode pos =
    d.content (inode.inode_disk.start + pos / block_sector_size) (pos % block_sector_size)

-- How many bytes there are to read or to write.
abbrev pub reach : Inode → ℕ → ℕ → ℕ
reach inode size offset = min size (inode.inode_disk.length - offset)

pub byte_to_sector_lem :
    (d : Device) (inode : Inode) (pos : ℕ)
    → OnDevice d inode
    → pos < inode.inode_disk.length
    → (byte_to_sector inode pos ≡ inode.inode_disk.start + pos / block_sector_size)
      × (inode.inode_disk.start + pos / block_sector_size < d.size)
unfolding byte_to_sector
byte_to_sector_lem d inode pos on small =
    let h : inode.inode_disk.start + pos / block_sector_size < d.size = omega (arith, on.inside) in
    let h2 = on.word in (ground arith, h)

pub block_read_lem : (d : Device) (s : ℕ) → s < d.size → block_read d s ≡ ok (d.content s)
unfolding block_read check_sector
block_read_lem d s small = ground arith

-- A position inside the same sector.
pub same_sector :
    (o i : ℕ)
    → i < block_sector_size - o % block_sector_size
    → ((o + i) / block_sector_size ≡ o / block_sector_size)
      × ((o + i) % block_sector_size ≡ o % block_sector_size + i)
same_sector o i p = (omega arith, omega arith)

pub byte_at-same_sector :
    (d : Device) (inode : Inode) (o i : ℕ)
    → i < block_sector_size - o % block_sector_size
    → byte_at d inode (o + i)
      ≡ d.content (inode.inode_disk.start + o / block_sector_size) (o % block_sector_size + i)
byte_at-same_sector d inode o i p =
    let (e, e2) = same_sector o i p in
    ap (λ s. d.content (inode.inode_disk.start + s) ((o + i) % block_sector_size)) e
    ∙ ap (d.content (inode.inode_disk.start + o / block_sector_size)) e2

read_chunk_lem :
    (d : Device) (inode : Inode) (offset chunk : ℕ)
    → OnDevice d inode
    → offset < inode.inode_disk.length
    → read_chunk true d (byte_to_sector inode offset) (offset % block_sector_size) chunk
      ≡ ok (some (d.content (inode.inode_disk.start + offset / block_sector_size)))
unfolding read_chunk
read_chunk_lem d inode offset chunk on small =
    let (e, p) = byte_to_sector_lem d inode offset on small in
    let r =
      ap (block_read d) e
      ∙ block_read_lem d (inode.inode_disk.start + offset / block_sector_size) p in
    ground arith

-- What a run of the loop from `n` on leaves in the buffer.
abbrev pub filled : Device → Inode → Buffer → ℕ → ℕ → ℕ → ℕ → ℕ
filled d inode buffer n m offset k =
    if leb n k && ltb k (n + m) then byte_at d inode (offset + (k - n)) else buffer k

filled-append :
    (d : Device) (inode : Inode) (buffer : Buffer) (n c m offset k : ℕ)
    → c ≤ block_sector_size - offset % block_sector_size
    → filled d inode
        (copied buffer n
          (d.content (inode.inode_disk.start + offset / block_sector_size))
          (offset % block_sector_size)
          c)
        (n + c)
        m
        (offset + c)
        k
      ≡ filled d inode buffer n (c + m) offset k
filled-append d inode buffer n c m offset k small = elim (Bool-cases (leb n k && ltb k (n + c))) [
  | inl first ↦ let r = byte_at-same_sector d inode offset (k - n) (ground arith) in ground arith
  | inr later ↦
      let e : n + c ≤ k → offset + c + (k - (n + c)) ≡ offset + (k - n) = λ p. omega arith in
      let r = λ (p : n + c ≤ k). ap (byte_at d inode) (e p) in ground (arith, r)
]

read_sectors_lem :
    (limit : ℕ) (d : Device) (inode : Inode) (buffer : Buffer) (size offset n : ℕ)
    → OnDevice d inode
    → size ≤ limit
    → let m = reach inode size offset in
      (b : Buffer) × (read_sectors limit true d inode buffer size offset n ≡ ok (n + m, b))
      × ((k : ℕ) → b k ≡ filled d inode buffer n m offset k)
unfolding read_sectors
read_sectors_lem zero d inode buffer size offset n on fuel =
    (buffer, ground arith, λ k. ground arith)
read_sectors_lem (suc limit) d inode buffer size offset n on fuel =
    let c = chunk_size inode size offset in
    elim (Bool-cases (size == 0 || c == 0)) [
      | inl done ↦
          let none_left : reach inode size offset ≡ 0 = ground arith in
          (buffer, rw done (ap (λ x. ok (x, buffer)) (omega arith)), λ k. ground arith)
      | inr more ↦
          let sector = d.content (inode.inode_disk.start + offset / block_sector_size) in
          let buffer2 = copied buffer n sector (offset % block_sector_size) c in
          let chunk = read_chunk_lem d inode offset c on (ground arith) in
          let (b, run, bytes) =
            read_sectors_lem limit d inode buffer2 (size - c) (offset + c) (n + c) on
              (ground arith) in
          let sum : c + reach inode (size - c) (offset + c) ≡ reach inode size offset =
            ground arith in
          (
            b,
            rw (more, chunk) (run ∙ ap (λ x. ok (x, b)) (omega arith)),
            λ k.
                bytes k
                ∙ filled-append d inode buffer n c (reach inode (size - c) (offset + c)) offset k
                    (omega arith)
                ∙ ap (λ m. filled d inode buffer n m offset k) sum,
          )
    ]

-- When the data lie on the device, which is not foreign, and there is memory, inode_read_at() reads the bytes from the offset on, as
-- many as are asked for or as the file has, and leaves the rest of the buffer as it was.
pub inode_read_at-byte_at :
    (d : Device) (inode : Inode) (buffer : Buffer) (size offset : ℕ)
    → OnDevice d inode
    → let n = reach inode size offset in
      (b : Buffer) × (inode_read_at true d inode buffer size offset ≡ ok (n, b))
      × ((k : ℕ) → b k ≡ (if ltb k n then byte_at d inode (offset + k) else buffer k))
unfolding inode_read_at
inode_read_at-byte_at d inode buffer size offset on =
    let (b, run, bytes) = read_sectors_lem size d inode buffer size offset 0 on (omega arith) in
    (b, run ∙ ap (λ x. ok (x, b)) (omega arith), λ k. bytes k ∙ ground arith)
