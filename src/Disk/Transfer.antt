-- ===== src/Disk/Transfer.antt =====
-- The transfers of src/disk/disk.c: sectors of a disk that is reached through ports. A buffer is the
-- list of its bytes, and an access outside it is `fault`. `fuel` bounds the polls of the status
-- before each sector.
use white_os.Base.{
  ℕ, zero, suc, ◌+◌, ◌*◌, ◌/◌, ◌%◌, ◌^◌, bit_and, bit_or, true, false, List, ◌==◌, if◌then◌else◌,
  get_elem?, store,
}
use white_os.Base.Int.{ℤ}
use white_os.Base.Runs.{Run, ret, running, ◌>>=◌, reach}
use white_os.Status.{all_ok, eio}
use white_os.Vfs.Calls.{disk_address}
use white_os.Io.{Ports}

module _ {D : Type 0} (ports : Ports D) where
  -- The six bytes that start a command, each cut to a byte.
  unfoldable pub start_command : D → (lba total command : ℕ) → D
  start_command d lba total command =
      let d1 = ports.outb d 0x1F6 (bit_or (lba / 2 ^ 24 % 256) 0xE0) in
      let d2 = ports.outb d1 0x1F2 (total % 256) in
      let d3 = ports.outb d2 0x1F3 (lba % 256) in
      let d4 = ports.outb d3 0x1F4 (lba / 2 ^ 8 % 256) in
      let d5 = ports.outb d4 0x1F5 (lba / 2 ^ 16 % 256) in ports.outb d5 0x1F7 command

  -- Reading the status until its bit 3 is set.
  unfoldable pub wait_loop : (fuel : ℕ) → D → Run D
  wait_loop zero d = running
  wait_loop (suc fuel) d =
      let (c, d') = ports.insb d 0x1F7 in
      elim (bit_and c 0x08 == 0) [ true ↦ wait_loop fuel d' | false ↦ ret d' ]

  -- The words of a sector, the next of them for the `i`-th `short` of the buffer.
  unfoldable pub read_words : (left i : ℕ) → List ℕ → D → Run (List ℕ × D)
  read_words zero i buf d = ret (buf, d)
  read_words (suc left) i buf d =
      let (w, d') = ports.insw d 0x1F0 in
      do
        buf1 ← reach (store buf (2 * i) (w % 256))
        buf2 ← reach (store buf1 (2 * i + 1) (w / 256 % 256))
        read_words left (i + 1) buf2 d'

  unfoldable pub read_sectors : (fuel left i : ℕ) → List ℕ → D → Run (List ℕ × D)
  read_sectors fuel zero i buf d = ret (buf, d)
  read_sectors fuel (suc left) i buf d = do
    d1 ← wait_loop fuel d
    (buf', d2) ← read_words 256 i buf d1
    read_sectors fuel left (i + 256) buf' d2

  unfoldable pub disk_read_sector : (fuel lba total : ℕ) → List ℕ → D → Run (ℤ × List ℕ × D)
  disk_read_sector fuel lba total buf d = do
    (buf', d') ← read_sectors fuel total 0 buf (start_command d lba total 0x20)
    ret (all_ok, buf', d')

  unfoldable pub write_words : (left i : ℕ) → List ℕ → D → Run D
  write_words zero i buf d = ret d
  write_words (suc left) i buf d = do
    low ← reach (get_elem? buf (2 * i))
    high ← reach (get_elem? buf (2 * i + 1))
    write_words left (i + 1) buf (ports.outw d 0x1F0 (low + 256 * high))

  unfoldable pub write_sectors : (fuel left i : ℕ) → List ℕ → D → Run D
  write_sectors fuel zero i buf d = ret d
  write_sectors fuel (suc left) i buf d = do
    d1 ← wait_loop fuel d
    d2 ← write_words 256 i buf d1
    write_sectors fuel left (i + 256) buf d2

  unfoldable pub disk_write_sector : (fuel lba total : ℕ) → List ℕ → D → Run (ℤ × D)
  disk_write_sector fuel lba total buf d = do
    d' ← write_sectors fuel total 0 buf (start_command d lba total 0x30)
    ret (all_ok, d')

  -- `idisk` is an address; the one disk is at `disk_address`.
  unfoldable pub disk_read_block : (fuel idisk lba total : ℕ) → List ℕ → D → Run (ℤ × List ℕ × D)
  disk_read_block fuel idisk lba total buf d =
      if idisk == disk_address then disk_read_sector fuel lba total buf d else ret (eio, buf, d)

  unfoldable pub disk_write_block : (fuel idisk lba total : ℕ) → List ℕ → D → Run (ℤ × D)
  disk_write_block fuel idisk lba total buf d =
      if idisk == disk_address then disk_write_sector fuel lba total buf d else ret (eio, d)
