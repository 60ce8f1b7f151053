-- ===== src/Disk/Ata.antt =====
-- What src/disk/disk.c relies on of the disk behind the ports: the transfers of words that the ATA
-- standard describes for commands 0x20 and 0x30. A command is taken while the status shows neither
-- BSY nor DRQ, and data moves only while the disk is ready for a block, which it shows by DRQ and
-- which is what is left of a sector. The contents are addressed by 16-bit words, 256 to a sector.
pub mod Bytes
pub mod Steps
pub mod Reads
pub mod Writes
mod Examples
use white_os.Base.{
  ℕ, zero, suc, ◌+◌, ◌*◌, ◌/◌, ◌%◌, ◌^◌, ◌≤◌, ◌<◌, bit_and, bit_or, ◌≡◌, refl, ◌≢◌, true, List, [],
  ◌∷◌, arith, ◌==◌, ==_iff, if◌then◌else◌,
}
use white_os.Io.{Ports}
use white_os.Disk.Transfer.{start_command}

-- A count of 0 stands for 256 sectors.
abbrev pub sectors_of : ℕ → ℕ
sectors_of count = if count == 0 then 256 else count

-- The bytes of a command as the disk takes them from its registers.
abbrev pub commanded : {D : Type 0} → Ports D → D → (upper count low middle high command : ℕ) → D
commanded ports d upper count low middle high command =
    ports.outb
      (ports.outb
        (ports.outb
          (ports.outb (ports.outb (ports.outb d 0x1F6 (0xE0 + upper)) 0x1F2 count) 0x1F3 low) 0x1F4
          middle)
        0x1F5 high)
      0x1F7 command

module _ {D : Type 0} (ports : Ports D) where
  -- The status shows neither BSY nor DRQ: the disk takes a command.
  abbrev pub Idle : D → Type 0
  Idle d = bit_and (ports.insb d 0x1F7).0 0x88 ≡ 0

  -- A disk: the words that it holds, the next word of a transfer, the words left to send and to take,
  -- the words of the data block that it is ready for now, 0 while it is not, and the polls that it
  -- needs before it is ready, which are bounded.
  pub record Ata : Type 0 where
    pub word : D → ℕ → ℕ
    pub next : D → ℕ
    pub sending : D → ℕ
    pub taking : D → ℕ
    pub block : D → ℕ
    pub waits : D → ℕ
    pub patience : ℕ
    pub waits-le : (d : D) → waits d ≤ patience

  -- Nothing but the polls and the readiness differs.
  pub record Same (disk : Ata) (d d' : D) : Type 0 where
    pub word_same : (k : ℕ) → disk.word d' k ≡ disk.word d k
    pub next_same : disk.next d' ≡ disk.next d
    pub sending_same : disk.sending d' ≡ disk.sending d
    pub taking_same : disk.taking d' ≡ disk.taking d

  -- A command has been taken.
  pub record Started (disk : Ata) (d d' : D) (lba sends takes : ℕ) : Type 0 where
    pub word_kept : (k : ℕ) → disk.word d' k ≡ disk.word d k
    pub next_at : disk.next d' ≡ lba * 256
    pub sends_at : disk.sending d' ≡ sends
    pub takes_at : disk.taking d' ≡ takes

  pub record IsAta (disk : Ata) : Type 0 where
    pub reads :
        (d : D) (upper count low middle high : ℕ)
        → Idle d
        → upper < 16
        → count < 256
        → low < 256
        → middle < 256
        → high < 256
        → Started disk d
            (commanded ports d upper count low middle high 0x20)
            (low + 2 ^ 8 * middle + 2 ^ 16 * high + 2 ^ 24 * upper)
            (sectors_of count * 256)
            0
    pub writes :
        (d : D) (upper count low middle high : ℕ)
        → Idle d
        → upper < 16
        → count < 256
        → low < 256
        → middle < 256
        → high < 256
        → Started disk d
            (commanded ports d upper count low middle high 0x30)
            (low + 2 ^ 8 * middle + 2 ^ 16 * high + 2 ^ 24 * upper)
            0
            (sectors_of count * 256)
    -- A poll of the status changes nothing but what the next polls show; a block that is shown as ready
    -- stays so.
    pub polled : (d : D) → Same disk d (ports.insb d 0x1F7).1
    pub shown :
        (d : D) → bit_and (ports.insb d 0x1F7).0 0x08 ≢ 0 → 0 < disk.block (ports.insb d 0x1F7).1
    -- DRQ is set when no more polls are needed.
    pub ready :
        (d : D)
        → 0 < disk.sending d + disk.taking d
        → disk.waits d ≡ 0
        → bit_and (ports.insb d 0x1F7).0 0x08 ≢ 0
    pub sooner : (d : D) (n : ℕ) → disk.waits d ≡ suc n → disk.waits (ports.insb d 0x1F7).1 ≡ n
    -- A block is what is left of a sector.
    pub block_rest :
        (d : D) → 0 < disk.block d → (disk.sending d + disk.taking d) % 256 ≡ disk.block d % 256
    -- The next word, while the disk is ready and words are left to send.
    pub sent :
        (d : D)
        → 0 < disk.block d
        → 0 < disk.sending d
        → (ports.insw d 0x1F0).0 ≡ disk.word d (disk.next d)
    pub sent_word :
        (d : D) (k : ℕ)
        → 0 < disk.block d
        → 0 < disk.sending d
        → disk.word (ports.insw d 0x1F0).1 k ≡ disk.word d k
    pub sent_next :
        (d : D)
        → 0 < disk.block d
        → 0 < disk.sending d
        → disk.next (ports.insw d 0x1F0).1 ≡ disk.next d + 1
    pub sent_left :
        (d : D)
        → 0 < disk.block d
        → 0 < disk.sending d
        → disk.sending (ports.insw d 0x1F0).1 + 1 ≡ disk.sending d
    pub sent_taking :
        (d : D)
        → 0 < disk.block d
        → 0 < disk.sending d
        → disk.taking (ports.insw d 0x1F0).1 ≡ disk.taking d
    pub sent_block :
        (d : D)
        → 1 < disk.block d
        → 0 < disk.sending d
        → disk.block (ports.insw d 0x1F0).1 + 1 ≡ disk.block d
    -- A word is put in place, while the disk is ready and words are left to take.
    pub taken :
        (d : D) (w k : ℕ)
        → w < 2 ^ 16
        → 0 < disk.block d
        → 0 < disk.taking d
        → disk.word (ports.outw d 0x1F0 w) k ≡ (if k == disk.next d then w else disk.word d k)
    pub taken_next :
        (d : D) (w : ℕ)
        → 0 < disk.block d
        → 0 < disk.taking d
        → disk.next (ports.outw d 0x1F0 w) ≡ disk.next d + 1
    pub taken_left :
        (d : D) (w : ℕ)
        → 0 < disk.block d
        → 0 < disk.taking d
        → disk.taking (ports.outw d 0x1F0 w) + 1 ≡ disk.taking d
    pub taken_sending :
        (d : D) (w : ℕ)
        → 0 < disk.block d
        → 0 < disk.taking d
        → disk.sending (ports.outw d 0x1F0 w) ≡ disk.sending d
    pub taken_block :
        (d : D) (w : ℕ)
        → 1 < disk.block d
        → 0 < disk.taking d
        → disk.block (ports.outw d 0x1F0 w) + 1 ≡ disk.block d

-- The two bytes of each word, the lower one first.
abbrev pub bytes_of : (ℕ → ℕ) → (from count : ℕ) → List ℕ
bytes_of f k zero = []
bytes_of f k (suc n) = (f k % 256) ∷ (f k / 256 % 256) ∷ bytes_of f (k + 1) n
