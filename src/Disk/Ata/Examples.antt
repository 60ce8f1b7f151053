-- ===== src/Disk/Ata/Examples.antt =====
-- A disk that is busy for two polls in front of each sector, and the transfers with it. Data that is
-- asked for or given while it is busy is lost.
use white_os.Base.{
  ℕ, zero, suc, ◌+◌, ◌-◌, ◌*◌, ◌%◌, ◌^◌, ◌≤◌, ◌<◌, bit_and, ◌≡◌, refl, ◌≢◌, ◌⊎◌, [], ◌∷◌, ◌++◌,
  arith, ◌==◌, if◌then◌else◌, replicate, false, Bool-cases, inl, inr, subst, sym,
}
use white_os.Base.Runs.{ret}
use white_os.Status.{all_ok, eio}
use white_os.Vfs.Calls.{disk_address}
use white_os.Io.{Ports}
use white_os.Disk.Transfer.{disk_read_block, disk_write_block}
use white_os.Disk.Ata.{Ata, Idle, IsAta, Same, bytes_of, sectors_of}
use white_os.Disk.Ata.Reads.{disk_read_block-Reads}
use white_os.Disk.Ata.Bytes.{AreBytes}
use white_os.Disk.Ata.Writes.{disk_read_block-disk_write_block}

-- The polls to come.
data Busy : Type 0 where
  ready_now after_one after_two : Busy

abbrev polls_left : Busy → ℕ
polls_left ready_now = 0
polls_left after_one = 1
polls_left after_two = 2

record Device : Type 0 where
  words : ℕ → ℕ
  at : ℕ
  to_send : ℕ
  to_take : ℕ
  busy : Busy
  drive : ℕ
  count : ℕ
  low : ℕ
  middle : ℕ
  high : ℕ

abbrev address : Device → ℕ
address d = d.low + 2 ^ 8 * d.middle + 2 ^ 16 * d.high + 2 ^ 24 * (d.drive % 16)

abbrev begin : Device → (command : ℕ) → Device
begin d command =
    if command == 0x20
    then record d {
      at = address d * 256;
      to_send = sectors_of d.count * 256;
      to_take = 0;
      busy = after_two;
    }
    else record d {
      at = address d * 256;
      to_send = 0;
      to_take = sectors_of d.count * 256;
      busy = after_two;
    }

abbrev write_register : Device → (port value : ℕ) → Device
write_register d port value =
    if port == 0x1F6
    then record d { drive = value }
    else (if port == 0x1F2
        then record d { count = value }
        else (if port == 0x1F3
            then record d { low = value }
            else (if port == 0x1F4
                then record d { middle = value }
                else (if port == 0x1F5 then record d { high = value } else begin d value))))

-- The words left, and those of them that belong to the sector.
abbrev words_left : Device → ℕ
words_left d = d.to_send + d.to_take

abbrev rest_of_sector : ℕ → ℕ
rest_of_sector n = if n == 0 then 0 else (n + 255) % 256 + 1

-- DRDY with DRQ or without it, and BSY.
abbrev poll : Busy → Device → ℕ × Device
poll ready_now d = (if words_left d == 0 then 0x50 else 0x58, d)
poll after_one d = (0x80, record d { busy = ready_now })
poll after_two d = (0x80, record d { busy = after_one })

-- Busy again behind the last word of a sector.
abbrev behind_word : (left : ℕ) → Busy
behind_word left = if (left + 255) % 256 == 0 then after_two else ready_now

abbrev read_word : Busy → Device → ℕ × Device
read_word ready_now d = (
  d.words d.at,
  record d { at = d.at + 1; to_send = d.to_send - 1; busy = behind_word (words_left d) },
)
read_word after_one d = (0xffff, d)
read_word after_two d = (0xffff, d)

abbrev write_word : Busy → Device → ℕ → Device
write_word ready_now d w = record d {
  words = λ k. if k == d.at then w else d.words k;
  at = d.at + 1;
  to_take = d.to_take - 1;
  busy = behind_word (words_left d);
}
write_word after_one d w = d
write_word after_two d w = d

abbrev block_of : Busy → ℕ → ℕ
block_of ready_now n = rest_of_sector n
block_of after_one n = 0
block_of after_two n = 0

abbrev ports : Ports Device
ports = record {
  outb = write_register;
  outw = λ d port w. write_word d.busy d w;
  insb = λ d port. poll d.busy d;
  insw = λ d port. read_word d.busy d;
}

polls_left-le : (b : Busy) → polls_left b ≤ 2
polls_left-le ready_now = omega arith
polls_left-le after_one = omega arith
polls_left-le after_two = omega arith

abbrev ata : Ata ports
ata = record {
  word = λ d. d.words;
  next = λ d. d.at;
  sending = λ d. d.to_send;
  taking = λ d. d.to_take;
  block = λ d. block_of d.busy (words_left d);
  waits = λ d. polls_left d.busy;
  patience = 2;
  waits-le = λ d. polls_left-le d.busy;
}

polls : (b : Busy) (d : Device) → Same ports ata d (poll b d).1
polls ready_now d = record {
  word_same = λ k. refl;
  next_same = refl;
  sending_same = refl;
  taking_same = refl;
}
polls after_one d = record {
  word_same = λ k. refl;
  next_same = refl;
  sending_same = refl;
  taking_same = refl;
}
polls after_two d = record {
  word_same = λ k. refl;
  next_same = refl;
  sending_same = refl;
  taking_same = refl;
}

nonzero : (n : ℕ) → 0 < n → (n == 0) ≡ false
nonzero n h = ground arith

status : (n : ℕ) → 0 < n → bit_and (if n == 0 then 0x50 else 0x58) 8 ≢ 0
status n h = rw (nonzero n h) (omega arith)

rest_lem : (n : ℕ) → 0 < n → 0 < rest_of_sector n
rest_lem n h = ground arith

polls_shown :
    (b : Busy) (d : Device)
    → d.busy ≡ b
    → bit_and (poll b d).0 8 ≢ 0
    → 0 < block_of (poll b d).1.busy (words_left (poll b d).1)
polls_shown ready_now d e h = elim (Bool-cases (words_left d == 0)) [
  | inl z ↦ absurd (h (rw z refl))
  | inr z ↦
      subst (λ b. 0 < block_of b (words_left d)) (sym e)
        (rest_lem (words_left d) (ground (arith, z)))
]
polls_shown after_one d e h = absurd (h refl)
polls_shown after_two d e h = absurd (h refl)

polls_ready :
    (b : Busy) (d : Device) → 0 < words_left d → polls_left b ≡ 0 → bit_and (poll b d).0 8 ≢ 0
polls_ready ready_now d p e = status (words_left d) p
polls_ready after_one d p e = absurd (omega arith)
polls_ready after_two d p e = absurd (omega arith)

polls_sooner :
    (b : Busy) (d : Device) (n : ℕ)
    → d.busy ≡ b
    → polls_left b ≡ suc n
    → polls_left (poll b d).1.busy ≡ n
polls_sooner ready_now d n s e = absurd (omega arith)
polls_sooner after_one d n s e = omega arith
polls_sooner after_two d n s e = omega arith

block_rest : (b : Busy) (n : ℕ) → 0 < block_of b n → n % 256 ≡ block_of b n % 256
block_rest ready_now n h = ground arith
block_rest after_one n h = absurd (omega arith)
block_rest after_two n h = absurd (omega arith)

-- What holds while a block is ready holds where the disk is not busy.
when_ready : (P : Busy → Type 0) (b : Busy) (n : ℕ) → P ready_now → 0 < block_of b n → P b
when_ready P ready_now n p h = p
when_ready P after_one n p h = absurd (omega arith)
when_ready P after_two n p h = absurd (omega arith)

not_done : (n : ℕ) → 1 < rest_of_sector n → ((n + 255) % 256 == 0) ≡ false
not_done n h = ground arith

rest_step :
    (n left : ℕ) → 1 < rest_of_sector n → left + 1 ≡ n → rest_of_sector left + 1 ≡ rest_of_sector n
rest_step n left h e = ground arith

block_behind :
    (n left : ℕ)
    → 1 < rest_of_sector n
    → left + 1 ≡ n
    → block_of (behind_word n) left + 1 ≡ rest_of_sector n
block_behind n left h e = rw (not_done n h) (rest_step n left h e)

fields :
    (upper count low middle high : ℕ)
    → upper < 16
    → (low + 2 ^ 8 * middle + 2 ^ 16 * high + 2 ^ 24 * ((0xE0 + upper) % 16)) * 256
      ≡ (low + 2 ^ 8 * middle + 2 ^ 16 * high + 2 ^ 24 * upper) * 256
fields upper count low middle high h = omega arith

read_block :
    (b : Busy) (d : Device)
    → 1 < block_of b (words_left d)
    → 0 < d.to_send
    → block_of (read_word b d).1.busy (words_left (read_word b d).1) + 1 ≡ block_of b (words_left d)
read_block ready_now d h p = block_behind (words_left d) _ h (omega arith)
read_block after_one d h p = absurd (omega arith)
read_block after_two d h p = absurd (omega arith)

write_block :
    (b : Busy) (d : Device) (w : ℕ)
    → 1 < block_of b (words_left d)
    → 0 < d.to_take
    → block_of (write_word b d w).busy (words_left (write_word b d w)) + 1
      ≡ block_of b (words_left d)
write_block ready_now d w h p = block_behind (words_left d) _ h (omega arith)
write_block after_one d w h p = absurd (omega arith)
write_block after_two d w h p = absurd (omega arith)

ata-IsAta : IsAta ports ata
ata-IsAta = record {
  reads = λ d upper count low middle high z u c l m h. record {
    word_kept = λ k. refl;
    next_at = fields upper count low middle high u;
    sends_at = refl;
    takes_at = refl;
  };
  writes = λ d upper count low middle high z u c l m h. record {
    word_kept = λ k. refl;
    next_at = fields upper count low middle high u;
    sends_at = refl;
    takes_at = refl;
  };
  polled = λ d. polls d.busy d;
  shown = λ d h. polls_shown d.busy d refl h;
  ready = λ d p z. polls_ready d.busy d p z;
  sooner = λ d n z. polls_sooner d.busy d n refl z;
  block_rest = λ d h. block_rest d.busy (words_left d) h;
  sent = λ d h p. when_ready (λ b. (read_word b d).0 ≡ d.words d.at) d.busy _ refl h;
  sent_word = λ d k h p. when_ready (λ b. (read_word b d).1.words k ≡ d.words k) d.busy _ refl h;
  sent_next = λ d h p. when_ready (λ b. (read_word b d).1.at ≡ d.at + 1) d.busy _ refl h;
  sent_left =
      λ d h p. when_ready (λ b. (read_word b d).1.to_send + 1 ≡ d.to_send) d.busy _ (omega arith) h;
  sent_taking = λ d h p. when_ready (λ b. (read_word b d).1.to_take ≡ d.to_take) d.busy _ refl h;
  sent_block = λ d h p. read_block d.busy d h p;
  taken = λ d w k s h p.
      when_ready (λ b. (write_word b d w).words k ≡ (if k == d.at then w else d.words k)) d.busy _
        refl h;
  taken_next = λ d w h p. when_ready (λ b. (write_word b d w).at ≡ d.at + 1) d.busy _ refl h;
  taken_left = λ d w h p.
      when_ready (λ b. (write_word b d w).to_take + 1 ≡ d.to_take) d.busy _ (omega arith) h;
  taken_sending =
      λ d w h p. when_ready (λ b. (write_word b d w).to_send ≡ d.to_send) d.busy _ refl h;
  taken_block = λ d w h p. write_block d.busy d w h p;
}

abbrev idle : Device
idle = record {
  words = λ k. k % 65536;
  at = 0;
  to_send = 0;
  to_take = 0;
  busy = ready_now;
  drive = 0;
  count = 0;
  low = 0;
  middle = 0;
  high = 0;
}

disk_read_block-Reads_example :
    (d' : Device) × (disk_read_block ports 3 disk_address 2 1 (replicate 513 7) idle
      ≡ ret (all_ok, bytes_of idle.words 512 256 ++ 7 ∷ [], d'))
    × ((k : ℕ) → d'.words k ≡ idle.words k)
disk_read_block-Reads_example =
    disk_read_block-Reads ports ata ata-IsAta 3 2 1 (replicate 513 7) idle (omega arith) refl
      (omega arith) (omega arith) (omega arith) (omega arith)

-- The disk is not busy any more.
abbrev settle : Device → Device
settle d = record d { busy = ready_now }

settle-Idle : (e : Device) → e.to_send ≡ 0 → e.to_take ≡ 0 → Idle ports (settle e)
settle-Idle e s t = rw (s, t) refl

sevens-AreBytes : (n : ℕ) → AreBytes (replicate n 7)
sevens-AreBytes zero = tt
sevens-AreBytes (suc n) = (omega arith, sevens-AreBytes n)

disk_read_block-disk_write_block_example :
    (d1 d2 : Device) × (disk_write_block ports 3 disk_address 5 2 (replicate 1024 7) idle
      ≡ ret (all_ok, d1))
    × (disk_read_block ports 3 disk_address 5 2 (replicate 1024 0) (settle d1)
        ≡ ret (all_ok, replicate 1024 7, d2))
    × ((k : ℕ) → (k < 1280) ⊎ (1792 ≤ k) → d2.words k ≡ idle.words k)
disk_read_block-disk_write_block_example =
    disk_read_block-disk_write_block ports ata ata-IsAta 3 5 2 (replicate 1024 7) (replicate 1024 0)
      idle settle settle-Idle (λ e k. refl) (omega arith) refl (omega arith) (omega arith)
      (omega arith) (sevens-AreBytes 1024) (omega arith) (omega arith)

-- Another pointer than that of the disk is refused.
other_disk : disk_read_block ports 3 7 5 2 [] idle ≡ ret (eio, [], idle)
unfolding disk_read_block
other_disk = refl
