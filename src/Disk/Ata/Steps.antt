-- ===== src/Disk/Ata/Steps.antt =====
-- The start of a command, and the wait for the disk.
use white_os.Base.{
  ℕ, zero, suc, ◌+◌, ◌*◌, ◌/◌, ◌%◌, ◌^◌, ◌≤◌, ◌<◌, bit_and, bit_or, ◌≡◌, refl, sym, ap, ◌∙◌, subst,
  inl, inr, true, arith, ◌==◌, ==_iff, Bool-cases,
}
use white_os.Base.Bits.{all_below, all_below_lem}
use white_os.Base.Runs.{ret}
use white_os.Io.{Ports}
use white_os.Disk.Transfer.{start_command, wait_loop}
use white_os.Disk.Ata.{Ata, Idle, IsAta, Same, Started, commanded, sectors_of}

-- The upper four bits of the address share a byte with the drive.
drive_table : all_below 16 (λ a. bit_or a 0xE0 == 0xE0 + a) ≡ true
unfolding all_below
drive_table = refl

drive_bits : (a : ℕ) → a < 16 → bit_or a 0xE0 ≡ 0xE0 + a
drive_bits a h = (==_iff _ _).0 (all_below_lem 16 _ a drive_table h)

module _ {D : Type 0} (ports : Ports D) where
  start_command-commanded :
      (d : D) (lba total command : ℕ)
      → lba < 2 ^ 28
      → start_command ports d lba total command
        ≡ commanded ports d
            (lba / 2 ^ 24)
            (total % 256)
            (lba % 256)
            (lba / 2 ^ 8 % 256)
            (lba / 2 ^ 16 % 256)
            command
  unfolding start_command
  start_command-commanded d lba total command h =
      ap
        (λ v.
          ports.outb
            (ports.outb
              (ports.outb
                (ports.outb (ports.outb (ports.outb d 0x1F6 v) 0x1F2 (total % 256)) 0x1F3
                  (lba % 256))
                0x1F4 (lba / 2 ^ 8 % 256))
              0x1F5 (lba / 2 ^ 16 % 256))
            0x1F7 command)
        (ap (λ a. bit_or a 0xE0) small ∙ drive_bits (lba / 2 ^ 24) (omega arith))
    where
      small : lba / 2 ^ 24 % 256 ≡ lba / 2 ^ 24
      small = omega arith

  module _ (disk : Ata ports) (is : IsAta ports disk) where
    sectors : (total : ℕ) → 0 < total → total ≤ 256 → sectors_of (total % 256) ≡ total
    sectors total h l = ground arith

    -- A command that is started with the fields of an address and a count starts with these.
    starts :
        (command : ℕ) (sends takes : ℕ → ℕ)
        → ((d : D) (upper count low middle high : ℕ)
            → Idle ports d
            → upper < 16
            → count < 256
            → low < 256
            → middle < 256
            → high < 256
            → Started ports disk d
                (commanded ports d upper count low middle high command)
                (low + 2 ^ 8 * middle + 2 ^ 16 * high + 2 ^ 24 * upper)
                (sends (sectors_of count))
                (takes (sectors_of count)))
        → (d : D) (lba total : ℕ) → Idle ports d
        → lba < 2 ^ 28
        → 0 < total
        → total ≤ 256
        → Started ports disk d
            (start_command ports d lba total command)
            lba
            (sends total)
            (takes total)
    starts command sends takes law d lba total z h p l =
        subst (λ e. Started ports disk d e lba (sends total) (takes total))
          (sym (start_command-commanded d lba total command h))
          (subst (λ n. Started ports disk d registers n (sends total) (takes total)) whole
            (subst (λ n. Started ports disk d registers fields (sends n) (takes n))
              (sectors total p l)
              (law d (lba / 2 ^ 24) (total % 256) (lba % 256) (lba / 2 ^ 8 % 256)
                (lba / 2 ^ 16 % 256) z (omega arith) (omega arith) (omega arith) (omega arith)
                (omega arith))))
      where
        registers : D
        registers =
            commanded ports d (lba / 2 ^ 24) (total % 256) (lba % 256) (lba / 2 ^ 8 % 256)
              (lba / 2 ^ 16 % 256) command

        fields : ℕ
        fields =
            lba % 256
            + 2 ^ 8 * (lba / 2 ^ 8 % 256)
            + 2 ^ 16 * (lba / 2 ^ 16 % 256)
            + 2 ^ 24 * (lba / 2 ^ 24)

        whole : fields ≡ lba
        whole = omega arith

    pub starts_read :
        (d : D) (lba total : ℕ)
        → Idle ports d
        → lba < 2 ^ 28
        → 0 < total
        → total ≤ 256
        → Started ports disk d (start_command ports d lba total 0x20) lba (total * 256) 0
    starts_read = starts 0x20 (λ n. n * 256) (λ n. 0) is.reads

    pub starts_write :
        (d : D) (lba total : ℕ)
        → Idle ports d
        → lba < 2 ^ 28
        → 0 < total
        → total ≤ 256
        → Started ports disk d (start_command ports d lba total 0x30) lba 0 (total * 256)
    starts_write = starts 0x30 (λ n. 0) (λ n. n * 256) is.writes

    Same-trans : (d e f : D) → Same ports disk d e → Same ports disk e f → Same ports disk d f
    Same-trans d e f s t = record {
      word_same = λ k. t.word_same k ∙ s.word_same k;
      next_same = t.next_same ∙ s.next_same;
      sending_same = t.sending_same ∙ s.sending_same;
      taking_same = t.taking_same ∙ s.taking_same;
    }

    -- The status is read until the disk is ready for a block, at most as often as the disk needs.
    pub wait_loop-Same :
        (fuel : ℕ) (d : D)
        → disk.waits d < fuel
        → 0 < disk.sending d + disk.taking d
        → (d' : D) × (wait_loop ports fuel d ≡ ret d') × Same ports disk d d' × (0 < disk.block d')
    unfolding wait_loop
    wait_loop-Same zero d h p = absurd (omega arith)
    wait_loop-Same (suc fuel) d h p = elim (Bool-cases (bit_and (ports.insb d 0x1F7).0 0x08 == 0)) [
      | inl busy ↦
          let polled = is.polled d in
          let (d', e, same, ready) =
            wait_loop-Same fuel (ports.insb d 0x1F7).1 (fewer (disk.waits d) refl busy)
              (omega (arith, polled.sending_same, polled.taking_same)) in
          (d', rw (busy, wait_loop) e, Same-trans d (ports.insb d 0x1F7).1 d' polled same, ready)
      | inr done ↦ (
        (ports.insb d 0x1F7).1,
        rw (done, wait_loop) refl,
        is.polled d,
        is.shown d (λ z. cc (done, (==_iff _ _).1 z)),
      )
    ]
      where
        fewer :
            (n : ℕ)
            → disk.waits d ≡ n
            → (bit_and (ports.insb d 0x1F7).0 0x08 == 0) ≡ true
            → disk.waits (ports.insb d 0x1F7).1 < fuel
        fewer zero z busy = absurd (is.ready d p z ((==_iff _ _).0 busy))
        fewer (suc n) z busy = omega (arith, is.sooner d n z)

    -- At the start of a sector the disk is ready for all of it.
    pub whole_block :
        (n : ℕ) (d : D)
        → 0 < disk.block d
        → disk.sending d + disk.taking d ≡ n * 256
        → 256 ≤ disk.block d
    whole_block n d h e = omega (arith, is.block_rest d h)
