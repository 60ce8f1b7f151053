-- ===== src/Fat16/Directory/Scan.antt =====
-- Counting and loading the items of the root directory.
use white_os.Base.{
  ℕ, zero, suc, ◌+◌, ◌*◌, ◌/◌, ◌%◌, ◌≤◌, ◌<◌, ◌≡◌, refl, ap, ap₂, ◌∙◌, subst, ◌≢◌, inl, inr, false,
  Option, some, List, ◌++◌, ◌-◌, replicate, ltb, arith, ◌==◌, if◌then◌else◌, Bool-cases,
}
use white_os.Base.Int.{pos}
use white_os.Base.Runs.{ret}
use white_os.Status.{all_ok}
use white_os.Disk.{diskstreamer_seek}
use white_os.Disk.Stream.{
  bytes_from, IsImage, length-bytes_from, diskstreamer_read-within, diskstreamer_read-aligned,
}
use white_os.Fat16.Layout.{FatPrivate}
use white_os.Fat16.Directory.{
  count_loop, fat16_get_total_items_in_directory, read_items, fat16_get_root_directory,
}

-- The slots from a byte of the image on that are not deleted, among the first `n`.
abbrev pub used : (ℕ → ℕ) → (start n : ℕ) → ℕ
used image start zero = 0
used image start (suc n) =
    if image start == 0xE5 then used image (start + 32) n else suc (used image (start + 32) n)

-- `n` slots, and the one behind them is the first with a null name.
abbrev pub HasSlots : (ℕ → ℕ) → (start n : ℕ) → Type 0
HasSlots image start n =
    ((j : ℕ) → j < n → image (start + j * 32) ≢ 0) × (image (start + n * 32) ≡ 0)

-- Where the root directory starts, in bytes.
abbrev pub root_start : FatPrivate → ℕ
root_start p = (p.header.fat_copies * p.header.sectors_per_fat + p.header.reserved_sectors) * 512

module _ (image : ℕ → ℕ) (read_block : ℕ → Option (List ℕ)) (disk : IsImage image read_block)
    (fuel : ℕ) where
  count_loop_lem :
      (rounds n start i : ℕ)
      → start % 32 ≡ 0
      → n < rounds
      → HasSlots image start n
      → count_loop read_block (suc fuel) rounds (record { position = start }) i
        ≡ ret (pos (i + used image start n), record { position = start + (n + 1) * 32 })
  unfolding count_loop
  count_loop_lem zero n start i a l h = absurd (omega arith)
  count_loop_lem (suc rounds) zero start i a l h =
      rw (diskstreamer_read-within image read_block disk fuel start 32 (omega arith), ends)
        (ap₂ (λ m q. ret (pos m, record { position = q })) i-same at-same)
    where
      ends : image start ≡ 0
      ends = ap image (omega arith) ∙ h.1

      i-same : i ≡ i + 0
      i-same = omega arith

      at-same : start + 32 ≡ start + (0 + 1) * 32
      at-same = omega arith
  count_loop_lem (suc rounds) (suc n) start i a l h =
      rw
        (
          diskstreamer_read-within image read_block disk fuel start 32 (omega arith),
          other (image start) (subst (λ q. image q ≢ 0) here (h.0 0 (omega arith))),
        )
        (elim (Bool-cases (image start == 0xE5)) [
          | inl e ↦ rw e (
              count_loop_lem rounds n (start + 32) i (omega arith) (omega arith) rest
              ∙ ap (λ q. ret (pos (i + used image (start + 32) n), record { position = q })) moved)
          | inr e ↦ rw e (
              count_loop_lem rounds n (start + 32) (i + 1) (omega arith) (omega arith) rest
              ∙ ap₂ (λ m q. ret (pos m, record { position = q })) counted moved)
        ])
    where
      other : (c : ℕ) → c ≢ 0 → (c == 0) ≡ false
      other c k = ground arith

      here : start + 0 * 32 ≡ start
      here = omega arith

      shift : (j : ℕ) → start + suc j * 32 ≡ start + 32 + j * 32
      shift j = omega arith

      rest : HasSlots image (start + 32) n
      rest = (
        λ j u. subst (λ q. image q ≢ 0) (shift j) (h.0 (suc j) (omega arith)),
        subst (λ q. image q ≡ 0) (shift n) h.1,
      )

      moved : start + 32 + (n + 1) * 32 ≡ start + (suc n + 1) * 32
      moved = omega arith

      counted : i + 1 + used image (start + 32) n ≡ i + suc (used image (start + 32) n)
      counted = omega arith

  count_items :
      (rounds n start : ℕ)
      → start % 32 ≡ 0
      → n < rounds
      → HasSlots image start n
      → count_loop read_block (suc fuel) rounds (record { position = start }) 0
        ≡ ret (pos (used image start n), record { position = start + (n + 1) * 32 })
  count_items rounds n start a l h =
      count_loop_lem rounds n start 0 a l h
      ∙ ap (λ m. ret (pos m, record { position = start + (n + 1) * 32 })) from_zero
    where
      from_zero : 0 + used image start n ≡ used image start n
      from_zero = omega arith

  used-le : (start n : ℕ) → used image start n ≤ n
  used-le start zero = omega arith
  used-le start (suc n) = elim (Bool-cases (image start == 0xE5)) [
    | inl e ↦ rw e (omega (arith, used-le (start + 32) n))
    | inr e ↦ rw e (omega (arith, used-le (start + 32) n))
  ]

  -- What the root directory's array holds behind `count` slots that are loaded.
  abbrev pub loaded : FatPrivate → (count : ℕ) → List ℕ
  loaded p count =
      bytes_from image (root_start p) (count * 32)
      ++ replicate (p.header.root_dir_entries * 32 - count * 32) 0

  -- With the slots of the root directory up to the first null name, and room in the array for those
  -- that are not deleted, `fat16_get_root_directory` counts these, and loads as many slots from the
  -- first on, deleted ones among them: as many of the last slots as are deleted are not loaded. The
  -- rest of the array is zeros.
  pub fat16_get_root_directory_lem :
      (rounds n : ℕ) (p : FatPrivate)
      → n < rounds
      → n ≤ fuel * 16
      → HasSlots image (root_start p) n
      → used image (root_start p) n ≤ p.header.root_dir_entries
      → (q : FatPrivate) × (fat16_get_root_directory read_block (suc fuel) rounds p
          ≡ ret (all_ok, q))
        × (q.header ≡ p.header)
        × (q.root_directory.items ≡ some (loaded p (used image (root_start p) n)))
        × (q.root_directory.total_items ≡ pos (used image (root_start p) n))
        × (q.root_directory.curr_item ≡ p.root_directory.curr_item)
        × (q.root_directory.ending_sector_pos * 512
            ≡ root_start p + p.header.root_dir_entries * 32 / 512 * 512)
  unfolding fat16_get_root_directory fat16_get_total_items_in_directory read_items diskstreamer_seek
  fat16_get_root_directory_lem rounds n p l f h room = (
    record p {
      directory_stream = record { position = root_start p + count * 32 };
      root_directory = record p.root_directory {
        items = some (loaded p count);
        total_items = pos count;
        sector_pos = p.header.fat_copies * p.header.sectors_per_fat + p.header.reserved_sectors;
        ending_sector_pos =
            p.header.fat_copies * p.header.sectors_per_fat
            + p.header.reserved_sectors
            + p.header.root_dir_entries * 32 / 512;
      };
    },
    rw
        (
          count_items rounds n (root_start p) (omega arith) l h,
          fits,
          diskstreamer_read-aligned image read_block disk fuel (root_start p) (count * 32)
              (omega arith) (omega (arith, used-le (root_start p) n)),
          length-bytes_from image (root_start p) (count * 32),
        )
        refl,
    refl,
    refl,
    refl,
    refl,
    omega arith,
  )
    where
      count : ℕ
      count = used image (root_start p) n

      fits : ltb (p.header.root_dir_entries * 32) (count * 32) ≡ false
      fits = ground (arith, room)
