-- ===== src/Fat16/Files/Resolve.antt =====
-- Recognising a FAT16 disk.
use white_os.Base.{
  ℕ, suc, ◌*◌, ◌-◌, ◌++◌, replicate, ◌≤◌, ◌<◌, ◌≡◌, refl, ◌≢◌, false, Option, none, some, List,
  arith, ◌==◌,
}
use white_os.Base.Int.{pos}
use white_os.Base.Runs.{ret}
use white_os.Status.{all_ok, efsnotus}
use white_os.Disk.{DiskStream, diskstreamer_new}
use white_os.Disk.Stream.{bytes_from, IsImage, diskstreamer_read-within}
use white_os.Fat16.Layout.{FatHeader, FatPrivate, header_of}
use white_os.Fat16.Directory.Scan.{used, HasSlots, root_start, fat16_get_root_directory_lem}
use white_os.Fat16.Files.{fat16_resolve}

-- The header in the first sector of an image.
abbrev pub header_at : (ℕ → ℕ) → FatHeader
header_at image = header_of (bytes_from image 0 62)

-- The private data with the header read, and before the root directory is.
abbrev start_stream : DiskStream
start_stream = record { position = 0 }

abbrev pub with_header : (ℕ → ℕ) → FatPrivate
with_header image = record {
  header = header_at image;
  root_directory = record {
    items = none;
    curr_item = 0;
    total_items = pos 0;
    sector_pos = 0;
    ending_sector_pos = 0;
  };
  cluster_read_stream = start_stream;
  fat_read_stream = start_stream;
  directory_stream = start_stream;
}

module _ (image : ℕ → ℕ) (read_block : ℕ → Option (List ℕ)) (disk : IsImage image read_block)
    (fuel : ℕ) where
  -- A disk without the signature is refused, with no private data kept.
  pub fat16_resolve-foreign :
      (rounds : ℕ)
      → image 38 ≢ 0x29
      → fat16_resolve read_block (suc fuel) rounds 0 ≡ ret (efsnotus, none)
  unfolding fat16_resolve diskstreamer_new
  fat16_resolve-foreign rounds n =
      rw
        (diskstreamer_read-within image read_block disk fuel 0 62 (omega arith), other (image 38) n)
        refl
    where
      other : (c : ℕ) → c ≢ 0x29 → (c == 0x29) ≡ false
      other c h = ground arith

  -- A disk with the signature, with the slots of a root directory up to a null name, and with no more
  -- of them in use than the header has entries, is taken: the private data has the header of the first
  -- sector, as many slots of the root directory loaded as are not deleted, and zeros behind them.
  pub fat16_resolve_lem :
      (rounds n : ℕ)
      → image 38 ≡ 0x29
      → n < rounds
      → n ≤ fuel * 16
      → HasSlots image (root_start (with_header image)) n
      → used image (root_start (with_header image)) n ≤ (header_at image).root_dir_entries
      → (q : FatPrivate) × (fat16_resolve read_block (suc fuel) rounds 0 ≡ ret (all_ok, some q))
        × (q.header ≡ header_at image)
        × (q.root_directory.items
            ≡ some (
                bytes_from image
                  (root_start (with_header image))
                  (used image (root_start (with_header image)) n * 32)
                ++ replicate
                    ((header_at image).root_dir_entries * 32
                      - used image (root_start (with_header image)) n * 32)
                    0))
        × (q.root_directory.total_items ≡ pos (used image (root_start (with_header image)) n))
        × (q.root_directory.curr_item ≡ 0)
  unfolding fat16_resolve diskstreamer_new
  fat16_resolve_lem rounds n s l f h room =
      let (q, e, head, items, total, curr, ending) =
        fat16_get_root_directory_lem image read_block disk fuel rounds n (with_header image) l f h
          room in
      (
        q,
        rw (diskstreamer_read-within image read_block disk fuel 0 62 (omega arith), s) (rw e refl),
        head,
        items,
        total,
        curr,
      )
