-- ===== src/Fat16/Examples.antt =====
-- The theorems about the driver at a small disk.
use white_os.Base.{
  ℕ, zero, suc, ◌-◌, ◌≤◌, ◌+◌, ◌*◌, ◌%◌, ◌<◌, ◌≡◌, refl, ◌≢◌, inl, inr, true, none, some, List, [],
  ◌∷◌, ◌++◌, arith, drop, replicate,
}
use white_os.Base.Int.{pos, negsuc}
use white_os.Base.Runs.{ret, fault}
use white_os.Status.{all_ok}
use white_os.Memory.{memset}
use white_os.Strings.{istrncmp}
use white_os.Disk.Stream.{bytes_from}
use white_os.Vfs.{seek_set}
use white_os.Fat16.Layout.{FatPrivate, header_of, fat16_get_first_cluster}
use white_os.Fat16.Names.{fat16_to_proper_string, fat16_get_full_relative_filename}
use white_os.Fat16.Names.Full.{
  Plain, Reads, zeros, fat16_get_full_relative_filename_lem,
  fat16_get_full_relative_filename-readdir,
}
use white_os.Fat16.Table.{entry_position, is_stop, fat16_get_fat_entry, fat16_read_internal}
use white_os.Fat16.Table.Chain.{here, next_of, word_at, with_stream, fat16_get_fat_entry-misplaced}
use white_os.Fat16.Table.Clusters.{file_byte, cluster_start, fat16_read_internal-crosses}
use white_os.Fat16.Directory.Scan.{used, HasSlots, root_start}
use white_os.Fat16.Directory.Find.{NoMatch}
use white_os.Fat16.Files.{fat16_seek, fat16_open, fat16_read, fat16_resolve}
use white_os.Fat16.Files.Seek.{open_file, Moves, fat16_seek-Moves}
use white_os.Fat16.Files.Open.{fat16_open-missing}
use white_os.Fat16.Files.Read.{first_byte, fat16_read-first_cluster}
use white_os.Fat16.Files.Resolve.{header_at, with_header, fat16_resolve_lem}
use white_os.Fat16.SmallDisk.{image, read_block, small, item, mounted, nth, image-IsImage}

fat16_read-first_cluster_example :
    (q : FatPrivate) × (fat16_read read_block 2 2 mounted (open_file item 0) 500 1
      ≡ ret (pos 1, bytes_from image (first_byte mounted item) 500, q))
unfolding fat16_get_first_cluster
fat16_read-first_cluster_example =
    fat16_read-first_cluster image read_block image-IsImage 1 mounted (omega arith) (omega arith) 1
      500 item (omega arith) (omega arith) (omega arith) (omega arith)

abbrev wide : FatPrivate
wide = record mounted { header = record small { sectors_per_cluster = 2 } }

fat16_read_internal-crosses_example :
    (q : FatPrivate) × (fat16_read_internal read_block 3 1 wide 2 512 1024
      ≡ ret (
        all_ok,
        bytes_from (file_byte image wide nth) 512 512
            ++ bytes_from image (cluster_start wide 2 + 1024) 512,
        q,
      ))
fat16_read_internal-crosses_example =
    fat16_read_internal-crosses image read_block image-IsImage 2 wide (omega arith) (omega arith) 0
      2 0 512 1024 nth (omega arith) (omega arith) (omega arith) (omega arith) here

fat16_get_fat_entry-misplaced_example :
    (position : ℕ) × (fat16_get_fat_entry read_block 1 (with_stream mounted 0) (pos 2)
      ≡ ret (pos (word_at image position), with_stream mounted (position + 2)))
    × (position % 512 ≡ 0)
    × (position ≢ 1 * 512 + 2 * 2)
fat16_get_fat_entry-misplaced_example =
    fat16_get_fat_entry-misplaced image read_block image-IsImage 0 mounted 2 0 (omega arith)

no_entry : is_stop (next_of image mounted 3) ≡ true
unfolding is_stop entry_position
no_entry = refl

slots : HasSlots image (root_start (with_header image)) 3
unfolding header_of
slots = (named, refl)
  where
    named : (j : ℕ) → j < 3 → image (1024 + j * 32) ≢ 0
    named zero h = omega arith
    named (suc zero) h = omega arith
    named (suc (suc zero)) h = omega arith
    named (suc (suc (suc j))) h = absurd (omega arith)

room : used image (root_start (with_header image)) 3 ≤ (header_at image).root_dir_entries
unfolding header_of
room = omega arith

fat16_resolve_lem_example :
    (q : FatPrivate) × (fat16_resolve read_block 2 4 0 ≡ ret (all_ok, some q))
    × (q.header ≡ header_at image)
    × (q.root_directory.items
        ≡ some (
            bytes_from image
              (root_start (with_header image))
              (used image (root_start (with_header image)) 3 * 32)
            ++ replicate
                ((header_at image).root_dir_entries * 32
                  - used image (root_start (with_header image)) 3 * 32)
                0))
    × (q.root_directory.total_items ≡ pos (used image (root_start (with_header image)) 3))
    × (q.root_directory.curr_item ≡ 0)
fat16_resolve_lem_example =
    fat16_resolve_lem image read_block image-IsImage 1 4 3 refl (omega arith) (omega arith) slots
      room

-- Of the three slots two are loaded: the last item is not among them.
two_loaded : used image (root_start (with_header image)) 3 ≡ 2
unfolding header_of
two_loaded = refl

abbrev name_z : List ℕ
name_z = b'Z' ∷ replicate 107 0

no_z : NoMatch item name_z 1
unfolding fat16_get_full_relative_filename fat16_to_proper_string memset istrncmp
no_z zero h = (negsuc 24, (b'A' ∷ b'.' ∷ b'B' ∷ replicate 105 0, refl, refl), refl)
no_z (suc i) h = absurd (omega arith)

fat16_open-missing_example : fat16_open read_block 1 1 mounted (name_z ∷ []) 0 ≡ fault
fat16_open-missing_example =
    fat16_open-missing read_block 1 1 mounted item 1 name_z [] 0 refl refl no_z

fat16_seek-Moves_example : Moves item 0 (fat16_seek (open_file item 0) 100 seek_set)
fat16_seek-Moves_example = fat16_seek-Moves item 0 100 seek_set (inl refl)

item-Reads : Reads item (b'A' ∷ []) (b'B' ∷ [])
item-Reads = record {
  end_at = b' ';
  behind = drop 2 item;
  ends = inr refl;
  name_at = refl;
  more_end_at = b' ';
  more_behind = drop 10 item;
  more_ends = inr refl;
  ext_at = refl;
  text_Plain = (omega arith, omega arith, tt);
  more_Plain = (omega arith, omega arith, tt);
}

fat16_get_full_relative_filename_lem_example :
    fat16_get_full_relative_filename item (replicate 12 7) 12 ≡ some (b'A' ∷ b'.' ∷ b'B' ∷ zeros 9)
fat16_get_full_relative_filename_lem_example =
    fat16_get_full_relative_filename_lem item (b'A' ∷ []) b'B' [] (replicate 12 7) item-Reads
      (omega arith)

abbrev eight : List ℕ
eight = replicate 8 b'N'

eight-Plain : Plain eight
eight-Plain = omega arith

fat16_get_full_relative_filename-readdir_example :
    fat16_get_full_relative_filename (eight ++ (b'T' ∷ b'X' ∷ b'T' ∷ 32 ∷ [])) (replicate 12 7) 12
    ≡ none
fat16_get_full_relative_filename-readdir_example =
    fat16_get_full_relative_filename-readdir eight (b'T' ∷ b'X' ∷ b'T' ∷ []) [] (replicate 12 7)
      b' ' refl refl eight-Plain (omega arith) (inr refl) refl
