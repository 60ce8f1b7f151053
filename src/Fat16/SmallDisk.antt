-- ===== src/Fat16/SmallDisk.antt =====
-- A small disk: one sector to a cluster, the table in sector 1, the root directory in sector 2 with
-- a deleted slot between two items, and the clusters from sector 3 on.
use white_os.Base.{
  ℕ, zero, suc, ◌+◌, ◌*◌, ◌<◌, refl, Option, some, List, [], ◌∷◌, arith, ◌==◌, if◌then◌else◌,
}
use white_os.Base.Int.{pos}
use white_os.Disk.{DiskStream}
use white_os.Disk.Stream.{bytes_from, IsImage}
use white_os.Fat16.Layout.{FatHeader, FatPrivate, fat16_get_first_cluster}
use white_os.Fat16.Table.{entry_position, is_stop}
use white_os.Fat16.Table.Chain.{Lookups, here, next}

-- The bytes that are not 0.
abbrev pub disk_bytes : List (ℕ × ℕ)
disk_bytes =
    (13, 1)
    ∷ (14, 1)
    ∷ (16, 1)
    ∷ (17, 16)
    ∷ (22, 1)
    ∷ (38, 0x29)
    ∷ (1024, b'A')
    ∷ (1056, 0xE5)
    ∷ (1088, b'B')
    ∷ (1536, 7)
    ∷ (2048, 3)
    ∷ (2050, 9)
    ∷ []

abbrev pub byte_at : List (ℕ × ℕ) → ℕ → ℕ
byte_at [] i = 0
byte_at ((j, b) ∷ bs) i = if i == j then b else byte_at bs i

abbrev pub image : ℕ → ℕ
image = byte_at disk_bytes

abbrev pub read_block : ℕ → Option (List ℕ)
read_block s = some (bytes_from image (s * 512) 512)

pub image-IsImage : IsImage image read_block
image-IsImage s = refl

abbrev pub blank : ℕ → ℕ
blank i = 0

abbrev pub read_blank : ℕ → Option (List ℕ)
read_blank s = some (bytes_from blank (s * 512) 512)

pub blank-IsImage : IsImage blank read_blank
blank-IsImage s = refl

abbrev pub stream : DiskStream
stream = record { position = 0 }

abbrev pub small : FatHeader
small = record {
  bytes_per_sector = 512;
  sectors_per_cluster = 1;
  reserved_sectors = 1;
  fat_copies = 1;
  root_dir_entries = 16;
  number_of_sectors = 100;
  media_type = 0;
  sectors_per_fat = 1;
  sectors_per_track = 1;
  number_of_heads = 1;
  hidden_sectors = 0;
  sectors_big = 0;
}

-- An item named A.B, with its first cluster 2 and 600 bytes.
abbrev pub item : List ℕ
item =
    b'A' ∷ b' ' ∷ b' ' ∷ b' ' ∷ b' ' ∷ b' ' ∷ b' ' ∷ b' ' ∷ b'B' ∷ b' ' ∷ b' ' ∷ 32 ∷ 0 ∷ 0 ∷ 0 ∷ 0
    ∷ 0 ∷ 0 ∷ 0 ∷ 0 ∷ 0 ∷ 0 ∷ 0 ∷ 0 ∷ 0 ∷ 0 ∷ 2 ∷ 0 ∷ 88 ∷ 2 ∷ 0 ∷ 0 ∷ []

abbrev pub mounted : FatPrivate
mounted = record {
  header = small;
  root_directory = record {
    items = some item;
    curr_item = 0;
    total_items = pos 1;
    sector_pos = 2;
    ending_sector_pos = 3;
  };
  cluster_read_stream = stream;
  fat_read_stream = stream;
  directory_stream = stream;
}

abbrev pub nth : ℕ → ℕ
nth zero = 2
nth (suc j) = 3

pub one_step : Lookups image mounted 2 1 3
unfolding entry_position is_stop
one_step = next refl here

pub chains :
    (j : ℕ)
    → j * 512 < 0 * 512 + 600
    → Lookups image mounted (fat16_get_first_cluster item) j (nth j)
unfolding fat16_get_first_cluster
chains zero h = here
chains (suc zero) h = one_step
chains (suc (suc j)) h = absurd (omega arith)
