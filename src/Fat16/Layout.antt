-- ===== src/Fat16/Layout.antt =====
-- The structures of src/fs/fat/fat16.c. The packed ones are read from the bytes of the disk.
use white_os.Base.{ℕ, ◌+◌, ◌*◌, bit_and, bit_or, Bool, not, Option, List, ◌==◌, get_or, drop}
use white_os.Base.Int.{ℤ}
use white_os.Disk.{DiskStream}

-- A little-endian number of two bytes, and of four, at an index.
abbrev pub word16 : List ℕ → ℕ → ℕ
word16 bs i = get_or bs i 0 + 256 * get_or bs (i + 1) 0

abbrev pub word32 : List ℕ → ℕ → ℕ
word32 bs i = word16 bs i + 65536 * word16 bs (i + 2)

-- The numbers of `struct fat_header`.
pub record FatHeader : Type 0 where
  pub bytes_per_sector : ℕ
  pub sectors_per_cluster : ℕ
  pub reserved_sectors : ℕ
  pub fat_copies : ℕ
  pub root_dir_entries : ℕ
  pub number_of_sectors : ℕ
  pub media_type : ℕ
  pub sectors_per_fat : ℕ
  pub sectors_per_track : ℕ
  pub number_of_heads : ℕ
  pub hidden_sectors : ℕ
  pub sectors_big : ℕ

-- `sizeof(struct fat_h)`
abbrev pub header_size : ℕ
header_size = 62

unfoldable pub header_of : List ℕ → FatHeader
header_of bs = record {
  bytes_per_sector = word16 bs 11;
  sectors_per_cluster = get_or bs 13 0;
  reserved_sectors = word16 bs 14;
  fat_copies = get_or bs 16 0;
  root_dir_entries = word16 bs 17;
  number_of_sectors = word16 bs 19;
  media_type = get_or bs 21 0;
  sectors_per_fat = word16 bs 22;
  sectors_per_track = word16 bs 24;
  number_of_heads = word16 bs 26;
  hidden_sectors = word32 bs 28;
  sectors_big = word32 bs 32;
}

-- The signature, in `struct fat_header_extended`.
abbrev pub signature : List ℕ → ℕ
signature bs = get_or bs 38 0

-- `sizeof(struct fat_directory_item)`; an item is its bytes, and a pointer to one in an array the
-- bytes from it on.
abbrev pub item_size : ℕ
item_size = 32

abbrev pub ext : List ℕ → List ℕ
ext item = drop 8 item

abbrev pub attribute : List ℕ → ℕ
attribute item = get_or item 11 0

abbrev pub high_16_bits_first_cluster : List ℕ → ℕ
high_16_bits_first_cluster item = word16 item 20

abbrev pub low_16_bits_first_cluster : List ℕ → ℕ
low_16_bits_first_cluster item = word16 item 26

abbrev pub filesize : List ℕ → ℕ
filesize item = word32 item 28

-- FAT_FILE_READ_ONLY, FAT_FILE_SUBDIRECTORY
abbrev pub fat_file_read_only : ℕ
fat_file_read_only = 0x01

abbrev pub fat_file_subdirectory : ℕ
fat_file_subdirectory = 0x10

unfoldable pub fat16_isdir : List ℕ → Bool
fat16_isdir item = not (bit_and (attribute item) fat_file_subdirectory == 0)

unfoldable pub fat16_get_first_cluster : List ℕ → ℕ
fat16_get_first_cluster item =
    bit_or (high_16_bits_first_cluster item) (low_16_bits_first_cluster item)

-- `items` is `none` once it is freed.
pub record FatDirectory : Type 0 where
  pub items : Option (List ℕ)
  pub curr_item : ℕ
  pub total_items : ℤ
  pub sector_pos : ℕ
  pub ending_sector_pos : ℕ

-- What the `directory` of an item points to: nothing, the root directory of the disk, a directory of
-- its own, or freed memory.
pub data DirectoryPointer : Type 0 where
  null : DirectoryPointer
  root : DirectoryPointer
  own : FatDirectory → DirectoryPointer
  dangling : DirectoryPointer

-- `FAT_ITEM_TYPE`
pub data FatItemType : Type 0 where
  type_directory type_file : FatItemType

-- `item` is `none` for the null pointer.
pub record FatItem : Type 0 where
  pub item : Option (List ℕ)
  pub directory : DirectoryPointer
  pub kind : FatItemType

pub record FatFileDescriptor : Type 0 where
  pub item : FatItem
  pub pos : ℕ

pub record FatPrivate : Type 0 where
  pub header : FatHeader
  pub root_directory : FatDirectory
  pub cluster_read_stream : DiskStream
  pub fat_read_stream : DiskStream
  pub directory_stream : DiskStream
