-- ===== src/Fat16/Driver/Examples.antt =====
-- A file of the small disk, opened and read through the file descriptors.
use white_os.Base.{
  ℕ, zero, suc, ◌≡◌, refl, none, some, List, [], ◌∷◌, ◌++◌, arith, replicate, get_elem?,
}
use white_os.Base.Int.{pos}
use white_os.Base.Runs.{ret, fault, and_then}
use white_os.Memory.{memset}
use white_os.Strings.{istrncmp, strncmp}
use white_os.Disk.Stream.{bytes_from}
use white_os.Path.Parts.{IsName, padded}
use white_os.Path.Parse.{rooted}
use white_os.Vfs.{Vfs, first_null, file_get_mode_by_string}
use white_os.Vfs.Calls.{fopen, fread}
use white_os.Vfs.Descriptors.{IsTable}
use white_os.Fat16.Layout.{fat16_isdir, fat16_get_first_cluster}
use white_os.Fat16.Files.Read.{first_byte}
use white_os.Fat16.Names.{fat16_to_proper_string, fat16_get_full_relative_filename}
use white_os.Fat16.SmallDisk.{image, read_block, image-IsImage, item, mounted}
use white_os.Fat16.Driver.{FatState, fat16_fs}
use white_os.Fat16.Driver.Opening.{Finds, fread-fopen, fopen-stale}

-- "a.b", the item A.B
abbrev name : List ℕ
name = b'a' ∷ b'.' ∷ b'b' ∷ []

abbrev started : Vfs FatState
started = record {
  file_descriptors = replicate 512 0;
  objects = λ a. none;
  filesystems = [];
  disk_filesystem = some (fat16_fs read_block 2 2 (λ n. n));
  driver = record { fs_private = some mounted; descriptors = λ a. none; allocated = 1 };
}

get_elem?-replicate : (n j p : ℕ) → get_elem? (replicate n 0) j ≡ some p → p ≡ 0
get_elem?-replicate zero j p e = cc
get_elem?-replicate (suc n) zero p e = cc
get_elem?-replicate (suc n) (suc j) p e = get_elem?-replicate n j p e

started-IsTable : IsTable started
started-IsTable = record {
  size = refl;
  linked = λ i p e live. absurd (live (get_elem?-replicate 512 i p e));
}

found : Finds mounted (padded name) item
unfolding fat16_get_full_relative_filename fat16_to_proper_string memset istrncmp fat16_isdir
found = record {
  items = item;
  count = 1;
  position = 0;
  loaded = refl;
  total = refl;
  inside = omega arith;
  before = λ i h. absurd (omega arith);
  matches = (b'A' ∷ b'.' ∷ b'B' ∷ replicate 105 0, refl, refl);
  is_file = refl;
  item_is = refl;
}

name-IsName : IsName name
name-IsName = (
  (omega arith, omega arith, (omega arith, omega arith, (omega arith, omega arith, tt))),
  omega arith,
  omega arith,
)

fread-fopen_example :
    (s' : Vfs FatState) × (and_then
        (fopen 0 1 5 (rooted 0 (name ++ 0 ∷ [])) (b'r' ∷ 0 ∷ []) started)
        (λ (fd, s1). fread s1 500 1 fd)
      ≡ ret (pos 1, bytes_from image (first_byte mounted item) 500, s'))
unfolding first_null file_get_mode_by_string strncmp fat16_get_first_cluster
fread-fopen_example =
    fread-fopen image read_block image-IsImage 1 1 1 (λ n. n) started mounted name item
      (b'r' ∷ 0 ∷ []) [] 5 0 500 started-IsTable (omega arith) refl refl (omega arith) refl refl
      found name-IsName (omega arith) (omega arith) refl (omega arith) (omega arith) (omega arith)
      (omega arith) (omega arith) (omega arith)

fopen-stale_example : fopen 9 1 5 (rooted 0 (name ++ 0 ∷ [])) (b'r' ∷ 0 ∷ []) started ≡ fault
unfolding file_get_mode_by_string strncmp
fopen-stale_example =
    fopen-stale read_block 2 2 (λ n. n) started mounted name item (b'r' ∷ 0 ∷ []) [] 1 5 9
      (omega arith) refl refl found name-IsName (omega arith) (omega arith) refl
