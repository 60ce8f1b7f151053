-- ===== src/Fat16/Files/Open.antt =====
-- Opening files: the paths that fault.
use white_os.Base.{ℕ, ◌≡◌, refl, Option, some, List, ◌∷◌}
use white_os.Base.Int.{pos}
use white_os.Base.Runs.{fault}
use white_os.Fat16.Layout.{FatPrivate}
use white_os.Fat16.Directory.{fat16_get_directory_entry}
use white_os.Fat16.Directory.Find.{NoMatch, fat16_find_item_in_directory-none}
use white_os.Fat16.Files.{fat16_open}

module _ (read_block : ℕ → Option (List ℕ)) (fuel rounds : ℕ) where
  -- Opening a path whose first name is not that of an item in the root directory faults: the
  -- descriptor is freed through the null item in it.
  pub fat16_open-missing :
      (p : FatPrivate) (items : List ℕ) (n : ℕ) (name : List ℕ) (next : List (List ℕ))
      (last_next : ℕ)
      → p.root_directory.items ≡ some items
      → p.root_directory.total_items ≡ pos n
      → NoMatch items name n
      → fat16_open read_block fuel rounds p (name ∷ next) last_next ≡ fault
  unfolding fat16_open fat16_get_directory_entry
  fat16_open-missing p items n name next last_next e t h =
      rw
        (fat16_find_item_in_directory-none read_block fuel rounds p p.root_directory items name n e
          t h)
        refl
