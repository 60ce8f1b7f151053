-- ===== src/Fat16/Driver/Opening.antt =====
-- Opening a file of the root directory by its path, and reading it.
use white_os.Base.{
  ℕ, suc, ◌+◌, ◌*◌, ◌≤◌, ◌<◌, ◌≡◌, refl, ap, ◌∙◌, ◌≢◌, false, ◌==◌, Option, none, some, List, [],
  ◌∷◌, ◌++◌, arith, length, take, drop,
}
use white_os.Base.Int.{pos}
use white_os.Base.Runs.{ret, fault, and_then}
use white_os.Disk.Stream.{bytes_from, IsImage}
use white_os.Path.Parts.{IsName, padded}
use white_os.Path.Parse.{rooted, pparser_parse-join}
use white_os.Vfs.{FileMode, Vfs, file_get_mode_by_string}
use white_os.Vfs.Descriptors.{IsTable, IsFirstNull}
use white_os.Vfs.Opening.{file_object, with_open, fopen-IsOpen}
use white_os.Vfs.Calls.{is_invalid, disk_get, open_on, fopen, fread}
use white_os.Fat16.Layout.{FatPrivate, filesize, fat16_isdir, fat16_get_first_cluster}
use white_os.Fat16.Table.{size_of_cluster_bytes}
use white_os.Fat16.Table.Clusters.{file_byte, suc_times}
use white_os.Fat16.Files.Read.{first_byte, first-Lookups, first_cluster_bytes}
use white_os.Fat16.Directory.{
  fat16_get_directory_entry, fat16_new_fat_item_for_directory_item, entry_loop,
}
use white_os.Fat16.Directory.Find.{Compares, NoMatch, fat16_find_item_in_directory-first}
use white_os.Fat16.Files.{fat16_open}
use white_os.Fat16.Files.Seek.{open_file}
use white_os.Fat16.Driver.{FatState, put, with_private, fat16_fs}
use white_os.Fat16.Driver.Reading.{fread_lem}

-- The first item with the name in the root directory is `item`, and a file.
pub record Finds (p : FatPrivate) (name item : List ℕ) : Type 0 where
  pub items : List ℕ
  pub count : ℕ
  pub position : ℕ
  pub loaded : p.root_directory.items ≡ some items
  pub total : p.root_directory.total_items ≡ pos count
  pub inside : position < count
  pub before : NoMatch items name position
  pub matches : Compares items name position (pos 0)
  pub is_file : fat16_isdir (drop (position * 32) items) ≡ false
  pub item_is : item ≡ take 32 (drop (position * 32) items)

module _ (read_block : ℕ → Option (List ℕ)) (fuel rounds : ℕ) where
  fat16_open-Finds :
      (p : FatPrivate) (name item : List ℕ)
      → Finds p name item
      → fat16_open read_block fuel rounds p (name ∷ []) 0 ≡ ret (open_file item 0, p)
  unfolding fat16_open fat16_get_directory_entry fat16_new_fat_item_for_directory_item entry_loop
  fat16_open-Finds p name item f =
      rw
        (
          fat16_find_item_in_directory-first read_block fuel rounds p p.root_directory f.items name
              f.count f.position f.loaded f.total f.inside f.before f.matches,
          f.is_file,
          f.item_is,
        )
        refl

  -- The `next` that is followed makes the file a directory: no item, and the fault of that.
  fat16_open-stale :
      (p : FatPrivate) (name item : List ℕ) (stale : ℕ)
      → stale ≢ 0
      → Finds p name item
      → fat16_open read_block fuel rounds p (name ∷ []) stale ≡ fault
  unfolding fat16_open fat16_get_directory_entry fat16_new_fat_item_for_directory_item entry_loop
  fat16_open-stale p name item stale n f =
      rw
        (
          fat16_find_item_in_directory-first read_block fuel rounds p p.root_directory f.items name
              f.count f.position f.loaded f.total f.inside f.before f.matches,
          f.is_file,
          other stale n,
        )
        refl
    where
      other : (k : ℕ) → k ≢ 0 → (k == 0) ≡ false
      other k h = ground arith

  module _ (address_of : ℕ → ℕ) where
    -- The driver's state with the item open.
    abbrev pub opened_state : FatState → FatPrivate → (item : List ℕ) → FatState
    opened_state st p item =
        record (put (with_private st p) (address_of st.allocated) (some (open_file item 0))) {
          allocated = st.allocated + 1;
        }

    driver_opens :
        (st : FatState) (p : FatPrivate) (name item : List ℕ) (mode : FileMode)
        → st.fs_private ≡ some p
        → Finds p name item
        → (fat16_fs read_block fuel rounds address_of).open_path (name ∷ []) 0 mode st
          ≡ ret (pos (address_of st.allocated), opened_state st p item)
    driver_opens st p name item mode e f = simp (e, fat16_open-Finds p name item f) refl

    -- Opening a file of the root directory by its path, in any valid mode, faults where the `next` of
    -- the path's last part, which nothing sets, is not null in memory.
    pub fopen-stale :
        (s : Vfs FatState) (p : FatPrivate) (drive_name item mode_str junk : List ℕ)
        (parse_fuel fresh stale : ℕ)
        → stale ≢ 0
        → s.disk_filesystem ≡ some (fat16_fs read_block fuel rounds address_of)
        → s.driver.fs_private ≡ some p
        → Finds p (padded drive_name) item
        → IsName drive_name
        → length drive_name ≤ 105
        → 0 < parse_fuel
        → is_invalid (file_get_mode_by_string mode_str) ≡ false
        → fopen stale parse_fuel fresh (rooted 0 (drive_name ++ 0 ∷ junk)) mode_str s ≡ fault
    unfolding fopen disk_get open_on
    fopen-stale s p name item mode_str junk parse_fuel fresh stale n fs private f h l r m =
        rw
          (
            pparser_parse-join stale parse_fuel 0 junk (omega arith) (name ∷ []) (h, tt) l
                (omega arith),
            fs,
            m,
            private,
            fat16_open-stale p (padded name) item stale n f,
          )
          refl

module _ (image : ℕ → ℕ) (read_block : ℕ → Option (List ℕ)) (disk : IsImage image read_block)
    (fuel rounds parse_fuel : ℕ) (address_of : ℕ → ℕ) where
  -- After `fopen` of the path of a file in the root directory, in any valid mode, `fread` of one
  -- block with the number that `fopen` returned gives 1 and exactly the first bytes of the file, for a
  -- block that is not longer than the file or than a cluster, where a slot but the last of the
  -- descriptor table is null, and where the `next` of the path's last part, which nothing sets, is
  -- null in memory.
  pub fread-fopen :
      (s : Vfs FatState) (p : FatPrivate) (drive_name item mode_str junk : List ℕ)
      (fresh i size : ℕ)
      → IsTable s
      → fresh ≢ 0
      → IsFirstNull s.file_descriptors i
      → s.objects fresh ≡ none
      → i < 511
      → s.disk_filesystem ≡ some (fat16_fs read_block (suc fuel) (suc rounds) address_of)
      → s.driver.fs_private ≡ some p
      → Finds p (padded drive_name) item
      → IsName drive_name
      → length drive_name ≤ 105
      → 0 < parse_fuel
      → is_invalid (file_get_mode_by_string mode_str) ≡ false
      → 0 < size_of_cluster_bytes p
      → size_of_cluster_bytes p ≤ fuel * 512
      → 2 ≤ fat16_get_first_cluster item
      → 0 < size
      → size ≤ size_of_cluster_bytes p
      → size ≤ filesize item
      → (s' : Vfs FatState) × (and_then
            (fopen 0 parse_fuel fresh (rooted 0 (drive_name ++ 0 ∷ junk)) mode_str s)
            (λ (fd, s1). fread s1 size 1 fd)
          ≡ ret (pos 1, bytes_from image (first_byte p item) size, s'))
  fread-fopen s p name item mode_str junk fresh i size table n e unused low fs private f h l r m
        cluster_pos cluster_in c z within sized =
      let (opens, table', opened) =
        fopen-IsOpen s table fresh i n e unused low
          (fat16_fs read_block (suc fuel) (suc rounds) address_of) (address_of s.driver.allocated)
          (opened_state read_block (suc fuel) (suc rounds) address_of s.driver p item) 0 parse_fuel
          (rooted 0 (name ++ 0 ∷ junk)) mode_str (padded name ∷ []) 0
          (pparser_parse-join 0 parse_fuel 0 junk (omega arith) (name ∷ []) (h, tt) l (omega arith))
          fs m
          (driver_opens read_block (suc fuel) (suc rounds) address_of s.driver p (padded name) item
            (file_get_mode_by_string mode_str) private f) in
      let (q, reads) =
        fread_lem image read_block disk fuel (suc rounds) address_of opened_vfs (i + 1) fresh
          (file_object (fat16_fs read_block (suc fuel) (suc rounds) address_of) (i + 1)
            (address_of s.driver.allocated))
          p 0 size (λ j. fat16_get_first_cluster item) item table' opened refl stored cluster_pos
          cluster_in z (omega (arith, suc_times rounds (size_of_cluster_bytes p)))
          (first-Lookups image read_block disk fuel p cluster_pos cluster_in
            (fat16_get_first_cluster item) size within) in
      let after = record opened_vfs { driver = with_private opened_vfs.driver q } in
      (
        after,
        ap (λ r. and_then r (λ (fd, s1). fread s1 size 1 fd)) opens
            ∙ reads
            ∙ ap
                (λ k. ret (
                  pos 1,
                  bytes_from (file_byte image p (λ j. fat16_get_first_cluster item)) k size,
                  after,
                ))
                start
            ∙ ap (λ xs. ret (pos 1, xs, after))
                (first_cluster_bytes image read_block disk fuel p cluster_pos cluster_in item size c
                  within),
      )
    where
      opened_vfs : Vfs FatState
      opened_vfs =
          with_open s fresh i (fat16_fs read_block (suc fuel) (suc rounds) address_of)
            (address_of s.driver.allocated)
            (opened_state read_block (suc fuel) (suc rounds) address_of s.driver p item)

      start : 0 * size_of_cluster_bytes p ≡ 0
      start = omega arith

      stored :
          opened_vfs.driver.descriptors (address_of s.driver.allocated)
          ≡ some (open_file item (0 * size_of_cluster_bytes p))
      stored = rw start (ground arith)
