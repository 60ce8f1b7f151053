-- ===== src/Fat16/Directory.antt =====
-- Directories: counting and loading their items, and finding an item by its name. An access through
-- a null or freed pointer is a fault.
pub mod Scan
pub mod Find
use white_os.Base.{
  ℕ, zero, suc, ◌+◌, ◌-◌, ◌*◌, ◌/◌, ◌%◌, ◌^◌, ◌≤◌, ◌<◌, bit_and, bit_or, ◌≡◌, refl, sym, ap, ap₂,
  ◌∙◌, subst, ◌≢◌, ◌↔◌, ◌⊎◌, inl, inr, Bool, true, false, not, ◌&&◌, ◌||◌, Option, none, some, List,
  [], ◌∷◌, ◌++◌, map, append-nil, append_assoc, arith, dec_lt, dec_le, ℕ_discrete, ltb, leb, ◌==◌,
  if◌then◌else◌, ltb→lt, lt→ltb, leb→le, ==_iff, Bool-cases, Option-cases, length, get_elem?, set,
  get_or, take, drop, replicate, length-append, length-set, get_elem?-set_self, get_elem?-set_ne,
  take-append-drop, length-take, length-drop, length-replicate, length-map, store, set-append,
  store-append, store_of_lt, get_elem?-append, get_or-append_left, get_or-append_right, snoc-append,
  length-snoc, get_elem?-drop, take_self, drop_self, replicate-add, get_or-set_self, get_or-set_ne,
  get_or-snoc, get_elem?-eq-get_or,
}
use white_os.Base.Int.{ℤ, pos, negsuc}
use white_os.Base.Runs.{Run, ret, fault, running, ◌>>=◌, reach}
use white_os.Status.{all_ok, eio}
use white_os.Strings.{istrncmp}
use white_os.Path.{max_path}
use white_os.Disk.{sector_size, DiskStream, diskstreamer_seek, diskstreamer_read}
use white_os.Fat16.Layout.{
  FatHeader, FatPrivate, FatDirectory, FatItem, DirectoryPointer, null, root, own, dangling,
  FatItemType, type_directory, type_file, item_size, fat16_isdir, fat16_get_first_cluster,
}
use white_os.Fat16.Names.{fat16_get_full_relative_filename}
use white_os.Fat16.Table.{fat16_sector_to_absolute, fat16_cluster_to_sector, fat16_read_internal}

-- The answer 0 of a comparison.
abbrev pub is_equal : ℤ → Bool
is_equal (pos n) = n == 0
is_equal (negsuc n) = false

-- The entries of an array with `total_items`.
abbrev pub count_of : ℤ → ℕ
count_of (pos n) = n
count_of (negsuc n) = 0

-- The directory behind a pointer.
abbrev pub pointed : FatPrivate → DirectoryPointer → Run FatDirectory
pointed p null = fault
pointed p root = ret p.root_directory
pointed p (own d) = ret d
pointed p dangling = fault

module _ (read_block : ℕ → Option (List ℕ)) (fuel : ℕ) where
  -- The loop that reads item by item up to a null name, counting those that are not deleted.
  unfoldable pub count_loop : (rounds : ℕ) → DiskStream → (i : ℕ) → Run (ℤ × DiskStream)
  count_loop zero stream i = running
  count_loop (suc rounds) stream i = do
    let again = count_loop rounds
    (res, item, stream') ← diskstreamer_read read_block fuel stream item_size
    elim res [
      | negsuc e ↦ ret (eio, stream')
      | pos r ↦ do
        c ← reach (get_elem? item 0)
        if c == 0x00
            then ret (pos i, stream')
            else (if c == 0xE5 then again stream' i else again stream' (i + 1))
    ]

  unfoldable pub fat16_get_total_items_in_directory :
      (rounds : ℕ) → FatPrivate → (directory_start_sector : ℕ) → Run (ℤ × FatPrivate)
  unfolding fat16_sector_to_absolute diskstreamer_seek
  fat16_get_total_items_in_directory rounds p directory_start_sector = do
    let start = fat16_sector_to_absolute directory_start_sector
    (res, stream) ← count_loop rounds (diskstreamer_seek p.directory_stream start).1 0
    ret (res, record p { directory_stream = stream })

  -- A negative count reads no bytes, and moves the stream back.
  unfoldable pub read_items : DiskStream → ℤ → Run (ℤ × List ℕ × DiskStream)
  read_items stream (pos n) = diskstreamer_read read_block fuel stream (n * item_size)
  read_items stream (negsuc n) = do
    (res, bytes, stream') ← diskstreamer_read read_block fuel stream 0
    elim res [
      | negsuc e ↦ ret (negsuc e, [], stream')
      | pos r ↦ ret (pos r, [], record { position = stream'.position - (n + 1) * item_size })
    ]

  -- The array of the items has `root_dir_size` bytes, cleared; more items than fit in it are a fault.
  unfoldable pub fat16_get_root_directory : (rounds : ℕ) → FatPrivate → Run (ℤ × FatPrivate)
  unfolding fat16_sector_to_absolute diskstreamer_seek
  fat16_get_root_directory rounds p = do
    let root_dir_sector_pos =
        p.header.fat_copies * p.header.sectors_per_fat + p.header.reserved_sectors
    let root_dir_size = p.header.root_dir_entries * item_size
    (total_items, p') ← fat16_get_total_items_in_directory rounds p root_dir_sector_pos
    let start = fat16_sector_to_absolute root_dir_sector_pos
    if ltb root_dir_size (count_of total_items * item_size) then fault else (do
      (res, bytes, stream) ← read_items (diskstreamer_seek p'.directory_stream start).1 total_items
      let items = bytes ++ replicate (root_dir_size - length bytes) 0
      let p'' : FatPrivate = record p' { directory_stream = stream }
      elim res [
        | negsuc e ↦ ret (eio, p'')
        | pos r ↦ ret (
          all_ok,
          record p'' {
            root_directory = record p''.root_directory {
              items = some items;
              total_items = total_items;
              sector_pos = root_dir_sector_pos;
              ending_sector_pos = root_dir_sector_pos + root_dir_size / sector_size;
            };
          },
        )
      ])

  -- For an item that is a directory. A negative count makes `kzalloc` clear memory far behind the
  -- heap: a fault. Where the items cannot be read, the directory is freed and still returned.
  unfoldable pub fat16_load_fat_directory :
      (rounds : ℕ) → FatPrivate → List ℕ → Run (DirectoryPointer × FatPrivate)
  fat16_load_fat_directory rounds p item = if not (fat16_isdir item) then ret (null, p) else (do
    let cluster = fat16_get_first_cluster item
    let cluster_sector = fat16_cluster_to_sector p cluster
    (total_items, p') ← fat16_get_total_items_in_directory rounds p cluster_sector
    elim total_items [
      | negsuc e ↦ fault
      | pos n ↦ do
        (res, items, p'') ←
            fat16_read_internal read_block fuel rounds p' cluster 0x00 (n * item_size)
        elim res [
          | negsuc e ↦ ret (dangling, p'')
          | pos r ↦ ret (
            own (record {
              items = some items;
              curr_item = 0;
              total_items = pos n;
              sector_pos = 0;
              ending_sector_pos = 0;
            }),
            p'',
          )
        ]
    ])

  unfoldable pub fat16_new_fat_item_for_directory_item :
      (rounds : ℕ) → FatPrivate → List ℕ → Run (FatItem × FatPrivate)
  fat16_new_fat_item_for_directory_item rounds p item =
      let clone = some (take item_size item) in
      if fat16_isdir item
      then (do
        (directory, p') ← fat16_load_fat_directory rounds p item
        ret (record { item = clone; directory = directory; kind = type_directory }, p'))
      else ret (record { item = clone; directory = null; kind = type_file }, p)

  -- The loop over the items from `i` on, with `left` to go.
  unfoldable pub find_loop :
      (rounds left i : ℕ)
      → FatPrivate
      → Option (List ℕ)
      → List ℕ
      → Run (Option FatItem × FatPrivate)
  find_loop rounds zero i p items name = ret (none, p)
  find_loop rounds (suc left) i p items name = do
    let next = find_loop rounds left (i + 1) p items name
    array ← reach items
    let item = drop (i * item_size) array
    tmp_filename ← reach (fat16_get_full_relative_filename item (replicate max_path 0) max_path)
    order ← reach (istrncmp tmp_filename name max_path)
    if is_equal order
        then (do
          (f_item, p') ← fat16_new_fat_item_for_directory_item rounds p item
          ret (some f_item, p'))
        else next

  unfoldable pub fat16_find_item_in_directory :
      (rounds : ℕ) → FatPrivate → FatDirectory → List ℕ → Run (Option FatItem × FatPrivate)
  fat16_find_item_in_directory rounds p directory name =
      find_loop rounds (count_of directory.total_items) 0 p directory.items name

  -- The loop over the parts behind the first. `current_item` is freed once the next one is found. The
  -- `next` of the last part, when it is not null, is followed: behind a directory that is a fault.
  unfoldable pub entry_loop :
      (rounds : ℕ)
      → List (List ℕ)
      → (last_next : ℕ) → Option FatItem
      → FatPrivate
      → Run (Option FatItem × FatPrivate)
  entry_loop rounds [] last_next current_item p =
      if last_next == 0 then ret (current_item, p) else (do
        item ← reach current_item
        elim item.kind [ type_file ↦ ret (none, p) | type_directory ↦ fault ])
  entry_loop rounds (name ∷ rest) last_next current_item p = do
    let again = entry_loop rounds rest last_next
    item ← reach current_item
    elim item.kind [
      | type_file ↦ ret (none, p)
      | type_directory ↦ do
        directory ← pointed p item.directory
        (tmp_item, p') ← fat16_find_item_in_directory rounds p directory name
        again tmp_item p'
    ]

  unfoldable pub fat16_get_directory_entry :
      (rounds : ℕ)
      → FatPrivate
      → (name : List ℕ) → (next : List (List ℕ)) → (last_next : ℕ)
      → Run (Option FatItem × FatPrivate)
  fat16_get_directory_entry rounds p name next last_next = do
    (root_item, p') ← fat16_find_item_in_directory rounds p p.root_directory name
    elim root_item [
      | none ↦ ret (none, p')
      | some item ↦ entry_loop rounds next last_next (some item) p'
    ]
