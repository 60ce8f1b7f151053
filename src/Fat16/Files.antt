-- ===== src/Fat16/Files.antt =====
-- The calls of the driver: `resolve`, `open`, `close`, `read`, `readdir`, `seek` and `stat`. A private
-- pointer is the descriptor that it points to.
pub mod Seek
pub mod Open
pub mod Read
pub mod Resolve
use white_os.Base.{
  ℕ, zero, suc, ◌+◌, ◌-◌, ◌*◌, ◌/◌, ◌%◌, ◌^◌, ◌≤◌, ◌<◌, bit_and, bit_or, ◌≡◌, refl, sym, ap, ap₂,
  ◌∙◌, subst, ◌≢◌, ◌↔◌, ◌⊎◌, inl, inr, Bool, true, false, not, ◌&&◌, ◌||◌, Option, none, some, List,
  [], ◌∷◌, ◌++◌, map, append-nil, append_assoc, arith, dec_lt, dec_le, ℕ_discrete, ltb, leb, ◌==◌,
  if◌then◌else◌, ltb→lt, lt→ltb, leb→le, ==_iff, Bool-cases, Option-cases, length, get_elem?, set,
  get_or, take, drop, replicate, length-append, length-set, get_elem?-set_self, get_elem?-set_ne,
  take-append-drop, length-take, length-drop, length-replicate, length-map, store, set-append,
  store-append, store_of_lt, get_elem?-append, get_or-append_left, get_or-append_right, snoc-append,
  length-snoc, get_elem?-drop, take_self, drop_self, replicate-add, get_or-set_self, get_or-set_ne,
  get_or-snoc, get_elem?-eq-get_or,
}
use white_os.Base.Int.{ℤ, pos, negsuc}
use white_os.Base.Runs.{Run, ret, fault, running, ◌>>=◌, reach}
use white_os.Status.{all_ok, eio, einvarg, efsnotus, eunimp}
use white_os.Disk.{DiskStream, diskstreamer_new, diskstreamer_read}
use white_os.Vfs.{SeekMode, seek_set, seek_cur, seek_end, seek_other}
use white_os.Fat16.Layout.{
  FatHeader, header_of, header_size, signature, FatPrivate, FatDirectory, FatItem,
  FatFileDescriptor, DirectoryPointer, null, root, own, dangling, FatItemType, type_directory,
  type_file, item_size, fat16_get_first_cluster, filesize, attribute, fat_file_read_only,
}
use white_os.Fat16.Table.{fat16_read_internal}
use white_os.Fat16.Directory.{
  fat16_get_root_directory, fat16_get_directory_entry, pointed, count_of,
}

-- FILE_STAT_READ_ONLY
abbrev pub file_stat_read_only : ℕ
file_stat_read_only = 1

-- The three streams of a disk that is there, and zeros.
unfoldable pub fat16_init_private : (disk_id : ℕ) → Option FatPrivate
unfolding header_of
fat16_init_private disk_id = elim (diskstreamer_new disk_id) [
  | none ↦ none
  | some stream ↦ some (record {
    header = header_of [];
    root_directory = record {
      items = none;
      curr_item = 0;
      total_items = pos 0;
      sector_pos = 0;
      ending_sector_pos = 0;
    };
    cluster_read_stream = stream;
    fat_read_stream = stream;
    directory_stream = stream;
  })
]

-- The root directory for an empty path.
abbrev pub root_item : FatItem
root_item = record { item = none; directory = root; kind = type_directory }

-- The private data without the items of the root directory, once they are freed.
abbrev pub without_root : FatPrivate → FatPrivate
without_root p = record p { root_directory = record p.root_directory { items = none } }

-- What freeing an item does to the directory behind it; a second `kfree` is a fault. So is `kfree` of
-- a null pointer, which looks in front of the heap's table. The `kfree` of the root directory itself,
-- whose address lies within the private data, gives back their block; what is kept of them is not
-- cleared by that.
unfoldable pub fat16_fat_item_free : FatPrivate → FatItem → Run FatPrivate
fat16_fat_item_free p item = do
  p' ← elim item.kind [
    | type_file ↦ ret p
    | type_directory ↦ elim item.directory [
      | null ↦ ret p
      | own d ↦ ret p
      | root ↦ ret (without_root p)
      | dangling ↦ fault
    ]
  ]
  freed ← reach item.item
  ret p'

unfoldable pub fat16_close : FatPrivate → FatFileDescriptor → Run (ℤ × FatPrivate)
unfolding fat16_fat_item_free
fat16_close p desc = do p' ← fat16_fat_item_free p desc.item; ret (all_ok, p')

-- The status, and through `stat` the size and the flags.
unfoldable pub fat16_stat : FatFileDescriptor → Run (ℤ × Option (ℕ × ℕ))
fat16_stat desc = elim desc.item.kind [
  | type_directory ↦ ret (einvarg, none)
  | type_file ↦ do
    ritem ← reach desc.item.item
    let flags = if bit_and (attribute ritem) fat_file_read_only == 0 then 0 else file_stat_read_only
    ret (all_ok, some (filesize ritem, flags))
]

-- `offset` is a `uint32_t`.
unfoldable pub fat16_seek :
    FatFileDescriptor → (offset : ℕ) → SeekMode → Run (ℤ × FatFileDescriptor)
fat16_seek desc offset seek_mode = elim desc.item.kind [
  | type_directory ↦ ret (einvarg, desc)
  | type_file ↦ do
    ritem ← reach desc.item.item
    elim seek_mode [
      | seek_set ↦
          if leb (filesize ritem) offset
          then ret (eio, desc)
          else ret (all_ok, record desc { pos = offset })
      | seek_end ↦ ret (eunimp, desc)
      | seek_cur ↦
          if leb (filesize ritem) ((desc.pos + offset) % 2 ^ 32)
          then ret (eio, desc)
          else ret (all_ok, record desc { pos = (desc.pos + offset) % 2 ^ 32 })
      | seek_other ↦ ret (einvarg, desc)
    ]
]

-- The directory behind a descriptor, with the next item counted.
abbrev pub advance : FatPrivate → FatFileDescriptor → FatDirectory → FatPrivate × FatFileDescriptor
advance p desc dir =
    let dir' : FatDirectory = record dir { curr_item = dir.curr_item + 1 } in
    elim desc.item.directory [
      | null ↦ (p, desc)
      | root ↦ (record p { root_directory = dir' }, desc)
      | own d ↦ (p, record desc { item = record desc.item { directory = own dir' } })
      | dangling ↦ (p, desc)
    ]

-- The status, and through `entry_private` the array of the items from the next one on.
unfoldable pub fat16_readdir :
    FatPrivate → FatFileDescriptor → Run (ℤ × Option (List ℕ) × FatPrivate × FatFileDescriptor)
fat16_readdir p desc = elim desc.item.kind [
  | type_file ↦ ret (einvarg, none, p, desc)
  | type_directory ↦ do
    dir ← pointed p desc.item.directory
    if leb (count_of dir.total_items) dir.curr_item then ret (pos 1, none, p, desc) else (do
      items ← reach dir.items
      let after = advance p desc dir
      ret (all_ok, some (drop (dir.curr_item * item_size) items), after.0, after.1))
]

module _ (read_block : ℕ → Option (List ℕ)) (fuel : ℕ) where
  -- The loop of `fat16_read`, with `left` blocks of `size` bytes to go.
  unfoldable pub blocks_loop :
      (rounds left : ℕ) → FatPrivate → List ℕ → (size offset : ℕ) → Run (ℤ × List ℕ × FatPrivate)
  blocks_loop rounds zero p item size offset = ret (all_ok, [], p)
  blocks_loop rounds (suc left) p item size offset = do
    let again = blocks_loop rounds left
    (res, bytes, p') ←
        fat16_read_internal read_block fuel rounds p (fat16_get_first_cluster item) offset size
    elim res [
      | negsuc e ↦ ret (negsuc e, bytes, p')
      | pos r ↦ do
        (res', more, p'') ← again p' item size (offset + size)
        ret (res', bytes ++ more, p'')
    ]

  -- The status and the bytes that went to `out_ptr`; the position of the descriptor stays.
  unfoldable pub fat16_read :
      (rounds : ℕ)
      → FatPrivate
      → FatFileDescriptor
      → (size nmemb : ℕ) → Run (ℤ × List ℕ × FatPrivate)
  fat16_read rounds p desc size nmemb = if nmemb == 0 then ret (pos 0, [], p) else (do
    item ← reach desc.item.item
    (res, bytes, p') ← blocks_loop rounds nmemb p item size desc.pos
    elim res [ negsuc e ↦ ret (negsuc e, bytes, p') | pos r ↦ ret (pos nmemb, bytes, p') ])

  -- Without an item the descriptor is freed through the null pointer in it: a fault, before the error
  -- is returned.
  unfoldable pub fat16_open :
      (rounds : ℕ)
      → FatPrivate
      → List (List ℕ)
      → (last_next : ℕ) → Run (FatFileDescriptor × FatPrivate)
  fat16_open rounds p [] last_next = ret (record { item = root_item; pos = 0 }, p)
  fat16_open rounds p (name ∷ next) last_next = do
    (found, p') ← fat16_get_directory_entry read_block fuel rounds p name next last_next
    item ← reach found
    ret (record { item = item; pos = 0 }, p')

  -- The status, and the private data that the disk has behind the call.
  unfoldable pub fat16_resolve : (rounds disk_id : ℕ) → Run (ℤ × Option FatPrivate)
  unfolding fat16_init_private
  fat16_resolve rounds disk_id = do
    fat_private ← reach (fat16_init_private disk_id)
    stream ← reach (diskstreamer_new disk_id)
    (res, bytes, stream') ← diskstreamer_read read_block fuel stream header_size
    elim res [
      | negsuc e ↦ ret (eio, none)
      | pos r ↦ if not (signature bytes == 0x29) then ret (efsnotus, none) else (do
        (res', p) ←
            fat16_get_root_directory read_block fuel rounds
              (record fat_private { header = header_of bytes })
        elim res' [ negsuc e ↦ ret (eio, none) | pos r' ↦ ret (all_ok, some p) ])
    ]
