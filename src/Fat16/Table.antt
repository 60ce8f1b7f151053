-- ===== src/Fat16/Table.antt =====
-- The file allocation table and the reading of clusters. `read_block` gives the bytes of a sector;
-- `fuel` bounds the rounds of each read of the disk.
pub mod Chain
pub mod Clusters
use white_os.Base.{
  ℕ, zero, suc, ◌+◌, ◌-◌, ◌*◌, ◌/◌, ◌%◌, ◌^◌, ◌≤◌, ◌<◌, bit_and, bit_or, ◌≡◌, refl, sym, ap, ap₂,
  ◌∙◌, subst, ◌≢◌, ◌↔◌, ◌⊎◌, inl, inr, Bool, true, false, not, ◌&&◌, ◌||◌, Option, none, some, List,
  [], ◌∷◌, ◌++◌, map, append-nil, append_assoc, arith, dec_lt, dec_le, ℕ_discrete, ltb, leb, ◌==◌,
  if◌then◌else◌, ltb→lt, lt→ltb, leb→le, ==_iff, Bool-cases, Option-cases, length, get_elem?, set,
  get_or, take, drop, replicate, length-append, length-set, get_elem?-set_self, get_elem?-set_ne,
  take-append-drop, length-take, length-drop, length-replicate, length-map, store, set-append,
  store-append, store_of_lt, get_elem?-append, get_or-append_left, get_or-append_right, snoc-append,
  length-snoc, get_elem?-drop, take_self, drop_self, replicate-add, get_or-set_self, get_or-set_ne,
  get_or-snoc, get_elem?-eq-get_or,
}
use white_os.Base.Int.{ℤ, pos, negsuc}
use white_os.Base.Runs.{Run, ret, fault, running, ◌>>=◌}
use white_os.Status.{all_ok, eio}
use white_os.Disk.{sector_size, DiskStream, diskstreamer_seek, diskstreamer_read}
use white_os.Fat16.Layout.{FatHeader, FatPrivate, word16}

unfoldable pub fat16_sector_to_absolute : ℕ → ℕ
fat16_sector_to_absolute sector = sector * sector_size

unfoldable pub fat16_cluster_to_sector : FatPrivate → ℕ → ℕ
fat16_cluster_to_sector p cluster =
    p.root_directory.ending_sector_pos
    + cluster * p.header.sectors_per_cluster
    - 2 * p.header.sectors_per_cluster

unfoldable pub fat16_get_first_fat_sector : FatPrivate → ℕ
fat16_get_first_fat_sector p = p.header.reserved_sectors

-- WHITEOS_FAT16_FAT_ENTRY_SIZE
abbrev pub fat_entry_size : ℕ
fat_entry_size = 2

-- `fat_table_position * (cluster * WHITEOS_FAT16_FAT_ENTRY_SIZE)` in 32 bits
unfoldable pub entry_position : FatPrivate → ℤ → ℕ
unfolding fat16_get_first_fat_sector
entry_position p (pos c) =
    fat16_get_first_fat_sector p * sector_size * (c * fat_entry_size) % 2 ^ 32
entry_position p (negsuc c) =
    (2 ^ 32 - fat16_get_first_fat_sector p * sector_size * ((c + 1) * fat_entry_size) % 2 ^ 32)
    % 2 ^ 32

-- The entries at which `fat16_get_cluster_for_offset` gives up: 0xFF8 and 0xFFF for the last one,
-- 0xFF7 for a bad sector, 0xFF0 and 0xFF6, and 0.
unfoldable pub is_stop : ℕ → Bool
is_stop entry =
    entry == 0xFF8
    || (entry == 0xFFF || (entry == 0xFF7 || (entry == 0xFF0 || (entry == 0xFF6 || entry == 0x00))))

abbrev pub size_of_cluster_bytes : FatPrivate → ℕ
size_of_cluster_bytes p = p.header.sectors_per_cluster * sector_size

module _ (read_block : ℕ → Option (List ℕ)) (fuel : ℕ) where
  unfoldable pub fat16_get_fat_entry : FatPrivate → ℤ → Run (ℤ × FatPrivate)
  unfolding diskstreamer_seek
  fat16_get_fat_entry p cluster = do
    let stream = (diskstreamer_seek p.fat_read_stream (entry_position p cluster)).1
    (res, bytes, stream') ← diskstreamer_read read_block fuel stream fat_entry_size
    let p' : FatPrivate = record p { fat_read_stream = stream' }
    elim res [ negsuc e ↦ ret (negsuc e, p') | pos r ↦ ret (pos (word16 bytes 0), p') ]

  -- The loop over the clusters ahead; an error of the disk is taken for an entry.
  unfoldable pub cluster_loop : (clusters_ahead : ℕ) → ℤ → FatPrivate → Run (ℤ × FatPrivate)
  unfolding is_stop
  cluster_loop zero cluster_to_use p = ret (cluster_to_use, p)
  cluster_loop (suc ahead) cluster_to_use p = do
    let again = cluster_loop ahead
    (entry, p') ← fat16_get_fat_entry p cluster_to_use
    elim entry [
      | negsuc e ↦ again (negsuc e) p'
      | pos n ↦ if is_stop n then ret (eio, p') else again (pos n) p'
    ]

  -- The division by a cluster size of 0 is a fault.
  unfoldable pub fat16_get_cluster_for_offset :
      FatPrivate → (starting_cluster offset : ℕ) → Run (ℤ × FatPrivate)
  fat16_get_cluster_for_offset p starting_cluster offset =
      if size_of_cluster_bytes p == 0
      then fault
      else cluster_loop (offset / size_of_cluster_bytes p) (pos starting_cluster) p

  -- The part of a round behind the choice of the cluster; `again` is the recursive call.
  unfoldable pub read_chunk :
      (again : FatPrivate
        → DiskStream
        → (cluster offset total : ℕ) → Run (ℤ × List ℕ × DiskStream × FatPrivate))
      → FatPrivate
      → DiskStream
      → (cluster offset total starting_pos total_to_read : ℕ)
      → Run (ℤ × List ℕ × DiskStream × FatPrivate)
  unfolding diskstreamer_seek
  read_chunk again p stream cluster offset total starting_pos total_to_read = do
    (res, bytes, stream') ←
        diskstreamer_read read_block fuel (diskstreamer_seek stream starting_pos).1 total_to_read
    elim res [
      | negsuc e ↦ ret (negsuc e, bytes, stream', p)
      | pos r ↦
          if ltb total_to_read total
          then (do
            (res', more, stream'', p') ←
                again p stream' cluster (offset + total_to_read) (total - total_to_read)
            ret (res', bytes ++ more, stream'', p'))
          else ret (pos r, bytes, stream', p)
    ]

  -- The status and the bytes that went to `out`; the recursion has `rounds`.
  unfoldable pub fat16_read_internal_from_stream :
      (rounds : ℕ)
      → FatPrivate
      → DiskStream
      → (cluster offset total : ℕ) → Run (ℤ × List ℕ × DiskStream × FatPrivate)
  fat16_read_internal_from_stream zero p stream cluster offset total = running
  fat16_read_internal_from_stream (suc rounds) p stream cluster offset total = do
    let again = fat16_read_internal_from_stream rounds
    (cluster_to_use, p') ← fat16_get_cluster_for_offset p cluster offset
    elim cluster_to_use [
      | negsuc e ↦ ret (negsuc e, [], stream, p')
      | pos c ↦
          read_chunk again p' stream cluster offset total
            (fat16_cluster_to_sector p' c * sector_size + offset % size_of_cluster_bytes p')
            (if ltb (size_of_cluster_bytes p') total then size_of_cluster_bytes p' else total)
    ]

  unfoldable pub fat16_read_internal :
      (rounds : ℕ)
      → FatPrivate
      → (starting_cluster offset total : ℕ) → Run (ℤ × List ℕ × FatPrivate)
  fat16_read_internal rounds p starting_cluster offset total = do
    (res, bytes, stream, p') ←
        fat16_read_internal_from_stream rounds p p.cluster_read_stream starting_cluster offset total
    ret (res, bytes, record p' { cluster_read_stream = stream })
