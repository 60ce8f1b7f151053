-- ===== src/Fat16/Table/Chain.antt =====
-- The clusters that the driver's lookups lead to. The lookups are misplaced, so these are not the
-- chains of the allocation table.
use white_os.Base.{
  ℕ, zero, suc, ◌+◌, ◌*◌, ◌/◌, ◌%◌, ◌≤◌, ◌<◌, ◌≡◌, refl, sym, subst, ◌≢◌, true, false, Option, List,
  arith, ◌==◌,
}
use white_os.Base.Int.{pos}
use white_os.Base.Runs.{ret}
use white_os.Status.{eio}
use white_os.Disk.{diskstreamer_seek}
use white_os.Disk.Stream.{IsImage, diskstreamer_read-within}
use white_os.Fat16.Layout.{FatPrivate}
use white_os.Fat16.Table.{
  entry_position, is_stop, size_of_cluster_bytes, fat16_get_fat_entry, cluster_loop,
  fat16_get_cluster_for_offset,
}

-- The 16 bits of the image at a byte.
abbrev pub word_at : (ℕ → ℕ) → ℕ → ℕ
word_at image p = image p + 256 * image (p + 1)

-- The entry that the driver reads for a cluster.
abbrev pub next_of : (ℕ → ℕ) → FatPrivate → ℕ → ℕ
next_of image p c = word_at image (entry_position p (pos c))

-- `n` lookups of the driver from one cluster to another, none of them giving an entry that stops.
pub data Lookups (image : ℕ → ℕ) (p : FatPrivate) : ℕ → ℕ → ℕ → Type 0 where
  here : {c : ℕ} → Lookups image p c 0 c
  next :
      {c n d : ℕ}
      → is_stop (next_of image p c) ≡ false
      → Lookups image p (next_of image p c) n d
      → Lookups image p c (suc n) d

regroup : (r c : ℕ) → r * 512 * (c * 2) ≡ r * (c * 2) * 512
regroup r c = grind arith

-- The driver reads every entry from the start of a sector.
entry_position-mod : (p : FatPrivate) (c : ℕ) → entry_position p (pos c) % 512 ≡ 0
unfolding entry_position
entry_position-mod p c = rw (regroup p.header.reserved_sectors c) (omega arith)

-- The markers of FAT16 stop nothing.
marker-go : (e : ℕ) → 0xFFF8 ≤ e → is_stop e ≡ false
unfolding is_stop
marker-go e h = ground arith

-- The private data with the stream of the table at a position.
abbrev pub with_stream : FatPrivate → ℕ → FatPrivate
with_stream p at = record p { fat_read_stream = record { position = at } }

module _ (image : ℕ → ℕ) (read_block : ℕ → Option (List ℕ)) (disk : IsImage image read_block)
    (fuel : ℕ) (p : FatPrivate) where
  pub fat16_get_fat_entry_lem :
      (c at : ℕ)
      → fat16_get_fat_entry read_block (suc fuel) (with_stream p at) (pos c)
        ≡ ret (pos (next_of image p c), with_stream p (entry_position p (pos c) + 2))
  unfolding fat16_get_fat_entry entry_position diskstreamer_seek
  fat16_get_fat_entry_lem c at =
      rw
        (diskstreamer_read-within image read_block disk fuel (entry_position p (pos c)) 2
          (omega (arith, entry_position-mod p c)))
        refl

  -- The entry that is read for a cluster is not the one that the table has for it, for any cluster
  -- but the multiples of 256: it is read from the start of a sector.
  pub fat16_get_fat_entry-misplaced :
      (c at : ℕ)
      → c % 256 ≢ 0
      → (position : ℕ) × (fat16_get_fat_entry read_block (suc fuel) (with_stream p at) (pos c)
          ≡ ret (pos (word_at image position), with_stream p (position + 2)))
        × (position % 512 ≡ 0)
        × (position ≢ p.header.reserved_sectors * 512 + c * 2)
  fat16_get_fat_entry-misplaced c at h = (
    entry_position p (pos c),
    fat16_get_fat_entry_lem c at,
    entry_position-mod p c,
    λ e. h (omega (arith, entry_position-mod p c)),
  )

  -- Where the loop makes the lookups.
  cluster_loop-Lookups :
      {c n d : ℕ} (at : ℕ)
      → Lookups image p c n d
      → (at' : ℕ) × (cluster_loop read_block (suc fuel) n (pos c) (with_stream p at)
          ≡ ret (pos d, with_stream p at'))
  unfolding cluster_loop
  cluster_loop-Lookups at here = (at, refl)
  cluster_loop-Lookups {c} at (next s h) =
      let (at', e) = cluster_loop-Lookups (entry_position p (pos c) + 2) h in
      (at', rw (fat16_get_fat_entry_lem c at, s) e)

  -- Where an entry stops the loop before its end.
  cluster_loop-stop :
      (m at : ℕ) {c n d : ℕ}
      → Lookups image p c n d
      → is_stop (next_of image p d) ≡ true
      → n < m
      → (at' : ℕ) × (cluster_loop read_block (suc fuel) m (pos c) (with_stream p at)
          ≡ ret (eio, with_stream p at'))
  unfolding cluster_loop
  cluster_loop-stop zero at h t l = absurd (omega arith)
  cluster_loop-stop (suc m) at {c} here t l =
      (entry_position p (pos c) + 2, rw (fat16_get_fat_entry_lem c at, t) refl)
  cluster_loop-stop (suc m) at {c} (next s h) t l =
      let (at', e) = cluster_loop-stop m (entry_position p (pos c) + 2) h t (omega arith) in
      (at', rw (fat16_get_fat_entry_lem c at, s) e)

  sized : size_of_cluster_bytes p ≢ 0 → (size_of_cluster_bytes p == 0) ≡ false
  sized h = ground arith

  -- The cluster of an offset is the one that as many lookups lead to as whole clusters lie before it.
  pub fat16_get_cluster_for_offset-Lookups :
      (start offset d at : ℕ)
      → size_of_cluster_bytes p ≢ 0
      → Lookups image p start (offset / size_of_cluster_bytes p) d
      → (at' : ℕ) × (fat16_get_cluster_for_offset read_block
            (suc fuel)
            (with_stream p at)
            start
            offset
          ≡ ret (pos d, with_stream p at'))
  unfolding fat16_get_cluster_for_offset
  fat16_get_cluster_for_offset-Lookups start offset d at z h =
      let (at', e) = cluster_loop-Lookups at h in (at', rw (sized z) e)

  -- An offset behind an entry that stops is an error.
  pub fat16_get_cluster_for_offset-stop :
      (start offset n d at : ℕ)
      → size_of_cluster_bytes p ≢ 0
      → Lookups image p start n d
      → is_stop (next_of image p d) ≡ true
      → n < offset / size_of_cluster_bytes p
      → (at' : ℕ) × (fat16_get_cluster_for_offset read_block
            (suc fuel)
            (with_stream p at)
            start
            offset
          ≡ ret (eio, with_stream p at'))
  unfolding fat16_get_cluster_for_offset
  fat16_get_cluster_for_offset-stop start offset n d at z h t l =
      let (at', e) = cluster_loop-stop (offset / size_of_cluster_bytes p) at h t l in
      (at', rw (sized z) e)

  Lookups-snoc :
      {c n d : ℕ}
      → Lookups image p c n d
      → is_stop (next_of image p d) ≡ false
      → Lookups image p c (suc n) (next_of image p d)
  Lookups-snoc here t = next t here
  Lookups-snoc (next s h) t = next s (Lookups-snoc h t)

  -- The end of a chain as FAT16 marks it, 0xFFF8 to 0xFFFF, is no end here: an offset in the cluster
  -- behind it gives the marker as a cluster.
  pub fat16_get_cluster_for_offset-marker :
      (start offset n d at : ℕ)
      → size_of_cluster_bytes p ≢ 0
      → Lookups image p start n d
      → 0xFFF8 ≤ next_of image p d
      → offset / size_of_cluster_bytes p ≡ suc n
      → (at' : ℕ) × (fat16_get_cluster_for_offset read_block
            (suc fuel)
            (with_stream p at)
            start
            offset
          ≡ ret (pos (next_of image p d), with_stream p at'))
  fat16_get_cluster_for_offset-marker start offset n d at z h m e =
      fat16_get_cluster_for_offset-Lookups start offset (next_of image p d) at z (
        subst (λ k. Lookups image p start k (next_of image p d)) (sym e)
          (Lookups-snoc h (marker-go (next_of image p d) m)))
