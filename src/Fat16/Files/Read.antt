-- ===== src/Fat16/Files/Read.antt =====
-- Reading an open file.
use white_os.Base.{
  ℕ, zero, suc, ◌-◌, arith, ap, sym, ◌∙◌, ◌+◌, ◌*◌, ◌≤◌, ◌<◌, ◌≡◌, refl, Option, List, append-nil,
}
use white_os.Base.Int.{pos}
use white_os.Base.Runs.{ret}
use white_os.Disk.Stream.{bytes_from, IsImage}
use white_os.Fat16.Layout.{FatPrivate, filesize, fat16_get_first_cluster}
use white_os.Fat16.Table.{size_of_cluster_bytes, fat16_cluster_to_sector}
use white_os.Fat16.Table.Chain.{Lookups, here}
use white_os.Fat16.Table.Clusters.{file_byte, cluster_bytes, suc_times, fat16_read_internal_lem}
use white_os.Fat16.Files.{blocks_loop, fat16_read}
use white_os.Fat16.Files.Seek.{open_file}

-- Where the first cluster of a file starts on the disk: the clusters are numbered from 2 on, and stand
-- behind the root directory.
abbrev pub first_byte : FatPrivate → (item : List ℕ) → ℕ
first_byte p item =
    p.root_directory.ending_sector_pos * 512
    + (fat16_get_first_cluster item - 2) * (p.header.sectors_per_cluster * 512)

module _ (image : ℕ → ℕ) (read_block : ℕ → Option (List ℕ)) (disk : IsImage image read_block)
    (fuel : ℕ) (p : FatPrivate) (size_pos : 0 < size_of_cluster_bytes p)
    (size_in : size_of_cluster_bytes p ≤ fuel * 512) where
  -- Reading one block of any size from an open file that stands at the start of a cluster returns 1
  -- and exactly the bytes of the clusters that the driver's lookups lead to, where they lead to a
  -- cluster for each part of the block and the recursion has a round for each cluster.
  pub fat16_read_lem :
      (rounds k size : ℕ) (nth : ℕ → ℕ) (item : List ℕ)
      → 0 < size
      → size ≤ rounds * size_of_cluster_bytes p
      → ((j : ℕ)
          → j * size_of_cluster_bytes p < k * size_of_cluster_bytes p + size
          → Lookups image p (fat16_get_first_cluster item) j (nth j))
      → (q : FatPrivate) × (fat16_read read_block
            (suc fuel)
            rounds
            p
            (open_file item (k * size_of_cluster_bytes p))
            size
            1
          ≡ ret (pos 1, bytes_from (file_byte image p nth) (k * size_of_cluster_bytes p) size, q))
  unfolding fat16_read blocks_loop
  fat16_read_lem rounds k size nth item z h c =
      let (q, e, f, g) =
        fat16_read_internal_lem image read_block disk fuel p size_pos size_in rounds
          (fat16_get_first_cluster item) k size nth z h c in
      (
        q,
        rw (e, append-nil (bytes_from (file_byte image p nth) (k * size_of_cluster_bytes p) size))
            refl,
      )

  place :
      (sector per c : ℕ)
      → 2 ≤ c
      → (sector + c * per - 2 * per) * 512 ≡ sector * 512 + (c - 2) * (per * 512)
  place sector per zero h = absurd (omega arith)
  place sector per (suc zero) h = absurd (omega arith)
  place sector per (suc (suc k)) h =
      ap (λ n. n * 512) (omega (arith, suc_times (suc k) per, suc_times k per)) ∙ apart
    where
      apart : (sector + k * per) * 512 ≡ sector * 512 + (suc (suc k) - 2) * (per * 512)
      apart = grind arith

  pub first-Lookups :
      (c size : ℕ)
      → size ≤ size_of_cluster_bytes p
      → (j : ℕ) → j * size_of_cluster_bytes p < 0 * size_of_cluster_bytes p + size
      → Lookups image p c j c
  first-Lookups c size l zero h = here
  first-Lookups c size l (suc j) h = absurd (omega (arith, suc_times j (size_of_cluster_bytes p)))

  -- The bytes of the first cluster, where the layout of the disk has it: cluster 2 stands behind the
  -- root directory.
  pub first_cluster_bytes :
      (item : List ℕ) (size : ℕ)
      → 2 ≤ fat16_get_first_cluster item
      → size ≤ size_of_cluster_bytes p
      → bytes_from (file_byte image p (λ j. fat16_get_first_cluster item)) 0 size
        ≡ bytes_from image (first_byte p item) size
  unfolding fat16_cluster_to_sector
  first_cluster_bytes item size h l =
      ap (λ n. bytes_from (file_byte image p (λ j. fat16_get_first_cluster item)) n size) from_zero
      ∙ sym (
          cluster_bytes image read_block disk fuel p size_pos size_in
            (λ j. fat16_get_first_cluster item) 0 0 size (omega arith))
      ∙ ap (λ n. bytes_from image n size)
          (omega (
            arith,
            place p.root_directory.ending_sector_pos p.header.sectors_per_cluster
                (fat16_get_first_cluster item) h,
          ))
    where
      from_zero : 0 ≡ 0 * size_of_cluster_bytes p + 0
      from_zero = omega arith

  -- Reading one block from an open file at its start returns 1 and exactly the first bytes of the
  -- file, for a block that is not longer than the file or than a cluster: it is in the file's first
  -- cluster, which stands where the layout of the disk has it.
  pub fat16_read-first_cluster :
      (rounds size : ℕ) (item : List ℕ)
      → 2 ≤ fat16_get_first_cluster item
      → 0 < size
      → size ≤ size_of_cluster_bytes p
      → size ≤ filesize item
      → (q : FatPrivate) × (fat16_read read_block
            (suc fuel)
            (suc rounds)
            p
            (open_file item 0)
            size
            1
          ≡ ret (pos 1, bytes_from image (first_byte p item) size, q))
  fat16_read-first_cluster rounds size item c z l f =
      let (q, e) =
        fat16_read_lem (suc rounds) 0 size (λ j. fat16_get_first_cluster item) item z
          (omega (arith, suc_times rounds (size_of_cluster_bytes p)))
          (first-Lookups (fat16_get_first_cluster item) size l) in
      (
        q,
        ap (λ n. fat16_read read_block (suc fuel) (suc rounds) p (open_file item n) size 1)
              (sym start)
            ∙ e
            ∙ ap
                (λ n. ret (
                  pos 1,
                  bytes_from (file_byte image p (λ j. fat16_get_first_cluster item)) n size,
                  q,
                ))
                start
            ∙ ap (λ xs. ret (pos 1, xs, q)) (first_cluster_bytes item size c l),
      )
    where
      start : 0 * size_of_cluster_bytes p ≡ 0
      start = omega arith
