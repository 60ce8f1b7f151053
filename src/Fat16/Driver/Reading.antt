-- ===== src/Fat16/Driver/Reading.antt =====
-- `fread` through a file descriptor.
use white_os.Base.{
  ℕ, suc, ◌+◌, ◌*◌, ◌≤◌, ◌<◌, ◌≡◌, refl, false, ◌||◌, Option, some, List, arith, ◌==◌,
}
use white_os.Base.Int.{pos}
use white_os.Base.Runs.{ret}
use white_os.Disk.Stream.{bytes_from, IsImage}
use white_os.Vfs.{FileDescriptor, Vfs}
use white_os.Vfs.Descriptors.{IsTable}
use white_os.Vfs.Close.{IsOpen, find_open}
use white_os.Vfs.Calls.{fread}
use white_os.Fat16.Layout.{FatPrivate, fat16_get_first_cluster}
use white_os.Fat16.Table.{size_of_cluster_bytes}
use white_os.Fat16.Table.Chain.{Lookups}
use white_os.Fat16.Table.Clusters.{file_byte}
use white_os.Fat16.Files.Seek.{open_file}
use white_os.Fat16.Files.Read.{fat16_read_lem}
use white_os.Fat16.Driver.{FatState, with_private, fat16_fs}

module _ (image : ℕ → ℕ) (read_block : ℕ → Option (List ℕ)) (disk : IsImage image read_block)
    (fuel rounds : ℕ) (address_of : ℕ → ℕ) where
  -- Reading one block of any size through the number of an open file that stands at the start of a
  -- cluster returns 1 and exactly the bytes of the clusters that the driver's lookups lead to, and
  -- changes nothing but the private data of the disk, where a lookup leads to a cluster for each part
  -- of the block and the recursion has a round for each cluster.
  pub fread_lem :
      (s : Vfs FatState) (fd desc : ℕ) (object : FileDescriptor FatState) (p : FatPrivate)
      (k size : ℕ) (nth : ℕ → ℕ) (item : List ℕ)
      → IsTable s
      → IsOpen s fd desc object (fat16_fs read_block (suc fuel) rounds address_of)
      → s.driver.fs_private ≡ some p
      → s.driver.descriptors object.private_data
        ≡ some (open_file item (k * size_of_cluster_bytes p))
      → 0 < size_of_cluster_bytes p
      → size_of_cluster_bytes p ≤ fuel * 512
      → 0 < size
      → size ≤ rounds * size_of_cluster_bytes p
      → ((j : ℕ)
          → j * size_of_cluster_bytes p < k * size_of_cluster_bytes p + size
          → Lookups image p (fat16_get_first_cluster item) j (nth j))
      → (q : FatPrivate) × (fread s size 1 (pos fd)
          ≡ ret (
            pos 1,
            bytes_from (file_byte image p nth) (k * size_of_cluster_bytes p) size,
            record s { driver = with_private s.driver q },
          ))
  unfolding fread
  fread_lem s fd desc object p k size nth item table opened private at cluster_pos cluster_in z h
        c =
      let (q, e) =
        fat16_read_lem image read_block disk fuel p cluster_pos cluster_in rounds k size nth item z
          h c in
      (q, rw (guard, find_open table opened, at, private, e) refl)
    where
      guard : (size == 0 || (1 == 0 || fd == 0)) ≡ false
      guard = ground (arith, z, opened.positive)
