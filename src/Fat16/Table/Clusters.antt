-- ===== src/Fat16/Table/Clusters.antt =====
-- Reading the clusters that the driver's lookups lead to.
use white_os.Base.{
  ℕ, zero, suc, ◌+◌, ◌-◌, ◌*◌, ◌/◌, ◌%◌, ◌≤◌, ◌<◌, ◌≡◌, refl, sym, ap, ap₂, ◌∙◌, subst, false,
  Option, List, ◌∷◌, ◌++◌, arith, dec_lt, ltb, if◌then◌else◌, lt→ltb,
}
use native.Mathlib.Nat.{mul-add-div_right, add-mul-mod_self_right, div-eq_of_lt, mod-eq_of_lt}
use white_os.Base.Int.{ℤ}
use white_os.Base.Runs.{Run, ret, ◌>>=◌}
use white_os.Status.{all_ok}
use white_os.Disk.{DiskStream, diskstreamer_seek, diskstreamer_read}
use white_os.Disk.Stream.{bytes_from, IsImage, bytes_from-add, diskstreamer_read-aligned}
use white_os.Fat16.Layout.{FatPrivate}
use white_os.Fat16.Table.{
  size_of_cluster_bytes, fat16_cluster_to_sector, fat16_read_internal_from_stream,
  fat16_read_internal, read_chunk,
}
use white_os.Fat16.Table.Chain.{Lookups, with_stream, fat16_get_cluster_for_offset-Lookups}

block-div : (s k i : ℕ) → i < s → (k * s + i) / s ≡ k
block-div s k i h = omega (arith, mul-add-div_right {m = s} (omega arith) k i, div-eq_of_lt h)

block-mod : (s k i : ℕ) → i < s → (k * s + i) % s ≡ i
block-mod s k i h = ap (λ n. n % s) flip ∙ add-mul-mod_self_right i k s ∙ mod-eq_of_lt h
  where
    flip : k * s + i ≡ i + k * s
    flip = omega arith

bytes_from-cong :
    (f g : ℕ → ℕ) (p q n : ℕ)
    → ((i : ℕ) → i < n → f (p + i) ≡ g (q + i))
    → bytes_from f p n ≡ bytes_from g q n
bytes_from-cong f g p q zero h = refl
bytes_from-cong f g p q (suc n) h =
    ap₂ (λ x xs. x ∷ xs) (ap f (sym (none_on p)) ∙ h 0 (omega arith) ∙ ap g (none_on q))
      (bytes_from-cong f g (p + 1) (q + 1) n
        (λ i l. ap f (shift p i) ∙ h (suc i) (omega arith) ∙ ap g (sym (shift q i))))
  where
    none_on : (r : ℕ) → r + 0 ≡ r
    none_on r = omega arith

    shift : (r i : ℕ) → r + 1 + i ≡ r + suc i
    shift r i = omega arith

-- Where a cluster starts on the disk.
abbrev pub cluster_start : FatPrivate → ℕ → ℕ
cluster_start p c = fat16_cluster_to_sector p c * 512

-- The bytes of clusters in the order of `nth`.
abbrev pub file_byte : (ℕ → ℕ) → FatPrivate → (nth : ℕ → ℕ) → ℕ → ℕ
file_byte image p nth j =
    image (cluster_start p (nth (j / size_of_cluster_bytes p)) + j % size_of_cluster_bytes p)

pub suc_times : (n s : ℕ) → suc n * s ≡ n * s + s
suc_times n s = grind arith

not_less : (a b : ℕ) → b ≤ a → ltb a b ≡ false
not_less a b h = ground arith

abbrev prepend :
    List ℕ → (ℤ × List ℕ × DiskStream × FatPrivate) → Run (ℤ × List ℕ × DiskStream × FatPrivate)
prepend bytes (res, more, stream, p) = ret (res, bytes ++ more, stream, p)

module _ (image : ℕ → ℕ) (read_block : ℕ → Option (List ℕ)) (disk : IsImage image read_block)
    (fuel : ℕ) (p : FatPrivate) (size_pos : 0 < size_of_cluster_bytes p)
    (size_in : size_of_cluster_bytes p ≤ fuel * 512) where
  -- One read from the disk, from a sector boundary.
  cluster_read :
      (c r t : ℕ)
      → r % 512 ≡ 0
      → t ≤ size_of_cluster_bytes p
      → diskstreamer_read read_block (suc fuel) (record { position = cluster_start p c + r }) t
        ≡ ret (
          all_ok,
          bytes_from image (cluster_start p c + r) t,
          record { position = cluster_start p c + r + t },
        )
  cluster_read c r t h l =
      diskstreamer_read-aligned image read_block disk fuel (cluster_start p c + r) t (omega arith)
        (omega arith)

  -- A part of a cluster is a part of the bytes of the clusters.
  pub cluster_bytes :
      (nth : ℕ → ℕ) (k r t : ℕ)
      → r + t ≤ size_of_cluster_bytes p
      → bytes_from image (cluster_start p (nth k) + r) t
        ≡ bytes_from (file_byte image p nth) (k * size_of_cluster_bytes p + r) t
  cluster_bytes nth k r t h =
      bytes_from-cong image (file_byte image p nth) (cluster_start p (nth k) + r)
        (k * size_of_cluster_bytes p + r) t (λ i l. ap image (there i l))
    where
      size : ℕ
      size = size_of_cluster_bytes p

      joined : (i : ℕ) → k * size + r + i ≡ k * size + (r + i)
      joined i = omega arith

      there :
          (i : ℕ)
          → i < t
          → cluster_start p (nth k) + r + i
            ≡ cluster_start p (nth ((k * size + r + i) / size)) + (k * size + r + i) % size
      there i l =
          rw
            (
              joined i,
              block-div size k (r + i) (omega arith),
              block-mod size k (r + i) (omega arith),
            )
            (omega arith)

  -- The chunk of a round.
  module _
      (again : FatPrivate
        → DiskStream
        → (cluster offset total : ℕ) → Run (ℤ × List ℕ × DiskStream × FatPrivate))
      (q : FatPrivate) (stream : DiskStream) (cluster offset c r t : ℕ) (aligned : r % 512 ≡ 0)
      (fits : t ≤ size_of_cluster_bytes p) where
    read_chunk-last :
        read_chunk read_block (suc fuel) again q stream cluster offset t (cluster_start p c + r) t
        ≡ ret (
          all_ok,
          bytes_from image (cluster_start p c + r) t,
          record { position = cluster_start p c + r + t },
          q,
        )
    unfolding read_chunk diskstreamer_seek
    read_chunk-last = rw (cluster_read c r t aligned fits, not_less t t (omega arith)) refl

    read_chunk-more :
        (total : ℕ)
        → t < total
        → read_chunk read_block
            (suc fuel)
            again
            q
            stream
            cluster
            offset
            total
            (cluster_start p c + r)
            t
          ≡ (again q
                (record { position = cluster_start p c + r + t })
                cluster
                (offset + t)
                (total - t)
              >>= prepend (bytes_from image (cluster_start p c + r) t))
    unfolding read_chunk diskstreamer_seek
    read_chunk-more total l = rw (cluster_read c r t aligned fits, lt→ltb t total l) refl

  -- A round at an offset in the `k`-th cluster.
  read_round :
      (rounds start k r total at : ℕ) (nth : ℕ → ℕ) (stream : DiskStream)
      → r < size_of_cluster_bytes p
      → Lookups image p start k (nth k)
      → (at' : ℕ) × (fat16_read_internal_from_stream read_block
            (suc fuel)
            (suc rounds)
            (with_stream p at)
            stream
            start
            (k * size_of_cluster_bytes p + r)
            total
          ≡ read_chunk read_block
              (suc fuel)
              (fat16_read_internal_from_stream read_block (suc fuel) rounds)
              (with_stream p at')
              stream
              start
              (k * size_of_cluster_bytes p + r)
              total
              (cluster_start p (nth k) + r)
              (if ltb (size_of_cluster_bytes p) total then size_of_cluster_bytes p else total))
  unfolding fat16_read_internal_from_stream fat16_cluster_to_sector
  read_round rounds start k r total at nth stream l h =
      let (at', e) =
        fat16_get_cluster_for_offset-Lookups image read_block disk fuel p start
          (k * size_of_cluster_bytes p + r) (nth k) at (λ z. absurd (omega arith))
          (subst (λ j. Lookups image p start j (nth k))
            (sym (block-div (size_of_cluster_bytes p) k r l)) h) in
      (at', rw e (rw (block-mod (size_of_cluster_bytes p) k r l) refl))

  -- Reading from the start of a cluster for any length returns exactly the bytes of the clusters that
  -- the lookups lead to, one by one.
  read_clusters :
      (rounds start k total at : ℕ) (nth : ℕ → ℕ) (stream : DiskStream)
      → 0 < total
      → total ≤ rounds * size_of_cluster_bytes p
      → ((j : ℕ)
          → j * size_of_cluster_bytes p < k * size_of_cluster_bytes p + total
          → Lookups image p start j (nth j))
      → (at' : ℕ) × (stream' : DiskStream) × (fat16_read_internal_from_stream read_block
            (suc fuel)
            rounds
            (with_stream p at)
            stream
            start
            (k * size_of_cluster_bytes p + 0)
            total
          ≡ ret (
            all_ok,
            bytes_from (file_byte image p nth) (k * size_of_cluster_bytes p + 0) total,
            stream',
            with_stream p at',
          ))
  read_clusters zero start k total at nth stream z h c = absurd (omega arith)
  read_clusters (suc rounds) start k total at nth stream z h c =
      let (at1, e) = read_round rounds start k 0 total at nth stream size_pos (c k (omega arith)) in
      elim (dec_lt (size_of_cluster_bytes p) total) [
        | yes l ↦
            let (at2, stream2, e2) =
              read_clusters rounds start (suc k) (total - size_of_cluster_bytes p) at1 nth
                (record { position = cluster_start p (nth k) + 0 + size_of_cluster_bytes p })
                (omega arith) (omega (arith, suc_times rounds (size_of_cluster_bytes p)))
                (λ j u. c j (omega (arith, suc_times k (size_of_cluster_bytes p)))) in
            (
              at2,
              stream2,
              e
                  ∙ rw (lt→ltb (size_of_cluster_bytes p) total l) (
                      read_chunk-more (fat16_read_internal_from_stream read_block (suc fuel) rounds)
                        (with_stream p at1) stream start (k * size_of_cluster_bytes p + 0) (nth k) 0
                        (size_of_cluster_bytes p) refl (omega arith) total l
                      ∙ joined l at1 (with_stream p at2) stream2 e2),
            )
        | no l ↦ (
          at1,
          record { position = cluster_start p (nth k) + 0 + total },
          e
              ∙ rw (part l) (
                  read_chunk-last (fat16_read_internal_from_stream read_block (suc fuel) rounds)
                    (with_stream p at1) stream start (k * size_of_cluster_bytes p + 0) (nth k) 0
                    total refl (omega arith)
                  ∙ ap
                      (λ xs. ret (
                        all_ok,
                        xs,
                        record { position = cluster_start p (nth k) + 0 + total },
                        with_stream p at1,
                      ))
                      (cluster_bytes nth k 0 total (omega arith))),
        )
      ]
    where
      size : ℕ
      size = size_of_cluster_bytes p

      again :
          FatPrivate
          → DiskStream
          → (cluster offset total : ℕ) → Run (ℤ × List ℕ × DiskStream × FatPrivate)
      again = fat16_read_internal_from_stream read_block (suc fuel) rounds

      shift : suc k * size + 0 ≡ k * size + 0 + size
      shift = omega (arith, suc_times k size)

      bytes :
          size < total
          → bytes_from image (cluster_start p (nth k) + 0) size
              ++ bytes_from (file_byte image p nth) (suc k * size + 0) (total - size)
            ≡ bytes_from (file_byte image p nth) (k * size + 0) total
      bytes l =
          ap₂ (λ xs q. xs ++ bytes_from (file_byte image p nth) q (total - size))
            (cluster_bytes nth k 0 size (omega arith)) shift
          ∙ bytes_from-add (file_byte image p nth) (k * size + 0) size (total - size)
          ∙ ap (bytes_from (file_byte image p nth) (k * size + 0)) (whole l)
        where
          whole : size < total → size + (total - size) ≡ total
          whole l = omega arith

      joined :
          size < total
          → (at1 : ℕ) (q : FatPrivate) (stream2 : DiskStream)
          → again
              (with_stream p at1)
              (record { position = cluster_start p (nth k) + 0 + size })
              start
              (suc k * size + 0)
              (total - size)
            ≡ ret (
              all_ok,
              bytes_from (file_byte image p nth) (suc k * size + 0) (total - size),
              stream2,
              q,
            )
          → (again
                (with_stream p at1)
                (record { position = cluster_start p (nth k) + 0 + size })
                start
                (k * size + 0 + size)
                (total - size)
              >>= prepend (bytes_from image (cluster_start p (nth k) + 0) size))
            ≡ ret (all_ok, bytes_from (file_byte image p nth) (k * size + 0) total, stream2, q)
      joined l at1 q stream2 e =
          rw (← shift) (rw e (ap (λ xs. ret (all_ok, xs, stream2, q)) (bytes l)))

      part :
          ¬ (size_of_cluster_bytes p < total)
          → (if ltb (size_of_cluster_bytes p) total then size_of_cluster_bytes p else total) ≡ total
      part n = ground arith

  -- The same from the stream of the private data, for a whole chunk of a file.
  pub fat16_read_internal_lem :
      (rounds start k total : ℕ) (nth : ℕ → ℕ)
      → 0 < total
      → total ≤ rounds * size_of_cluster_bytes p
      → ((j : ℕ)
          → j * size_of_cluster_bytes p < k * size_of_cluster_bytes p + total
          → Lookups image p start j (nth j))
      → (q : FatPrivate) × (fat16_read_internal read_block
            (suc fuel)
            rounds
            p
            start
            (k * size_of_cluster_bytes p)
            total
          ≡ ret (all_ok, bytes_from (file_byte image p nth) (k * size_of_cluster_bytes p) total, q))
        × (q.header ≡ p.header)
        × (q.root_directory ≡ p.root_directory)
  unfolding fat16_read_internal
  fat16_read_internal_lem rounds start k total nth z h c =
      let (at, stream, e) =
        read_clusters rounds start k total p.fat_read_stream.position nth p.cluster_read_stream z h
          c in
      (
        record p { fat_read_stream = record { position = at }; cluster_read_stream = stream },
        rw (← plain) (rw e refl),
        refl,
        refl,
      )
    where
      plain : k * size_of_cluster_bytes p + 0 ≡ k * size_of_cluster_bytes p
      plain = omega arith

  -- A read of up to a cluster's size that starts at a sector boundary within a cluster and goes past
  -- the end of the cluster takes the bytes that lie behind it on the disk, and none of another cluster,
  -- where the cluster is the one that the driver's lookups lead to.
  pub fat16_read_internal-crosses :
      (rounds start k r total : ℕ) (nth : ℕ → ℕ)
      → r < size_of_cluster_bytes p
      → r % 512 ≡ 0
      → total ≤ size_of_cluster_bytes p
      → size_of_cluster_bytes p < r + total
      → Lookups image p start k (nth k)
      → (q : FatPrivate) × (fat16_read_internal read_block
            (suc fuel)
            (suc rounds)
            p
            start
            (k * size_of_cluster_bytes p + r)
            total
          ≡ ret (
            all_ok,
            bytes_from
                  (file_byte image p nth)
                  (k * size_of_cluster_bytes p + r)
                  (size_of_cluster_bytes p - r)
                ++ bytes_from image
                    (cluster_start p (nth k) + size_of_cluster_bytes p)
                    (total - (size_of_cluster_bytes p - r)),
            q,
          ))
  unfolding fat16_read_internal
  fat16_read_internal-crosses rounds start k r total nth l m u v c =
      let (at, e) =
        read_round rounds start k r total p.fat_read_stream.position nth p.cluster_read_stream l
          c in
      (
        record p {
          fat_read_stream = record { position = at };
          cluster_read_stream = record { position = cluster_start p (nth k) + r + total };
        },
        rw
            (
              e,
              part,
              read_chunk-last (fat16_read_internal_from_stream read_block (suc fuel) rounds)
                  (with_stream p at) p.cluster_read_stream start (k * size_of_cluster_bytes p + r)
                  (nth k) r total m u,
            )
            (ap
              (λ xs. ret (
                all_ok,
                xs,
                record p {
                  fat_read_stream = record { position = at };
                  cluster_read_stream = record { position = cluster_start p (nth k) + r + total };
                },
              ))
              bytes),
      )
    where
      size : ℕ
      size = size_of_cluster_bytes p

      part : (if ltb size total then size else total) ≡ total
      part = ground arith

      behind : cluster_start p (nth k) + r + (size - r) ≡ cluster_start p (nth k) + size
      behind = omega arith

      whole : size - r + (total - (size - r)) ≡ total
      whole = omega arith

      bytes :
          bytes_from image (cluster_start p (nth k) + r) total
          ≡ bytes_from (file_byte image p nth) (k * size + r) (size - r)
            ++ bytes_from image (cluster_start p (nth k) + size) (total - (size - r))
      bytes = sym (
          ap₂ (λ xs q. xs ++ bytes_from image q (total - (size - r)))
            (sym (cluster_bytes nth k r (size - r) (omega arith))) (sym behind)
          ∙ bytes_from-add image (cluster_start p (nth k) + r) (size - r) (total - (size - r))
          ∙ ap (bytes_from image (cluster_start p (nth k) + r)) whole)
