-- ===== src/Disk/Stream.antt =====
-- `diskstreamer_read` against the bytes of the disk.
use white_os.Base.{
  ℕ, zero, suc, ◌+◌, ◌-◌, ◌*◌, ◌/◌, ◌%◌, ◌≤◌, ◌<◌, ◌≡◌, refl, ap, ap₂, ◌∙◌, ◌≢◌, false, Option,
  none, some, List, [], ◌∷◌, ◌++◌, arith, dec_lt, dec_le, ltb, leb, if◌then◌else◌, lt→ltb, length,
  get_elem?, get_elem?-eq-get_or,
}
use white_os.Status.{all_ok}
use white_os.Path.{ret, fault, and_then}
use white_os.Disk.{copy_loop, diskstreamer_read}

-- The `n` bytes of an image from `p` on.
abbrev pub bytes_from : (ℕ → ℕ) → (p n : ℕ) → List ℕ
bytes_from image p zero = []
bytes_from image p (suc n) = image p ∷ bytes_from image (p + 1) n

-- The disk gives the sectors of the image.
abbrev pub IsImage : (ℕ → ℕ) → (ℕ → Option (List ℕ)) → Type 0
IsImage image read_block = (s : ℕ) → read_block s ≡ some (bytes_from image (s * 512) 512)

pub length-bytes_from : (image : ℕ → ℕ) (p n : ℕ) → length (bytes_from image p n) ≡ n
length-bytes_from image p zero = refl
length-bytes_from image p (suc n) = ap suc (length-bytes_from image (p + 1) n)

get_elem?-bytes_from :
    (image : ℕ → ℕ) (p n k : ℕ) → k < n → get_elem? (bytes_from image p n) k ≡ some (image (p + k))
get_elem?-bytes_from image p zero k h = absurd (omega arith)
get_elem?-bytes_from image p (suc n) zero h = ap (λ i. some (image i)) (omega arith)
get_elem?-bytes_from image p (suc n) (suc k) h =
    get_elem?-bytes_from image (p + 1) n k (omega arith) ∙ ap (λ i. some (image i)) (omega arith)

pub bytes_from-add :
    (image : ℕ → ℕ) (p n m : ℕ)
    → bytes_from image p n ++ bytes_from image (p + n) m ≡ bytes_from image p (n + m)
bytes_from-add image p zero m = ap₂ (bytes_from image) (omega arith) (omega arith)
bytes_from-add image p (suc n) m =
    ap (λ t. image p ∷ t)
      (ap (λ i. bytes_from image (p + 1) n ++ bytes_from image i m) next
        ∙ bytes_from-add image (p + 1) n m)
    ∙ ap (bytes_from image p) sum
  where
    next : p + suc n ≡ p + 1 + n
    next = omega arith

    sum : suc (n + m) ≡ suc n + m
    sum = omega arith

copy_loop-bytes_from :
    (image : ℕ → ℕ) (p n left i : ℕ)
    → i + left ≤ n
    → copy_loop left i (bytes_from image p n) ≡ some (bytes_from image (p + i) left)
unfolding copy_loop
copy_loop-bytes_from image p n zero i h = refl
copy_loop-bytes_from image p n (suc left) i h =
    rw
      (
        get_elem?-bytes_from image p n i (omega arith),
        copy_loop-bytes_from image p n left (i + 1) (omega arith),
      )
      (ap (λ j. some (image (p + i) ∷ bytes_from image j left)) (omega arith))

copy_loop-none :
    (left i : ℕ) (buf : List ℕ)
    → length buf < i + left
    → i ≤ length buf
    → copy_loop left i buf ≡ none
unfolding copy_loop
copy_loop-none zero i buf h l = absurd (omega arith)
copy_loop-none (suc left) i buf h l = elim (dec_lt i (length buf)) [
  | yes p ↦
      rw
        (get_elem?-eq-get_or buf i 0 p, copy_loop-none left (i + 1) buf (omega arith) (omega arith))
        refl
  | no p ↦ rw (past buf i (omega arith)) refl
]
  where
    past : (xs : List ℕ) (k : ℕ) → length xs ≤ k → get_elem? xs k ≡ none
    past [] k e = refl
    past (x ∷ xs) zero e = absurd (omega arith)
    past (x ∷ xs) (suc k) e = past xs k (omega arith)

-- What one round copies.
chunk_all : (total : ℕ) → 512 ≤ total → (if leb 512 total then 512 else total) ≡ 512
chunk_all total h = ground arith

chunk_part : (total : ℕ) → total ≤ 512 → (if leb 512 total then 512 else total) ≡ total
chunk_part total h = ground arith

last_chunk : (total : ℕ) → total ≤ 512 → ltb 512 total ≡ false
last_chunk total h = ground arith

module _ (image : ℕ → ℕ) (read_block : ℕ → Option (List ℕ)) (disk : IsImage image read_block) where
  sector_bytes :
      (p n : ℕ)
      → p % 512 + n ≤ 512
      → copy_loop n (p % 512) (bytes_from image (p / 512 * 512) 512) ≡ some (bytes_from image p n)
  sector_bytes p n h =
      copy_loop-bytes_from image (p / 512 * 512) 512 n (p % 512) h
      ∙ ap (λ i. some (bytes_from image i n)) (omega arith)

  -- A read that stays in its sector returns exactly the bytes at the position, and moves there.
  pub diskstreamer_read-within :
      (fuel p total : ℕ)
      → p % 512 + total ≤ 512
      → diskstreamer_read read_block (suc fuel) (record { position = p }) total
        ≡ ret (all_ok, bytes_from image p total, record { position = p + total })
  unfolding diskstreamer_read
  diskstreamer_read-within fuel p total h =
      rw
        (
          diskstreamer_read,
          disk (p / 512),
          chunk_part total (omega arith),
          sector_bytes p total h,
          last_chunk total (omega arith),
        )
        refl

  -- A round with more bytes to go.
  round :
      (fuel p total : ℕ)
      → p % 512 ≡ 0
      → 512 < total
      → diskstreamer_read read_block (suc fuel) (record { position = p }) total
        ≡ and_then
            (diskstreamer_read read_block fuel (record { position = p + 512 }) (total - 512))
            (λ (res, more, stream'). ret (res, bytes_from image p 512 ++ more, stream'))
  unfolding diskstreamer_read
  round fuel p total a l =
      rw
        (
          diskstreamer_read,
          disk (p / 512),
          chunk_all total (omega arith),
          sector_bytes p 512 (omega arith),
          lt→ltb 512 total l,
        )
        refl

  -- A read of any length from the start of a sector returns exactly the bytes at the position, given
  -- a round for each sector.
  pub diskstreamer_read-aligned :
      (fuel p total : ℕ)
      → p % 512 ≡ 0
      → total ≤ fuel * 512
      → diskstreamer_read read_block (suc fuel) (record { position = p }) total
        ≡ ret (all_ok, bytes_from image p total, record { position = p + total })
  diskstreamer_read-aligned zero p total a h = diskstreamer_read-within zero p total (omega arith)
  diskstreamer_read-aligned (suc fuel) p total a h = elim (dec_lt 512 total) [
    | yes l ↦
        round (suc fuel) p total a l
        ∙ rw
            (
              diskstreamer_read-aligned fuel (p + 512) (total - 512) (omega arith) (omega arith),
              bytes_from-add image p 512 (total - 512),
            )
            (ap₂ (λ j q. ret (all_ok, bytes_from image p j, record { position = q })) (split l)
              (moved l))
    | no l ↦ diskstreamer_read-within (suc fuel) p total (omega arith)
  ]
    where
      split : 512 < total → 512 + (total - 512) ≡ total
      split l = omega arith

      moved : 512 < total → p + 512 + (total - 512) ≡ p + total
      moved l = omega arith

  -- A read that starts behind the start of a sector and goes past the end of this sector runs over the
  -- end of the buffer of one sector.
  pub diskstreamer_read-overrun :
      (fuel p total : ℕ)
      → p % 512 ≢ 0
      → 512 < p % 512 + total
      → diskstreamer_read read_block (suc fuel) (record { position = p }) total ≡ fault
  unfolding diskstreamer_read
  diskstreamer_read-overrun fuel p total a h = elim (dec_le 512 total) [
    | yes l ↦
        rw
          (
            diskstreamer_read,
            disk (p / 512),
            chunk_all total l,
            copy_loop-none 512 (p % 512) (bytes_from image (p / 512 * 512) 512)
                (omega (arith, room)) (omega (arith, room)),
          )
          refl
    | no l ↦
        rw
          (
            diskstreamer_read,
            disk (p / 512),
            chunk_part total (omega arith),
            copy_loop-none total (p % 512) (bytes_from image (p / 512 * 512) 512)
                (omega (arith, room)) (omega (arith, room)),
          )
          refl
  ]
    where
      room : length (bytes_from image (p / 512 * 512) 512) ≡ 512
      room = length-bytes_from image (p / 512 * 512) 512
