-- ===== src/Disk/Ata/Writes.antt =====
-- Writing sectors, and reading back what was written.
use white_os.Base.{
  ℕ, zero, suc, ◌+◌, ◌-◌, ◌*◌, ◌^◌, ◌≤◌, ◌<◌, ◌≡◌, refl, sym, ap, ◌∙◌, subst, ◌⊎◌, inl, List, ◌++◌,
  arith, dec_lt, length, take, drop, get_elem?-eq-get_or,
}
use white_os.Base.Runs.{ret, ◌>>=◌}
use white_os.Status.{all_ok}
use white_os.Vfs.Calls.{disk_address}
use white_os.Io.{Ports}
use white_os.Disk.Transfer.{
  start_command, write_words, write_sectors, disk_write_sector, disk_write_block, disk_read_block,
}
use white_os.Disk.Ata.{Ata, Idle, IsAta, Same}
use white_os.Disk.Ata.Steps.{starts_write, wait_loop-Same, whole_block}
use white_os.Disk.Ata.Reads.{disk_read_block-Reads}
use white_os.Disk.Ata.Bytes.{AreBytes, word_at, get_or-lt, bytes_of-word_at, hit, miss}

module _ {D : Type 0} (ports : Ports D) (disk : Ata ports) (is : IsAta ports disk) where
  -- A transfer of `n` words to the disk, from the `i`-th `short` of the buffer on.
  record Taken (buf : List ℕ) (i : ℕ) (d d' : D) (n : ℕ) : Type 0 where
    put : (j : ℕ) → j < n → disk.word d' (disk.next d + j) ≡ word_at buf (i + j)
    kept : (k : ℕ) → (k < disk.next d) ⊎ (disk.next d + n ≤ k) → disk.word d' k ≡ disk.word d k
    next_moved : disk.next d' ≡ disk.next d + n
    taking_left : disk.taking d' + n ≡ disk.taking d
    sending_kept : disk.sending d' ≡ disk.sending d

  Taken-none : (buf : List ℕ) (i : ℕ) (d : D) → Taken buf i d d 0
  Taken-none buf i d = record {
    put = λ j h. absurd (omega arith);
    kept = λ k h. refl;
    next_moved = omega arith;
    taking_left = omega arith;
    sending_kept = refl;
  }

  -- Two transfers in a row.
  Taken-add :
      (buf : List ℕ) (i n m : ℕ) (d e f : D)
      → Taken buf i d e n
      → Taken buf (i + n) e f m
      → Taken buf i d f (n + m)
  Taken-add buf i n m d e f s t = record {
    put = λ j h. elim (dec_lt j n) [
      | yes l ↦ t.kept (disk.next d + j) (inl (omega (arith, s.next_moved))) ∙ s.put j l
      | no l ↦
          ap (disk.word f) (omega (arith, s.next_moved))
          ∙ t.put (j - n) (omega arith)
          ∙ ap (word_at buf) (omega arith)
    ];
    kept = λ k h. t.kept k (outer k h) ∙ s.kept k (inner k h);
    next_moved = omega (arith, s.next_moved, t.next_moved);
    taking_left = omega (arith, s.taking_left, t.taking_left);
    sending_kept = t.sending_kept ∙ s.sending_kept;
  }
    where
      outer :
          (k : ℕ)
          → (k < disk.next d) ⊎ (disk.next d + (n + m) ≤ k)
          → (k < disk.next e) ⊎ (disk.next e + m ≤ k)
      outer k h = omega (arith, s.next_moved)

      inner :
          (k : ℕ)
          → (k < disk.next d) ⊎ (disk.next d + (n + m) ≤ k)
          → (k < disk.next d) ⊎ (disk.next d + n ≤ k)
      inner k h = omega arith

  from_wait :
      (buf : List ℕ) (i n : ℕ) (d e f : D)
      → Same ports disk d e
      → Taken buf i e f n
      → Taken buf i d f n
  from_wait buf i n d e f s t = record {
    put = λ j h. ap (λ k. disk.word f (k + j)) (sym s.next_same) ∙ t.put j h;
    kept = λ k h. t.kept k (omega (arith, s.next_same)) ∙ s.word_same k;
    next_moved = omega (arith, t.next_moved, s.next_same);
    taking_left = omega (arith, t.taking_left, s.taking_same);
    sending_kept = t.sending_kept ∙ s.sending_same;
  }

  write_words-Taken :
      (left i : ℕ) (buf : List ℕ) (d : D)
      → AreBytes buf
      → 2 * (i + left) ≤ length buf
      → left ≤ disk.taking d
      → left ≤ disk.block d
      → (d' : D) × (write_words ports left i buf d ≡ ret d') × Taken buf i d d' left
  unfolding write_words
  write_words-Taken zero i buf d b l h q = (d, refl, Taken-none buf i d)
  write_words-Taken (suc left) i buf d b l h q =
      let (d', r, t) =
        write_words-Taken left (i + 1) buf behind b (omega arith) (omega (arith, left_behind))
          (ready_behind left refl) in
      (
        d',
        rw
            (
              get_elem?-eq-get_or buf (2 * i) 0 (omega arith),
              get_elem?-eq-get_or buf (2 * i + 1) 0 (omega arith),
            )
            r,
        subst (Taken buf i d d') (omega arith) (Taken-add buf i 1 left d behind d' one t),
      )
    where
      behind : D
      behind = ports.outw d 0x1F0 (word_at buf i)

      from_here : (j : ℕ) → j < 1 → i ≡ i + j
      from_here j p = omega arith

      small : word_at buf i < 2 ^ 16
      small = omega (arith, get_or-lt buf (2 * i) b, get_or-lt buf (2 * i + 1) b)

      left_behind : disk.taking behind + 1 ≡ disk.taking d
      left_behind = is.taken_left d (word_at buf i) (omega arith) (omega arith)

      ready_behind : (n : ℕ) → n ≡ left → n ≤ disk.block behind
      ready_behind zero z = omega arith
      ready_behind (suc n) z =
          omega (arith, is.taken_block d (word_at buf i) (omega arith) (omega arith))

      one : Taken buf i d behind 1
      one = record {
        put = λ j p.
            is.taken d (word_at buf i) (disk.next d + j) small (omega arith) (omega arith)
            ∙ hit (word_at buf i) (disk.word d (disk.next d + j)) (disk.next d + j) (disk.next d)
                (omega arith)
            ∙ ap (word_at buf) (from_here j p);
        kept = λ k p.
            is.taken d (word_at buf i) k small (omega arith) (omega arith)
            ∙ miss (word_at buf i) (disk.word d k) k (disk.next d) (omega arith);
        next_moved = is.taken_next d (word_at buf i) (omega arith) (omega arith);
        taking_left = left_behind;
        sending_kept = is.taken_sending d (word_at buf i) (omega arith) (omega arith);
      }

  write_sectors-Taken :
      (fuel left i : ℕ) (buf : List ℕ) (d : D)
      → disk.patience < fuel
      → AreBytes buf
      → 2 * (i + left * 256) ≤ length buf
      → left * 256 ≡ disk.taking d
      → disk.sending d ≡ 0
      → (d' : D) × (write_sectors ports fuel left i buf d ≡ ret d') × Taken buf i d d' (left * 256)
  unfolding write_sectors
  write_sectors-Taken fuel zero i buf d p b l h z = (d, refl, Taken-none buf i d)
  write_sectors-Taken fuel (suc left) i buf d p b l h z =
      let (d1, waited, same, ready) =
        wait_loop-Same ports disk is fuel d (omega (arith, disk.waits-le d)) (omega arith) in
      let (d2, r, t) =
        write_words-Taken 256 i buf d1 b (omega arith) (omega (arith, same.taking_same)) (
          whole_block ports disk is (suc left) d1 ready
            (omega (arith, same.sending_same, same.taking_same))) in
      let (d', r', t') =
        write_sectors-Taken fuel left (i + 256) buf d2 p b (omega arith)
          (omega (arith, t.taking_left, same.taking_same))
          (t.sending_kept ∙ same.sending_same ∙ z) in
      (
        d',
        ap
              (λ m. m >>= λ e1. write_words ports 256 i buf e1 >>= λ e2.
                write_sectors ports fuel left (i + 256) buf e2)
              waited
            ∙ ap (λ m. m >>= λ e2. write_sectors ports fuel left (i + 256) buf e2) r
            ∙ r',
        subst (Taken buf i d d') (omega arith) (
            from_wait buf i (256 + left * 256) d d1 d' same
              (Taken-add buf i 256 (left * 256) d1 d2 d' t t')),
      )

  -- From a disk that takes a command, writing up to 256 sectors from a buffer of bytes gives 0 and
  -- keeps every word outside these sectors. Once the disk, which keeps its words then, takes a command
  -- again, reading the sectors into any buffer with room gives 0 and the bytes that were written. The
  -- fuel is more than the polls that the disk needs; `settle` is what happens to the disk between the
  -- calls.
  pub disk_read_block-disk_write_block :
      (fuel lba total : ℕ) (buf back : List ℕ) (d : D) (settle : D → D)
      → ((e : D) → disk.sending e ≡ 0 → disk.taking e ≡ 0 → Idle ports (settle e))
      → ((e : D) (k : ℕ) → disk.word (settle e) k ≡ disk.word e k)
      → disk.patience < fuel
      → Idle ports d
      → lba < 2 ^ 28
      → 0 < total
      → total ≤ 256
      → AreBytes buf
      → total * 512 ≤ length buf
      → total * 512 ≤ length back
      → (d1 d2 : D) × (disk_write_block ports fuel disk_address lba total buf d ≡ ret (all_ok, d1))
        × (disk_read_block ports fuel disk_address lba total back (settle d1)
            ≡ ret (all_ok, take (total * 512) buf ++ drop (total * 512) back, d2))
        × ((k : ℕ) → (k < lba * 256) ⊎ ((lba + total) * 256 ≤ k) → disk.word d2 k ≡ disk.word d k)
  unfolding disk_write_block disk_write_sector
  disk_read_block-disk_write_block fuel lba total buf back d settle quiet same p idle h pos l b room
        room' =
      let begun = start_command ports d lba total 0x30 in
      let started = starts_write ports disk is d lba total idle h pos l in
      let (d1, w, t) =
        write_sectors-Taken fuel total 0 buf begun p b (omega arith)
          (omega (arith, started.takes_at)) started.sends_at in
      let (d2, r, kept) =
        disk_read_block-Reads ports disk is fuel lba total back (settle d1) p
          (quiet d1 (t.sending_kept ∙ started.sends_at)
            (omega (arith, t.taking_left, started.takes_at)))
          h pos l room' in
      (
        d1,
        d2,
        ap (λ m. m >>= λ e. ret (all_ok, e)) w,
        r
            ∙ ap (λ bs. ret (all_ok, bs ++ drop (total * 512) back, d2))
                (bytes_of-word_at (disk.word (settle d1)) (total * 256) (lba * 256) buf b
                    (omega arith)
                    (λ j q.
                      same d1 (lba * 256 + j)
                      ∙ ap (λ n. disk.word d1 (n + j)) (sym started.next_at)
                      ∙ t.put j q
                      ∙ ap (word_at buf) (zero-add j))
                  ∙ ap (λ n. take n buf) twice),
        λ k o. kept k ∙ same d1 k ∙ t.kept k (omega (arith, started.next_at)) ∙ started.word_kept k,
      )
    where
      zero-add : (j : ℕ) → 0 + j ≡ j
      zero-add j = omega arith

      twice : 2 * (total * 256) ≡ total * 512
      twice = omega arith
