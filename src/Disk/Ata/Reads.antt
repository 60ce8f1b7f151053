-- ===== src/Disk/Ata/Reads.antt =====
-- Reading sectors.
use white_os.Base.{
  ℕ, zero, suc, ◌+◌, ◌*◌, ◌/◌, ◌%◌, ◌^◌, ◌≤◌, ◌<◌, ◌≡◌, refl, sym, ap, ap₂, ◌∙◌, List, [], ◌∷◌,
  ◌++◌, arith, length, drop, store-append, append_assoc, length-append, length-drop,
}
use white_os.Base.Runs.{ret, ◌>>=◌}
use white_os.Status.{all_ok}
use white_os.Vfs.Calls.{disk_address}
use white_os.Io.{Ports}
use white_os.Disk.Transfer.{
  start_command, read_words, read_sectors, disk_read_sector, disk_read_block,
}
use white_os.Disk.Ata.{Ata, Idle, IsAta, bytes_of}
use white_os.Disk.Ata.Steps.{starts_read, wait_loop-Same, whole_block}
use white_os.Disk.Ata.Bytes.{length-bytes_of, bytes_of_same, store_next, joined}

module _ {D : Type 0} (ports : Ports D) (disk : Ata ports) (is : IsAta ports disk) where
  -- A transfer of `n` words to the host.
  record Sent (d d' : D) (n : ℕ) : Type 0 where
    word_kept : (k : ℕ) → disk.word d' k ≡ disk.word d k
    next_moved : disk.next d' ≡ disk.next d + n
    sending_left : disk.sending d' + n ≡ disk.sending d
    taking_kept : disk.taking d' ≡ disk.taking d

  read_words-Sent :
      (left i : ℕ) (pre rest : List ℕ) (d : D)
      → length pre ≡ 2 * i
      → 2 * left ≤ length rest
      → left ≤ disk.sending d
      → left ≤ disk.block d
      → (d' : D) × (read_words ports left i (pre ++ rest) d
          ≡ ret (pre ++ (bytes_of (disk.word d) (disk.next d) left ++ drop (2 * left) rest), d'))
        × Sent d d' left
  unfolding read_words
  read_words-Sent zero i pre rest d e l h b = (
    d,
    refl,
    record {
      word_kept = λ k. refl;
      next_moved = omega arith;
      sending_left = omega arith;
      taking_kept = refl;
    },
  )
  read_words-Sent (suc left) i pre [] d e l h b = absurd (omega arith)
  read_words-Sent (suc left) i pre (x ∷ []) d e l h b = absurd (omega arith)
  read_words-Sent (suc left) i pre (x ∷ y ∷ rest) d e l h b =
      let (d', r, s) =
        read_words-Sent left (i + 1) (pre ++ low ∷ high ∷ []) rest behind
          (omega (arith, length-append pre (low ∷ high ∷ []))) (omega arith)
          (omega (arith, left_behind)) (ready_behind left refl) in
      (
        d',
        step
            ∙ ap (λ xs. read_words ports left (i + 1) xs behind)
                (sym (append_assoc pre (low ∷ high ∷ []) rest))
            ∙ r
            ∙ ap (λ xs. ret (xs, d'))
                (append_assoc pre (low ∷ high ∷ []) _
                  ∙ ap₂ (λ bs n. pre ++ low ∷ high ∷ (bs ++ drop n (x ∷ y ∷ rest))) same_bytes
                      further),
        record {
          word_kept = λ k. s.word_kept k ∙ is.sent_word d k (omega arith) (omega arith);
          next_moved = omega (arith, s.next_moved, is.sent_next d (omega arith) (omega arith));
          sending_left = omega (arith, s.sending_left, left_behind);
          taking_kept = s.taking_kept ∙ is.sent_taking d (omega arith) (omega arith);
        },
      )
    where
      behind : D
      behind = (ports.insw d 0x1F0).1

      low : ℕ
      low = disk.word d (disk.next d) % 256

      high : ℕ
      high = disk.word d (disk.next d) / 256 % 256

      left_behind : disk.sending behind + 1 ≡ disk.sending d
      left_behind = is.sent_left d (omega arith) (omega arith)

      ready_behind : (n : ℕ) → n ≡ left → n ≤ disk.block behind
      ready_behind zero z = omega arith
      ready_behind (suc n) z = omega (arith, is.sent_block d (omega arith) (omega arith))

      further : suc (suc (2 * left)) ≡ 2 * suc left
      further = omega arith

      same_bytes :
          bytes_of (disk.word behind) (disk.next behind) left
          ≡ bytes_of (disk.word d) (disk.next d + 1) left
      same_bytes =
          ap (λ n. bytes_of (disk.word behind) n left) (is.sent_next d (omega arith) (omega arith))
          ∙ bytes_of_same (disk.word behind) (disk.word d) (disk.next d + 1) left
              (λ k. is.sent_word d k (omega arith) (omega arith))

      step :
          read_words ports (suc left) i (pre ++ x ∷ y ∷ rest) d
          ≡ read_words ports left (i + 1) (pre ++ low ∷ high ∷ rest) behind
      step =
          rw
            (
              is.sent d (omega arith) (omega arith),
              store-append pre x (y ∷ rest) low (2 * i) e,
              store_next pre low y high rest (2 * i) e,
            )
            refl

  read_sectors-Sent :
      (fuel left i : ℕ) (pre rest : List ℕ) (d : D)
      → disk.patience < fuel
      → length pre ≡ 2 * i
      → 2 * (left * 256) ≤ length rest
      → left * 256 ≡ disk.sending d
      → disk.taking d ≡ 0
      → (d' : D) × (read_sectors ports fuel left i (pre ++ rest) d
          ≡ ret (
            pre
                ++ (bytes_of (disk.word d) (disk.next d) (left * 256)
                    ++ drop (2 * (left * 256)) rest),
            d',
          ))
        × Sent d d' (left * 256)
  unfolding read_sectors
  read_sectors-Sent fuel zero i pre rest d p e l h z = (
    d,
    refl,
    record {
      word_kept = λ k. refl;
      next_moved = omega arith;
      sending_left = omega arith;
      taking_kept = refl;
    },
  )
  read_sectors-Sent fuel (suc left) i pre rest d p e l h z =
      let (d1, waited, same, ready) =
        wait_loop-Same ports disk is fuel d (omega (arith, disk.waits-le d)) (omega arith) in
      let (d2, r, s) =
        read_words-Sent 256 i pre rest d1 e (omega arith) (omega (arith, same.sending_same)) (
          whole_block ports disk is (suc left) d1 ready
            (omega (arith, same.sending_same, same.taking_same))) in
      let (d', r', s') =
        read_sectors-Sent fuel left (i + 256) (pre ++ bytes_of (disk.word d1) (disk.next d1) 256)
          (drop 512 rest) d2 p
          (omega (
            arith,
            length-append pre (bytes_of (disk.word d1) (disk.next d1) 256),
            length-bytes_of (disk.word d1) (disk.next d1) 256,
          ))
          (omega (arith, length-drop 512 rest)) (omega (arith, s.sending_left, same.sending_same))
          (s.taking_kept ∙ same.taking_same ∙ z) in
      (
        d',
        ap
              (λ m. m >>= λ e1. read_words ports 256 i (pre ++ rest) e1 >>= λ (buf', e2).
                read_sectors ports fuel left (i + 256) buf' e2)
              waited
            ∙ ap (λ m. m >>= λ (buf', e2). read_sectors ports fuel left (i + 256) buf' e2) r
            ∙ (ap (λ xs. read_sectors ports fuel left (i + 256) xs d2)
                  (sym
                    (append_assoc pre (bytes_of (disk.word d1) (disk.next d1) 256) (drop 512 rest)))
                ∙ r'
                ∙ ap (λ xs. ret (xs, d'))
                    (append_assoc pre (bytes_of (disk.word d1) (disk.next d1) 256) (
                        bytes_of (disk.word d2) (disk.next d2) (left * 256)
                        ++ drop (2 * (left * 256)) (drop 512 rest))
                      ∙ ap (λ xs. pre ++ xs)
                          (joined (disk.word d) (disk.word d1) (disk.word d2) (disk.next d)
                            (disk.next d1) (disk.next d2) left rest same.word_same
                            (λ k. s.word_kept k ∙ same.word_same k) same.next_same
                            (omega (arith, s.next_moved, same.next_same))))),
        record {
          word_kept = λ k. s'.word_kept k ∙ s.word_kept k ∙ same.word_same k;
          next_moved = omega (arith, s'.next_moved, s.next_moved, same.next_same);
          sending_left = omega (arith, s'.sending_left, s.sending_left, same.sending_same);
          taking_kept = s'.taking_kept ∙ s.taking_kept ∙ same.taking_same;
        },
      )

  -- From a disk that takes a command, reading up to 256 sectors into a buffer with room gives 0 and
  -- exactly the bytes of the words of these sectors in their order, leaves the rest of the buffer and
  -- the words on the disk as they were, where the fuel is more than the polls that the disk needs.
  pub disk_read_block-Reads :
      (fuel lba total : ℕ) (buf : List ℕ) (d : D)
      → disk.patience < fuel
      → Idle ports d
      → lba < 2 ^ 28
      → 0 < total
      → total ≤ 256
      → total * 512 ≤ length buf
      → (d' : D) × (disk_read_block ports fuel disk_address lba total buf d
          ≡ ret (
            all_ok,
            bytes_of (disk.word d) (lba * 256) (total * 256) ++ drop (total * 512) buf,
            d',
          ))
        × ((k : ℕ) → disk.word d' k ≡ disk.word d k)
  unfolding disk_read_block disk_read_sector
  disk_read_block-Reads fuel lba total buf d p idle h pos l room =
      let started = starts_read ports disk is d lba total idle h pos l in
      let (d', r, s) =
        read_sectors-Sent fuel total 0 [] buf (start_command ports d lba total 0x20) p (omega arith)
          (omega arith) (omega (arith, started.sends_at)) started.takes_at in
      (
        d',
        rw r (
            ap (λ xs. ret (all_ok, xs, d'))
              (ap₂ (λ bs n. bs ++ drop n buf)
                (bytes_of_same _ (disk.word d) _ (total * 256) started.word_kept
                  ∙ ap (λ j. bytes_of (disk.word d) j (total * 256)) started.next_at)
                twice)),
        λ k. s.word_kept k ∙ started.word_kept k,
      )
    where
      twice : 2 * (total * 256) ≡ total * 512
      twice = omega arith
