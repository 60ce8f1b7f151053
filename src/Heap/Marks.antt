-- ===== src/Heap/Marks.antt =====
-- The two marking loops of src/memory/heap/heap.c on tables that are written in three parts.
use white_os.Base.{
  ℕ, zero, suc, ◌+◌, ◌-◌, ◌≤◌, ◌≡◌, refl, ap, ◌∙◌, List, [], ◌∷◌, ◌++◌, some, arith, length,
  replicate, ltb, ◌==◌, if◌then◌else◌, store-append, snoc-append, length-snoc, get_elem?-append,
}
use white_os.Heap.{taken_loop, free_loop}
use white_os.Heap.Segs.{rest_blocks, alloc_blocks}

-- The entry that the loop has ready for the next of `left` blocks.
abbrev next_entry : ℕ → ℕ
next_entry zero = 0x81
next_entry (suc zero) = 0x01
next_entry (suc (suc left)) = 0x81

next_entry_lem :
    (i end_block left : ℕ)
    → i + suc left ≡ end_block
    → (if i + 1 == end_block then 1 else 0x81) ≡ next_entry (suc left)
next_entry_lem i end_block zero e = ground arith
next_entry_lem i end_block (suc left) e = ground arith

taken_loop-rest :
    (left i end_block : ℕ) (pre mid post : List ℕ)
    → length pre ≡ i
    → length mid ≡ left
    → i + left ≡ suc end_block
    → taken_loop left i end_block (next_entry left) (pre ++ (mid ++ post))
      ≡ some (pre ++ (rest_blocks left ++ post))
unfolding taken_loop
taken_loop-rest zero i end_block pre [] post p m e = refl
taken_loop-rest zero i end_block pre (x ∷ mid) post p m e = absurd (omega arith)
taken_loop-rest (suc left) i end_block pre [] post p m e = absurd (omega arith)
taken_loop-rest (suc zero) i end_block pre (x ∷ []) post p m e = rw (store-append pre x post 1 i p)
taken_loop-rest (suc zero) i end_block pre (x ∷ y ∷ mid) post p m e = absurd (omega arith)
taken_loop-rest (suc (suc left)) i end_block pre (x ∷ mid) post p m e =
    rw (store-append pre x (mid ++ post) 0x81 i p) (
      rw (next, ← snoc-append pre 0x81 (mid ++ post))
        (taken_loop-rest (suc left) (i + 1) end_block (pre ++ 0x81 ∷ []) mid post
            (omega (arith, length-snoc pre 0x81)) (omega arith) (omega arith)
          ∙ ap some (snoc-append pre 0x81 (rest_blocks (suc left) ++ post))))
  where
    next : (if i + 1 == end_block then 1 else 0x81) ≡ next_entry (suc left)
    next = next_entry_lem i end_block left (omega arith)

-- Marking the `m + 1` blocks of `mid` writes the entries of one allocation over them.
pub taken_loop-alloc :
    (m i : ℕ) (pre mid post : List ℕ)
    → length pre ≡ i
    → length mid ≡ suc m
    → taken_loop
        (suc m)
        i
        (i + suc m - 1)
        (if ltb 1 (suc m) then 0xc1 else 0x41)
        (pre ++ (mid ++ post))
      ≡ some (pre ++ (alloc_blocks m ++ post))
unfolding taken_loop
taken_loop-alloc m i pre [] post p e = absurd (omega arith)
taken_loop-alloc zero i pre (x ∷ []) post p e = rw (store-append pre x post 0x41 i p)
taken_loop-alloc zero i pre (x ∷ y ∷ mid) post p e = absurd (omega arith)
taken_loop-alloc (suc m) i pre (x ∷ mid) post p e =
    rw (first, store-append pre x (mid ++ post) 0xc1 i p)
      (rw (next, ← snoc-append pre 0xc1 (mid ++ post))
        (taken_loop-rest (suc m) (i + 1) (i + suc (suc m) - 1) (pre ++ 0xc1 ∷ []) mid post
            (omega (arith, length-snoc pre 0xc1)) (omega arith) (omega arith)
          ∙ ap some (snoc-append pre 0xc1 (rest_blocks (suc m) ++ post))))
  where
    first : ◌≡◌ {A = ℕ} (if ltb 1 (suc (suc m)) then 0xc1 else 0x41) 0xc1
    first = ground arith

    next : (if i + 1 == i + suc (suc m) - 1 then 1 else 0x81) ≡ next_entry (suc m)
    next = next_entry_lem i (i + suc (suc m) - 1) m (omega arith)

free_loop-rest :
    (left m i : ℕ) (pre post : List ℕ)
    → length pre ≡ i
    → suc m ≤ left
    → free_loop left i (pre ++ (rest_blocks (suc m) ++ post))
      ≡ some (pre ++ (replicate (suc m) 0 ++ post))
unfolding free_loop
free_loop-rest zero m i pre post p h = absurd (omega arith)
free_loop-rest (suc left) zero i pre post p h =
    rw (get_elem?-append pre 1 post i p, store-append pre 1 post 0 i p)
free_loop-rest (suc left) (suc m) i pre post p h =
    let tail = rest_blocks (suc m) ++ post in
    rw (get_elem?-append pre 0x81 tail i p, store-append pre 0x81 tail 0 i p)
      (rw (← snoc-append pre 0 tail) (
        free_loop-rest left m (i + 1) (pre ++ 0 ∷ []) post (omega (arith, length-snoc pre 0))
          (omega arith)
        ∙ ap some (snoc-append pre 0 (replicate (suc m) 0 ++ post))))

-- Freeing from the first block of an allocation clears its blocks and stops behind them.
pub free_loop-alloc :
    (left m i : ℕ) (pre post : List ℕ)
    → length pre ≡ i
    → suc m ≤ left
    → free_loop left i (pre ++ (alloc_blocks m ++ post))
      ≡ some (pre ++ (replicate (suc m) 0 ++ post))
unfolding free_loop
free_loop-alloc zero m i pre post p h = absurd (omega arith)
free_loop-alloc (suc left) zero i pre post p h =
    rw (get_elem?-append pre 0x41 post i p, store-append pre 0x41 post 0 i p)
free_loop-alloc (suc left) (suc m) i pre post p h =
    let tail = rest_blocks (suc m) ++ post in
    rw (get_elem?-append pre 0xc1 tail i p, store-append pre 0xc1 tail 0 i p)
      (rw (← snoc-append pre 0 tail) (
        free_loop-rest left m (i + 1) (pre ++ 0 ∷ []) post (omega (arith, length-snoc pre 0))
          (omega arith)
        ∙ ap some (snoc-append pre 0 (replicate (suc m) 0 ++ post))))
