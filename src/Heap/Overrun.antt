-- ===== src/Heap/Overrun.antt =====
-- `heap_malloc` when no row of free blocks is long enough, and when it is followed by `heap_free`.
use white_os.Base.{
  ℕ, zero, suc, ◌+◌, ◌-◌, ◌*◌, ◌≤◌, ◌<◌, ◌≡◌, refl, sym, ap, ◌∙◌, inl, inr, true, false, Option,
  none, some, List, arith, dec_lt, ltb, length, set, length-set, ◌>>=◌, store_of_lt,
}
use white_os.Heap.{
  Heap, heap_mark_blocks_taken, heap_malloc_blocks, heap_malloc, heap_free, taken_loop,
}
use white_os.Heap.Segs.{Seg, encode, blocks, IsHeap}
use white_os.Heap.Scan.{is_free, Fits, Blocked, Outcome, found, missing}
use white_os.Heap.Tables.{start_block, heap_with, heap_with_self}
use white_os.Heap.Bounds.{block_count}
use white_os.Heap.Malloc.{Needs, Allocated, heap_malloc-Allocated, free_returns}

-- A loop that has more rounds than entries left writes past the table.
taken_loop-none :
    (left i end_block entry : ℕ) (entries : List ℕ)
    → i ≤ length entries
    → length entries < i + left
    → taken_loop left i end_block entry entries ≡ none
unfolding taken_loop
taken_loop-none zero i end_block entry entries l h = absurd (omega arith)
taken_loop-none (suc left) i end_block entry entries l h = elim (dec_lt i (length entries)) [
  | yes p ↦ rw (store_of_lt entries i entry p) (
      taken_loop-none left (i + 1) end_block _ (set entries i entry)
        (omega (arith, length-set entries i entry)) (omega (arith, length-set entries i entry)))
  | no p ↦ rw (out p)
]
  where
    out : ¬ (i < length entries) → ltb i (length entries) ≡ false
    out p = ground arith

-- Without a row that fits, the search answers the free blocks at the end of the table.
Outcome-tail :
    (table : List ℕ) (n len : ℕ) (result : Option ℕ)
    → Outcome table n len result
    → ((s : ℕ) → s + n ≤ len → Blocked table n s)
    → 0 < len
    → is_free table (len - 1) ≡ true
    → (s : ℕ) × (result ≡ some s) × (s < len) × (len < s + n)
Outcome-tail table n len result (found s inside fits first) full h f =
    let (k, l, u, t) = full s inside in absurd (cc (t, fits k l u))
Outcome-tail table n len result (missing zero short within run edge before) full h f = elim edge [
  | inl e ↦ absurd (omega arith)
  | inr t ↦ cc (f, t, ap (is_free table) same)
]
  where
    same : len - 0 - 1 ≡ len - 1
    same = omega arith
Outcome-tail table n len result (missing (suc bc) short within run edge before) full h f =
    (len - suc bc, ground arith, omega arith, omega arith)

Outcome-none :
    (table : List ℕ) (n len : ℕ) (result : Option ℕ)
    → Outcome table n len result
    → ((s : ℕ) → s + n ≤ len → Blocked table n s)
    → is_free table (len - 1) ≡ false
    → result ≡ none
Outcome-none table n len result (found s inside fits first) full f =
    let (k, l, u, t) = full s inside in absurd (cc (t, fits k l u))
Outcome-none table n len result (missing zero short within run edge before) full f = refl
Outcome-none table n len result (missing (suc bc) short within run edge before) full f =
    cc (f, run (len - 1) (omega arith) (omega arith))

module _ {heap : Heap} {segs : List Seg} (valid : IsHeap heap segs) where
  mark_past_end :
      (s n : ℕ) → s < blocks segs → blocks segs < s + n → heap_mark_blocks_taken heap s n ≡ none
  unfolding heap_mark_blocks_taken
  mark_past_end s n h l =
      rw
        (taken_loop-none n s (s + n - 1) _ heap.table.entries (rw valid.entries (omega arith))
          (rw valid.entries l))
        refl

  module _ (m size : ℕ) (needs : Needs m size)
      (full : (s : ℕ) → s + suc m ≤ blocks segs → Blocked (encode segs) (suc m) s) where
    -- No row of free blocks is long enough and the last block is free: `heap_malloc` does not fail,
    -- it takes the free blocks at the end of the table and marks entries past it.
    pub heap_malloc-past_end :
        0 < blocks segs
        → is_free (encode segs) (blocks segs - 1) ≡ true
        → heap_malloc heap size ≡ none
    unfolding heap_malloc heap_malloc_blocks
    heap_malloc-past_end pos last =
        let (s, e, l, u) =
          Outcome-tail (encode segs) (suc m) (blocks segs) _
            (start_block (suc m) valid (omega arith)) full pos last in
        rw
          (
            block_count m size needs.more needs.enough needs.no_wrap,
            e,
            heap_malloc_blocks,
            block_count m size needs.more needs.enough needs.no_wrap,
            mark_past_end s (suc m) l u,
          )
          refl

    -- No row of free blocks is long enough and the last block is taken: `heap_malloc` returns the
    -- null pointer and leaves the heap as it is.
    pub heap_malloc-null :
        is_free (encode segs) (blocks segs - 1) ≡ false → heap_malloc heap size ≡ some (0, heap)
    unfolding heap_malloc heap_malloc_blocks
    heap_malloc-null last =
        rw
          (
            block_count m size needs.more needs.enough needs.no_wrap,
            heap_malloc_blocks,
            Outcome-none (encode segs) (suc m) (blocks segs) _
                (start_block (suc m) valid (omega arith)) full last,
          )
          refl

  with_same : (heap' : Heap) → heap'.saddr ≡ heap.saddr → heap_with heap' segs ≡ heap_with heap segs
  unfolding heap_with
  with_same heap' e =
      ap (λ a. record { table = record { entries = encode segs; total = blocks segs }; saddr = a })
        e

  free_after :
      (m : ℕ) (result : Option (ℕ × Heap))
      → Allocated heap segs m result
      → (result >>= λ (ptr, h). heap_free h ptr) ≡ some heap
  free_after m result made = rw made.returns (
      ap (heap_free made.heap') address
      ∙ free_returns made.pre made.post m made.valid 0 (omega arith)
      ∙ ap some (
          ap (heap_with made.heap') (sym made.split)
          ∙ with_same made.heap' made.same_start
          ∙ heap_with_self valid))
    where
      address : heap.saddr + blocks made.pre * 4096 ≡ made.heap'.saddr + blocks made.pre * 4096 + 0
      address = omega (arith, made.same_start)

  -- What `heap_malloc` gives, `heap_free` takes back: the heap is as before.
  pub heap_free-heap_malloc :
      (m size s : ℕ)
      → Needs m size
      → s + suc m ≤ blocks segs
      → Fits (encode segs) (suc m) s
      → (heap_malloc heap size >>= λ (ptr, h). heap_free h ptr) ≡ some heap
  heap_free-heap_malloc m size s needs h f =
      free_after m _ (heap_malloc-Allocated valid m size s needs h f)
