-- ===== src/Heap/Malloc.antt =====
-- What `heap_malloc` and `heap_free` do to the segments of the heap.
use white_os.Base.{
  ℕ, suc, ◌+◌, ◌-◌, ◌*◌, ◌^◌, ◌≤◌, ◌<◌, ◌≡◌, refl, sym, ap, ◌∙◌, Option, some, List, ◌∷◌, ◌++◌,
  arith, replicate,
}
use white_os.Base.Int.{pos}
use white_os.Heap.{
  Heap, heap_get_start_block, heap_mark_blocks_taken, heap_malloc_blocks, heap_malloc, heap_free,
  heap_mark_blocks_free,
}
use white_os.Heap.Segs.{
  Seg, free, alloc, encode, blocks, IsHeap, blocks-append, blocks-free, blocks-alloc,
}
use white_os.Heap.Scan.{Fits, Blocked}
use white_os.Heap.Split.{split_fit}
use white_os.Heap.Tables.{
  heap_with, heap_with_self, start_block, FirstFit, Outcome-FirstFit, mark_taken, mark_free,
}
use white_os.Heap.Bounds.{block_count, heap_block_to_address_lem, heap_address_to_block_lem}

-- The size takes `m + 1` blocks.
pub record Needs (m size : ℕ) : Type 0 where
  pub more : m * 4096 < size
  pub enough : size ≤ suc m * 4096
  pub no_wrap : size ≤ 2 ^ 32 - 4096

-- An allocation of `m + 1` blocks: free segments of the heap became one allocation, whose address
-- is the result, and nothing in front of them would have been large enough.
pub record Allocated (heap : Heap) (segs : List Seg) (m : ℕ) (result : Option (ℕ × Heap))
    : Type 0 where
  pub pre : List Seg
  pub post : List Seg
  pub split : segs ≡ pre ++ (replicate (suc m) free ++ post)
  pub first : (s : ℕ) → s < blocks pre → Blocked (encode segs) (suc m) s
  pub heap' : Heap
  pub returns : result ≡ some (heap.saddr + blocks pre * 4096, heap')
  pub valid : IsHeap heap' (pre ++ (alloc m ∷ post))
  pub same_start : heap'.saddr ≡ heap.saddr

pub same_blocks :
    (pre post : List Seg) (m : ℕ)
    → blocks (pre ++ (alloc m ∷ post)) ≡ blocks (pre ++ (replicate (suc m) free ++ post))
same_blocks pre post m = omega (
  arith,
  blocks-append pre (replicate (suc m) free ++ post),
  blocks-append pre (alloc m ∷ post),
  blocks-free (suc m) post,
  blocks-alloc m post,
)

pub IsHeap-heap_with :
    {heap : Heap} {segs : List Seg} (segs' : List Seg)
    → IsHeap heap segs
    → blocks segs' ≡ blocks segs
    → IsHeap (heap_with heap segs') segs'
unfolding heap_with
IsHeap-heap_with {heap} segs' v e = record {
  entries = refl;
  total = refl;
  small = rw e v.small;
  fits = rw e v.fits;
}

module _ {heap : Heap} {segs : List Seg} (valid : IsHeap heap segs) where
  blocks_taken :
      (pre post : List Seg) (m : ℕ)
      → segs ≡ pre ++ (replicate (suc m) free ++ post)
      → heap_mark_blocks_taken heap (blocks pre) (suc m)
        ≡ some (heap_with heap (pre ++ (alloc m ∷ post)))
  blocks_taken pre post m e =
      ap (λ h. heap_mark_blocks_taken h (blocks pre) (suc m))
        (sym (ap (heap_with heap) (sym e) ∙ heap_with_self valid))
      ∙ mark_taken heap pre post m

  pub malloc_returns :
      (m size : ℕ) (pre post : List Seg)
      → Needs m size
      → segs ≡ pre ++ (replicate (suc m) free ++ post)
      → heap_get_start_block heap (suc m) ≡ some (blocks pre)
      → heap_malloc heap size
        ≡ some (heap.saddr + blocks pre * 4096, heap_with heap (pre ++ (alloc m ∷ post)))
  unfolding heap_malloc heap_malloc_blocks
  malloc_returns m size pre post needs e start =
      rw
        (
          block_count m size needs.more needs.enough needs.no_wrap,
          start,
          heap_malloc_blocks,
          block_count m size needs.more needs.enough needs.no_wrap,
          blocks_taken pre post m e,
          heap_block_to_address_lem valid (blocks pre) (
              omega (
                arith,
                ap blocks e,
                blocks-append pre (replicate (suc m) free ++ post),
                blocks-free (suc m) post,
              )),
        )
        refl

  malloc_at :
      (m size : ℕ)
      → Needs m size
      → FirstFit segs (suc m) (heap_get_start_block heap (suc m))
      → Allocated heap segs m (heap_malloc heap size)
  unfolding heap_with
  malloc_at m size needs fit =
      let (pre, post, e, b) = split_fit segs fit.start (suc m) (omega arith) fit.inside fit.fits in
      record {
        pre = pre;
        post = post;
        split = e;
        first = rw b fit.first;
        heap' = heap_with heap (pre ++ (alloc m ∷ post));
        returns = malloc_returns m size pre post needs e (fit.returns ∙ ap some (sym b));
        valid = IsHeap-heap_with _ valid (same_blocks pre post m ∙ ap blocks (sym e));
        same_start = refl;
      }

  -- Where `m + 1` free blocks stand in a row, a `heap_malloc` that needs so many takes the first such
  -- row: it returns its address, and the heap holds one allocation there and is otherwise the same.
  pub heap_malloc-Allocated :
      (m size s : ℕ)
      → Needs m size
      → s + suc m ≤ blocks segs
      → Fits (encode segs) (suc m) s
      → Allocated heap segs m (heap_malloc heap size)
  heap_malloc-Allocated m size s needs h f =
      malloc_at m size needs
        (Outcome-FirstFit segs (suc m) s _ (start_block (suc m) valid (omega arith)) h f)

-- Freed: the allocation behind `pre` is free blocks again.
pub record Freed (heap : Heap) (pre post : List Seg) (m : ℕ) (result : Option Heap) : Type 0 where
  pub heap' : Heap
  pub returns : result ≡ some heap'
  pub valid : IsHeap heap' (pre ++ (replicate (suc m) free ++ post))
  pub same_start : heap'.saddr ≡ heap.saddr

blocks-before_alloc : (pre post : List Seg) (m : ℕ) → blocks pre < blocks (pre ++ (alloc m ∷ post))
blocks-before_alloc pre post m =
    omega (arith, blocks-append pre (alloc m ∷ post), blocks-alloc m post)

module _ {heap : Heap} (pre post : List Seg) (m : ℕ)
    (valid : IsHeap heap (pre ++ (alloc m ∷ post))) where
  pub free_returns :
      (r : ℕ)
      → r < 4096
      → heap_free heap (heap.saddr + blocks pre * 4096 + r)
        ≡ some (heap_with heap (pre ++ (replicate (suc m) free ++ post)))
  unfolding heap_free
  free_returns r h =
      rw (heap_address_to_block_lem valid (blocks pre) r (blocks-before_alloc pre post m) h) (
        ap (λ k. heap_mark_blocks_free k (pos (blocks pre))) (sym (heap_with_self valid))
        ∙ mark_free heap pre post m)

  -- `heap_free` of an address in the first block of an allocation gives back all its blocks and
  -- touches no other.
  pub heap_free-Freed :
      (r : ℕ)
      → r < 4096
      → Freed heap pre post m (heap_free heap (heap.saddr + blocks pre * 4096 + r))
  unfolding heap_with
  heap_free-Freed r h = record {
    heap' = heap_with heap (pre ++ (replicate (suc m) free ++ post));
    returns = free_returns r h;
    valid = IsHeap-heap_with _ valid (sym (same_blocks pre post m));
    same_start = refl;
  }
