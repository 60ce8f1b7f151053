-- ===== src/Heap/Tables.antt =====
-- The parts of `heap_malloc` and `heap_free` on the table of given segments.
use white_os.Base.{
  ℕ, suc, ◌+◌, ◌-◌, ◌≤◌, ◌<◌, ◌≡◌, refl, sym, ap, ap₂, ◌∙◌, Option, some, List, ◌∷◌, ◌++◌, arith,
  length, replicate, length-append, length-replicate, take_self,
}
use white_os.Base.Int.{pos}
use white_os.Heap.{Heap, heap_get_start_block, heap_mark_blocks_taken, heap_mark_blocks_free}
use white_os.Heap.Segs.{
  Seg, free, alloc, encode, blocks, alloc_blocks, IsHeap, encode-append, encode-replicate_free,
  blocks-append, blocks-free, blocks-alloc,
}
use white_os.Heap.Scan.{Fits, Blocked, Outcome, found, missing, start_loop_lem}
use white_os.Heap.Marks.{taken_loop-alloc, free_loop-alloc}

unfoldable pub heap_with : Heap → List Seg → Heap
heap_with heap segs = record heap { table = record { entries = encode segs; total = blocks segs } }

pub heap_with_self : {heap : Heap} {segs : List Seg} → IsHeap heap segs → heap_with heap segs ≡ heap
unfolding heap_with
heap_with_self v = ground (arith, v.entries, v.total)

pub start_block :
    {heap : Heap} {segs : List Seg} (n : ℕ)
    → IsHeap heap segs
    → 0 < n
    → Outcome (encode segs) n (blocks segs) (heap_get_start_block heap n)
unfolding heap_get_start_block
start_block {segs} n v h =
    rw (v.entries, v.total, take_self (encode segs)) (start_loop_lem (encode segs) n h)

-- The first run that fits, where one does.
pub record FirstFit (segs : List Seg) (n : ℕ) (result : Option ℕ) : Type 0 where
  pub start : ℕ
  pub returns : result ≡ some start
  pub inside : start + n ≤ blocks segs
  pub fits : Fits (encode segs) n start
  pub first : (s : ℕ) → s < start → Blocked (encode segs) n s

pub Outcome-FirstFit :
    (segs : List Seg) (n s : ℕ) (result : Option ℕ)
    → Outcome (encode segs) n (blocks segs) result
    → s + n ≤ blocks segs
    → Fits (encode segs) n s
    → FirstFit segs n result
Outcome-FirstFit segs n s result (found t inside fits first) h f = record {
  start = t;
  returns = refl;
  inside = inside;
  fits = fits;
  first = first;
}
Outcome-FirstFit segs n s result (missing bc short within run edge before) h f =
    let (k, l, u, t) = before s h in absurd (cc (t, f k l u))

pub mark_taken :
    (heap : Heap) (pre post : List Seg) (m : ℕ)
    → heap_mark_blocks_taken
        (heap_with heap (pre ++ (replicate (suc m) free ++ post)))
        (blocks pre)
        (suc m)
      ≡ some (heap_with heap (pre ++ (alloc m ∷ post)))
unfolding heap_mark_blocks_taken heap_with
mark_taken heap pre post m =
    rw
      (
        encode-append pre (replicate (suc m) free ++ post),
        encode-replicate_free (suc m) post,
        taken_loop-alloc m (blocks pre) (encode pre) (replicate (suc m) 0) (encode post) refl
            (length-replicate (suc m) 0),
      )
      (ap₂ (λ e t. some (table e t)) (sym (encode-append pre (alloc m ∷ post)))
        (ap length before ∙ total))
  where
    table : List ℕ → ℕ → Heap
    table e t = record { table = record { entries = e; total = t }; saddr = heap.saddr }

    before :
        encode pre ++ (replicate (suc m) 0 ++ encode post)
        ≡ encode (pre ++ (replicate (suc m) free ++ post))
    before = sym (
        encode-append pre (replicate (suc m) free ++ post)
        ∙ ap (λ t. encode pre ++ t) (encode-replicate_free (suc m) post))

    total : blocks (pre ++ (replicate (suc m) free ++ post)) ≡ blocks (pre ++ (alloc m ∷ post))
    total = omega (
      arith,
      blocks-append pre (replicate (suc m) free ++ post),
      blocks-append pre (alloc m ∷ post),
      blocks-free (suc m) post,
      blocks-alloc m post,
    )

pub mark_free :
    (heap : Heap) (pre post : List Seg) (m : ℕ)
    → heap_mark_blocks_free (heap_with heap (pre ++ (alloc m ∷ post))) (pos (blocks pre))
      ≡ some (heap_with heap (pre ++ (replicate (suc m) free ++ post)))
unfolding heap_mark_blocks_free heap_with
mark_free heap pre post m =
    rw
      (
        encode-append pre (alloc m ∷ post),
        free_loop-alloc (length (encode pre ++ (alloc_blocks m ++ encode post)) - blocks pre) m
            (blocks pre) (encode pre) (encode post) refl
            (omega (
              arith,
              length-append (encode pre) (alloc_blocks m ++ encode post),
              blocks-alloc m post,
            )),
      )
      (ap₂ (λ e t. some (table e t)) before
        (ap length (sym (encode-append pre (alloc m ∷ post))) ∙ total))
  where
    table : List ℕ → ℕ → Heap
    table e t = record { table = record { entries = e; total = t }; saddr = heap.saddr }

    before :
        encode pre ++ (replicate (suc m) 0 ++ encode post)
        ≡ encode (pre ++ (replicate (suc m) free ++ post))
    before = sym (
        encode-append pre (replicate (suc m) free ++ post)
        ∙ ap (λ t. encode pre ++ t) (encode-replicate_free (suc m) post))

    total : blocks (pre ++ (alloc m ∷ post)) ≡ blocks (pre ++ (replicate (suc m) free ++ post))
    total = omega (
      arith,
      blocks-append pre (replicate (suc m) free ++ post),
      blocks-append pre (alloc m ∷ post),
      blocks-free (suc m) post,
      blocks-alloc m post,
    )
