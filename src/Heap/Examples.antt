-- ===== src/Heap/Examples.antt =====
-- Runs of the allocator on small tables, and the theorems at such inputs.
use white_os.Base.{
  ℕ, zero, suc, ◌+◌, ◌*◌, ◌≤◌, ◌≡◌, refl, true, false, none, some, List, [], ◌∷◌, arith, ◌>>=◌,
}
use white_os.Status.{einvarg}
use white_os.Heap.{
  Heap, HeapTable, heap_malloc, heap_free, heap_create, heap_get_start_block,
  heap_mark_blocks_taken, heap_malloc_blocks, heap_align_value_to_upper, heap_block_to_address,
  heap_address_to_block, heap_mark_blocks_free,
}
use white_os.Heap.Segs.{Seg, free, alloc, encode, blocks, IsHeap}
use white_os.Heap.Scan.{Fits, Blocked, is_free}
use white_os.Heap.Malloc.{Needs, Allocated, heap_malloc-Allocated, Freed, heap_free-Freed}
use white_os.Heap.Overrun.{heap_malloc-past_end, heap_free-heap_malloc}
use white_os.Heap.Create.{Describes, Created, heap_create-Created, heap_create-wrong_size}

abbrev holding : List Seg → Heap
holding segs = record {
  table = record { entries = encode segs; total = blocks segs };
  saddr = 0x01000000;
}

-- one block taken, two free, two taken, one free
abbrev mixed : List Seg
mixed = alloc 0 ∷ free ∷ free ∷ alloc 1 ∷ free ∷ []

mixed_entries : (holding mixed).table.entries ≡ 0x41 ∷ 0 ∷ 0 ∷ 0xc1 ∷ 0x01 ∷ 0 ∷ []
mixed_entries = refl

malloc_two :
    heap_malloc (holding mixed) 5000
    ≡ some (0x01001000, holding (alloc 0 ∷ alloc 1 ∷ alloc 1 ∷ free ∷ []))
unfolding heap_malloc heap_malloc_blocks heap_get_start_block heap_mark_blocks_taken
    heap_block_to_address heap_align_value_to_upper
malloc_two = refl

free_two :
    heap_free (holding mixed) 0x01003000
    ≡ some (holding (alloc 0 ∷ free ∷ free ∷ free ∷ free ∷ free ∷ []))
unfolding heap_free heap_address_to_block heap_mark_blocks_free
free_two = refl

free_in_front : heap_free (holding mixed) 0x00fff000 ≡ none
unfolding heap_free heap_address_to_block heap_mark_blocks_free
free_in_front = refl

mixed-IsHeap : IsHeap (holding mixed) mixed
mixed-IsHeap = record { entries = refl; total = refl; small = omega arith; fits = omega arith }

two_pages : Needs 1 5000
two_pages = record { more = omega arith; enough = omega arith; no_wrap = omega arith }

mixed-Fits : Fits (encode mixed) 2 1
unfolding is_free
mixed-Fits zero l u = absurd (omega arith)
mixed-Fits (suc zero) l u = refl
mixed-Fits (suc (suc zero)) l u = refl
mixed-Fits (suc (suc (suc k))) l u = absurd (omega arith)

heap_malloc-Allocated_example : Allocated (holding mixed) mixed 1 (heap_malloc (holding mixed) 5000)
heap_malloc-Allocated_example =
    heap_malloc-Allocated mixed-IsHeap 1 5000 1 two_pages (omega arith) mixed-Fits

heap_free-heap_malloc_example :
    (heap_malloc (holding mixed) 5000 >>= λ (ptr, h). heap_free h ptr) ≡ some (holding mixed)
heap_free-heap_malloc_example =
    heap_free-heap_malloc mixed-IsHeap 1 5000 1 two_pages (omega arith) mixed-Fits

heap_free-Freed_example :
    Freed
      (holding mixed)
      (alloc 0 ∷ free ∷ free ∷ [])
      (free ∷ [])
      1
      (heap_free (holding mixed) (0x01000000 + 3 * 4096 + 7))
heap_free-Freed_example =
    heap_free-Freed (alloc 0 ∷ free ∷ free ∷ []) (free ∷ []) 1 mixed-IsHeap 7 (omega arith)

-- one block taken and one free: too few for two
abbrev short : List Seg
short = alloc 0 ∷ free ∷ []

short-IsHeap : IsHeap (holding short) short
short-IsHeap = record { entries = refl; total = refl; small = omega arith; fits = omega arith }

short-full : (s : ℕ) → s + 2 ≤ 2 → Blocked (encode short) 2 s
unfolding is_free
short-full zero h = (0, omega arith, omega arith, refl)
short-full (suc s) h = absurd (omega arith)

short_last : is_free (encode short) 1 ≡ true
unfolding is_free
short_last = refl

heap_malloc-past_end_example : heap_malloc (holding short) 5000 ≡ none
heap_malloc-past_end_example =
    heap_malloc-past_end short-IsHeap 1 5000 two_pages short-full (omega arith) short_last

-- one block free and one taken
abbrev closed : List Seg
closed = free ∷ alloc 0 ∷ []

closed-IsHeap : IsHeap (holding closed) closed
closed-IsHeap = record { entries = refl; total = refl; small = omega arith; fits = omega arith }

closed-full : (s : ℕ) → s + 2 ≤ 2 → Blocked (encode closed) 2 s
unfolding is_free
closed-full zero h = (1, omega arith, omega arith, refl)
closed-full (suc s) h = absurd (omega arith)

closed_last : is_free (encode closed) 1 ≡ false
unfolding is_free
closed_last = refl

-- memory of three blocks, and a table that held other things
abbrev dirty : HeapTable
dirty = record { entries = 7 ∷ 8 ∷ 9 ∷ []; total = 3 }

dirty-Describes : Describes dirty 0x1000 0x4000
dirty-Describes = record {
  aligned = omega arith;
  aligned_end = omega arith;
  ordered = omega arith;
  below = omega arith;
  count = omega arith;
}

heap_create-Created_example : Created 0x1000 3 (heap_create (holding mixed) 0x1000 0x4000 dirty)
heap_create-Created_example =
    heap_create-Created (holding mixed) 0x1000 0x4000 dirty dirty-Describes refl (omega arith)

heap_create-wrong_size_example :
    heap_create (holding mixed) 0x1000 0x8000 dirty
    ≡ some (einvarg, record { table = dirty; saddr = 0x1000 })
heap_create-wrong_size_example =
    heap_create-wrong_size (holding mixed) 0x1000 0x8000 dirty (omega arith) (omega arith)
      (omega arith)
