-- ===== src/Heap/Bounds.antt =====
-- `heap_align_value_to_upper` and the addresses of blocks, in 32-bit arithmetic.
use white_os.Base.{
  ℕ, suc, ◌+◌, ◌-◌, ◌*◌, ◌/◌, ◌%◌, ◌^◌, ◌≤◌, ◌<◌, ◌≡◌, refl, sym, ap, ◌∙◌, List, arith, lt→ltb,
}
use white_os.Base.Int.{pos}
use white_os.Heap.{
  Heap, heap_align_value_to_upper, heap_block_to_address, heap_address_to_block, heap_malloc,
  heap_malloc_blocks,
}
use white_os.Heap.Segs.{Seg, blocks, IsHeap}

-- Up to 2^32 - 4096 the aligned value is the least multiple of the block size that is not smaller.
pub heap_align_value_to_upper_lem :
    (val : ℕ)
    → val ≤ 2 ^ 32 - 4096
    → (heap_align_value_to_upper val % 4096 ≡ 0)
      × (val ≤ heap_align_value_to_upper val)
      × (heap_align_value_to_upper val < val + 4096)
      × (heap_align_value_to_upper val < 2 ^ 32)
unfolding heap_align_value_to_upper
heap_align_value_to_upper_lem val h = (ground arith, ground arith, ground arith, ground arith)

-- Above that bound the addition wraps, and `heap_malloc` does for such a size what it does for 0.
pub heap_malloc-wraps :
    (heap : Heap) (size : ℕ)
    → 2 ^ 32 - 4096 < size
    → size < 2 ^ 32
    → heap_malloc heap size ≡ heap_malloc heap 0
unfolding heap_malloc
heap_malloc-wraps heap size large h =
    ap (λ v. heap_malloc_blocks heap (v / 4096)) (wrapped size large h ∙ sym zero_aligned)
  where
    wrapped : (val : ℕ) → 2 ^ 32 - 4096 < val → val < 2 ^ 32 → heap_align_value_to_upper val ≡ 0
    wrapped val l u = unfold heap_align_value_to_upper in ground arith

    zero_aligned : heap_align_value_to_upper 0 ≡ 0
    zero_aligned = unfold heap_align_value_to_upper in refl

-- A size of more than `m` blocks and at most `m + 1` takes `m + 1` blocks.
pub block_count :
    (m size : ℕ)
    → m * 4096 < size
    → size ≤ suc m * 4096
    → size ≤ 2 ^ 32 - 4096
    → heap_align_value_to_upper size / 4096 ≡ suc m
block_count m size l u h = omega (arith, heap_align_value_to_upper_lem size h)

module _ {heap : Heap} {segs : List Seg} (valid : IsHeap heap segs) where
  -- The address of a block does not wrap.
  pub heap_block_to_address_lem :
      (b : ℕ) → b < blocks segs → heap_block_to_address heap b ≡ heap.saddr + b * 4096
  unfolding heap_block_to_address
  heap_block_to_address_lem b h = omega (arith, valid.fits)

  -- Every address inside a block belongs to it.
  pub heap_address_to_block_lem :
      (b r : ℕ)
      → b < blocks segs
      → r < 4096
      → heap_address_to_block heap (heap.saddr + b * 4096 + r) ≡ pos b
  unfolding heap_address_to_block
  heap_address_to_block_lem b r h l =
      rw (diff, lt→ltb (b * 4096 + r) (2 ^ 31) (omega (arith, valid.small))) (ap pos (omega arith))
    where
      diff : (heap.saddr + b * 4096 + r + 2 ^ 32 - heap.saddr) % 2 ^ 32 ≡ b * 4096 + r
      diff = omega (arith, valid.small)
