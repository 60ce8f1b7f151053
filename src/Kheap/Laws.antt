-- ===== src/Kheap/Laws.antt =====
-- The kernel's heap: its initial state, and cleared allocations.
use white_os.Base.{
  ℕ, suc, ◌+◌, ◌*◌, ◌≤◌, ◌<◌, ◌≡◌, refl, sym, ap, subst, false, Option, some, List, ◌++◌, arith,
  ◌==◌, length, take, drop, replicate, length-drop,
}
use white_os.Memory.Laws.{memset_lem}
use white_os.Heap.{Heap}
use white_os.Heap.Segs.{Seg, free, encode, blocks, IsHeap, blocks-append, blocks-free}
use white_os.Heap.Scan.{Fits}
use white_os.Heap.Create.{Created, heap_create-Created}
use white_os.Heap.Malloc.{Needs, Allocated, heap_malloc-Allocated}
use white_os.Kheap.{kheap_init, kmalloc, kzalloc, heap_address}

-- `kheap_init` succeeds whatever the table's memory held, and makes a heap of 25600 free blocks.
pub kheap_init-Created :
    (table : List ℕ) → length table ≡ 25600 → Created heap_address 25600 (kheap_init table)
unfolding kheap_init
kheap_init-Created table e =
    heap_create-Created _ heap_address 0x07400000 (record { entries = table; total = 25600 })
      (record {
        aligned = omega arith;
        aligned_end = omega arith;
        ordered = omega arith;
        below = omega arith;
        count = omega arith;
      })
      (sym e) (omega arith)

non_null : (a : ℕ) → 0 < a → (a == 0) ≡ false
non_null a h = ground arith

fits_ram :
    {segs : List Seg} (ram : List ℕ) (m size : ℕ) (pre post : List Seg)
    → segs ≡ pre ++ (replicate (suc m) free ++ post)
    → (saddr : ℕ) → Needs m size
    → saddr + blocks segs * 4096 ≤ length ram
    → size ≤ length (drop (saddr + blocks pre * 4096) ram)
fits_ram ram m size pre post e saddr needs room = omega (
  arith,
  length-drop (saddr + blocks pre * 4096) ram,
  ap blocks e,
  blocks-append pre (replicate (suc m) free ++ post),
  blocks-free (suc m) post,
  needs.enough,
)

-- A cleared allocation: an allocation, and `size` zeros in the memory at its address.
pub record Zeroed (heap : Heap) (segs : List Seg) (ram : List ℕ) (m size : ℕ)
    (result : Option (ℕ × Heap × List ℕ)) : Type 0 where
  pub address : ℕ
  pub heap' : Heap
  pub allocated : Allocated heap segs m (some (address, heap'))
  pub returns :
      result
      ≡ some
          (address, heap', take address ram ++ (replicate size 0 ++ drop size (drop address ram)))

-- Where `m + 1` free blocks stand in a row and the memory has the heap's bytes, `kzalloc` allocates
-- as `kmalloc` does and clears exactly the `size` bytes at the address.
pub kzalloc-Zeroed :
    {heap : Heap} {segs : List Seg} (ram : List ℕ) (m size s : ℕ)
    → IsHeap heap segs
    → 0 < heap.saddr
    → heap.saddr + blocks segs * 4096 ≤ length ram
    → Needs m size
    → s + suc m ≤ blocks segs
    → Fits (encode segs) (suc m) s
    → Zeroed heap segs ram m size (kzalloc heap ram size)
unfolding kzalloc kmalloc
kzalloc-Zeroed {heap} {segs} ram m size s valid pos room needs h f =
    let made = heap_malloc-Allocated valid m size s needs h f in
    let address = heap.saddr + blocks made.pre * 4096 in
    record {
      address = address;
      heap' = made.heap';
      allocated = subst (Allocated heap segs m) made.returns made;
      returns =
          rw
            (
              made.returns,
              non_null address (omega arith),
              memset_lem (drop address ram) 0 size (
                  fits_ram {segs = segs} ram m size made.pre made.post made.split heap.saddr needs
                    room),
            )
            refl;
    }
