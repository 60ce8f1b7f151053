-- ===== src/Kheap/Examples.antt =====
-- The theorems on the kernel's heap at concrete inputs.
use white_os.Base.{ℕ, zero, suc, refl, List, [], ◌∷◌, arith, replicate, length-replicate}
use white_os.Heap.{Heap}
use white_os.Heap.Segs.{Seg, free, alloc, encode, IsHeap}
use white_os.Heap.Scan.{Fits, is_free}
use white_os.Heap.Malloc.{Needs}
use white_os.Kheap.{kzalloc}
use white_os.Kheap.Laws.{Zeroed, kzalloc-Zeroed}

-- a heap of one taken block and two free ones from address 0x1000 on
abbrev segs : List Seg
segs = alloc 0 ∷ free ∷ free ∷ []

abbrev small_heap : Heap
small_heap = record { table = record { entries = encode segs; total = 3 }; saddr = 0x1000 }

small_heap-IsHeap : IsHeap small_heap segs
small_heap-IsHeap = record { entries = refl; total = refl; small = omega arith; fits = omega arith }

segs-Fits : Fits (encode segs) 1 1
unfolding is_free
segs-Fits zero l u = absurd (omega arith)
segs-Fits (suc zero) l u = refl
segs-Fits (suc (suc k)) l u = absurd (omega arith)

few_bytes : Needs 0 20
few_bytes = record { more = omega arith; enough = omega arith; no_wrap = omega arith }

kzalloc-Zeroed_example :
    Zeroed small_heap segs
      (replicate 0x4000 0xff)
      0
      20
      (kzalloc small_heap (replicate 0x4000 0xff) 20)
kzalloc-Zeroed_example =
    kzalloc-Zeroed (replicate 0x4000 0xff) 0 20 1 small_heap-IsHeap (omega arith)
      (omega (arith, length-replicate {A = ℕ} 0x4000 0xff)) few_bytes (omega arith) segs-Fits
