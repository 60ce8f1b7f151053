-- ===== src/Kheap.antt =====
-- src/memory/heap/kheap.c: the kernel's heap. `ram` is the list of the bytes from address 0 on. The
-- messages that `kheap_init` prints when `heap_create` fails are left out.
pub mod Laws
pub mod Front
mod Examples
use white_os.Base.{
  ℕ, ◌+◌, ◌*◌, ◌/◌, ◌==◌, if◌then◌else◌, List, [], ◌++◌, Option, some, ◌>>=◌, take, drop,
}
use white_os.Base.Int.{ℤ}
use white_os.Memory.{memset}
use white_os.Heap.{Heap, HeapTable, heap_create, heap_malloc, heap_free}

-- WHITEOS_HEAP_SIZE_BYTES / WHITEOS_HEAP_BLOCK_SIZE, with the macros put in as they stand
abbrev pub total_table_entries : ℕ
total_table_entries = 1024 * 1024 * 100 / 4096

-- WHITEOS_HEAP_ADDRESS
abbrev pub heap_address : ℕ
heap_address = 0x01000000

-- `table` is what the memory at WHITEOS_HEAP_TABLE_ADDRESS holds; `kernel_heap` starts as zeros.
unfoldable pub kheap_init : List ℕ → Option (ℤ × Heap)
kheap_init table =
    heap_create (record { table = record { entries = []; total = 0 }; saddr = 0 }) heap_address
      (heap_address + 1024 * 1024 * 100) (record { entries = table; total = total_table_entries })

unfoldable pub kmalloc : Heap → ℕ → Option (ℕ × Heap)
kmalloc kernel_heap size = heap_malloc kernel_heap size

unfoldable pub kzalloc : Heap → List ℕ → ℕ → Option (ℕ × Heap × List ℕ)
kzalloc kernel_heap ram size = kmalloc kernel_heap size >>= λ (ptr, heap').
    if ptr == 0
    then some (0, heap', ram)
    else (memset (drop ptr ram) 0x00 size >>= λ cleared. some (ptr, heap', take ptr ram ++ cleared))

unfoldable pub kfree : Heap → ℕ → Option Heap
kfree kernel_heap ptr = heap_free kernel_heap ptr
