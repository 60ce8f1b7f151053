-- ===== src/Heap.antt =====
-- src/memory/heap/heap.c: the block allocator. The table's entries are the bytes from its address
-- on, and a read or a write outside them is `none`. `size_t` and pointers have 32 bits; block
-- numbers are C `int`s below 2^31, and the `-1` of `heap_get_start_block` is `none`.
pub mod Segs
pub mod Marks
pub mod Scan
pub mod Split
pub mod Bounds
pub mod Tables
pub mod Malloc
pub mod Overrun
pub mod Create
mod Examples
use white_os.Base.{
  ℕ, zero, suc, ◌+◌, ◌-◌, ◌*◌, ◌/◌, ◌%◌, ◌^◌, Bool, true, false, not, List, [], ◌∷◌, Option, none,
  some, ltb, ◌==◌, if◌then◌else◌, length, get_elem?, store, take, ◌>>=◌, bit_and, bit_or, ◌||◌,
}
use white_os.Base.Int.{ℤ, pos, negsuc, sub_ℕ}
use white_os.Status.{all_ok, einvarg, enomem}
use white_os.Memory.{memset}

-- WHITEOS_HEAP_BLOCK_SIZE
abbrev pub block_size : ℕ
block_size = 4096

-- HEAP_BLOCK_TABLE_ENTRY_TAKEN, HEAP_BLOCK_TABLE_ENTRY_FREE and the flags
abbrev pub entry_free : ℕ
entry_free = 0x00

abbrev pub entry_taken : ℕ
entry_taken = 0x01

abbrev pub has_next : ℕ
has_next = 0x80

abbrev pub is_first : ℕ
is_first = 0x40

pub record HeapTable : Type 0 where
  pub entries : List ℕ
  pub total : ℕ

pub record Heap : Type 0 where
  pub table : HeapTable
  pub saddr : ℕ

-- `(size_t)(end - ptr) / WHITEOS_HEAP_BLOCK_SIZE`
unfoldable pub heap_validate_table : ℕ → ℕ → HeapTable → ℤ
heap_validate_table ptr end table =
    if table.total == (end + 2 ^ 32 - ptr) % 2 ^ 32 / block_size then all_ok else einvarg

unfoldable pub heap_validate_alignment : ℕ → Bool
heap_validate_alignment ptr = ptr % block_size == 0

-- The entries are cleared last, so a table of the wrong size leaves them as they were.
unfoldable pub heap_create : Heap → ℕ → ℕ → HeapTable → Option (ℤ × Heap)
heap_create heap ptr end table =
    if not (heap_validate_alignment ptr) || not (heap_validate_alignment end)
    then some (einvarg, heap)
    else (let made : Heap = record { table = table; saddr = ptr } in
        let res = heap_validate_table ptr end table in
        elim res [
          | negsuc e ↦ some (negsuc e, made)
          | pos r ↦
              (memset table.entries entry_free table.total >>= λ cleared.
              some (pos r, record { table = record table { entries = cleared }; saddr = ptr }))
        ])

-- `uint32_t` arithmetic, the addition wraps.
unfoldable pub heap_align_value_to_upper : ℕ → ℕ
heap_align_value_to_upper val =
    (val + (if val % block_size == 0 then 0 else 1) * (block_size - val % block_size)) % 2 ^ 32

abbrev pub heap_get_entry_type : ℕ → ℕ
heap_get_entry_type entry = bit_and entry 0x0f

abbrev pub or_else : Option ℕ → ℕ → ℕ
or_else none i = i
or_else (some b) i = b

-- The loop of `heap_get_start_block` over the entries from index `i` on.
pub start_loop : List ℕ → (i bc : ℕ) → Option ℕ → (total_blocks : ℕ) → Option ℕ
start_loop [] i bc bs n = bs
start_loop (entry ∷ entries) i bc bs n =
    let taken = start_loop entries (i + 1) 0 none n in
    let bs' = or_else bs i in
    let more = start_loop entries (i + 1) (bc + 1) (some bs') n in
    if not (heap_get_entry_type entry == entry_free)
    then taken
    else (if bc + 1 == n then some bs' else more)

-- `none` is the `-ENOMEM`. The array of the table has `total` entries or more, as `kheap_init` sets it
-- up.
unfoldable pub heap_get_start_block : Heap → ℕ → Option ℕ
unfolding start_loop
heap_get_start_block heap total_blocks =
    start_loop (take heap.table.total heap.table.entries) 0 0 none total_blocks

unfoldable pub heap_block_to_address : Heap → ℕ → ℕ
heap_block_to_address heap block = (heap.saddr + block * block_size) % 2 ^ 32

-- The loop of `heap_mark_blocks_taken` at block `i`, with `left` rounds to go; `i != end_block - 1`
-- is written `i + 1 != end_block`.
pub taken_loop : (left i end_block entry : ℕ) → List ℕ → Option (List ℕ)
taken_loop zero i end_block entry entries = some entries
taken_loop (suc left) i end_block entry entries = do
  entries' ← store entries i entry
  taken_loop left (i + 1) end_block
      (if i + 1 == end_block then entry_taken else bit_or entry_taken has_next) entries'

unfoldable pub heap_mark_blocks_taken : Heap → ℕ → ℕ → Option Heap
unfolding taken_loop
heap_mark_blocks_taken heap start_block total_blocks = do
  entries ←
      taken_loop total_blocks start_block (start_block + total_blocks - 1)
        (if ltb 1 total_blocks
          then bit_or (bit_or entry_taken is_first) has_next
          else bit_or entry_taken is_first)
        heap.table.entries
  some (record heap { table = record { entries = entries; total = heap.table.total } })

-- The address 0 is the failure.
unfoldable pub heap_malloc_blocks : Heap → ℕ → Option (ℕ × Heap)
heap_malloc_blocks heap total_blocks = elim (heap_get_start_block heap total_blocks) [
  | none ↦ some (0, heap)
  | some start_block ↦
      (heap_mark_blocks_taken heap start_block total_blocks >>= λ heap'.
      some (heap_block_to_address heap start_block, heap'))
]

-- `(int)(address - saddr) / 4096`: the difference is signed, and the division goes towards zero.
unfoldable pub heap_address_to_block : Heap → ℕ → ℤ
heap_address_to_block heap address =
    let diff = (address + 2 ^ 32 - heap.saddr) % 2 ^ 32 in
    if ltb diff (2 ^ 31) then pos (diff / block_size) else sub_ℕ 0 ((2 ^ 32 - diff) / block_size)

-- The loop of `heap_mark_blocks_free` at block `i`, with `left` rounds to go.
pub free_loop : (left i : ℕ) → List ℕ → Option (List ℕ)
free_loop zero i entries = some entries
free_loop (suc left) i entries =
    let rest = free_loop left (i + 1) in
    do
      entry ← get_elem? entries i
      entries' ← store entries i entry_free
      if bit_and entry has_next == 0 then some entries' else rest entries'

-- A negative block is in front of the table.
unfoldable pub heap_mark_blocks_free : Heap → ℤ → Option Heap
unfolding free_loop
heap_mark_blocks_free heap (negsuc b) = none
heap_mark_blocks_free heap (pos starting_block) = do
  entries ← free_loop (heap.table.total - starting_block) starting_block heap.table.entries
  some (record heap { table = record { entries = entries; total = heap.table.total } })

unfoldable pub heap_malloc : Heap → ℕ → Option (ℕ × Heap)
heap_malloc heap size =
    let aligned_size = heap_align_value_to_upper size in
    heap_malloc_blocks heap (aligned_size / block_size)

unfoldable pub heap_free : Heap → ℕ → Option Heap
heap_free heap ptr = heap_mark_blocks_free heap (heap_address_to_block heap ptr)
