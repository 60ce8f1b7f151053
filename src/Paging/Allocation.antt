-- ===== src/Paging/Allocation.antt =====
-- `paging_new_4gb` on the kernel's heap: the tables are where `kzalloc` puts them. What `kzalloc`
-- clears is written over entry by entry.
use white_os.Base.{
  ℕ, zero, suc, ◌+◌, ◌*◌, ◌%◌, ◌^◌, ◌/◌, ◌<◌, ◌≡◌, refl, ap, ◌∙◌, subst, Option, some, List, [],
  ◌∷◌, ◌++◌, arith, replicate, get_or, ◌>>=◌,
}
use white_os.Heap.{Heap}
use white_os.Heap.Segs.{free, IsHeap}
use white_os.Kheap.{kmalloc}
use white_os.Kheap.Front.{Front, kmalloc-Front}
use white_os.Paging.{Chunk, total_entries_per_table, paging_new_4gb}
use white_os.Paging.Translate.{translate, IsDirectory}
use white_os.Paging.Identity.{Distinct, paging_new_4gb-Identity}

-- The tables of the entries from `i` on, one call for each.
unfoldable pub allocate_tables : (left : ℕ) → Heap → Option (List ℕ × Heap)
allocate_tables zero heap = some ([], heap)
allocate_tables (suc left) heap = do
  (table, heap1) ← kmalloc heap (4 * total_entries_per_table)
  (tables, heap2) ← allocate_tables left heap1
  some (table ∷ tables, heap2)

-- The directory, the tables and the chunk; the address of the chunk, with what it holds.
unfoldable pub paging_new_4gb_on : (flags : ℕ) → Heap → Option (ℕ × Chunk × Heap)
unfolding allocate_tables
paging_new_4gb_on flags heap = do
  (directory, heap1) ← kmalloc heap (4 * total_entries_per_table)
  (tables, heap2) ← allocate_tables total_entries_per_table heap1
  (chunk_4gb, heap3) ← kmalloc heap2 4
  some (chunk_4gb, paging_new_4gb flags (λ i. get_or tables i 0), heap3)

-- Addresses of pages in a row.
abbrev pages_from : (start count : ℕ) → List ℕ
pages_from start zero = []
pages_from start (suc count) = start ∷ pages_from (start + 4096) count

get_or-pages_from :
    (start count i : ℕ) → i < count → get_or (pages_from start count) i 0 ≡ start + i * 4096
get_or-pages_from start zero i h = absurd (omega arith)
get_or-pages_from start (suc count) zero h = omega arith
get_or-pages_from start (suc count) (suc i) h =
    get_or-pages_from (start + 4096) count i (omega arith) ∙ omega arith

allocate_tables-Front :
    (left : ℕ) (heap : Heap) (saddr start n : ℕ)
    → Front heap saddr start (left + n)
    → (heap' : Heap) × (allocate_tables left heap ≡ some (pages_from start left, heap'))
      × Front heap' saddr (start + left * 4096) n
unfolding allocate_tables
allocate_tables-Front zero heap saddr start n f = (
  heap,
  refl,
  record {
    front = f.front;
    valid = subst (λ k. IsHeap heap (f.front ++ replicate k free)) (omega arith) f.valid;
    taken = f.taken;
    same_start = f.same_start;
    start_at = f.start_at ∙ omega arith;
  },
)
allocate_tables-Front (suc left) heap saddr start n f =
    let (heap1, e1, f1) =
      kmalloc-Front heap saddr start (left + n) 4096
        (subst (Front heap saddr start) (omega arith) f) (omega arith) (omega arith) in
    let (heap2, e2, f2) = allocate_tables-Front left heap1 saddr (start + 4096) n f1 in
    (
      heap2,
      ap
            (λ r. r >>= λ (table, h1).
              allocate_tables left h1 >>= λ (tables, h2). some (table ∷ tables, h2))
            e1
          ∙ ap (λ r. r >>= λ (tables, h2). some (start ∷ tables, h2)) e2,
      subst (λ k. Front heap2 saddr k n) (omega arith) f2,
    )

paging_new_4gb_on-returns :
    (flags : ℕ) (heap heap1 heap2 heap3 : Heap) (directory chunk_4gb : ℕ) (tables : List ℕ)
    → kmalloc heap 4096 ≡ some (directory, heap1)
    → allocate_tables 1024 heap1 ≡ some (tables, heap2)
    → kmalloc heap2 4 ≡ some (chunk_4gb, heap3)
    → paging_new_4gb_on flags heap
      ≡ some (chunk_4gb, paging_new_4gb flags (λ i. get_or tables i 0), heap3)
unfolding paging_new_4gb_on
paging_new_4gb_on-returns flags heap heap1 heap2 heap3 directory chunk_4gb tables e1 e2 e3 =
    ap
      (λ r. r >>= λ (d, h1). allocate_tables 1024 h1 >>= λ (ts, h2).
        kmalloc h2 4 >>= λ (c, h3). some (c, paging_new_4gb flags (λ i. get_or ts i 0), h3))
      e1
    ∙ ap
        (λ r. r >>= λ (ts, h2).
          kmalloc h2 4 >>= λ (c, h3). some (c, paging_new_4gb flags (λ i. get_or ts i 0), h3))
        e2
    ∙ ap (λ r. r >>= λ (c, h3). some (c, paging_new_4gb flags (λ i. get_or tables i 0), h3)) e3

-- On a heap of page-aligned blocks whose taken ones stand in front of at least 1026 free ones,
-- `paging_new_4gb` takes the next 1026 blocks for the directory, the tables and the chunk, and the
-- directory maps every 32-bit address to itself, with the flags, where these are a byte.
pub paging_new_4gb_on-Identity :
    (heap : Heap) (start n flags : ℕ)
    → Front heap heap.saddr start (1026 + n)
    → heap.saddr % 4096 ≡ 0
    → flags < 2 ^ 8
    → (chunk : Chunk) × (heap' : Heap) × (paging_new_4gb_on flags heap
        ≡ some (start + 1025 * 4096, chunk, heap'))
      × Front heap' heap.saddr (start + 1026 * 4096) n
      × IsDirectory chunk
      × ((v : ℕ) → v < 2 ^ 32 → translate chunk v ≡ some (v / 4096 * 4096 + flags))
paging_new_4gb_on-Identity heap start n flags f page l =
    let (heap1, e1, f1) =
      kmalloc-Front heap heap.saddr start (1025 + n) 4096
        (subst (Front heap heap.saddr start) (omega arith) f) (omega arith) (omega arith) in
    let (heap2, e2, f2) =
      allocate_tables-Front 1024 heap1 heap.saddr (start + 4096) (1 + n)
        (subst (Front heap1 heap.saddr (start + 4096)) (omega arith) f1) in
    let (heap3, e3, f3) =
      kmalloc-Front heap2 heap.saddr (start + 4096 + 1024 * 4096) n 4
        (subst (Front heap2 heap.saddr (start + 4096 + 1024 * 4096)) (omega arith) f2) (omega arith)
        (omega arith) in
    let made = paging_new_4gb-Identity flags address l distinct pages in
    (
      paging_new_4gb flags address,
      heap3,
      paging_new_4gb_on-returns flags heap heap1 heap2 heap3 start (start + 1025 * 4096)
          (pages_from (start + 4096) 1024) e1 e2 (e3 ∙ ap (λ k. some (k, heap3)) (omega arith)),
      subst (λ k. Front heap3 heap.saddr k n) (omega arith) f3,
      made.0,
      made.1,
    )
  where
    address : ℕ → ℕ
    address i = get_or (pages_from (start + 4096) 1024) i 0

    address_of : (i : ℕ) → i < 1024 → address i ≡ start + 4096 + i * 4096
    address_of i h = get_or-pages_from (start + 4096) 1024 i h

    distinct : Distinct address 1024
    distinct i j h k e = omega (arith, address_of i h, address_of j k, e)

    pages : (i : ℕ) → i < 1024 → address i % 4096 ≡ 0
    pages i h = omega (arith, address_of i h, page, f.start_at)
