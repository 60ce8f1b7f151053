-- ===== src/Paging/Examples.antt =====
-- Directories made at a row of pages, and one whose entries point to one table.
use white_os.Base.{
  ℕ, [], sym, ◌+◌, ◌*◌, ◌/◌, ◌%◌, ◌^◌, ◌<◌, ◌≡◌, refl, none, some, arith, ◌==◌, if◌then◌else◌,
  replicate,
}
use white_os.Status.{all_ok}
use white_os.Heap.{Heap}
use white_os.Heap.Create.{blocks-replicate, encode-replicate}
use white_os.Kheap.Front.{Front}
use white_os.Paging.Allocation.{paging_new_4gb_on, paging_new_4gb_on-Identity}
use white_os.Paging.{Chunk, update, paging_set, paging_new_4gb}
use white_os.Paging.Indexes.{paging_set-high}
use white_os.Paging.Translate.{translate, IsDirectory, paging_set-Remaps}
use white_os.Paging.Identity.{Distinct, paging_new_4gb-Identity}

-- The tables from 64 KiB on.
abbrev address : ℕ → ℕ
address i = (i + 16) * 4096

address-Distinct : Distinct address 1024
address-Distinct i j h k e = omega arith

address_pages : (i : ℕ) → i < 1024 → address i % 4096 ≡ 0
address_pages i h = omega arith

made-IsDirectory : IsDirectory (paging_new_4gb 7 address)
made-IsDirectory =
    (paging_new_4gb-Identity 7 address (omega arith) address-Distinct address_pages).0

paging_set-Remaps_example :
    (s' : Chunk) × (paging_set (paging_new_4gb 7 address) 4096 8199 ≡ some (all_ok, s'))
    × IsDirectory s'
    × ((v : ℕ)
        → v < 2 ^ 32
        → translate s' v
          ≡ (if v / 4096 == 1 then some 8199 else translate (paging_new_4gb 7 address) v))
paging_set-Remaps_example =
    paging_set-Remaps (paging_new_4gb 7 address) 0 1 8199 made-IsDirectory (omega arith)
      (omega arith)

abbrev chunk : Chunk
chunk = record {
  directory = replicate 1024 12291;
  tables = update (λ a. none) 12288 (some (replicate 1024 0));
}

paging_set-high_example : paging_set chunk 2147483648 7 ≡ none
paging_set-high_example =
    paging_set-high chunk 2147483648 7 (omega arith) (omega arith) (omega arith) refl

-- a heap of 1027 free blocks
abbrev free_heap : Heap
free_heap = record {
  table = record { entries = replicate 1027 0; total = 1027 };
  saddr = 0x1000000;
}

free_heap-Front : Front free_heap 0x1000000 0x1000000 1027
free_heap-Front = record {
  front = [];
  valid = record {
    entries = sym (encode-replicate 1027);
    total = sym (blocks-replicate 1027);
    small = omega (arith, blocks-replicate 1027);
    fits = omega (arith, blocks-replicate 1027);
  };
  taken = λ k h. absurd (omega arith);
  same_start = refl;
  start_at = refl;
}

paging_new_4gb_on-Identity_example :
    (chunk : Chunk) × (heap' : Heap) × (paging_new_4gb_on 7 free_heap
      ≡ some (0x1000000 + 1025 * 4096, chunk, heap'))
    × Front heap' 0x1000000 (0x1000000 + 1026 * 4096) 1
    × IsDirectory chunk
    × ((v : ℕ) → v < 2 ^ 32 → translate chunk v ≡ some (v / 4096 * 4096 + 7))
paging_new_4gb_on-Identity_example =
    paging_new_4gb_on-Identity free_heap 0x1000000 1 7 free_heap-Front refl (omega arith)
