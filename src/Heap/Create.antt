-- ===== src/Heap/Create.antt =====
-- `heap_create`: on which arguments it succeeds, and the heap that it makes.
use white_os.Base.{
  ℕ, zero, suc, ◌+◌, ◌-◌, ◌*◌, ◌/◌, ◌%◌, ◌^◌, ◌≤◌, ◌<◌, ◌≡◌, refl, sym, ap, ◌∙◌, ◌≢◌, ◌⊎◌, Option,
  some, ◌∷◌, ◌++◌, append-nil, arith, length, drop, replicate, drop_self,
}
use white_os.Base.Int.{ℤ}
use white_os.Status.{all_ok, einvarg}
use white_os.Memory.{memset}
use white_os.Memory.Laws.{memset_lem}
use white_os.Heap.{Heap, HeapTable, heap_create, heap_validate_table, heap_validate_alignment}
use white_os.Heap.Segs.{free, encode, blocks, IsHeap}

-- Both ends of the memory are aligned, and the table has an entry for each block between them.
pub record Describes (table : HeapTable) (ptr end : ℕ) : Type 0 where
  pub aligned : ptr % 4096 ≡ 0
  pub aligned_end : end % 4096 ≡ 0
  pub ordered : ptr ≤ end
  pub below : end < 2 ^ 32
  pub count : table.total * 4096 ≡ end - ptr

-- The result of a call that succeeds: the heap at `ptr`, all of whose `total` blocks are free.
pub record Created (ptr total : ℕ) (result : Option (ℤ × Heap)) : Type 0 where
  pub heap' : Heap
  pub returns : result ≡ some (all_ok, heap')
  pub valid : IsHeap heap' (replicate total free)
  pub saddr : heap'.saddr ≡ ptr

pub blocks-replicate : (n : ℕ) → blocks (replicate n free) ≡ n
blocks-replicate zero = refl
blocks-replicate (suc n) = ap suc (blocks-replicate n)

pub encode-replicate : (n : ℕ) → encode (replicate n free) ≡ replicate n 0
encode-replicate zero = refl
encode-replicate (suc n) = ap (λ t. 0 ∷ t) (encode-replicate n)

cleared :
    (table : HeapTable)
    → table.total ≡ length table.entries
    → memset table.entries 0 table.total ≡ some (replicate table.total 0)
cleared table e =
    memset_lem table.entries 0 table.total (omega arith)
    ∙ ap some (
        ap (λ t. replicate table.total 0 ++ t)
          (ap (λ n. drop n table.entries) e ∙ drop_self table.entries)
        ∙ append-nil (replicate table.total 0))

runs :
    (heap : Heap) (ptr end : ℕ) (table : HeapTable)
    → Describes table ptr end
    → table.total ≡ length table.entries
    → heap_create heap ptr end table
      ≡ some (
        all_ok,
        record {
          table = record { entries = replicate table.total 0; total = table.total };
          saddr = ptr;
        },
      )
unfolding heap_create heap_validate_table heap_validate_alignment
runs heap ptr end table d len =
    rw (d.aligned, d.aligned_end, count) (ground (arith, cleared table len))
  where
    count : (end + 2 ^ 32 - ptr) % 2 ^ 32 / 4096 ≡ table.total
    count = omega (arith, d.count, d.below, d.ordered)

-- With a table that describes the memory `heap_create` succeeds, whatever the entries held before,
-- and makes a valid heap of free blocks.
pub heap_create-Created :
    (heap : Heap) (ptr end : ℕ) (table : HeapTable)
    → Describes table ptr end
    → table.total ≡ length table.entries
    → table.total * 4096 < 2 ^ 31
    → Created ptr table.total (heap_create heap ptr end table)
heap_create-Created heap ptr end table d len small = record {
  heap' = record {
    table = record { entries = replicate table.total 0; total = table.total };
    saddr = ptr;
  };
  returns = runs heap ptr end table d len;
  valid = record {
    entries = sym (encode-replicate table.total);
    total = sym (blocks-replicate table.total);
    small = omega (arith, blocks-replicate table.total);
    fits = omega (arith, blocks-replicate table.total, d.count, d.below, d.ordered);
  };
  saddr = refl;
}

-- With an end that is not aligned it refuses and changes nothing.
pub heap_create-unaligned :
    (heap : Heap) (ptr end : ℕ) (table : HeapTable)
    → (ptr % 4096 ≢ 0) ⊎ (end % 4096 ≢ 0)
    → heap_create heap ptr end table ≡ some (einvarg, heap)
unfolding heap_create heap_validate_alignment
heap_create-unaligned heap ptr end table h = ground arith

-- With a table of another size it reports the error, but the heap is left with the new table and
-- address, and the entries are not cleared.
pub heap_create-wrong_size :
    (heap : Heap) (ptr end : ℕ) (table : HeapTable)
    → ptr % 4096 ≡ 0
    → end % 4096 ≡ 0
    → table.total ≢ (end + 2 ^ 32 - ptr) % 2 ^ 32 / 4096
    → heap_create heap ptr end table ≡ some (einvarg, record { table = table; saddr = ptr })
unfolding heap_create heap_validate_alignment heap_validate_table
heap_create-wrong_size heap ptr end table p e n = ground arith
