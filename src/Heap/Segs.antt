-- ===== src/Heap/Segs.antt =====
-- What a block table stands for: free blocks and allocations of one or more blocks, in order.
use white_os.Base.{
  ℕ, zero, suc, ◌+◌, ◌*◌, ◌<◌, ◌^◌, ◌≡◌, refl, ap, ◌∙◌, List, [], ◌∷◌, ◌++◌, arith, length,
  replicate, length-append, append_assoc,
}
use white_os.Heap.{Heap}

-- `alloc m` is an allocation of `m + 1` blocks.
pub data Seg : Type 0 where
  free : Seg
  alloc : ℕ → Seg

-- The entries behind the first one of an allocation.
abbrev pub rest_blocks : ℕ → List ℕ
rest_blocks zero = []
rest_blocks (suc zero) = 0x01 ∷ []
rest_blocks (suc (suc m)) = 0x81 ∷ rest_blocks (suc m)

abbrev pub alloc_blocks : ℕ → List ℕ
alloc_blocks zero = 0x41 ∷ []
alloc_blocks (suc m) = 0xc1 ∷ rest_blocks (suc m)

abbrev pub encode : List Seg → List ℕ
encode [] = []
encode (free ∷ segs) = 0x00 ∷ encode segs
encode (alloc m ∷ segs) = alloc_blocks m ++ encode segs

-- The blocks that segments take up.
abbrev pub blocks : List Seg → ℕ
blocks segs = length (encode segs)

-- The heap holds the segments: the table is their encoding, and the memory of its blocks lies below
-- 2^32 and is smaller than 2^31 bytes.
pub record IsHeap (heap : Heap) (segs : List Seg) : Type 0 where
  pub entries : heap.table.entries ≡ encode segs
  pub total : heap.table.total ≡ blocks segs
  pub small : blocks segs * 4096 < 2 ^ 31
  pub fits : heap.saddr + blocks segs * 4096 < 2 ^ 32

length-rest_blocks : (m : ℕ) → length (rest_blocks m) ≡ m
length-rest_blocks zero = refl
length-rest_blocks (suc zero) = refl
length-rest_blocks (suc (suc m)) = ap suc (length-rest_blocks (suc m))

pub length-alloc_blocks : (m : ℕ) → length (alloc_blocks m) ≡ suc m
length-alloc_blocks zero = refl
length-alloc_blocks (suc m) = ap suc (length-rest_blocks (suc m))

pub encode-append : (xs ys : List Seg) → encode (xs ++ ys) ≡ encode xs ++ encode ys
encode-append [] ys = refl
encode-append (free ∷ xs) ys = ap (λ t. 0x00 ∷ t) (encode-append xs ys)
encode-append (alloc m ∷ xs) ys = rw (encode-append xs ys, append_assoc)

pub encode-replicate_free :
    (n : ℕ) (segs : List Seg) → encode (replicate n free ++ segs) ≡ replicate n 0 ++ encode segs
encode-replicate_free zero segs = refl
encode-replicate_free (suc n) segs = ap (λ t. 0x00 ∷ t) (encode-replicate_free n segs)

pub blocks-append : (xs ys : List Seg) → blocks (xs ++ ys) ≡ blocks xs + blocks ys
blocks-append xs ys = ap length (encode-append xs ys) ∙ length-append (encode xs) (encode ys)

pub blocks-free : (n : ℕ) (segs : List Seg) → blocks (replicate n free ++ segs) ≡ n + blocks segs
blocks-free zero segs = omega arith
blocks-free (suc n) segs = omega (arith, blocks-free n segs)

pub blocks-alloc : (m : ℕ) (segs : List Seg) → blocks (alloc m ∷ segs) ≡ suc m + blocks segs
blocks-alloc m segs =
    length-append (alloc_blocks m) (encode segs) ∙ ap (λ k. k + blocks segs) (length-alloc_blocks m)
