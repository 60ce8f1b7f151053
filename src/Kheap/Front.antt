-- ===== src/Kheap/Front.antt =====
-- Calls of `kmalloc` on a heap whose taken blocks stand in front: the first free block is given out.
use white_os.Base.{
  ℕ, suc, ◌+◌, ◌*◌, ◌≤◌, ◌<◌, ◌≡◌, refl, sym, ap, ◌∙◌, subst, false, true, some, List, [], ◌∷◌,
  ◌++◌, arith, replicate, dec_lt, bit_and, ◌==◌, get_or, get_or-append_left, get_or-append_right,
  snoc-append,
}
use white_os.Heap.{Heap, heap_get_start_block}
use white_os.Heap.Segs.{Seg, free, alloc, encode, blocks, IsHeap, encode-append, blocks-append}
use white_os.Heap.Create.{blocks-replicate}
use white_os.Heap.Scan.{is_free, Fits}
use white_os.Heap.Tables.{heap_with, start_block, FirstFit, Outcome-FirstFit}
use white_os.Heap.Malloc.{malloc_returns, IsHeap-heap_with, same_blocks}
use white_os.Kheap.{kmalloc}

-- Every block of the segments is taken.
abbrev pub AllTaken : List Seg → Type 0
AllTaken front = (k : ℕ) → k < blocks front → is_free (encode front) k ≡ false

is_free-front :
    (front rest : List Seg) (k : ℕ)
    → k < blocks front
    → is_free (encode (front ++ rest)) k ≡ is_free (encode front) k
unfolding is_free
is_free-front front rest k h =
    ap (λ e. bit_and e 0x0f == 0)
      (ap (λ xs. get_or xs k 1) (encode-append front rest)
        ∙ get_or-append_left (encode front) (encode rest) k 1 h)

is_free-behind :
    (front rest : List Seg) (k : ℕ)
    → is_free (encode (front ++ rest)) (blocks front + k) ≡ is_free (encode rest) k
unfolding is_free
is_free-behind front rest k =
    ap (λ e. bit_and e 0x0f == 0)
      (ap (λ xs. get_or xs (blocks front + k) 1) (encode-append front rest)
        ∙ get_or-append_right (encode front) (encode rest) k 1)

AllTaken-snoc : (front : List Seg) → AllTaken front → AllTaken (front ++ alloc 0 ∷ [])
unfolding is_free
AllTaken-snoc front t k h = elim (dec_lt k (blocks front)) [
  | yes l ↦ is_free-front front (alloc 0 ∷ []) k l ∙ t k l
  | no g ↦
      subst (λ j. is_free (encode (front ++ alloc 0 ∷ [])) j ≡ false)
        (omega (arith, g, h, blocks-append front (alloc 0 ∷ [])))
        (is_free-behind front (alloc 0 ∷ []) 0)
]

zero_free : (n : ℕ) → is_free (encode (replicate (suc n) free)) 0 ≡ true
unfolding is_free
zero_free n = refl

module _ {heap : Heap} (front : List Seg) (n : ℕ)
    (valid : IsHeap heap (front ++ replicate (suc n) free)) (taken : AllTaken front) where
  first_free : heap_get_start_block heap 1 ≡ some (blocks front)
  first_free = fit.returns ∙ ap some at_front
    where
      size : blocks (front ++ replicate (suc n) free) ≡ blocks front + suc n
      size =
          blocks-append front (replicate (suc n) free)
          ∙ ap (λ k. blocks front + k) (blocks-replicate (suc n))

      free_there : Fits (encode (front ++ replicate (suc n) free)) 1 (blocks front)
      free_there k l u =
          subst (λ j. is_free (encode (front ++ replicate (suc n) free)) j ≡ true) (omega arith)
            (is_free-behind front (replicate (suc n) free) 0 ∙ zero_free n)

      fit : FirstFit (front ++ replicate (suc n) free) 1 (heap_get_start_block heap 1)
      fit =
          Outcome-FirstFit (front ++ replicate (suc n) free) 1 (blocks front) _
            (start_block 1 valid (omega arith)) (omega (arith, size)) free_there

      at_front : fit.start ≡ blocks front
      at_front = elim (dec_lt fit.start (blocks front)) [
        | yes l ↦ absurd (
            cc (
              is_free-front front (replicate (suc n) free) fit.start l,
              taken fit.start l,
              fit.fits fit.start (omega arith) (omega arith),
            ))
        | no g ↦ elim (dec_lt (blocks front) fit.start) [
          | yes l ↦
              let (k, a, b, f) = fit.first (blocks front) l in absurd (cc (f, free_there k a b))
          | no g' ↦ omega (arith, g, g')
        ]
      ]

  -- The first free block is given out.
  kmalloc_front :
      (size : ℕ)
      → 0 < size
      → size ≤ 4096
      → kmalloc heap size
        ≡ some (
          heap.saddr + blocks front * 4096,
          heap_with heap ((front ++ alloc 0 ∷ []) ++ replicate n free),
        )
  unfolding kmalloc
  kmalloc_front size h l =
      malloc_returns valid 0 size front (replicate n free)
        (record { more = omega arith; enough = omega arith; no_wrap = omega arith }) refl first_free
      ∙ ap (λ segs. some (heap.saddr + blocks front * 4096, heap_with heap segs))
          (sym (snoc-append front (alloc 0) (replicate n free)))

  IsHeap-front :
      IsHeap
        (heap_with heap ((front ++ alloc 0 ∷ []) ++ replicate n free))
        ((front ++ alloc 0 ∷ []) ++ replicate n free)
  IsHeap-front = IsHeap-heap_with ((front ++ alloc 0 ∷ []) ++ replicate n free) valid (
      ap blocks (snoc-append front (alloc 0) (replicate n free))
      ∙ same_blocks front (replicate n free) 0)

-- What calls leave: taken blocks in front of `n` free ones, from the same address on.
pub record Front (heap : Heap) (saddr start n : ℕ) : Type 0 where
  pub front : List Seg
  pub valid : IsHeap heap (front ++ replicate n free)
  pub taken : AllTaken front
  pub same_start : heap.saddr ≡ saddr
  pub start_at : saddr + blocks front * 4096 ≡ start

pub kmalloc-Front :
    (heap : Heap) (saddr start n size : ℕ)
    → Front heap saddr start (suc n)
    → 0 < size
    → size ≤ 4096
    → (heap' : Heap) × (kmalloc heap size ≡ some (start, heap'))
      × Front heap' saddr (start + 4096) n
unfolding heap_with
kmalloc-Front heap saddr start n size f h l =
    let next = heap_with heap ((f.front ++ alloc 0 ∷ []) ++ replicate n free) in
    (
      next,
      kmalloc_front f.front n f.valid f.taken size h l
          ∙ ap (λ a. some (a, next))
              (ap (λ a. a + blocks f.front * 4096) f.same_start ∙ f.start_at),
      record {
        front = f.front ++ alloc 0 ∷ [];
        valid = IsHeap-front f.front n f.valid f.taken;
        taken = AllTaken-snoc f.front f.taken;
        same_start = f.same_start;
        start_at = omega (arith, f.start_at, blocks-append f.front (alloc 0 ∷ []));
      },
    )
