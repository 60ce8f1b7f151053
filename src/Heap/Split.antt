-- ===== src/Heap/Split.antt =====
-- Runs of free entries in an encoded table are runs of free segments.
use white_os.Base.{
  ℕ, zero, suc, ◌+◌, ◌-◌, ◌≤◌, ◌<◌, ◌≡◌, refl, ap, sym, ◌∙◌, true, false, List, [], ◌∷◌, ◌++◌,
  arith, get_or, replicate, bit_and, ◌==◌, dec_lt, get_or-append_left, get_or-append_right,
}
use white_os.Heap.Segs.{
  Seg, free, alloc, encode, blocks, alloc_blocks, rest_blocks, length-alloc_blocks, blocks-alloc,
}
use white_os.Heap.Scan.{is_free, Fits}

is_free-rest_blocks : (m k : ℕ) → k < m → is_free (rest_blocks m) k ≡ false
unfolding is_free
is_free-rest_blocks zero k h = absurd (omega arith)
is_free-rest_blocks (suc zero) zero h = refl
is_free-rest_blocks (suc zero) (suc k) h = absurd (omega arith)
is_free-rest_blocks (suc (suc m)) zero h = refl
is_free-rest_blocks (suc (suc m)) (suc k) h = is_free-rest_blocks (suc m) k (omega arith)

is_free-alloc_blocks : (m k : ℕ) → k < suc m → is_free (alloc_blocks m) k ≡ false
unfolding is_free
is_free-alloc_blocks zero zero h = refl
is_free-alloc_blocks zero (suc k) h = absurd (omega arith)
is_free-alloc_blocks (suc m) zero h = refl
is_free-alloc_blocks (suc m) (suc k) h = is_free-rest_blocks (suc m) k (omega arith)

module _ (m : ℕ) (segs : List Seg) where
  is_free-alloc : (k : ℕ) → k < suc m → is_free (encode (alloc m ∷ segs)) k ≡ false
  is_free-alloc k h = same ∙ is_free-alloc_blocks m k h
    where
      same : is_free (encode (alloc m ∷ segs)) k ≡ is_free (alloc_blocks m) k
      same =
          unfold is_free in
          ap (λ e. bit_and e 0x0f == 0)
            (get_or-append_left (alloc_blocks m) (encode segs) k 1
              (omega (arith, length-alloc_blocks m)))

  is_free-skip : (k : ℕ) → is_free (encode (alloc m ∷ segs)) (suc m + k) ≡ is_free (encode segs) k
  is_free-skip k =
      unfold is_free in
      ap (λ e. bit_and e 0x0f == 0)
        (ap (λ l. get_or (encode (alloc m ∷ segs)) (l + k) 1) (sym (length-alloc_blocks m))
          ∙ get_or-append_right (alloc_blocks m) (encode segs) k 1)

-- A run at the front.
split_front :
    (segs : List Seg) (n : ℕ)
    → n ≤ blocks segs
    → Fits (encode segs) n 0
    → (post : List Seg) × (segs ≡ replicate n free ++ post)
split_front segs zero h f = (segs, refl)
split_front [] (suc n) h f = absurd (omega arith)
split_front (free ∷ segs) (suc n) h f =
    let (post, e) =
      split_front segs n (omega arith) (λ k p l. shift k (f (suc k) (omega arith) (omega arith))) in
    (post, ap (λ t. free ∷ t) e)
  where
    shift : (k : ℕ) → is_free (0 ∷ encode segs) (suc k) ≡ true → is_free (encode segs) k ≡ true
    shift k h = unfold is_free in h
split_front (alloc m ∷ segs) (suc n) h f =
    cc (f 0 (omega arith) (omega arith), is_free-alloc m segs 0 (omega arith))

-- Where `n` entries from block `s` on are free, `n` free segments stand behind `s` blocks.
pub split_fit :
    (segs : List Seg) (s n : ℕ)
    → 0 < n
    → s + n ≤ blocks segs
    → Fits (encode segs) n s
    → (pre : List Seg) × (post : List Seg) × (segs ≡ pre ++ (replicate n free ++ post))
      × (blocks pre ≡ s)
split_fit segs zero n pos h f =
    let (post, e) = split_front segs n (omega arith) f in ([], post, e, refl)
split_fit [] (suc s) n pos h f = absurd (omega arith)
split_fit (free ∷ segs) (suc s) n pos h f =
    let (pre, post, e, b) =
      split_fit segs s n pos (omega arith)
        (λ k p l. shift k (f (suc k) (omega arith) (omega arith))) in
    (free ∷ pre, post, ap (λ t. free ∷ t) e, omega arith)
  where
    shift : (k : ℕ) → is_free (0 ∷ encode segs) (suc k) ≡ true → is_free (encode segs) k ≡ true
    shift k h = unfold is_free in h
split_fit (alloc m ∷ segs) (suc s) n pos h f = elim (dec_lt s m) [
  | yes p ↦ cc (f (suc s) (omega arith) (omega arith), is_free-alloc m segs (suc s) (omega arith))
  | no p ↦
      let (pre, post, e, b) =
        split_fit segs (s - m) n pos (omega (arith, blocks-alloc m segs))
          (λ k q l. sym (is_free-skip m segs k) ∙ f (suc m + k) (omega arith) (omega arith)) in
      (alloc m ∷ pre, post, ap (λ t. alloc m ∷ t) e, omega (arith, blocks-alloc m pre))
]
