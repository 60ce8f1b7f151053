-- ===== src/Memory/Laws.antt =====
-- What the loops of src/memory/memory.c leave behind.
use white_os.Base.{
  ℕ, zero, suc, ◌+◌, ◌%◌, ◌≤◌, ◌≡◌, refl, ap, ◌∙◌, List, [], ◌∷◌, ◌++◌, some, arith, length, take,
  drop, replicate, store-append, snoc-append, length-snoc, get_elem?-append, ◌↔◌, ==_iff,
}
use white_os.Base.Int.{pos}
use white_os.Memory.{memset_loop, memset, memcmp_loop, memcmp, memcpy_loop, memcpy}

memset_loop-append :
    (left c i : ℕ) (pre rest : List ℕ)
    → length pre ≡ i
    → left ≤ length rest
    → memset_loop left i c (pre ++ rest)
      ≡ some (pre ++ (replicate left (c % 256) ++ drop left rest))
unfolding memset_loop
memset_loop-append zero c i pre rest e h = refl
memset_loop-append (suc left) c i pre [] e h = absurd (omega arith)
memset_loop-append (suc left) c i pre (x ∷ rest) e h = rw (store-append pre x rest (c % 256) i e) (
    rw (← snoc-append pre (c % 256) rest) (
      memset_loop-append left c (i + 1) (pre ++ (c % 256) ∷ []) rest
        (omega (arith, length-snoc pre (c % 256))) (omega arith)
      ∙ ap some (snoc-append pre (c % 256) (replicate left (c % 256) ++ drop left rest))))

-- A `memset` within the array returns, with the first `size` bytes set to `(char) c` and the others
-- as they were.
pub memset_lem :
    (buf : List ℕ) (c size : ℕ)
    → size ≤ length buf
    → memset buf c size ≡ some (replicate size (c % 256) ++ drop size buf)
unfolding memset
memset_lem buf c size h = memset_loop-append size c 0 [] buf refl h

memcpy_loop-append :
    (left i : ℕ) (pre rest done src : List ℕ)
    → length pre ≡ i
    → length done ≡ i
    → left ≤ length rest
    → left ≤ length src
    → memcpy_loop left i (pre ++ rest) (done ++ src)
      ≡ some (pre ++ (take left src ++ drop left rest))
unfolding memcpy_loop
memcpy_loop-append zero i pre rest done src e d h k = refl
memcpy_loop-append (suc left) i pre [] done src e d h k = absurd (omega arith)
memcpy_loop-append (suc left) i pre (x ∷ rest) done [] e d h k = absurd (omega arith)
memcpy_loop-append (suc left) i pre (x ∷ rest) done (b ∷ src) e d h k =
    rw (get_elem?-append done b src i d, store-append pre x rest b i e)
      (rw (← snoc-append pre b rest, ← snoc-append done b src)
        (memcpy_loop-append left (i + 1) (pre ++ b ∷ []) rest (done ++ b ∷ []) src
            (omega (arith, length-snoc pre b)) (omega (arith, length-snoc done b)) (omega arith)
            (omega arith)
          ∙ ap some (snoc-append pre b (take left src ++ drop left rest))))

-- A `memcpy` within both arrays returns, with the first `len` bytes of the source in front of what
-- the destination held behind them.
pub memcpy_lem :
    (dest src : List ℕ) (len : ℕ)
    → len ≤ length dest
    → len ≤ length src
    → memcpy dest src len ≡ some (take len src ++ drop len dest)
unfolding memcpy
memcpy_lem dest src len h k = memcpy_loop-append len 0 [] dest [] src refl refl h k

memcmp_loop-eq :
    (left i : ℕ) (p1 a p2 b : List ℕ)
    → length p1 ≡ i
    → length p2 ≡ i
    → left ≤ length a
    → left ≤ length b
    → (memcmp_loop left i (p1 ++ a) (p2 ++ b) ≡ some (pos 0)) ↔ (take left a ≡ take left b)
unfolding memcmp_loop
memcmp_loop-eq zero i p1 a p2 b e d h k = (λ _. refl, λ _. refl)
memcmp_loop-eq (suc left) i p1 [] p2 b e d h k = absurd (omega arith)
memcmp_loop-eq (suc left) i p1 (x ∷ a) p2 [] e d h k = absurd (omega arith)
memcmp_loop-eq (suc left) i p1 (x ∷ a) p2 (y ∷ b) e d h k =
    let ih =
      memcmp_loop-eq left (i + 1) (p1 ++ x ∷ []) a (p2 ++ y ∷ []) b
        (omega (arith, length-snoc p1 x)) (omega (arith, length-snoc p2 y)) (omega arith)
        (omega arith) in
    let ih' = rw (snoc-append p1 x a, snoc-append p2 y b) at ih in
    rw (get_elem?-append p1 x a i e, get_elem?-append p2 y b i d)
      (ground (arith, ih'.0, ih'.1, ==_iff x y))

-- Within both arrays, `memcmp` answers 0 exactly when the first `size` bytes agree.
pub memcmp-eq_iff :
    (a b : List ℕ) (size : ℕ)
    → size ≤ length a
    → size ≤ length b
    → (memcmp a b size ≡ some (pos 0)) ↔ (take size a ≡ take size b)
unfolding memcmp
memcmp-eq_iff a b size h k = memcmp_loop-eq size 0 [] a [] b refl refl h k
