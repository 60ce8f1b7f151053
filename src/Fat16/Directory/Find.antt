-- ===== src/Fat16/Directory/Find.antt =====
-- The search for a name.
use white_os.Base.{
  ℕ, zero, suc, ◌+◌, ◌*◌, ◌<◌, ◌≡◌, refl, sym, ◌∙◌, subst, false, Option, none, some, List, arith,
  drop, replicate,
}
use white_os.Base.Int.{ℤ, pos}
use white_os.Base.Runs.{ret, ◌>>=◌}
use white_os.Strings.{istrncmp}
use white_os.Fat16.Layout.{FatPrivate, FatDirectory}
use white_os.Fat16.Names.{fat16_get_full_relative_filename}
use white_os.Fat16.Directory.{
  is_equal, find_loop, fat16_new_fat_item_for_directory_item, fat16_find_item_in_directory,
}

-- The full name of an item compares to a name as `order`.
abbrev pub Compares : List ℕ → List ℕ → (i : ℕ) → (order : ℤ) → Type 0
Compares items name i order =
    (text : List ℕ) × (fat16_get_full_relative_filename (drop (i * 32) items) (replicate 108 0) 108
      ≡ some text)
    × (istrncmp text name 108 ≡ some order)

-- None of the first `n` items has the name.
abbrev pub NoMatch : List ℕ → List ℕ → ℕ → Type 0
NoMatch items name n =
    (i : ℕ) → i < n → (order : ℤ) × Compares items name i order × (is_equal order ≡ false)

module _ (read_block : ℕ → Option (List ℕ)) (fuel rounds : ℕ) where
  -- A round at an item with another name goes on.
  find_loop-other :
      (left i : ℕ) (p : FatPrivate) (items name : List ℕ) (order : ℤ)
      → Compares items name i order
      → is_equal order ≡ false
      → find_loop read_block fuel rounds (suc left) i p (some items) name
        ≡ find_loop read_block fuel rounds left (i + 1) p (some items) name
  unfolding find_loop
  find_loop-other left i p items name order c o = rw (c.1, c.2, o) refl

  find_loop-NoMatch :
      (left i : ℕ) (p : FatPrivate) (items name : List ℕ)
      → ((j : ℕ)
          → j < i + left
          → (order : ℤ) × Compares items name j order × (is_equal order ≡ false))
      → find_loop read_block fuel rounds left i p (some items) name ≡ ret (none, p)
  unfolding find_loop
  find_loop-NoMatch zero i p items name h = refl
  find_loop-NoMatch (suc left) i p items name h =
      let (order, c, o) = h i (omega arith) in
      find_loop-other left i p items name order c o
      ∙ find_loop-NoMatch left (i + 1) p items name (λ j l. h j (omega arith))

  find_loop-first :
      (left i k : ℕ) (p : FatPrivate) (items name : List ℕ)
      → k < left
      → ((j : ℕ) → j < i + k → (order : ℤ) × Compares items name j order × (is_equal order ≡ false))
      → Compares items name (i + k) (pos 0)
      → find_loop read_block fuel rounds left i p (some items) name ≡ (
          fat16_new_fat_item_for_directory_item read_block fuel rounds p (drop ((i + k) * 32) items)
          >>= λ (found, p'). ret (some found, p'))
  unfolding find_loop
  find_loop-first zero i k p items name l h c = absurd (omega arith)
  find_loop-first (suc left) i zero p items name l h c =
      rw at (first (subst (λ j. Compares items name j (pos 0)) at c))
    where
      at : i + 0 ≡ i
      at = omega arith

      first :
          Compares items name i (pos 0)
          → find_loop read_block fuel rounds (suc left) i p (some items) name ≡ (
              fat16_new_fat_item_for_directory_item read_block fuel rounds p (drop (i * 32) items)
              >>= λ (found, p'). ret (some found, p'))
      first c = rw (c.1, c.2) refl
  find_loop-first (suc left) i (suc k) p items name l h c =
      let (order, d, o) = h i (omega arith) in
      find_loop-other left i p items name order d o
      ∙ rw next (
          find_loop-first left (i + 1) k p items name (omega arith) (λ j l. h j (omega arith))
            (subst (λ j. Compares items name j (pos 0)) next c))
    where
      next : i + suc k ≡ i + 1 + k
      next = omega arith

  -- The search takes the first item whose full name is the name, by the comparison without case.
  pub fat16_find_item_in_directory-first :
      (p : FatPrivate) (directory : FatDirectory) (items name : List ℕ) (n k : ℕ)
      → directory.items ≡ some items
      → directory.total_items ≡ pos n
      → k < n
      → NoMatch items name k
      → Compares items name k (pos 0)
      → fat16_find_item_in_directory read_block fuel rounds p directory name ≡ (
          fat16_new_fat_item_for_directory_item read_block fuel rounds p (drop (k * 32) items)
          >>= λ (found, p'). ret (some found, p'))
  unfolding fat16_find_item_in_directory
  fat16_find_item_in_directory-first p directory items name n k e t l h c =
      rw (e, t)
        (rw (← zero_k) (
          find_loop-first n 0 k p items name l (λ j u. h j (omega arith))
            (subst (λ j. Compares items name j (pos 0)) (sym zero_k) c)))
    where
      zero_k : 0 + k ≡ k
      zero_k = omega arith

  -- Where no item has the name, the search finds nothing.
  pub fat16_find_item_in_directory-none :
      (p : FatPrivate) (directory : FatDirectory) (items name : List ℕ) (n : ℕ)
      → directory.items ≡ some items
      → directory.total_items ≡ pos n
      → NoMatch items name n
      → fat16_find_item_in_directory read_block fuel rounds p directory name ≡ ret (none, p)
  unfolding fat16_find_item_in_directory
  fat16_find_item_in_directory-none p directory items name n e t h =
      rw (e, t) (find_loop-NoMatch n 0 p items name (λ j u. h j (omega arith)))
