-- ===== src/Paging/Identity.antt =====
-- `paging_new_4gb`: the directory that maps every address to itself.
use white_os.Base.{
  ℕ, zero, suc, ◌+◌, ◌*◌, ◌/◌, ◌%◌, ◌^◌, ◌≤◌, ◌<◌, bit_or, ◌≡◌, refl, sym, ap, ◌∙◌, ◌≢◌, some, List,
  [], ◌∷◌, arith, length, get_elem?,
}
use mathlib.Core.Option.{some-injective}
use white_os.Base.Bits.{bit_or-low, bit_or-lt, zero-bit_or}
use white_os.Paging.{Chunk, table_loop, directory_loop, paging_new_4gb}
use white_os.Paging.Translate.{translate, translate-table, IsDirectory, update_self, update_ne}

length-table_loop : (left e offset flags : ℕ) → length (table_loop left e offset flags) ≡ left
unfolding table_loop
length-table_loop zero e offset flags = refl
length-table_loop (suc left) e offset flags = ap suc (length-table_loop left (e + 1) offset flags)

table_loop-entry :
    (left e offset flags j : ℕ)
    → j < left
    → get_elem? (table_loop left e offset flags) j
      ≡ some (bit_or ((offset + (e + j) * 4096) % 2 ^ 32) flags)
unfolding table_loop
table_loop-entry zero e offset flags j h = absurd (omega arith)
table_loop-entry (suc left) e offset flags zero h =
    ap (λ n. some (bit_or ((offset + n * 4096) % 2 ^ 32) flags)) (omega arith)
table_loop-entry (suc left) e offset flags (suc j) h =
    table_loop-entry left (e + 1) offset flags j (omega arith)
    ∙ ap (λ n. some (bit_or ((offset + n * 4096) % 2 ^ 32) flags)) (omega arith)

-- The entry of the directory for a table.
abbrev entry_for : (flags a : ℕ) → ℕ
entry_for flags a = bit_or (bit_or a flags) 2

length-directory_loop :
    (left i offset flags : ℕ) (address : ℕ → ℕ)
    → length (directory_loop left i offset flags address).0 ≡ left
unfolding directory_loop
length-directory_loop zero i offset flags address = refl
length-directory_loop (suc left) i offset flags address =
    ap suc (length-directory_loop left (i + 1) ((offset + 1024 * 4096) % 2 ^ 32) flags address)

directory_loop-entry :
    (left i offset flags : ℕ) (address : ℕ → ℕ) (j : ℕ)
    → j < left
    → get_elem? (directory_loop left i offset flags address).0 j
      ≡ some (entry_for flags (address (i + j)))
unfolding directory_loop
directory_loop-entry zero i offset flags address j h = absurd (omega arith)
directory_loop-entry (suc left) i offset flags address zero h =
    ap (λ n. some (entry_for flags (address n))) (omega arith)
directory_loop-entry (suc left) i offset flags address (suc j) h =
    directory_loop-entry left (i + 1) ((offset + 1024 * 4096) % 2 ^ 32) flags address j
      (omega arith)
    ∙ ap (λ n. some (entry_for flags (address n))) (omega arith)

-- Each table is at an address of its own.
abbrev pub Distinct : (ℕ → ℕ) → ℕ → Type 0
Distinct address n = (i j : ℕ) → i < n → j < n → address i ≡ address j → i ≡ j

directory_loop-table :
    (left i offset flags : ℕ) (address : ℕ → ℕ) (n j : ℕ)
    → Distinct address n
    → offset < 2 ^ 32
    → i + left ≤ n
    → j < left
    → (directory_loop left i offset flags address).1 (address (i + j))
      ≡ some (table_loop 1024 0 ((offset + j * 4194304) % 2 ^ 32) flags)
unfolding directory_loop
directory_loop-table zero i offset flags address n j d o l h = absurd (omega arith)
directory_loop-table (suc left) i offset flags address n zero d o l h =
    ap (λ k. (directory_loop (suc left) i offset flags address).1 (address k)) here
    ∙ update_self (directory_loop left (i + 1) ((offset + 1024 * 4096) % 2 ^ 32) flags address).1
        (address i) (some (table_loop 1024 0 offset flags))
    ∙ ap (λ k. some (table_loop 1024 0 k flags)) same
  where
    here : i + 0 ≡ i
    here = omega arith

    same : offset ≡ (offset + 0 * 4194304) % 2 ^ 32
    same = omega arith
directory_loop-table (suc left) i offset flags address n (suc j) d o l h =
    update_ne (directory_loop left (i + 1) ((offset + 1024 * 4096) % 2 ^ 32) flags address).1
      (address i) (address (i + suc j)) (some (table_loop 1024 0 offset flags)) other
    ∙ ap
        (λ k.
          (directory_loop left (i + 1) ((offset + 1024 * 4096) % 2 ^ 32) flags address).1
            (address k))
        further
    ∙ directory_loop-table left (i + 1) ((offset + 1024 * 4096) % 2 ^ 32) flags address n j d
        (omega arith) (omega arith) (omega arith)
    ∙ ap (λ k. some (table_loop 1024 0 k flags)) onwards
  where
    other : address (i + suc j) ≢ address i
    other e = absurd (omega (arith, d (i + suc j) i (omega arith) (omega arith) e))

    further : i + suc j ≡ i + 1 + j
    further = omega arith

    onwards :
        ((offset + 1024 * 4096) % 2 ^ 32 + j * 4194304) % 2 ^ 32
        ≡ (offset + suc j * 4194304) % 2 ^ 32
    onwards = omega arith

-- Flags in the low 12 bits leave the address of a page.
low_flags : (a flags : ℕ) → a % 4096 ≡ 0 → flags < 2 ^ 12 → bit_or a flags ≡ a + flags
low_flags a flags h l =
    ap (λ n. bit_or n flags) page
    ∙ bit_or-low 12 (a / 4096) 0 flags (omega arith) l
    ∙ omega (arith, zero-bit_or flags)
  where
    page : a ≡ a / 4096 * 2 ^ 12 + 0
    page = omega arith

entry_for-page : (a flags : ℕ) → a % 4096 ≡ 0 → flags < 2 ^ 8 → entry_for flags a / 4096 * 4096 ≡ a
entry_for-page a flags h l =
    ap (λ n. n / 4096 * 4096)
      (ap (λ n. bit_or n 2) (low_flags a flags h (omega arith) ∙ page)
        ∙ bit_or-low 12 (a / 4096) flags 2 (omega arith) (omega arith))
    ∙ omega (arith, bit_or-lt 12 flags 2 (omega arith) (omega arith))
  where
    page : a + flags ≡ a / 4096 * 2 ^ 12 + flags
    page = omega arith

module _ (flags : ℕ) (address : ℕ → ℕ) (f : flags < 2 ^ 8) (distinct : Distinct address 1024)
    (pages : (i : ℕ) → i < 1024 → address i % 4096 ≡ 0) where
  abbrev chunk : Chunk
  chunk = paging_new_4gb flags address

  entry_at : (d : ℕ) → d < 1024 → get_elem? chunk.directory d ≡ some (entry_for flags (address d))
  unfolding paging_new_4gb
  entry_at d h =
      directory_loop-entry 1024 0 0 flags address d h
      ∙ ap (λ n. some (entry_for flags (address n))) (omega arith)

  table_at :
      (d : ℕ)
      → d < 1024
      → chunk.tables (entry_for flags (address d) / 4096 * 4096)
        ≡ some (table_loop 1024 0 (d * 4194304) flags)
  unfolding paging_new_4gb
  table_at d h =
      ap chunk.tables (entry_for-page (address d) flags (pages d h) f ∙ ap address start)
      ∙ directory_loop-table 1024 0 0 flags address 1024 d distinct (omega arith) (omega arith) h
      ∙ ap (λ n. some (table_loop 1024 0 n flags)) offset
    where
      start : d ≡ 0 + d
      start = omega arith

      offset : (0 + d * 4194304) % 2 ^ 32 ≡ d * 4194304
      offset = omega arith

  inside : (xs : List ℕ) (i x : ℕ) → get_elem? xs i ≡ some x → i < length xs
  inside [] i x e = absurd (cc)
  inside (y ∷ xs) zero x e = omega arith
  inside (y ∷ xs) (suc i) x e = omega (arith, inside xs i x e)

  -- The directory of `paging_new_4gb` maps every 32-bit address to itself, with the flags, where
  -- the allocations are at page boundaries and at different addresses, and the flags are a byte;
  -- each of its 1024 entries has a table of its own.
  pub paging_new_4gb-Identity :
      IsDirectory (paging_new_4gb flags address)
      × ((v : ℕ)
          → v < 2 ^ 32
          → translate (paging_new_4gb flags address) v ≡ some (v / 4096 * 4096 + flags))
  paging_new_4gb-Identity = (
    record {
      size = size;
      table_at = λ d h. (
        entry_for flags (address d),
        table_loop 1024 0 (d * 4194304) flags,
        entry_at d h,
        table_at d h,
        length-table_loop 1024 0 (d * 4194304) flags,
      );
      apart = λ d d' e e' at at' same.
          let h = within d e at in
          let h' = within d' e' at' in
          distinct d d' h h' (
            sym (entry_for-page (address d) flags (pages d h) f)
            ∙ ap (λ n. n / 4096 * 4096) (some-injective _ e (sym (entry_at d h) ∙ at))
            ∙ ap (λ n. n * 4096) same
            ∙ ap (λ n. n / 4096 * 4096) (sym (some-injective _ e' (sym (entry_at d' h') ∙ at')))
            ∙ entry_for-page (address d') flags (pages d' h') f);
    },
    λ v h.
        translate-table chunk v (entry_for flags (address (v / 4194304)))
          (table_loop 1024 0 (v / 4194304 * 4194304) flags) (entry_at (v / 4194304) (omega arith))
          (table_at (v / 4194304) (omega arith))
        ∙ table_loop-entry 1024 0 (v / 4194304 * 4194304) flags (v / 4096 % 1024) (omega arith)
        ∙ ap (λ n. some (bit_or n flags)) (whole v h)
        ∙ ap some (low_flags (v / 4096 * 4096) flags (omega arith) (omega arith)),
  )
    where
      size : length chunk.directory ≡ 1024
      size = unfold paging_new_4gb in length-directory_loop 1024 0 0 flags address

      within : (d e : ℕ) → get_elem? chunk.directory d ≡ some e → d < 1024
      within d e at = omega (arith, inside chunk.directory d e at, size)

      whole :
          (v : ℕ)
          → v < 2 ^ 32
          → (v / 4194304 * 4194304 + (0 + v / 4096 % 1024) * 4096) % 2 ^ 32 ≡ v / 4096 * 4096
      whole v h = omega arith
