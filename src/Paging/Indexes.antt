-- ===== src/Paging/Indexes.antt =====
-- The indexes of a page, and what `paging_set` does to a directory.
use white_os.Base.{
  ℕ, zero, suc, ◌+◌, ◌-◌, ◌*◌, ◌/◌, ◌%◌, ◌^◌, ◌≤◌, ◌<◌, ◌≡◌, refl, ap, ap₂, ◌≢◌, true, false, none,
  some, List, [], ◌∷◌, arith, dec_lt, ltb, ◌==◌, lt→ltb, length, get_elem?, set, store_of_lt,
}
use white_os.Status.{all_ok, einvarg}
use white_os.Paging.{
  Chunk, update, signed_div, signed_mod, paging_is_aligned, paging_get_indexes, paging_set,
}

-- The divisions below 2 GiB, and above.
signed_div-low : (a d : ℕ) → a < 2 ^ 31 → signed_div a d ≡ a / d
unfolding signed_div
signed_div-low a d h = rw (lt→ltb a (2 ^ 31) h) refl

signed_mod-low : (a d : ℕ) → a < 2 ^ 31 → signed_mod a d ≡ a % d
unfolding signed_mod
signed_mod-low a d h = rw (lt→ltb a (2 ^ 31) h) refl

not_below : (a b : ℕ) → b ≤ a → ltb a b ≡ false
not_below a b h = ground arith

signed_div-high : (a : ℕ) → 2 ^ 31 ≤ a → a + 4194304 ≤ 2 ^ 32 → 2 ^ 32 - 512 ≤ signed_div a 4194304
unfolding signed_div
signed_div-high a h k = rw (not_below a (2 ^ 31) h) (omega arith)

signed_mod-page : (a : ℕ) → a < 2 ^ 32 → a % 4096 ≡ 0 → signed_mod a 4096 ≡ 0
unfolding signed_mod
signed_mod-page a h k = elim (dec_lt a (2 ^ 31)) [
  | yes l ↦ rw (lt→ltb a (2 ^ 31) l) k
  | no l ↦ rw (not_below a (2 ^ 31) (omega arith)) (omega arith)
]

signed_mod-part : (a : ℕ) → a < 2 ^ 32 → a % 4096 ≢ 0 → signed_mod a 4096 ≢ 0
unfolding signed_mod
signed_mod-part a h k = elim (dec_lt a (2 ^ 31)) [
  | yes l ↦ rw (lt→ltb a (2 ^ 31) l) k
  | no l ↦ rw (not_below a (2 ^ 31) (omega arith)) (omega arith)
]

aligned : (a : ℕ) → a < 2 ^ 32 → a % 4096 ≡ 0 → paging_is_aligned a ≡ true
unfolding paging_is_aligned
aligned a h k = rw (signed_mod-page a h k) refl

-- The two halves of a page's number.
directory_half : (d t : ℕ) → t < 1024 → (d * 1024 + t) * 4096 / 4194304 ≡ d
directory_half d t k = omega arith

table_half : (d t : ℕ) → t < 1024 → (d * 1024 + t) * 4096 % 4194304 / 4096 ≡ t
table_half d t k = omega arith

-- For the page at an address in the lower 2 GiB the indexes are the two halves of its number.
pub paging_get_indexes-low :
    (d t : ℕ)
    → d < 512
    → t < 1024
    → paging_get_indexes ((d * 1024 + t) * 4096) ≡ (all_ok, some (d, t))
unfolding paging_get_indexes
paging_get_indexes-low d t h k =
    rw
      (
        aligned ((d * 1024 + t) * 4096) (omega arith) (omega arith),
        signed_div-low ((d * 1024 + t) * 4096) 4194304 (omega arith),
        signed_mod-low ((d * 1024 + t) * 4096) 4194304 (omega arith),
        signed_div-low ((d * 1024 + t) * 4096 % 4194304) 4096 (omega arith),
      )
      (ap₂ (λ i j. (all_ok, some (i, j))) (directory_half d t k) (table_half d t k))

-- `paging_set` for a page in the lower 2 GiB writes the page's entry of the table that its
-- directory entry points to, and changes nothing else.
pub paging_set-low :
    (s : Chunk) (d t val entry : ℕ) (table : List ℕ)
    → d < 512
    → t < 1024
    → get_elem? s.directory d ≡ some entry
    → s.tables (entry / 4096 * 4096) ≡ some table
    → length table ≡ 1024
    → paging_set s ((d * 1024 + t) * 4096) val
      ≡ some (
        all_ok,
        record s { tables = update s.tables (entry / 4096 * 4096) (some (set table t val)) },
      )
unfolding paging_set
paging_set-low s d t val entry table h k e f n =
    rw
      (
        aligned ((d * 1024 + t) * 4096) (omega arith) (omega arith),
        paging_get_indexes-low d t h k,
        e,
        f,
        store_of_lt table t val (omega arith),
      )
      (ap
        (λ r. some (
          r.0,
          record s { tables = update s.tables (entry / 4096 * 4096) (some (set table t val)) },
        ))
        (paging_get_indexes-low d t h k))

-- From 2 GiB on the address is negative in the divisions: for every page there but those of the
-- last 4 MiB `paging_set` reads the directory far outside its 1024 entries.
pub paging_set-high :
    (s : Chunk) (a val : ℕ)
    → 2 ^ 31 ≤ a
    → a + 4194304 ≤ 2 ^ 32
    → a % 4096 ≡ 0
    → length s.directory ≡ 1024
    → paging_set s a val ≡ none
unfolding paging_set paging_get_indexes
paging_set-high s a val h k m n =
    rw
      (
        aligned a (omega arith) m,
        past s.directory (signed_div a 4194304) (omega (arith, signed_div-high a h k)),
      )
      refl
  where
    past : (xs : List ℕ) (k : ℕ) → length xs ≤ k → get_elem? xs k ≡ none
    past [] k e = refl
    past (x ∷ xs) zero e = absurd (omega arith)
    past (x ∷ xs) (suc k) e = past xs k (omega arith)

-- A page that is not aligned is refused, and nothing changes.
pub paging_set-unaligned :
    (s : Chunk) (a val : ℕ) → a < 2 ^ 32 → a % 4096 ≢ 0 → paging_set s a val ≡ some (einvarg, s)
unfolding paging_set paging_is_aligned
paging_set-unaligned s a val h k = rw (other (signed_mod a 4096) (signed_mod-part a h k)) refl
  where
    other : (n : ℕ) → n ≢ 0 → (n == 0) ≡ false
    other n k = ground arith
