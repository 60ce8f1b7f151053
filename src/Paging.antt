-- ===== src/Paging.antt =====
-- src/memory/paging/paging.c: page directories. The directory and the tables are lists of 32-bit
-- entries, the tables found by their addresses; an access outside a list, or to an address where no
-- table is, is `none`. Addresses are 32-bit numbers. Where the tables are is an argument here, and
-- what the heap gives in Allocation; `paging_switch`, which loads a register, is not modelled.
pub mod Indexes
pub mod Translate
pub mod Identity
pub mod Allocation
mod Examples
use white_os.Base.{
  ℕ, zero, suc, ◌+◌, ◌-◌, ◌*◌, ◌/◌, ◌%◌, ◌^◌, ◌≤◌, ◌<◌, bit_and, bit_or, ◌≡◌, refl, sym, ap, ap₂,
  ◌∙◌, subst, ◌≢◌, ◌↔◌, ◌⊎◌, inl, inr, Bool, true, false, not, ◌&&◌, ◌||◌, Option, none, some, List,
  [], ◌∷◌, ◌++◌, map, append-nil, append_assoc, arith, dec_lt, dec_le, ℕ_discrete, ltb, leb, ◌==◌,
  if◌then◌else◌, ltb→lt, lt→ltb, leb→le, ==_iff, Bool-cases, Option-cases, length, get_elem?, set,
  get_or, take, drop, replicate, length-append, length-set, get_elem?-set_self, get_elem?-set_ne,
  take-append-drop, length-take, length-drop, length-replicate, length-map, ◌>>=◌, store,
  set-append, store-append, store_of_lt, get_elem?-append, get_or-append_left, get_or-append_right,
  snoc-append, length-snoc, get_elem?-drop, take_self, drop_self, replicate-add, get_or-set_self,
  get_or-set_ne, get_or-snoc, get_elem?-eq-get_or,
}
use white_os.Base.Int.{ℤ, pos, negsuc}
use white_os.Status.{all_ok, einvarg}

-- PAGING_TOTAL_ENTRIES_PER_TABLE
abbrev pub total_entries_per_table : ℕ
total_entries_per_table = 1024

-- PAGING_PAGE_SIZE
abbrev pub page_size : ℕ
page_size = 4096

-- PAGING_IS_WRITEABLE
abbrev pub is_writeable : ℕ
is_writeable = 2

-- `(intptr_t)a / d` as a `uint32_t`: an address from 2^31 on is a negative `intptr_t`, and the
-- division rounds to 0.
unfoldable pub signed_div : ℕ → ℕ → ℕ
signed_div a d = if ltb a (2 ^ 31) then a / d else (2 ^ 32 - (2 ^ 32 - a) / d) % 2 ^ 32

-- `(intptr_t)a % d`, as a `uint32_t`: the remainder has the sign of the address.
unfoldable pub signed_mod : ℕ → ℕ → ℕ
signed_mod a d = if ltb a (2 ^ 31) then a % d else (2 ^ 32 - (2 ^ 32 - a) % d) % 2 ^ 32

unfoldable pub paging_is_aligned : ℕ → Bool
unfolding signed_mod
paging_is_aligned addr = signed_mod addr page_size == 0

-- The status, and the two indexes where they are written.
unfoldable pub paging_get_indexes : ℕ → ℤ × Option (ℕ × ℕ)
unfolding paging_is_aligned signed_div signed_mod
paging_get_indexes virtual_address =
    if not (paging_is_aligned virtual_address) then (einvarg, none) else (
      all_ok,
      some (
        signed_div virtual_address (total_entries_per_table * page_size),
        signed_div (signed_mod virtual_address (total_entries_per_table * page_size)) page_size,
      ),
    )

pub record Chunk : Type 0 where
  pub directory : List ℕ
  pub tables : ℕ → Option (List ℕ)

abbrev pub update {ℓ} : {A : Type ℓ} → (ℕ → A) → ℕ → A → ℕ → A
update f i v j = if j == i then v else f j

unfoldable pub paging_set : Chunk → (virtual_address val : ℕ) → Option (ℤ × Chunk)
paging_set s virtual_address val =
    if not (paging_is_aligned virtual_address)
    then some (einvarg, s)
    else (let (res, indexes) = paging_get_indexes virtual_address in
        elim indexes [
          | none ↦ some (res, s)
          | some (directory_index, table_index) ↦ do
            entry ← get_elem? s.directory directory_index
            table ← s.tables (entry / page_size * page_size)
            table' ← store table table_index val
            some (
              res,
              record s { tables = update s.tables (entry / page_size * page_size) (some table') },
            )
        ])

-- The entries of one table: `offset` is the address of its first page.
pub table_loop : (left e offset flags : ℕ) → List ℕ
table_loop zero e offset flags = []
table_loop (suc left) e offset flags =
    bit_or ((offset + e * page_size) % 2 ^ 32) flags ∷ table_loop left (e + 1) offset flags

-- The tables and the directory entries from the `i`-th on; `kzalloc` gives the addresses.
pub directory_loop : (left i offset flags : ℕ) → (address : ℕ → ℕ) → List ℕ × (ℕ → Option (List ℕ))
unfolding table_loop
directory_loop zero i offset flags address = ([], λ a. none)
directory_loop (suc left) i offset flags address =
    let rest =
      directory_loop left (i + 1) ((offset + total_entries_per_table * page_size) % 2 ^ 32) flags
        address in
    (
      bit_or (bit_or (address i) flags) is_writeable ∷ rest.0,
      update rest.1 (address i) (some (table_loop total_entries_per_table 0 offset flags)),
    )

unfoldable pub paging_new_4gb : ℕ → (address : ℕ → ℕ) → Chunk
unfolding directory_loop
paging_new_4gb flags address =
    let made = directory_loop total_entries_per_table 0 0 flags address in
    record { directory = made.0; tables = made.1 }
