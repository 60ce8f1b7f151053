-- ===== src/Paging/Translate.antt =====
-- The translation of addresses that a directory stands for, as the processor walks it, and what
-- `paging_set` does to it.
use white_os.Base.{
  ℕ, ◌+◌, ◌*◌, ◌/◌, ◌%◌, ◌^◌, ◌<◌, ◌≡◌, refl, sym, ap, ◌∙◌, ◌≢◌, Option, some, List, arith,
  ℕ_discrete, ◌==◌, ==_iff, true, false, if◌then◌else◌, length, get_elem?, set, length-set,
  get_elem?-set_self, get_elem?-set_ne, ◌>>=◌,
}
use mathlib.Core.Option.{some-injective as some_injective}
use white_os.Status.{all_ok}
use white_os.Paging.{Chunk, update, paging_set}
use white_os.Paging.Indexes.{paging_set-low}

-- The page table entry for an address: the upper 10 bits index the directory, the next 10 the
-- table that the directory's entry points to.
abbrev pub translate : Chunk → ℕ → Option ℕ
translate s v = do
  entry ← get_elem? s.directory (v / 4194304)
  table ← s.tables (entry / 4096 * 4096)
  get_elem? table (v / 4096 % 1024)

-- Each of the 1024 entries points to a table of its own.
pub record IsDirectory (s : Chunk) : Type 0 where
  pub size : length s.directory ≡ 1024
  pub table_at :
      (d : ℕ)
      → d < 1024
      → (entry : ℕ) × (table : List ℕ) × (get_elem? s.directory d ≡ some entry)
        × (s.tables (entry / 4096 * 4096) ≡ some table)
        × (length table ≡ 1024)
  pub apart :
      (d d' entry entry' : ℕ)
      → get_elem? s.directory d ≡ some entry
      → get_elem? s.directory d' ≡ some entry'
      → entry / 4096 ≡ entry' / 4096
      → d ≡ d'

pub translate-table :
    (s : Chunk) (v entry : ℕ) (table : List ℕ)
    → get_elem? s.directory (v / 4194304) ≡ some entry
    → s.tables (entry / 4096 * 4096) ≡ some table
    → translate s v ≡ get_elem? table (v / 4096 % 1024)
translate-table s v entry table e f = rw (e, f) refl

pub update_self :
    (tables : ℕ → Option (List ℕ)) (a : ℕ) (x : Option (List ℕ)) → update tables a x a ≡ x
update_self tables a x = ground arith

pub update_ne :
    (tables : ℕ → Option (List ℕ)) (a b : ℕ) (x : Option (List ℕ))
    → b ≢ a
    → update tables a x b ≡ tables b
update_ne tables a b x n = ground arith

module _ (s : Chunk) (valid : IsDirectory s) (d t val entry : ℕ) (table : List ℕ) (h : d < 512)
    (k : t < 1024) (at : get_elem? s.directory d ≡ some entry)
    (points : s.tables (entry / 4096 * 4096) ≡ some table) (room : length table ≡ 1024) where
  -- The state behind a store of the page's entry.
  abbrev remapped : Chunk
  remapped = record s { tables = update s.tables (entry / 4096 * 4096) (some (set table t val)) }

  stored :
      (e' : ℕ)
      → e' / 4096 ≡ entry / 4096
      → remapped.tables (e' / 4096 * 4096) ≡ some (set table t val)
  stored e' same =
      ap (λ a. remapped.tables (a * 4096)) same
      ∙ update_self s.tables (entry / 4096 * 4096) (some (set table t val))

  kept :
      (e' : ℕ)
      → e' / 4096 ≢ entry / 4096
      → remapped.tables (e' / 4096 * 4096) ≡ s.tables (e' / 4096 * 4096)
  kept e' other =
      update_ne s.tables (entry / 4096 * 4096) (e' / 4096 * 4096) (some (set table t val))
        (λ e. other (omega arith))

  remapped-IsDirectory : IsDirectory remapped
  remapped-IsDirectory = record {
    size = valid.size;
    table_at = λ d' l.
        let (e', table', at', points', room') = valid.table_at d' l in
        elim (ℕ_discrete (e' / 4096) (entry / 4096)) [
          | yes same ↦ (e', set table t val, at', stored e' same, length-set table t val ∙ room)
          | no other ↦ (e', table', at', kept e' other ∙ points', room')
        ];
    apart = valid.apart;
  }

  page_of : (v : ℕ) → v / 4194304 ≡ d → v / 4096 % 1024 ≡ t → (v / 4096 == d * 1024 + t) ≡ true
  page_of v e f = (==_iff (v / 4096) (d * 1024 + t)).1 (omega arith)

  other_page : (v : ℕ) → ¬ (v / 4096 ≡ d * 1024 + t) → (v / 4096 == d * 1024 + t) ≡ false
  other_page v n = ground arith

  translate-remapped :
      (v : ℕ)
      → v < 2 ^ 32
      → translate remapped v ≡ (if v / 4096 == d * 1024 + t then some val else translate s v)
  translate-remapped v l =
      let (e', table', at', points', room') = valid.table_at (v / 4194304) (omega arith) in
      elim (ℕ_discrete (e' / 4096) (entry / 4096)) [
        | yes same ↦
            let here = valid.apart (v / 4194304) d e' entry at' at same in
            elim (ℕ_discrete (v / 4096 % 1024) t) [
              | yes hit ↦ rw (page_of v here hit) (
                  translate-table remapped v e' (set table t val) at' (stored e' same)
                  ∙ ap (get_elem? (set table t val)) hit
                  ∙ get_elem?-set_self table t val (omega (arith, room)))
              | no miss ↦ rw (other_page v (λ e. miss (omega arith))) (
                  translate-table remapped v e' (set table t val) at' (stored e' same)
                  ∙ get_elem?-set_ne table val (λ e. miss (sym e))
                  ∙ sym (
                      translate-table s v entry table (ap (get_elem? s.directory) here ∙ at)
                        points))
            ]
        | no other ↦ rw (other_page v (λ e. other (far v e' at' e))) (
            translate-table remapped v e' table' at' (kept e' other ∙ points')
            ∙ sym (translate-table s v e' table' at' points'))
      ]
    where
      far :
          (v e' : ℕ)
          → get_elem? s.directory (v / 4194304) ≡ some e'
          → v / 4096 ≡ d * 1024 + t
          → e' / 4096 ≡ entry / 4096
      far v e' at' e =
          ap (λ n. n / 4096)
            (some_injective e' entry (sym at' ∙ ap (get_elem? s.directory) (omega arith) ∙ at))

-- On a directory with a table of its own for each entry, `paging_set` for a page in the lower
-- 2 GiB succeeds and leaves such a directory: the addresses of the page have the new entry, and
-- every other address has the entry that it had.
pub paging_set-Remaps :
    (s : Chunk) (d t val : ℕ)
    → IsDirectory s
    → d < 512
    → t < 1024
    → (s' : Chunk) × (paging_set s ((d * 1024 + t) * 4096) val ≡ some (all_ok, s'))
      × IsDirectory s'
      × ((v : ℕ)
          → v < 2 ^ 32
          → translate s' v ≡ (if v / 4096 == d * 1024 + t then some val else translate s v))
paging_set-Remaps s d t val valid h k =
    let (entry, table, at, points, room) = valid.table_at d (omega arith) in
    (
      remapped s valid d t val entry table h k at points room,
      paging_set-low s d t val entry table h k at points room,
      remapped-IsDirectory s valid d t val entry table h k at points room,
      translate-remapped s valid d t val entry table h k at points room,
    )
