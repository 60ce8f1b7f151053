-- ===== src/Path.antt =====
-- src/fs/pparser.c: the path parser. A `char*` is the list of the bytes from it on; allocations
-- succeed. A path is its drive and the names in order, each the 108 bytes of its buffer. The last
-- part comes from `kmalloc` and nothing sets its `next`: `stale` is what the memory holds there.
pub mod Parts
pub mod Parse
pub mod Safety
mod Examples
use white_os.Base.{
  ℕ, zero, suc, ◌+◌, ◌-◌, Bool, true, false, not, List, [], ◌∷◌, ◌++◌, Option, none, some, ◌==◌,
  leb, ltb, ◌||◌, if◌then◌else◌, replicate, store, drop, get_elem?, ◌>>=◌,
}
pub use white_os.Base.Runs.{Run, ret, fault, running, access, and_then}
use white_os.Base.Int.{ℤ, pos, negsuc}
use white_os.Status.{ebadpath}
use white_os.Strings.{strlen, strnlen, isdigit}
use white_os.Memory.{memcmp}

-- WHITEOS_MAX_PATH
abbrev pub max_path : ℕ
max_path = 108

pub record PathRoot : Type 0 where
  pub drive_no : ℕ
  pub parts : List (List ℕ)
  pub last_next : ℕ

abbrev is_zero_int : ℤ → Bool
is_zero_int (pos n) = n == 0
is_zero_int (negsuc n) = false

unfoldable pub pparser_path_valid_format : List ℕ → Option Bool
pparser_path_valid_format path = strnlen path max_path >>= λ len.
    if not (leb 3 len)
    then some false
    else (get_elem? path 0 >>= λ c.
        if not (isdigit c)
        then some false
        else (memcmp (drop 1 path) (b':' ∷ b'/' ∷ 0 ∷ []) 2 >>= λ r. some (is_zero_int r)))

-- The drive, or the error, and where the path goes on.
unfoldable pub pparser_get_drive_from_path : List ℕ → Option (ℤ × List ℕ)
pparser_get_drive_from_path path = pparser_path_valid_format path >>= λ valid.
    if not valid
    then some (ebadpath, path)
    else (get_elem? path 0 >>= λ c. some (pos (c - b'0'), drop 3 path))

-- The loop that copies a name into its buffer, from index `i` on.
pub part_loop : List ℕ → ℕ → List ℕ → Option (List ℕ × List ℕ)
part_loop [] i buf = none
part_loop (c ∷ path) i buf =
    let rest = part_loop path (i + 1) in
    if c == b'/' || c == 0 then some (buf, c ∷ path) else (store buf i c >>= λ buf'. rest buf')

abbrev skip_slash : List ℕ → Option (List ℕ)
skip_slash [] = none
skip_slash (c ∷ path) = if c == b'/' then some path else some (c ∷ path)

-- The next name, if the path goes on with one, and the path behind it and its slash.
unfoldable pub pparser_get_path_part : List ℕ → Option (Option (List ℕ) × List ℕ)
unfolding part_loop
pparser_get_path_part [] = none
pparser_get_path_part (c ∷ path) =
    if c == 0 || c == b'/'
    then some (none, c ∷ path)
    else (part_loop (c ∷ path) 0 (replicate max_path 0) >>= λ (name, rest).
        skip_slash rest >>= λ next. some (some name, next))

-- The new part, the list with it hung on, and the path behind it. `linked` says that the parent is
-- not null: only then is the part hung on the list.
unfoldable pub pparser_parse_path_part :
    Bool → List (List ℕ) → List ℕ → Option (Option (List ℕ) × List (List ℕ) × List ℕ)
pparser_parse_path_part linked parts path = pparser_get_path_part path >>= λ (name, next).
    elim name [
      | none ↦ some (none, parts, next)
      | some n ↦ some (some n, (if linked then parts ++ n ∷ [] else parts), next)
    ]

abbrev pub is_part : Option (List ℕ) → Bool
is_part none = false
is_part (some n) = true

-- The `while` loop of `pparser_parse`.
pub parse_loop : (fuel : ℕ) → Bool → List (List ℕ) → List ℕ → Run (List (List ℕ))
parse_loop zero linked parts path = running
parse_loop (suc fuel) linked parts path =
    let again = parse_loop fuel in
    access (get_elem? path 0) λ c.
      if c == 0
      then ret parts
      else access (pparser_parse_path_part linked parts path)
          λ (part, parts', next). again (is_part part) parts' next

-- `none` is the null pointer; a root whose `first` is null has no parts.
unfoldable pub pparser_parse : (stale fuel : ℕ) → List ℕ → Run (Option PathRoot)
unfolding parse_loop
pparser_parse stale fuel path = access (strlen path) λ len.
    if ltb max_path len
    then ret none
    else access (pparser_get_drive_from_path path) λ (disk_no, tmp_path). elim disk_no [
      | negsuc e ↦ ret none
      | pos drive ↦ access (pparser_parse_path_part false [] tmp_path) λ (part, parts, next).
          elim part [
            | none ↦ ret (some (record { drive_no = drive; parts = []; last_next = 0 }))
            | some name ↦ and_then (parse_loop fuel true (name ∷ []) next) λ parts'.
                ret (some (record { drive_no = drive; parts = parts'; last_next = stale }))
          ]
    ]
