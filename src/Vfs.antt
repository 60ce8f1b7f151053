-- ===== src/Vfs.antt =====
-- src/fs/file.c: the file descriptors and the calls that go through them to a file system driver.
-- The driver is a parameter, a record of its functions over a state of its own, and a call of it may
-- fault; a private pointer is an `int`, negative for an error. A descriptor is an object at an
-- address: `objects` has what is allocated, `file_descriptors` the addresses, and `fresh` is what
-- `kzalloc` returns. The messages that `fopen` prints are left out.
pub mod Calls
pub mod Modes
pub mod Descriptors
pub mod Close
pub mod Opening
pub mod Start
pub mod Listing
mod Examples
use white_os.Base.{
  ℕ, zero, suc, ◌+◌, ◌-◌, ◌*◌, ◌/◌, ◌%◌, ◌^◌, ◌≤◌, ◌<◌, bit_and, bit_or, ◌≡◌, refl, sym, ap, ap₂,
  ◌∙◌, subst, ◌≢◌, ◌↔◌, ◌⊎◌, inl, inr, Bool, true, false, not, ◌&&◌, ◌||◌, Option, none, some, List,
  [], ◌∷◌, ◌++◌, map, append-nil, append_assoc, arith, dec_lt, dec_le, ℕ_discrete, ltb, leb, ◌==◌,
  if◌then◌else◌, ltb→lt, lt→ltb, leb→le, ==_iff, Bool-cases, Option-cases, length, get_elem?, set,
  get_or, take, drop, replicate, length-append, length-set, get_elem?-set_self, get_elem?-set_ne,
  take-append-drop, length-take, length-drop, length-replicate, length-map, ◌>>=◌, store,
  set-append, store-append, store_of_lt, get_elem?-append, get_or-append_left, get_or-append_right,
  snoc-append, length-snoc, get_elem?-drop, take_self, drop_self, replicate-add, get_or-set_self,
  get_or-set_ne, get_or-snoc, get_elem?-eq-get_or,
}
use white_os.Base.Int.{ℤ, pos, negsuc}
use white_os.Status.{all_ok, eio, einvarg, enomem}
use white_os.Strings.{strncmp}
use white_os.Path.{Run, ret, fault, running, access, and_then, PathRoot, pparser_parse}

-- WHITEOS_MAX_FILE_DESCRIPTORS, WHITEOS_MAX_FILESYSTEMS
abbrev pub max_file_descriptors : ℕ
max_file_descriptors = 512

abbrev pub max_filesystems : ℕ
max_filesystems = 12

pub data FileMode : Type 0 where
  read write append directory invalid : FileMode

pub data SeekMode : Type 0 where
  seek_set seek_cur seek_end seek_other : SeekMode

-- `struct filesystem`; the disk is the one that `disk_get` returns.
pub record Filesystem (S : Type 0) : Type 0 where
  pub resolve : S → Run (ℤ × S)
  pub open_path : List (List ℕ) → (last_next : ℕ) → FileMode → S → Run (ℤ × S)
  pub close : ℕ → S → Run (ℤ × S)
  pub read_items : ℕ → (size nmemb : ℕ) → S → Run (ℤ × List ℕ × S)
  pub next_entry : ℕ → S → Run (ℤ × Option (List ℕ) × S)
  pub seek_to : ℕ → ℕ → SeekMode → S → Run (ℤ × S)
  pub stat_of : ℕ → S → Run (ℤ × Option (ℕ × ℕ) × S)

pub record FileDescriptor (S : Type 0) : Type 0 where
  pub index : ℕ
  pub filesystem : Option (Filesystem S)
  pub private_data : ℕ
  pub disk : ℕ

pub record Vfs (S : Type 0) : Type 0 where
  pub file_descriptors : List ℕ
  pub objects : ℕ → Option (FileDescriptor S)
  pub filesystems : List (Option (Filesystem S))
  pub disk_filesystem : Option (Filesystem S)
  pub driver : S

-- The index of the first null pointer in a table that goes on from index `i`.
unfoldable pub first_null : List ℕ → ℕ → Option ℕ
first_null [] i = none
first_null (p ∷ table) i = if p == 0 then some i else first_null table (i + 1)

module _ {S : Type 0} where
  abbrev pub update :
      (ℕ → Option (FileDescriptor S))
      → ℕ
      → Option (FileDescriptor S)
      → ℕ
      → Option (FileDescriptor S)
  update objects p o q = if q == p then o else objects q

  -- The first slot that holds no driver; `none` where the caller panics.
  unfoldable pub fs_get_free_filesystem_entry : List (Option (Filesystem S)) → ℕ → Option ℕ
  fs_get_free_filesystem_entry [] i = none
  fs_get_free_filesystem_entry (none ∷ entries) i = some i
  fs_get_free_filesystem_entry (some fs ∷ entries) i = fs_get_free_filesystem_entry entries (i + 1)

  -- `none` is the panic.
  unfoldable pub fs_insert_filesystem : Vfs S → Filesystem S → Option (Vfs S)
  fs_insert_filesystem s filesystem = fs_get_free_filesystem_entry s.filesystems 0 >>= λ i.
      some (record s { filesystems = set s.filesystems i (some filesystem) })

  -- The first driver that resolves the disk, and the drivers' state behind the calls made for that.
  unfoldable pub fs_resolve : List (Option (Filesystem S)) → S → Run (Option (Filesystem S) × S)
  fs_resolve [] d = ret (none, d)
  fs_resolve (none ∷ entries) d = fs_resolve entries d
  fs_resolve (some fs ∷ entries) d =
      let rest = fs_resolve entries in
      and_then (fs.resolve d)
        (λ (res, d'). elim res [ pos zero ↦ ret (some fs, d') | other ↦ rest d' ])

  unfoldable pub file_free_descriptor : Vfs S → ℕ → Option (Vfs S)
  file_free_descriptor s desc = s.objects desc >>= λ object.
      store s.file_descriptors object.index 0 >>= λ table.
      some (record s { file_descriptors = table; objects = update s.objects desc none })

  -- The status, and the address through `desc_out`. The store at a null `desc` is a fault.
  unfoldable pub file_new_descriptor : (fresh : ℕ) → Vfs S → Option (ℤ × ℕ × Vfs S)
  unfolding first_null
  file_new_descriptor fresh s = elim (first_null s.file_descriptors 0) [
    | none ↦ some (enomem, 0, s)
    | some i ↦
        if fresh == 0
        then none
        else (store s.file_descriptors i fresh >>= λ table. some (
          all_ok,
          fresh,
          record s {
            file_descriptors = table;
            objects =
                update s.objects fresh
                  (some (record { index = i + 1; filesystem = none; private_data = 0; disk = 0 }));
          },
        ))
  ]

  -- 0 is the null pointer.
  unfoldable pub file_get_descriptor : Vfs S → ℤ → Option ℕ
  file_get_descriptor s (negsuc n) = some 0
  file_get_descriptor s (pos fd) =
      if fd == 0 || leb max_file_descriptors fd
      then some 0
      else get_elem? s.file_descriptors (fd - 1)

-- The answer 0 of a comparison.
abbrev pub is_match : Option ℤ → Bool
is_match none = false
is_match (some (pos n)) = n == 0
is_match (some (negsuc n)) = false

-- Each comparison is of one byte, also the one with "dir".
unfoldable pub file_get_mode_by_string : List ℕ → FileMode
unfolding strncmp
file_get_mode_by_string str =
    if is_match (strncmp str (b'r' ∷ 0 ∷ []) 1)
    then read
    else (if is_match (strncmp str (b'w' ∷ 0 ∷ []) 1)
        then write
        else (if is_match (strncmp str (b'a' ∷ 0 ∷ []) 1)
            then append
            else (if is_match (strncmp str (b'd' ∷ b'i' ∷ b'r' ∷ 0 ∷ []) 1)
                then directory
                else invalid)))
