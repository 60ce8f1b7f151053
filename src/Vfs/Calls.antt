-- ===== src/Vfs/Calls.antt =====
-- The calls of src/fs/file.c that a program makes: `fopen`, `fclose`, `fread`, `fseek` and
-- `fstat`. `none` and `fault` are an access outside an array or to an object that is not there.
use white_os.Base.{
  ℕ, ◌⊎◌, inl, inr, Bool, true, false, ◌||◌, Option, none, some, List, [], ◌==◌, if◌then◌else◌,
  ◌>>=◌,
}
use white_os.Base.Int.{ℤ, pos, negsuc}
use white_os.Status.{eio, einvarg}
use white_os.Base.Runs.{reach}
use white_os.Path.{Run, ret, access, and_then, PathRoot, pparser_parse}
use white_os.Vfs.{
  FileMode, invalid, SeekMode, Filesystem, FileDescriptor, Vfs, update, file_free_descriptor,
  file_new_descriptor, file_get_descriptor, file_get_mode_by_string,
}

-- `&disk` of src/disk/disk.c, as a pointer that is not null
abbrev pub disk_address : ℕ
disk_address = 1

-- `disk_get`: there is one disk, of index 0.
unfoldable pub disk_get : ℕ → ℕ
disk_get index = if index == 0 then disk_address else 0

abbrev pub is_invalid : FileMode → Bool
is_invalid invalid = true
is_invalid other = false

abbrev pub is_below_one : ℤ → Bool
is_below_one (pos n) = n == 0
is_below_one (negsuc n) = true

module _ {S : Type 0} where
  -- The end of `fopen`: a negative result becomes 0.
  abbrev pub not_negative : ℤ × Vfs S → ℤ × Vfs S
  not_negative (pos n, s) = (pos n, s)
  not_negative (negsuc n, s) = (pos 0, s)

  -- Filling in the descriptor that `file_new_descriptor` has made.
  abbrev pub attach : Filesystem S → ℕ → ℕ → (ℤ × ℕ × Vfs S) → Option (ℤ × Vfs S)
  attach fs private_data disk (negsuc e, desc, s) = some (negsuc e, s)
  attach fs private_data disk (pos r, desc, s) = s.objects desc >>= λ object. some (
    pos object.index,
    record s {
      objects = update s.objects desc (
          some (record {
            index = object.index;
            filesystem = some fs;
            private_data = private_data;
            disk = disk;
          }));
    },
  )

  -- `fopen` from the point where the disk and its driver are known.
  unfoldable pub open_on : (fresh : ℕ) → Filesystem S → PathRoot → List ℕ → Vfs S → Run (ℤ × Vfs S)
  open_on fresh fs root mode_str s =
      let mode = file_get_mode_by_string mode_str in
      if is_invalid mode
      then ret (einvarg, s)
      else and_then (fs.open_path root.parts root.last_next mode s.driver) (λ (private_data, d).
        let s' : Vfs S = record s { driver = d } in
        elim private_data [
          | negsuc e ↦ ret (negsuc e, s')
          | pos p ↦ reach (file_new_descriptor fresh s' >>= attach fs p disk_address)
        ])

  unfoldable pub fopen : (stale fuel fresh : ℕ) → List ℕ → List ℕ → Vfs S → Run (ℤ × Vfs S)
  fopen stale fuel fresh filename mode_str s =
      and_then (pparser_parse stale fuel filename) λ root_path. elim root_path [
        | none ↦ ret (pos 0, s)
        | some root ↦
            if disk_get root.drive_no == 0 then ret (pos 0, s) else elim s.disk_filesystem [
              | none ↦ ret (pos 0, s)
              | some fs ↦ and_then (open_on fresh fs root mode_str s) λ r. ret (not_negative r)
            ]
      ]

  -- The object behind a descriptor number and its driver; `inl` for a null pointer.
  unfoldable pub find : Vfs S → ℤ → Option (Unit {0} ⊎ (ℕ × FileDescriptor S × Filesystem S))
  find s fd = file_get_descriptor s fd >>= λ desc.
      if desc == 0
      then some (inl tt)
      else (s.objects desc >>= λ object. object.filesystem >>= λ fs. some (inr (desc, object, fs)))

  unfoldable pub fclose : Vfs S → ℤ → Run (ℤ × Vfs S)
  unfolding find
  fclose s fd = access (find s fd) λ found. elim found [
    | inl _ ↦ ret (eio, s)
    | inr (desc, object, fs) ↦ and_then (fs.close object.private_data s.driver) λ (res, d).
        let s' : Vfs S = record s { driver = d } in
        elim res [
          | negsuc e ↦ ret (negsuc e, s')
          | pos r ↦
              if r == 0
              then access (file_free_descriptor s' desc) (λ s''. ret (pos r, s''))
              else ret (pos r, s')
        ]
  ]

  -- The size and the flags of the file, where the driver gives them.
  unfoldable pub fstat : Vfs S → ℤ → Run (ℤ × Option (ℕ × ℕ) × Vfs S)
  unfolding find
  fstat s fd = access (find s fd) λ found. elim found [
    | inl _ ↦ ret (eio, none, s)
    | inr (desc, object, fs) ↦
        and_then (fs.stat_of object.private_data s.driver)
          λ (res, stat, d). ret (res, stat, record s { driver = d })
  ]

  -- The driver takes the offset as a `uint32_t`.
  unfoldable pub fseek : Vfs S → ℤ → ℕ → SeekMode → Run (ℤ × Vfs S)
  unfolding find
  fseek s fd offset whence = access (find s fd) λ found. elim found [
    | inl _ ↦ ret (eio, s)
    | inr (desc, object, fs) ↦
        and_then (fs.seek_to object.private_data offset whence s.driver)
          λ (res, d). ret (res, record s { driver = d })
  ]

  -- The bytes are what goes to `ptr`.
  unfoldable pub fread : Vfs S → (size nmemb : ℕ) → ℤ → Run (ℤ × List ℕ × Vfs S)
  unfolding find
  fread s size nmemb fd =
      if size == 0 || (nmemb == 0 || is_below_one fd)
      then ret (einvarg, [], s)
      else access (find s fd) (λ found. elim found [
        | inl _ ↦ ret (einvarg, [], s)
        | inr (desc, object, fs) ↦
            and_then (fs.read_items object.private_data size nmemb s.driver)
              λ (res, bytes, d). ret (res, bytes, record s { driver = d })
      ])
