-- ===== src/Vfs/Opening.antt =====
-- `fopen` where the driver opens the file.
use white_os.Base.{
  ℕ, ◌+◌, ◌-◌, ◌<◌, ◌≡◌, refl, sym, ap, ◌∙◌, ◌≢◌, false, Option, none, some, List, arith,
  ℕ_discrete, get_elem?, set, get_elem?-set_self,
}
use white_os.Base.Int.{pos}
use white_os.Base.Runs.{ret, and_then}
use white_os.Path.{PathRoot, pparser_parse}
use white_os.Vfs.{Filesystem, FileDescriptor, Vfs, update, file_get_mode_by_string}
use white_os.Vfs.Descriptors.{IsTable, IsFirstNull, with_new, file_new_descriptor_lem}
use white_os.Vfs.Close.{IsOpen}
use white_os.Vfs.Calls.{is_invalid, disk_get, disk_address, open_on, fopen, not_negative}

module _ {S : Type 0} where
  -- The object of a descriptor with number `fd`.
  abbrev pub file_object : Filesystem S → (fd private_data : ℕ) → FileDescriptor S
  file_object fs fd private_data = record {
    index = fd;
    filesystem = some fs;
    private_data = private_data;
    disk = disk_address;
  }

  -- The state with slot `i` taken by the descriptor at `fresh` for a file of the driver `fs`.
  abbrev pub with_open : Vfs S → (fresh i : ℕ) → Filesystem S → (private_data : ℕ) → S → Vfs S
  with_open s fresh i fs private_data d = record s {
    file_descriptors = set s.file_descriptors i fresh;
    objects =
        update (with_new s fresh i).objects fresh (some (file_object fs (i + 1) private_data));
    driver = d;
  }

  -- Another object with the same index at an address leaves the table in order.
  IsTable-update :
      (s : Vfs S) (a : ℕ) (o o' : FileDescriptor S)
      → IsTable s
      → s.objects a ≡ some o
      → o'.index ≡ o.index
      → IsTable (record s { objects = update s.objects a (some o') })
  IsTable-update s a o o' valid at same = record { size = valid.size; linked = linked }
    where
      linked :
          (j p : ℕ)
          → get_elem? s.file_descriptors j ≡ some p
          → p ≢ 0
          → (x : FileDescriptor S) × (update s.objects a (some o') p ≡ some x) × (x.index ≡ j + 1)
      linked j p got live =
          let (x, found, index) = valid.linked j p got live in
          elim (ℕ_discrete p a) [
            | yes z ↦ (o', ground arith, same ∙ one_index x z found ∙ index)
            | no z ↦ (x, ground arith, index)
          ]
        where
          one_index : (x : FileDescriptor S) → p ≡ a → s.objects p ≡ some x → o.index ≡ x.index
          one_index x z found =
              ap (λ (y : Option (FileDescriptor S)). elim y [ none ↦ 0 | some y' ↦ y'.index ])
                (sym at ∙ ap s.objects (sym z) ∙ found)

  module _ (s : Vfs S) (valid : IsTable s) (fresh i : ℕ) (n : fresh ≢ 0)
      (e : IsFirstNull s.file_descriptors i) (unused : s.objects fresh ≡ none) (low : i < 511)
      (fs : Filesystem S) (private_data : ℕ) (d : S) where
    abbrev moved : Vfs S
    moved = record s { driver = d }

    moved-IsTable : IsTable moved
    moved-IsTable = record { size = valid.size; linked = valid.linked }

    at_fresh :
        (objects : ℕ → Option (FileDescriptor S)) (o : Option (FileDescriptor S))
        → update objects fresh o fresh ≡ o
    at_fresh objects o = ground arith

    opens :
        (root : PathRoot) (mode_str : List ℕ)
        → is_invalid (file_get_mode_by_string mode_str) ≡ false
        → fs.open_path root.parts root.last_next (file_get_mode_by_string mode_str) s.driver
          ≡ ret (pos private_data, d)
        → open_on fresh fs root mode_str s
          ≡ ret (pos (i + 1), with_open s fresh i fs private_data d)
    unfolding open_on
    opens root mode_str m o =
        rw (m, o, (file_new_descriptor_lem moved-IsTable fresh i n e 0 unused low).0, at_fresh) refl

    -- The descriptor as `file_new_descriptor` leaves it.
    abbrev made : FileDescriptor S
    made = record { index = i + 1; filesystem = none; private_data = 0; disk = 0 }

    opened-IsTable : IsTable (with_open s fresh i fs private_data d)
    opened-IsTable =
        IsTable-update (with_new moved fresh i) fresh made (file_object fs (i + 1) private_data)
          (file_new_descriptor_lem moved-IsTable fresh i n e 0 unused low).1
          (at_fresh s.objects (some made)) refl

    opened-IsOpen :
        IsOpen
          (with_open s fresh i fs private_data d)
          (i + 1)
          fresh
          (file_object fs (i + 1) private_data)
          fs
    opened-IsOpen = record {
      positive = omega arith;
      below = omega arith;
      found =
          rw back (get_elem?-set_self s.file_descriptors i fresh (omega (arith, low, valid.size)));
      live = n;
      allocated =
          at_fresh (with_new s fresh i).objects (some (file_object fs (i + 1) private_data));
      owner = refl;
    }
      where
        back : i + 1 - 1 ≡ i
        back = omega arith

    -- `fopen` of a path that parses to the disk's drive, in a valid mode, of a file that the driver opens
    -- returns the number of the first null slot plus one, where that slot is not the last. The table
    -- stays in order, and the number finds a descriptor with the driver and its private pointer.
    pub fopen-IsOpen :
        (stale fuel : ℕ) (filename mode_str : List ℕ) (parts : List (List ℕ)) (last_next : ℕ)
        → pparser_parse stale fuel filename
          ≡ ret (some (record { drive_no = 0; parts = parts; last_next = last_next }))
        → s.disk_filesystem ≡ some fs
        → is_invalid (file_get_mode_by_string mode_str) ≡ false
        → fs.open_path parts last_next (file_get_mode_by_string mode_str) s.driver
          ≡ ret (pos private_data, d)
        → (fopen stale fuel fresh filename mode_str s
            ≡ ret (pos (i + 1), with_open s fresh i fs private_data d))
          × IsTable (with_open s fresh i fs private_data d)
          × IsOpen
              (with_open s fresh i fs private_data d)
              (i + 1)
              fresh
              (file_object fs (i + 1) private_data)
              fs
    unfolding fopen disk_get
    fopen-IsOpen stale fuel filename mode_str parts last_next p f m o = (
      reaches ∙ ap (λ r. and_then r λ r'. ret (not_negative r')) (opens root mode_str m o),
      opened-IsTable,
      opened-IsOpen,
    )
      where
        root : PathRoot
        root = record { drive_no = 0; parts = parts; last_next = last_next }

        reaches :
            fopen stale fuel fresh filename mode_str s
            ≡ and_then (open_on fresh fs root mode_str s) (λ r. ret (not_negative r))
        reaches = simp (p, f) refl
