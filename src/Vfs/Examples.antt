-- ===== src/Vfs/Examples.antt =====
-- A driver and descriptor tables, and the theorems at them.
use white_os.Base.{
  ℕ, zero, suc, ◌+◌, ◌≡◌, refl, ◌≢◌, none, some, [], ◌∷◌, arith, ◌==◌, if◌then◌else◌, get_elem?,
  replicate,
}
use white_os.Base.Int.{pos}
use white_os.Base.Runs.{ret}
use white_os.Status.{all_ok, eio}
use white_os.Vfs.{
  Filesystem, FileDescriptor, Vfs, first_null, file_new_descriptor, file_get_descriptor,
}
use white_os.Vfs.Descriptors.{IsTable, IsFirstNull, with_new, file_new_descriptor_lem}
use white_os.Vfs.Calls.{fclose}
use white_os.Vfs.Close.{IsOpen, closed, fclose-closed, fclose-null}

-- A driver whose state counts the calls.
abbrev counting : Filesystem ℕ
counting = record {
  resolve = λ n. ret (pos 0, n + 1);
  open_path = λ parts last_next mode n. ret (pos 9, n + 1);
  close = λ p n. ret (pos 0, n + 1);
  read_items = λ p size nmemb n. ret (pos nmemb, [], n + 1);
  next_entry = λ p n. ret (pos 1, none, n + 1);
  seek_to = λ p offset whence n. ret (pos 0, n + 1);
  stat_of = λ p n. ret (pos 0, some (0, 0), n + 1);
}

abbrev opened_file : FileDescriptor ℕ
opened_file = record { index = 1; filesystem = some counting; private_data = 9; disk = 1 }

-- One file is open: number 1, at address 5.
abbrev one_open : Vfs ℕ
one_open = record {
  file_descriptors = 5 ∷ replicate 511 0;
  objects = λ p. if p == 5 then some opened_file else none;
  filesystems = [];
  disk_filesystem = some counting;
  driver = 0;
}

get_elem?-replicate : (n j p : ℕ) → get_elem? (replicate n 0) j ≡ some p → p ≡ 0
get_elem?-replicate zero j p e = cc
get_elem?-replicate (suc n) zero p e = cc
get_elem?-replicate (suc n) (suc j) p e = get_elem?-replicate n j p e

one_open-linked :
    (i p : ℕ)
    → get_elem? one_open.file_descriptors i ≡ some p
    → p ≢ 0
    → (o : FileDescriptor ℕ) × (one_open.objects p ≡ some o) × (o.index ≡ i + 1)
one_open-linked zero p e live = (opened_file, ground arith, refl)
one_open-linked (suc i) p e live = absurd (live (get_elem?-replicate 511 i p e))

one_open-IsTable : IsTable one_open
one_open-IsTable = record { size = refl; linked = one_open-linked }

one_open-IsOpen : IsOpen one_open 1 5 opened_file counting
one_open-IsOpen = record {
  positive = omega arith;
  below = omega arith;
  found = refl;
  live = omega arith;
  allocated = refl;
  owner = refl;
}

slot_one : IsFirstNull one_open.file_descriptors 1
unfolding first_null
slot_one = refl

file_new_descriptor_lem_example :
    (file_new_descriptor 6 one_open ≡ some (all_ok, 6, with_new one_open 6 1))
    × IsTable (with_new one_open 6 1)
    × (file_get_descriptor (with_new one_open 6 1) (pos 2) ≡ some 6)
file_new_descriptor_lem_example =
    file_new_descriptor_lem one_open-IsTable 6 1 (omega arith) slot_one 2 refl (omega arith)

fclose-closed_example :
    (fclose one_open (pos 1) ≡ ret (all_ok, closed one_open 5 1 1))
    × (file_get_descriptor (closed one_open 5 1 1) (pos 1) ≡ some 5)
    × ((closed one_open 5 1 1).objects 5 ≡ none)
    × (file_get_descriptor (closed one_open 5 1 1) (pos 2) ≡ some 0)
fclose-closed_example = fclose-closed one_open-IsTable one_open-IsOpen 1 refl

found_nothing : file_get_descriptor one_open (pos 512) ≡ some 0
unfolding file_get_descriptor
found_nothing = refl

fclose-null_example : fclose one_open (pos 512) ≡ ret (eio, one_open)
fclose-null_example = fclose-null one_open (pos 512) found_nothing
