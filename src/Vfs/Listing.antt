-- ===== src/Vfs/Listing.antt =====
-- `readdir` of src/fs/file.c.
use white_os.Base.{ℕ, ◌==◌, if◌then◌else◌, inl, inr, Option, some, List}
use white_os.Base.Int.{ℤ, pos, negsuc}
use white_os.Base.Runs.{Run, ret, access, and_then}
use white_os.Status.{eio}
use white_os.Fat16.Names.{fat16_get_full_relative_filename}
use white_os.Vfs.{Vfs}
use white_os.Vfs.Calls.{find}

-- `struct dirent`: the entry that the driver has found, null at first, and the 12 bytes of the name.
pub record Dirent : Type 0 where
  pub entry : Option (List ℕ)
  pub name : List ℕ

-- The name of the entry, where it fits in the array.
unfoldable pub name_entry : Option (List ℕ) → Dirent → Run Dirent
name_entry found dirent = access found λ entry.
    access (fat16_get_full_relative_filename entry dirent.name 12)
      λ name. ret (record { entry = some entry; name = name })

module _ {S : Type 0} where
  -- The entry's pointer is written by the driver when it succeeds.
  unfoldable pub readdir : Vfs S → ℤ → Dirent → Run (ℤ × Dirent × Vfs S)
  unfolding find name_entry
  readdir s fd dirent = access (find s fd) λ found. elim found [
    | inl _ ↦ ret (eio, dirent, s)
    | inr (desc, object, fs) ↦
        and_then (fs.next_entry object.private_data s.driver) λ (res, entry, d).
          let s' : Vfs S = record s { driver = d } in
          elim res [
            | negsuc e ↦ ret (negsuc e, dirent, s')
            | pos r ↦
                if r == 0
                then and_then (name_entry entry dirent) (λ dirent'. ret (pos r, dirent', s'))
                else ret (pos r, dirent, s')
          ]
  ]
