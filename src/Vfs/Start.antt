-- ===== src/Vfs/Start.antt =====
-- Starting the file systems: `fs_init` of src/fs/file.c, and `disk_search_and_init` of
-- src/disk/disk.c. The driver that `fat16_init` returns is an argument.
use white_os.Base.{Option, none, replicate}
use white_os.Base.Runs.{Run, ret, and_then}
use white_os.Vfs.{
  Filesystem, Vfs, max_file_descriptors, max_filesystems, fs_insert_filesystem, fs_resolve,
}

module _ {S : Type 0} where
  -- Both tables are cleared.
  abbrev pub without_filesystems : Vfs S → Vfs S
  without_filesystems s = record s {
    file_descriptors = replicate max_file_descriptors 0;
    filesystems = replicate max_filesystems none;
  }

  -- `fs_static_load` and `fs_load`
  unfoldable pub fs_static_load : Filesystem S → Vfs S → Option (Vfs S)
  fs_static_load fat16_fs s = fs_insert_filesystem s fat16_fs

  unfoldable pub fs_init : Filesystem S → Vfs S → Option (Vfs S)
  unfolding fs_static_load
  fs_init fat16_fs s = fs_static_load fat16_fs (without_filesystems s)

  -- `clear` sets the disk's private pointer to null, as `memset` does; the type, the sector size and
  -- the id of the disk are constants.
  unfoldable pub disk_search_and_init : (clear : S → S) → Vfs S → Run (Vfs S)
  disk_search_and_init clear s =
      and_then (fs_resolve s.filesystems (clear s.driver))
        λ (fs, d). ret (record s { disk_filesystem = fs; driver = d })
