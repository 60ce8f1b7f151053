-- ===== src/Fat16/Driver.antt =====
-- `fat16_fs`: the table of the driver's calls, as the file descriptors of src/fs/file.c use it. The
-- state is the private data of the disk and the descriptors that the driver has allocated, by their
-- addresses; `address_of n` is what the allocation of the `n`th descriptor returns.
pub mod Reading
pub mod Opening
mod Examples
use white_os.Base.{ℕ, ◌+◌, ◌==◌, if◌then◌else◌, Option, none, some, List}
use white_os.Base.Int.{ℤ, pos}
use white_os.Base.Runs.{Run, ret, ◌>>=◌, reach}
use white_os.Vfs.{Filesystem}
use white_os.Fat16.Layout.{FatPrivate, FatFileDescriptor}
use white_os.Fat16.Files.{
  fat16_resolve, fat16_open, fat16_close, fat16_read, fat16_readdir, fat16_seek, fat16_stat,
}

pub record FatState : Type 0 where
  pub fs_private : Option FatPrivate
  pub descriptors : ℕ → Option FatFileDescriptor
  pub allocated : ℕ

-- The descriptor at one address replaced.
abbrev pub put : FatState → ℕ → Option FatFileDescriptor → FatState
put s a desc = record s { descriptors = λ b. if b == a then desc else s.descriptors b }

abbrev pub with_private : FatState → FatPrivate → FatState
with_private s p = record s { fs_private = some p }

-- The private pointer of the disk set to null.
abbrev pub no_private : FatState → FatState
no_private s = record s { fs_private = none }

module _ (read_block : ℕ → Option (List ℕ)) (fuel rounds : ℕ) (address_of : ℕ → ℕ) where
  abbrev pub fat16_fs : Filesystem FatState
  fat16_fs = record {
    resolve = λ s. do
      (res, fs_private) ← fat16_resolve read_block fuel rounds 0
      ret (res, record s { fs_private = fs_private });
    open_path = λ parts last_next mode s. do
      p ← reach s.fs_private
      (desc, p') ← fat16_open read_block fuel rounds p parts last_next
      let a = address_of s.allocated
      ret (pos a, record (put (with_private s p') a (some desc)) { allocated = s.allocated + 1 });
    close = λ a s. do
      desc ← reach (s.descriptors a)
      p ← reach s.fs_private
      (res, p') ← fat16_close p desc
      ret (res, put (with_private s p') a none);
    read_items = λ a size nmemb s. do
      desc ← reach (s.descriptors a)
      p ← reach s.fs_private
      (res, bytes, p') ← fat16_read read_block fuel rounds p desc size nmemb
      ret (res, bytes, with_private s p');
    next_entry = λ a s. do
      desc ← reach (s.descriptors a)
      p ← reach s.fs_private
      (res, entry, p', desc') ← fat16_readdir p desc
      ret (res, entry, put (with_private s p') a (some desc'));
    seek_to = λ a offset whence s. do
      desc ← reach (s.descriptors a)
      (res, desc') ← fat16_seek desc offset whence
      ret (res, put s a (some desc'));
    stat_of = λ a s. do
      desc ← reach (s.descriptors a)
      (res, stat) ← fat16_stat desc
      ret (res, stat, s);
  }
