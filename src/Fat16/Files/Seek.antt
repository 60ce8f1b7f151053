-- ===== src/Fat16/Files/Seek.antt =====
-- The position of an open file, and the calls that fail.
use white_os.Base.{
  ℕ, ◌+◌, ◌-◌, ◌%◌, ◌^◌, ◌≤◌, ◌<◌, ◌≡◌, refl, ◌⊎◌, inl, inr, false, some, List, arith, leb,
  Bool-cases,
}
use white_os.Base.Int.{ℤ}
use white_os.Base.Runs.{Run, ret, fault, running}
use white_os.Status.{all_ok}
use white_os.Vfs.{SeekMode, seek_set, seek_cur, seek_end, seek_other}
use white_os.Fat16.Layout.{FatFileDescriptor, null, type_file, filesize}
use white_os.Fat16.Files.{fat16_seek}

-- An open file, and its position.
abbrev pub open_file : (item : List ℕ) → (position : ℕ) → FatFileDescriptor
open_file item position = record {
  item = record { item = some item; directory = null; kind = type_file };
  pos = position;
}

-- At the start, or before the end.
abbrev pub InFile : (item : List ℕ) → (position : ℕ) → Type 0
InFile item position = (position ≡ 0) ⊎ (position < filesize item)

-- A call that returns with the file open in range, and at the same position if it fails.
abbrev pub Moves : (item : List ℕ) → (position : ℕ) → Run (ℤ × FatFileDescriptor) → Type 0
Moves item position (ret (res, desc)) =
    (position' : ℕ) × (desc ≡ open_file item position')
    × InFile item position'
    × ((res ≡ all_ok) ⊎ (position' ≡ position))
Moves item position fault = ⊥
Moves item position running = ⊥

-- `fat16_seek` on an open file returns for every offset and mode, with the position at the start or
-- before the end of the file, and where it was if the call fails.
pub fat16_seek-Moves :
    (item : List ℕ) (position offset : ℕ) (mode : SeekMode)
    → InFile item position
    → Moves item position (fat16_seek (open_file item position) offset mode)
unfolding fat16_seek
fat16_seek-Moves item position offset seek_set v = elim (Bool-cases (leb (filesize item) offset)) [
  | inl e ↦ rw e (position, refl, v, inr refl)
  | inr e ↦ rw e (offset, refl, inr (ground arith), inl refl)
]
fat16_seek-Moves item position offset seek_cur v =
    elim (Bool-cases (leb (filesize item) ((position + offset) % 2 ^ 32))) [
      | inl e ↦ rw e (position, refl, v, inr refl)
      | inr e ↦ rw e ((position + offset) % 2 ^ 32, refl, inr (ground arith), inl refl)
    ]
fat16_seek-Moves item position offset seek_end v = (position, refl, v, inr refl)
fat16_seek-Moves item position offset seek_other v = (position, refl, v, inr refl)

-- A relative seek takes its offset as unsigned: it goes back by `k` when given 2^32 - k.
pub fat16_seek-back :
    (item : List ℕ) (position k : ℕ)
    → k ≤ position
    → 0 < k
    → position < filesize item
    → position < 2 ^ 32
    → fat16_seek (open_file item position) (2 ^ 32 - k) seek_cur
      ≡ ret (all_ok, open_file item (position - k))
unfolding fat16_seek
fat16_seek-back item position k h z l b = rw (wrapped, inside) refl
  where
    wrapped : (position + (2 ^ 32 - k)) % 2 ^ 32 ≡ position - k
    wrapped = omega arith

    inside : leb (filesize item) (position - k) ≡ false
    inside = ground arith
