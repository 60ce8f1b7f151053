-- ===== src/Disk.antt =====
-- src/disk/streamer.c: reading a disk as a stream of bytes. What `disk_read_block` puts into the
-- buffer for a sector is a parameter, `none` where it fails; positions are not negative, and the
-- allocation of a stream succeeds. A read of the buffer past its end is `fault`.
pub mod Stream
pub mod Transfer
pub mod Ata
mod Examples
use white_os.Base.{
  ℕ, zero, suc, ◌+◌, ◌-◌, ◌*◌, ◌/◌, ◌%◌, ◌^◌, ◌≤◌, ◌<◌, bit_and, bit_or, ◌≡◌, refl, sym, ap, ap₂,
  ◌∙◌, subst, ◌≢◌, ◌↔◌, ◌⊎◌, inl, inr, Bool, true, false, not, ◌&&◌, ◌||◌, Option, none, some, List,
  [], ◌∷◌, ◌++◌, map, append-nil, append_assoc, arith, dec_lt, dec_le, ℕ_discrete, ltb, leb, ◌==◌,
  if◌then◌else◌, ltb→lt, lt→ltb, leb→le, ==_iff, Bool-cases, Option-cases, length, get_elem?, set,
  get_or, take, drop, replicate, length-append, length-set, get_elem?-set_self, get_elem?-set_ne,
  take-append-drop, length-take, length-drop, length-replicate, length-map, ◌>>=◌, store,
  set-append, store-append, store_of_lt, get_elem?-append, get_or-append_left, get_or-append_right,
  snoc-append, length-snoc, get_elem?-drop, take_self, drop_self, replicate-add, get_or-set_self,
  get_or-set_ne, get_or-snoc, get_elem?-eq-get_or,
}
use white_os.Base.Int.{ℤ, pos, negsuc}
use white_os.Status.{all_ok, eio}
use white_os.Path.{Run, ret, fault, running, access, and_then}

-- WHITEOS_SECTOR_SIZE
abbrev pub sector_size : ℕ
sector_size = 512

-- `struct disk_stream` on the one disk
pub record DiskStream : Type 0 where
  pub position : ℕ

-- The disk must be there; a new stream stands at position 0.
unfoldable pub diskstreamer_new : ℕ → Option DiskStream
diskstreamer_new disk_id = if disk_id == 0 then some (record { position = 0 }) else none

unfoldable pub diskstreamer_seek : DiskStream → ℕ → ℤ × DiskStream
diskstreamer_seek stream p = (all_ok, record { position = p })

-- The loop that copies from the buffer, with `left` bytes to go, the next of them at index `i`.
pub copy_loop : (left i : ℕ) → List ℕ → Option (List ℕ)
copy_loop zero i buf = some []
copy_loop (suc left) i buf = do
  b ← get_elem? buf i
  rest ← copy_loop left (i + 1) buf
  some (b ∷ rest)

module _ (read_block : ℕ → Option (List ℕ)) where
  -- The status, what was written to `out`, and the stream.
  unfoldable pub diskstreamer_read : (fuel : ℕ) → DiskStream → ℕ → Run (ℤ × List ℕ × DiskStream)
  diskstreamer_read zero stream total = running
  diskstreamer_read (suc fuel) stream total =
      let again = diskstreamer_read fuel in
      let sector = stream.position / sector_size in
      let offset = stream.position % sector_size in
      elim (read_block sector) [
        | none ↦ ret (eio, [], stream)
        | some buf ↦
            let total_to_read = if leb sector_size total then sector_size else total in
            access (copy_loop total_to_read offset buf) λ bytes.
              let moved : DiskStream = record { position = stream.position + total_to_read } in
              if ltb sector_size total
              then and_then (again moved (total - sector_size))
                  (λ (res, more, stream'). ret (res, bytes ++ more, stream'))
              else ret (all_ok, bytes, moved)
      ]
