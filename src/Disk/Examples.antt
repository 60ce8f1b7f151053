-- ===== src/Disk/Examples.antt =====
-- The streamer at a concrete image.
use white_os.Base.{ℕ, ◌*◌, ◌%◌, ◌≡◌, refl, Option, some, List, arith}
use white_os.Status.{all_ok}
use white_os.Path.{ret, fault}
use white_os.Disk.{diskstreamer_read}
use white_os.Disk.Stream.{bytes_from, IsImage, diskstreamer_read-aligned, diskstreamer_read-overrun}

-- Byte `p` of the image is `p % 256`.
abbrev image : ℕ → ℕ
image p = p % 256

abbrev read_block : ℕ → Option (List ℕ)
read_block s = some (bytes_from image (s * 512) 512)

image-IsImage : IsImage image read_block
image-IsImage s = refl

diskstreamer_read-aligned_example :
    diskstreamer_read read_block 3 (record { position = 512 }) 1000
    ≡ ret (all_ok, bytes_from image 512 1000, record { position = 1512 })
diskstreamer_read-aligned_example =
    diskstreamer_read-aligned image read_block image-IsImage 2 512 1000 (omega arith) (omega arith)

diskstreamer_read-overrun_example :
    diskstreamer_read read_block 1 (record { position = 128 }) 512 ≡ fault
diskstreamer_read-overrun_example =
    diskstreamer_read-overrun image read_block image-IsImage 0 128 512 (omega arith) (omega arith)
