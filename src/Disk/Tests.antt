-- ===== src/Disk/Tests.antt =====
-- The theorems on streams at a disk of three sectors.
use maer_os.Common.{
  ℕ, ◌+◌, ◌*◌, ◌%◌, ◌<◌, ◌≡◌, refl, ◌∷◌, [], none, some, ltb, lt→ltb, arith, if◌then◌else◌, all_ok,
}
use maer_os.Disk.{
  Device, DiskStream, bytes_from, disk_get, diskstreamer_new, diskstreamer_read, disk_read_block,
  total_to_read,
}
use maer_os.Disk.Read.{diskstreamer_read_lem}

-- Every byte is the low byte of its address.
abbrev image : ℕ → ℕ
image i = i % 256

abbrev three_sectors : Device
three_sectors s = if ltb s 3 then some (λ i. image (s * 512 + i)) else none

abbrev at : ℕ → DiskStream
at n = record { pos = n }

three_sectors_give : (s : ℕ) → s < 3 → three_sectors s ≡ some (λ i. image (s * 512 + i))
three_sectors_give s h = rw (lt→ltb s 3 h) refl

read_runs :
    diskstreamer_read three_sectors 2 (at 510) 4 ≡ some (all_ok, 254 ∷ 255 ∷ 0 ∷ 1 ∷ [], at 514)
unfolding diskstreamer_read disk_read_block total_to_read
read_runs = refl

new_runs : diskstreamer_new 1 ≡ none
unfolding diskstreamer_new disk_get
new_runs = refl

diskstreamer_read_lem_example :
    diskstreamer_read three_sectors 3 (at 500) 600
    ≡ some (all_ok, bytes_from image 500 600, at (500 + 600))
diskstreamer_read_lem_example =
    diskstreamer_read_lem three_sectors image 3 600 (at 500)
      (λ s p. three_sectors_give s (omega arith)) (omega arith) (omega arith)
