-- ===== src/Fat/Clusters/Entries.antt =====
-- Where the entries of the allocation table are read.
use maer_os.Common.{ℕ, ◌+◌, ◌-◌, ◌*◌, ◌^◌, ◌≤◌, ◌<◌, ◌≡◌, u32, arith}
use maer_os.Fat.Layout.{FatPrivate}
use maer_os.Fat.Clusters.{fat16_get_first_fat_sector, fat_entry_position}

-- The product of two numbers, one above 2 is above their sum.
sum-lt-product : (a b : ℕ) → 512 ≤ a → 2 ≤ b → a + b < a * b
sum-lt-product a b p q =
    let (a', b') : ℕ × ℕ = (a - 2, b - 2) in
    let e : a ≡ a' + 2 = omega arith in let f : b ≡ b' + 2 = omega arith in rw (e, f) (omega arith)

-- With at least one reserved sector, of no cluster from 1 on is the entry read at its place, 2 bytes
-- for each cluster behind the start of the table, as long as the product of the two is below 2 ^ 31: the
-- offset is multiplied with the table's position instead of added, and the position is above the place.
pub fat_entry_position_wrong :
    (private : FatPrivate) (cluster : ℕ)
    → 1 ≤ cluster
    → 1 ≤ private.header.primary_header.reserved_sectors
    → private.header.primary_header.reserved_sectors * 512 * (cluster * 2) < 2 ^ 31
    → private.header.primary_header.reserved_sectors * 512 + cluster * 2
      < fat_entry_position private cluster
unfolding fat_entry_position fat16_get_first_fat_sector
fat_entry_position_wrong private cluster c r b =
    let t = private.header.primary_header.reserved_sectors * 512 in
    let n = sum-lt-product t (cluster * 2) (omega arith) (omega arith) in
    let small : u32 t ≡ t = omega arith in rw small (omega arith)
