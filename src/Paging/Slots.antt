-- ===== src/Paging/Slots.antt =====
-- Where the entries of a directory lie.
use maer_os.Common.{
  ℕ, ◌+◌, ◌-◌, ◌*◌, ◌/◌, ◌%◌, ◌^◌, ◌≤◌, ◌<◌, ◌≡◌, ◌≢◌, ◌∙◌, ap, arith, bit_and_shift, bit_and_mask,
  u32, some,
}
use maer_os.Paging.{Words, entry_address, entry_slot, paging_get_indexes, paging_is_aligned}

-- The mask clears the low 12 bits.
pub entry_address_lem : (e : ℕ) → entry_address e ≡ e / 4096 % 2 ^ 20 * 4096
unfolding entry_address
entry_address_lem e =
    bit_and_shift 12 e (2 ^ 20 - 1) ∙ ap (λ t. t * 4096) (bit_and_mask 20 (e / 4096))

-- The table that entry `i` of the directory points to.
unfoldable pub table_at : Words → ℕ → ℕ → ℕ
table_at m directory i = entry_address (m (directory + 4 * i))

-- A directory on a page of its own, whose 1024 tables are on different other pages.
pub record IsDirectory (m : Words) (directory : ℕ) : Type 0 where
  pub aligned : directory % 4096 ≡ 0
  pub below : directory < 2 ^ 32
  pub apart :
      (i j : ℕ) → i < 1024 → j < 1024 → table_at m directory i ≡ table_at m directory j → i ≡ j
  pub outside : (i : ℕ) → i < 1024 → table_at m directory i ≢ directory

-- The entry of the page at `virt`.
unfoldable pub slot : Words → ℕ → ℕ → ℕ
slot m directory virt = table_at m directory (virt / 2 ^ 22) + 4 * (virt / 4096 % 1024)

pub table_bounds :
    (m : Words) (d i : ℕ) → (table_at m d i % 4096 ≡ 0) × (table_at m d i + 4096 ≤ 2 ^ 32)
unfolding table_at
table_bounds m d i = omega (arith, entry_address_lem (m (d + 4 * i)))

pub get_indexes_lem :
    (virt : ℕ)
    → virt % 4096 ≡ 0
    → paging_get_indexes virt ≡ some (virt / 2 ^ 22, virt / 4096 % 1024)
unfolding paging_get_indexes paging_is_aligned
get_indexes_lem virt h = ground arith

pub entry_slot_lem :
    {m : Words} {d : ℕ} (virt : ℕ)
    → IsDirectory m d
    → virt < 2 ^ 32
    → entry_slot m d (virt / 2 ^ 22) (virt / 4096 % 1024) ≡ slot m d virt
unfolding entry_slot slot table_at
entry_slot_lem {m} {d} virt v h =
    let e : u32 (d + 4 * (virt / 2 ^ 22)) ≡ d + 4 * (virt / 2 ^ 22) =
      omega (arith, v.aligned, v.below) in
    rw e (omega (arith, entry_address_lem (m (d + 4 * (virt / 2 ^ 22)))))

-- Different pages have different entries.
pub slot-injective :
    {m : Words} {d : ℕ} (a b : ℕ)
    → IsDirectory m d
    → a < 2 ^ 32
    → b < 2 ^ 32
    → a % 4096 ≡ 0
    → b % 4096 ≡ 0
    → slot m d a ≡ slot m d b
    → a ≡ b
unfolding slot
slot-injective {m} {d} a b v ha hb pa pb e =
    let ta = table_bounds m d (a / 2 ^ 22) in
    let tb = table_bounds m d (b / 2 ^ 22) in
    let same =
      v.apart (a / 2 ^ 22) (b / 2 ^ 22) (omega arith) (omega arith) (omega (arith, ta, tb)) in
    omega (arith, same)

-- No entry of a table is an entry of the directory.
pub slot-ne :
    {m : Words} {d : ℕ} (a i : ℕ) → IsDirectory m d → a < 2 ^ 32 → i < 1024 → slot m d a ≢ d + 4 * i
unfolding slot
slot-ne {m} {d} a i v h p e =
    let ta = table_bounds m d (a / 2 ^ 22) in
    v.outside (a / 2 ^ 22) (omega arith) (omega (arith, ta, v.aligned))
