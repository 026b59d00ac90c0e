-- ===== src/Paging.antt =====
-- src/memory/paging/paging.c: page directories, over a memory of 32-bit words by address.
pub mod Slots
pub mod Laws
pub mod Ranges
pub mod Identity
mod Tests
use maer_os.Common.{
  ℕ, zero, suc, ◌+◌, ◌-◌, ◌*◌, ◌/◌, ◌%◌, Bool, Option, none, some, List, [], ◌∷◌, bit_and, bit_or,
  ◌==◌, ltb, if◌then◌else◌, u32, sub32, Status, all_ok, einvarg,
}

-- The word at each address.
abbrev pub Words : Type 0
Words = ℕ → ℕ

abbrev pub store_word : Words → ℕ → ℕ → Words
store_word m p v q = if p == q then v else m q

-- `PAGING_TOTAL_ENTRIES_PER_TABLE`, `PAGING_PAGE_SIZE`
abbrev pub entries_per_table : ℕ
entries_per_table = 1024

abbrev pub page_size : ℕ
page_size = 4096

-- `PAGING_IS_WRITEABLE`
abbrev pub is_writeable : ℕ
is_writeable = 0b10

-- The address in a directory entry or a page entry, `entry & 0xfffff000`.
unfoldable pub entry_address : ℕ → ℕ
entry_address entry = bit_and entry 0xffff_f000

unfoldable pub paging_is_aligned : ℕ → Bool
paging_is_aligned addr = addr % page_size == 0

-- The directory index and the table index; `none` is -EINVARG.
unfoldable pub paging_get_indexes : ℕ → Option (ℕ × ℕ)
paging_get_indexes virt =
    if paging_is_aligned virt
    then some
        (virt / (entries_per_table * page_size), virt % (entries_per_table * page_size) / page_size)
    else none

-- `&table[table_index]`, for the table that `directory[directory_index]` points to.
unfoldable pub entry_slot : Words → ℕ → ℕ → ℕ → ℕ
entry_slot m directory di ti = u32 (entry_address (m (u32 (directory + 4 * di))) + 4 * ti)

pub paging_set : ℕ → ℕ → ℕ → Words → Status × Words
unfolding paging_is_aligned
paging_set directory virt val m =
    if paging_is_aligned virt
    then elim (paging_get_indexes virt) [
      | none ↦ (einvarg, m)
      | some (di, ti) ↦ (all_ok, store_word m (entry_slot m directory di ti) val)
    ]
    else (einvarg, m)

-- Where the indexes are refused they keep their initial value 0.
unfoldable pub paging_get : ℕ → ℕ → Words → ℕ
paging_get directory virt m = elim (paging_get_indexes virt) [
  | none ↦ m (entry_slot m directory 0 0)
  | some (di, ti) ↦ m (entry_slot m directory di ti)
]

pub paging_align_address : ℕ → ℕ
paging_align_address ptr =
    if ptr % page_size == 0 then ptr else u32 (ptr + page_size - ptr % page_size)

unfoldable pub paging_align_to_lower_page : ℕ → ℕ
paging_align_to_lower_page addr = addr - addr % page_size

-- The flags are at most 12 bits wide where the kernel calls it.
unfoldable pub paging_map : ℕ → ℕ → ℕ → ℕ → Words → Status × Words
paging_map directory virt phys flags m =
    if virt % page_size == 0
    then if phys % page_size == 0
      then paging_set directory virt (bit_or phys flags) m
      else (einvarg, m)
    else (einvarg, m)

-- `count` pages are left; the first that is refused ends the loop.
pub paging_map_range : ℕ → ℕ → ℕ → ℕ → ℕ → Words → Status × Words
paging_map_range directory virt phys zero flags m = (all_ok, m)
paging_map_range directory virt phys (suc count) flags m =
    let (res, m') = paging_map directory virt phys flags m in
    elim res [
      | all_ok ↦
          paging_map_range directory (u32 (virt + page_size)) (u32 (phys + page_size)) count flags
            m'
      | err ↦ (err, m')
    ]

pub paging_map_to : ℕ → ℕ → ℕ → ℕ → ℕ → Words → Status × Words
paging_map_to directory virt phys phys_end flags m =
    if virt % page_size == 0
    then if phys % page_size == 0
      then if phys_end % page_size == 0
        then if ltb phys_end phys
          then (einvarg, m)
          else paging_map_range directory virt phys ((phys_end - phys) / page_size) flags m
        else (einvarg, m)
      else (einvarg, m)
    else (einvarg, m)

unfoldable pub paging_get_physical_address : ℕ → ℕ → Words → ℕ
paging_get_physical_address directory virt m =
    let page = paging_align_to_lower_page virt in
    u32 (entry_address (paging_get directory page m) + sub32 virt page)

-- The inner loop of `paging_new_4gb` at entry `b`, with `left` entries to go.
pub fill_table : ℕ → ℕ → ℕ → ℕ → ℕ → Words → Words
fill_table zero b entry offset flags m = m
fill_table (suc left) b entry offset flags m =
    fill_table left (b + 1) entry offset flags
      (store_word m (u32 (entry + 4 * b)) (bit_or (u32 (offset + b * page_size)) flags))

-- The outer loop at index `i`. `tables` are the addresses that `kzalloc` returns for the tables, in
-- order.
pub fill_directory : List ℕ → ℕ → ℕ → ℕ → ℕ → Words → Words
fill_directory [] i directory offset flags m = m
fill_directory (entry ∷ tables) i directory offset flags m =
    let m' = fill_table entries_per_table 0 entry offset flags m in
    fill_directory tables (i + 1) directory (u32 (offset + entries_per_table * page_size)) flags
      (store_word m' (u32 (directory + 4 * i)) (bit_or (bit_or entry flags) is_writeable))

-- `directory` is the address that the first `kzalloc` returns. The chunk that holds the directory's
-- address is that address.
pub paging_new_4gb : ℕ → List ℕ → ℕ → Words → Words
paging_new_4gb directory tables flags m = fill_directory tables 0 directory 0 flags m
