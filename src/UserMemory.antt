-- ===== src/UserMemory.antt =====
-- src/task/task.c: what the kernel reads of a task's memory, through the task's page directory. The
-- processor translates an address as paging_get_physical_address does and faults on a page that is not
-- present; `none` is such a fault, or an access outside the heap's table.
pub mod Copy
pub mod Translation
pub mod Strings
pub mod Samples
mod Tests
use maer_os.Common.{
  ℕ, zero, suc, ◌+◌, ◌-◌, ◌*◌, ◌%◌, ◌^◌, Option, none, some, leb, ◌==◌, if◌then◌else◌, u32, bit_or,
  Status, all_ok, einvarg, enomem, eio,
}
use maer_os.Memory.{Memory, write}
use maer_os.Paging.{
  Words, paging_align_to_lower_page, paging_get, paging_set, paging_map,
  paging_get_physical_address,
}
use maer_os.Kheap.{kzalloc}
use maer_os.Process.{Store, free_in, user_page}

-- The processor's view of an address under a directory; `PAGING_IS_PRESENT` is 1. The entries of the
-- directory itself are always present: paging_new_4gb sets them so for every task, and nothing clears them.
unfoldable pub translate : ℕ → Words → ℕ → Option ℕ
translate directory w virt =
    if paging_get directory (paging_align_to_lower_page virt) w % 2 == 1
    then some (paging_get_physical_address directory virt w)
    else none

abbrev pub store_at : Option ℕ → ℕ → Memory → Option Memory
store_at none v m = none
store_at (some p) v m = some (write m p v)

abbrev pub store_then : Option Memory → (Memory → Option Memory) → Option Memory
store_then none f = none
store_then (some m) f = f m

-- `strncpy` of src/string/string.c over a memory that is seen through a translation, with `left` bytes
-- to go.
pub strncpy_at : (ℕ → Option ℕ) → ℕ → ℕ → ℕ → Memory → Option Memory
strncpy_at tr zero dest src m = store_at (tr dest) 0x00 m
strncpy_at tr (suc left) dest src m = elim (tr src) [
  | none ↦ none
  | some p ↦
      let rest =
        store_then (store_at (tr dest) (m p) m)
          (strncpy_at tr left (u32 (dest + 1)) (u32 (src + 1))) in
      if m p == 0x00 then store_at (tr dest) 0x00 m else rest
]

-- `out_free`
abbrev pub free_tmp : ℕ → Status → Store → Option (Status × Store)
free_tmp tmp res s = elim (free_in tmp s) [ none ↦ none | some s' ↦ some (res, s') ]

-- Behind the copy into `tmp` and the restored entry, by what that returned: the kernel copies from
-- there. Its own pages are mapped to themselves.
pub copy_out : ℕ → ℕ → ℕ → Status → Store → Option (Status × Store)
copy_out tmp phys max all_ok s = elim (strncpy_at some (max - 1) phys tmp s.memory) [
  | none ↦ none
  | some m ↦ free_tmp tmp all_ok (record s { memory = m })
]
copy_out tmp phys max err s = free_tmp tmp eio s

-- The copy into `tmp` under the directory with its page mapped, and the entry that is set back.
pub copy_in : ℕ → ℕ → ℕ → ℕ → ℕ → ℕ → Words → Store → Option (Status × Store)
copy_in directory tmp virtual phys max old w s =
    elim (strncpy_at (translate directory w) (max - 1) tmp virtual s.memory) [
      | none ↦ none
      | some m ↦
          let set_back = paging_set directory tmp old w in
          copy_out tmp phys max set_back.0 (record s { words = set_back.1; memory = m })
    ]

-- Behind the allocation: what `paging_map` returns is dropped.
pub copy_through : ℕ → ℕ → ℕ → ℕ → ℕ → Store → Option (Status × Store)
copy_through directory tmp virtual phys max s =
    copy_in directory tmp virtual phys max (paging_get directory tmp s.words)
      (paging_map directory tmp tmp user_page s.words).1 s

-- `max` is the size of the caller's buffer.
pub copy_string_from_task : ℕ → ℕ → ℕ → ℕ → Store → Option (Status × Store)
copy_string_from_task directory virtual phys max s =
    if leb 4096 max then some (einvarg, s) else elim (kzalloc max s.heap s.memory) [
      | none ↦ none
      | some (zero, heap, memory) ↦ some (enomem, record s { heap = heap; memory = memory })
      | some (suc n, heap, memory) ↦
          copy_through directory (suc n) virtual phys max
            (record s { heap = heap; memory = memory })
    ]

-- The bytes of a word under a directory.
unfoldable pub load_byte : ℕ → Words → Memory → ℕ → Option ℕ
load_byte directory w m a = elim (translate directory w (u32 a)) [
  | none ↦ none
  | some p ↦ some (m p)
]

-- `sp_ptr[index]`, a little-endian word, for the stack pointer of the task.
unfoldable pub task_get_stack_item : ℕ → ℕ → ℕ → Store → Option ℕ
task_get_stack_item directory esp index s =
    let byte = λ (i : ℕ). load_byte directory s.words s.memory (esp + 4 * index + i) in
    elim (byte 0) [
      | none ↦ none
      | some b0 ↦ elim (byte 1) [
        | none ↦ none
        | some b1 ↦ elim (byte 2) [
          | none ↦ none
          | some b2 ↦ elim (byte 3) [
            | none ↦ none
            | some b3 ↦ some (b0 + b1 * 2 ^ 8 + b2 * 2 ^ 16 + b3 * 2 ^ 24)
          ]
        ]
      ]
    ]

pub task_virtual_address_to_physical : ℕ → ℕ → Store → ℕ
task_virtual_address_to_physical directory virtual s =
    paging_get_physical_address directory virtual s.words
