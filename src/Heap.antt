-- ===== src/Heap.antt =====
-- src/memory/heap/heap.c and heap.h: the block allocator. `none` stands for an access outside the
-- table's array, which C leaves undefined: the code goes on with whatever memory lies there, which is
-- not modelled. A null address is 0.

pub mod Search
pub mod Blocks
pub mod Table
pub mod Alloc
pub mod Free
pub mod Create
mod Tests
use maer_os.Common.{
  ℕ, zero, suc, ◌+◌, ◌-◌, ◌*◌, ◌/◌, ◌%◌, bit_and, bit_or, Bool, true, false, not, ◌||◌, Option,
  none, some, List, ◌++◌, ltb, ◌==◌, if◌then◌else◌, length, get_elem?, get_or, set, drop, replicate,
  u32, sub32, ℤ, pos, negsuc, int_div, Status, all_ok, einvarg,
}

-- `HEAP_BLOCK_TABLE_ENTRY_TAKEN`, `_FREE`, `HEAP_BLOCK_HAS_NEXT`, `HEAP_BLOCK_IS_FIRST`
abbrev pub entry_taken : ℕ
entry_taken = 0x01

abbrev pub entry_free : ℕ
entry_free = 0x00

abbrev pub block_has_next : ℕ
block_has_next = 0b1000_0000

abbrev pub block_is_first : ℕ
block_is_first = 0b0100_0000

-- `MAEROS_HEAP_BLOCK_SIZE`
abbrev pub block_size : ℕ
block_size = 4096

-- `struct heap_table`: the array and the number of entries that the code reads of it.
pub record HeapTable : Type 0 where
  pub entries : List ℕ
  pub total : ℕ

-- `struct heap`
pub record Heap : Type 0 where
  pub table : HeapTable
  pub saddr : ℕ

pub heap_validate_alignment : ℕ → Bool
heap_validate_alignment ptr = bit_and ptr block_size == 0

pub heap_validate_table : ℕ → ℕ → HeapTable → Status
heap_validate_table ptr end table =
    if table.total == sub32 end ptr / block_size then all_ok else einvarg

-- `memset(table->entries, FREE, total)`
pub clear_entries : HeapTable → HeapTable
clear_entries table = record table {
  entries = replicate table.total entry_free ++ drop table.total table.entries;
}

-- The heap is written only once the addresses pass the alignment test; it is given as `none` where
-- `*heap` is left as it was.
pub heap_create : ℕ → ℕ → HeapTable → Status × Option Heap
heap_create ptr end table =
    if not (heap_validate_alignment ptr) || not (heap_validate_alignment end)
    then (einvarg, none)
    else elim (heap_validate_table ptr end table) [
      | all_ok ↦ (all_ok, some (record { table = clear_entries table; saddr = ptr }))
      | res ↦ (res, some (record { table = table; saddr = ptr }))
    ]

unfoldable pub heap_align_value_to_upper : ℕ → ℕ
heap_align_value_to_upper val =
    if val % block_size == 0 then val else u32 (val - val % block_size + block_size)

unfoldable pub heap_get_entry_type : ℕ → ℕ
heap_get_entry_type entry = bit_and entry 0x0f

-- `block_start` when entry `i` joins the run
abbrev pub run_start : Option ℕ → ℕ → ℕ
run_start none i = i
run_start (some s) i = s

-- The loop of `heap_get_start_block` at index `i`, with `left` entries to go; `block_start` is
-- `none` for -1. An entry past the array is read as 0; `IsTable` has every read inside it.
unfoldable pub start_loop : List ℕ → ℕ → ℕ → ℕ → ℕ → Option ℕ → Option ℕ
start_loop entries total_blocks zero i block_current block_start = block_start
start_loop entries total_blocks (suc left) i block_current block_start =
    elim (heap_get_entry_type (get_or entries i 0) == entry_free) [
      | false ↦ start_loop entries total_blocks left (i + 1) 0 none
      | true ↦ elim (block_current + 1 == total_blocks) [
        | true ↦ some (run_start block_start i)
        | false ↦
            start_loop entries total_blocks left (i + 1) (block_current + 1)
              (some (run_start block_start i))
      ]
    ]

-- `none` is -ENOMEM.
unfoldable pub heap_get_start_block : HeapTable → ℕ → Option ℕ
heap_get_start_block table total_blocks = start_loop table.entries total_blocks table.total 0 0 none

unfoldable pub heap_block_to_address : Heap → ℕ → ℕ
heap_block_to_address heap block = u32 (heap.saddr + block * block_size)

-- A checked store into the table.
abbrev pub store : List ℕ → ℕ → ℕ → Option (List ℕ)
store entries i v = if ltb i (length entries) then some (set entries i v) else none

-- The entry for the block after `i`; `stop` is `end_block + 1`.
unfoldable pub next_entry : ℕ → ℕ → ℕ
next_entry i stop = if i + 2 == stop then entry_taken else bit_or entry_taken block_has_next

-- The loop of `heap_mark_blocks_taken`, with `left` blocks to go.
unfoldable pub mark_loop : ℕ → ℕ → ℕ → ℕ → List ℕ → Option (List ℕ)
mark_loop zero i stop entry entries = some entries
mark_loop (suc left) i stop entry entries = elim (store entries i entry) [
  | none ↦ none
  | some entries' ↦ mark_loop left (i + 1) stop (next_entry i stop) entries'
]

unfoldable pub heap_mark_blocks_taken : ℕ → ℕ → List ℕ → Option (List ℕ)
heap_mark_blocks_taken start_block total_blocks entries =
    let first = bit_or entry_taken block_is_first in
    mark_loop total_blocks start_block (start_block + total_blocks)
      (if ltb 1 total_blocks then bit_or first block_has_next else first) entries

abbrev pub with_entries : Heap → List ℕ → Heap
with_entries heap entries = record heap {
  table = record { entries = entries; total = heap.table.total };
}

unfoldable pub heap_malloc_blocks : Heap → ℕ → Option (ℕ × Heap)
heap_malloc_blocks heap total_blocks = elim (heap_get_start_block heap.table total_blocks) [
  | none ↦ some (0, heap)
  | some start ↦ elim (heap_mark_blocks_taken start total_blocks heap.table.entries) [
    | none ↦ none
    | some entries ↦ some (heap_block_to_address heap start, with_entries heap entries)
  ]
]

-- The loop of `heap_mark_blocks_free`, with `left` entries up to the end of the table.
pub free_loop : ℕ → ℕ → List ℕ → Option (List ℕ)
free_loop zero i entries = some entries
free_loop (suc left) i entries = elim (get_elem? entries i) [
  | none ↦ none
  | some entry ↦ elim (bit_and entry block_has_next == 0) [
    | true ↦ some (set entries i entry_free)
    | false ↦ free_loop left (i + 1) (set entries i entry_free)
  ]
]

-- A negative block is below every total, so the loop reads and writes memory before the array, which is
-- not modelled.
pub heap_mark_blocks_free : HeapTable → ℤ → Option (List ℕ)
heap_mark_blocks_free table (pos i) = free_loop (table.total - i) i table.entries
heap_mark_blocks_free table (negsuc k) = none

pub heap_address_to_block : Heap → ℕ → ℤ
heap_address_to_block heap address = int_div (sub32 address heap.saddr) block_size

unfoldable pub heap_malloc : Heap → ℕ → Option (ℕ × Heap)
heap_malloc heap size = heap_malloc_blocks heap (heap_align_value_to_upper size / block_size)

pub heap_free : Heap → ℕ → Option Heap
heap_free heap ptr = elim (heap_mark_blocks_free heap.table (heap_address_to_block heap ptr)) [
  | none ↦ none
  | some entries ↦ some (with_entries heap entries)
]
