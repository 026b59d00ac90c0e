-- ===== src/Process/Tests.antt =====
-- The theorems on processes at concrete ones.
use maer_os.Common.{
  ℕ, zero, suc, ◌+◌, ◌-◌, ◌*◌, ◌/◌, ◌<◌, ◌≡◌, ◌≢◌, ◌⊎◌, inl, inr, refl, sym, ap, none, some, [],
  ◌∷◌, arith, get_or, replicate, length-replicate, all_ok,
}
use mathlib.Core.Option.{some-injective}
use maer_os.Heap.{Heap}
use maer_os.Heap.Search.{Fits}
use maer_os.Heap.Table.{chained-replicate}
use maer_os.Heap.Alloc.{IsHeap}
use maer_os.Heap.Create.{free_table, heap_align_value_to_upper_lem}
use maer_os.Kheap.Laws.{blocks_of}
use maer_os.Paging.{Words, paging_get_physical_address}
use maer_os.Paging.Slots.{IsDirectory, table_at, entry_address_lem}
use maer_os.Elf.{program_virtual_address}
use maer_os.Process.{
  unused_allocation, ProcessAllocation, binary_data, Process, Store, find_free_loop,
  process_find_free_allocation_index,
}
use maer_os.Process.Owned.Roundtrip.{IsRoundTrip, OwnsTaken, process_free-process_malloc}
use maer_os.Process.Table.{Processes, process_unlink}
use maer_os.Process.Table.Unlink.{IsTable, process_unlink-IsTable}
use maer_os.Process.Mapping.{process_map_memory, stack_address_end, stack_size}
use maer_os.Process.Mapping.Binary.{IsBinary, process_map_memory-IsBinary}

abbrev free_heap : Heap
free_heap = record { table = record { entries = replicate 16 0; total = 16 }; saddr = 0x0100_0000 }

free_heap-IsHeap : IsHeap free_heap
free_heap-IsHeap = record {
  sized = refl;
  blocks = chained-replicate 16;
  based = omega arith;
  mapped = omega arith;
  small = omega arith;
}

free_heap-Fits : Fits (replicate 16 0) 16 (blocks_of 5000) 0
free_heap-Fits =
    free_table 16 (blocks_of 5000) 0
      (omega (arith, (heap_align_value_to_upper_lem 5000 (omega arith)).0 (omega arith)))

-- The directory at 0x1000 points to the 1024 pages behind its own.
abbrev pages_behind : Words
pages_behind a = (a / 4 - 1024 + 2) * 4096

table-pages_behind : (i : ℕ) → i < 1024 → table_at pages_behind 0x1000 i ≡ (i + 2) * 4096
unfolding table_at
table-pages_behind i h = omega (arith, entry_address_lem (pages_behind (0x1000 + 4 * i)))

pages_behind-IsDirectory : IsDirectory pages_behind 0x1000
pages_behind-IsDirectory = record {
  aligned = refl;
  below = omega arith;
  apart = λ i j p q e. omega (arith, table-pages_behind i p, table-pages_behind j q);
  outside = λ i p e. omega (arith, table-pages_behind i p);
}

abbrev store : Store
store = record { heap = free_heap; memory = λ q. 7; words = pages_behind }

-- A process without allocations, its program of 6000 bytes at 0x700000 and its stack at 0x800000.
abbrev new_process : Process
new_process = record {
  id = 0;
  task = 0x900000;
  page_directory = 0x1000;
  allocations = replicate 1024 unused_allocation;
  program = binary_data 0x700000;
  stack = 0x800000;
  size = 6000;
  argc = 0;
  argv = 0;
}

none_used :
    (n i : ℕ) → get_or (replicate n unused_allocation) i unused_allocation ≡ unused_allocation
none_used zero i = refl
none_used (suc n) zero = refl
none_used (suc n) (suc i) = none_used n i

new_process-OwnsTaken : OwnsTaken new_process free_heap
new_process-OwnsTaken = record {
  taken = λ i b p q e f. omega (arith, e, ap (λ (a : ProcessAllocation). a.ptr) (none_used 1024 i));
}

first_slot : process_find_free_allocation_index new_process ≡ some 0
unfolding process_find_free_allocation_index find_free_loop
first_slot = refl

process_free-process_malloc_example :
    (a bytes : ℕ) × (s1 s2 : Store) × IsRoundTrip 5000 0 new_process store a bytes s1 s2
process_free-process_malloc_example =
    process_free-process_malloc 5000 0 0 new_process store free_heap-IsHeap (omega arith)
      (omega arith) (omega arith) (omega arith) free_heap-Fits pages_behind-IsDirectory
      new_process-OwnsTaken first_slot
      (omega (arith, length-replicate {A = ProcessAllocation} 1024 unused_allocation)) refl

-- Two processes, the one with the id 1 running.
abbrev two : Processes
two = record { processes = some 0x5000 ∷ some 0x6000 ∷ none ∷ []; current_process = some 0x6000 }

abbrev second : ℕ
second = 1

abbrev first_address : ℕ
first_address = 0x5000

abbrev second_address : ℕ
second_address = 0x6000

-- The slots of the two.
slot_of :
    (i p : ℕ)
    → get_or two.processes i none ≡ some p
    → ((i ≡ 0) × (p ≡ 0x5000)) ⊎ ((i ≡ 1) × (p ≡ 0x6000))
slot_of zero p e = inl (refl, sym (some-injective _ _ e))
slot_of (suc zero) p e = inr (refl, sym (some-injective _ _ e))
slot_of (suc (suc zero)) p e = absurd cc
slot_of (suc (suc (suc i))) p e = absurd cc

two-once :
    (i j p : ℕ)
    → get_or two.processes i none ≡ some p
    → get_or two.processes j none ≡ some p
    → i ≡ j
two-once i j p e f = elim (slot_of i p e) [
  | inl (a, b) ↦ elim (slot_of j p f) [ inl (c, d) ↦ omega arith | inr (c, d) ↦ omega arith ]
  | inr (a, b) ↦ elim (slot_of j p f) [ inl (c, d) ↦ omega arith | inr (c, d) ↦ omega arith ]
]

two-IsTable : IsTable two
two-IsTable = record { current = (0x6000, refl, (1, omega arith, refl)); once = two-once }

process_unlink-IsTable_example :
    (s' : Processes) × (process_unlink second second_address two ≡ some s')
    × IsTable s'
    × (get_or s'.processes second none ≡ none)
    × (s'.current_process ≢ some second_address)
    × ((i : ℕ) → i ≢ second → get_or s'.processes i none ≡ get_or two.processes i none)
process_unlink-IsTable_example =
    process_unlink-IsTable second second_address first_address two two-IsTable (omega arith) refl
      (λ e. omega (arith, e)) (0, omega arith, refl)

new_process-IsBinary : IsBinary new_process pages_behind 0x700000
new_process-IsBinary = record {
  program = refl;
  directory = pages_behind-IsDirectory;
  program_page = omega arith;
  stack_page = omega arith;
  program_in_memory = omega arith;
  stack_in_memory = omega arith;
  program_in_space = omega arith;
}

process_map_memory-IsBinary_example :
    (w' : Words) × (process_map_memory (λ q. 7) new_process pages_behind ≡ (all_ok, w'))
    × ((k : ℕ)
        → k < 6000
        → paging_get_physical_address 0x1000 (program_virtual_address + k) w' ≡ 0x700000 + k)
    × ((k : ℕ)
        → k < stack_size
        → paging_get_physical_address 0x1000 (stack_address_end + k) w' ≡ 0x800000 + k)
process_map_memory-IsBinary_example =
    process_map_memory-IsBinary (λ q. 7) new_process pages_behind 0x700000 new_process-IsBinary
