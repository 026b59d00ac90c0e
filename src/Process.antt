-- ===== src/Process.antt =====
-- src/task/process.c: what a process owns. The memory of bytes holds the heap's blocks, the memory of
-- words the page directories. `none` is a fault: an access outside the heap's table.
pub mod Table
pub mod Arguments
pub mod Mapping
pub mod Owned
mod Tests
use maer_os.Common.{
  ℕ, zero, suc, ◌+◌, ◌*◌, ◌/◌, ◌%◌, ◌^◌, Bool, true, false, ◌||◌, Option, none, some, List, [], ◌∷◌,
  length, set, get_or, ◌==◌, if◌then◌else◌, u32, u8, bit_and, Status, all_ok, eio, enomem,
}
use maer_os.Heap.{Heap}
use maer_os.Kheap.{kzalloc, kfree}
use maer_os.Memory.{Memory, write}
use maer_os.Paging.{Words, paging_align_address, paging_map_to, entry_address}
use maer_os.Strings.{strncpy}
use maer_os.Elf.{ElfFile}
use maer_os.Task.{Tasks, task_list_remove}

-- `MAEROS_MAX_PROGRAM_ALLOCATIONS`
abbrev pub max_program_allocations : ℕ
max_program_allocations = 1024

-- `struct process_allocation`
pub record ProcessAllocation : Type 0 where
  pub ptr : ℕ
  pub size : ℕ

abbrev pub unused_allocation : ProcessAllocation
unused_allocation = record { ptr = 0; size = 0 }

-- The program's data, by the file type.
pub data ProgramData : Type 0 where
  elf_data : ℕ → ElfFile → ProgramData
  binary_data : ℕ → ProgramData

-- `struct process`, without its name and its keyboard buffer; of the task, its page directory.
pub record Process : Type 0 where
  pub id : ℕ
  pub task : ℕ
  pub page_directory : ℕ
  pub allocations : List ProcessAllocation
  pub program : ProgramData
  pub stack : ℕ
  pub size : ℕ
  pub argc : ℕ
  pub argv : ℕ

-- The kernel's memory.
pub record Store : Type 0 where
  pub heap : Heap
  pub memory : Memory
  pub words : Words

-- The loop of `process_find_free_allocation_index` at index `i`; `none` is -ENOMEM.
unfoldable pub find_free_loop : List ProcessAllocation → ℕ → Option ℕ
find_free_loop [] i = none
find_free_loop (a ∷ rest) i = if a.ptr == 0 then some i else find_free_loop rest (i + 1)

unfoldable pub process_find_free_allocation_index : Process → Option ℕ
process_find_free_allocation_index p = find_free_loop p.allocations 0

-- `kfree` of a pointer in the store.
abbrev pub free_in : ℕ → Store → Option Store
free_in ptr s = elim (kfree ptr s.heap) [
  | none ↦ none
  | some heap ↦ some (record s { heap = heap })
]

-- The way out behind an error: the pointer is freed unless it is null, and null is returned.
abbrev pub out_err : ℕ → Process → Store → Option (ℕ × Process × Store)
out_err zero p s = some (0, p, s)
out_err (suc n) p s = elim (free_in (suc n) s) [ none ↦ none | some s' ↦ some (0, p, s') ]

-- `PAGING_IS_WRITEABLE | PAGING_IS_PRESENT | PAGING_ACCESS_FROM_ALL`
abbrev pub user_page : ℕ
user_page = 0b111

pub process_malloc : ℕ → Process → Store → Option (ℕ × Process × Store)
process_malloc size p s = elim (kzalloc size s.heap s.memory) [
  | none ↦ none
  | some (zero, heap, memory) ↦ some (0, p, record s { heap = heap; memory = memory })
  | some (suc n, heap, memory) ↦
      let ptr = suc n in
      let s' : Store = record s { heap = heap; memory = memory } in
      elim (process_find_free_allocation_index p) [
        | none ↦ out_err ptr p s'
        | some index ↦
            let (res, words) =
              paging_map_to p.page_directory ptr ptr (paging_align_address (u32 (ptr + size)))
                user_page s.words in
            elim res [
              | all_ok ↦ some (
                ptr,
                record p {
                  allocations = set p.allocations index (record { ptr = ptr; size = size });
                },
                record s' { words = words },
              )
              | err ↦ out_err ptr p (record s' { words = words })
            ]
      ]
]

pub is_process_pointer : List ProcessAllocation → ℕ → Bool
is_process_pointer [] ptr = false
is_process_pointer (a ∷ rest) ptr = a.ptr == ptr || is_process_pointer rest ptr

pub process_is_process_pointer : Process → ℕ → Bool
process_is_process_pointer p ptr = is_process_pointer p.allocations ptr

pub process_allocation_unjoin : List ProcessAllocation → ℕ → List ProcessAllocation
process_allocation_unjoin [] ptr = []
process_allocation_unjoin (a ∷ rest) ptr =
    (if a.ptr == ptr then unused_allocation else a) ∷ process_allocation_unjoin rest ptr

pub process_get_allocation_by_addr : List ProcessAllocation → ℕ → Option ProcessAllocation
process_get_allocation_by_addr [] addr = none
process_get_allocation_by_addr (a ∷ rest) addr =
    if a.ptr == addr then some a else process_get_allocation_by_addr rest addr

-- `process_free` behind the mapping, by what that returned.
pub free_unmapped : ℕ → Process → Store → Status → Words → Option (Process × Store)
free_unmapped ptr p s all_ok words = elim (kfree ptr s.heap) [
  | none ↦ none
  | some heap ↦ some (
    record p { allocations = process_allocation_unjoin p.allocations ptr },
    record s { heap = heap; words = words },
  )
]
free_unmapped ptr p s err words = some (p, record s { words = words })

pub process_free : ℕ → Process → Store → Option (Process × Store)
process_free ptr p s = elim (process_get_allocation_by_addr p.allocations ptr) [
  | none ↦ some (p, s)
  | some a ↦
      let mapped =
        paging_map_to p.page_directory a.ptr a.ptr (paging_align_address (u32 (a.ptr + a.size)))
          0x00 s.words in
      free_unmapped ptr p s mapped.0 mapped.1
]

-- The loop over the slots at index `i`, each read when its turn comes.
pub terminate_loop : ℕ → ℕ → Process → Store → Option (Process × Store)
terminate_loop zero i p s = some (p, s)
terminate_loop (suc left) i p s =
    elim (process_free (get_or p.allocations i unused_allocation).ptr p s) [
      | none ↦ none
      | some (p', s') ↦ terminate_loop left (i + 1) p' s'
    ]

pub process_terminate_allocations : Process → Store → Option (Process × Store)
process_terminate_allocations p s = terminate_loop max_program_allocations 0 p s

-- Two pointers freed in turn.
abbrev pub free_both : ℕ → ℕ → Store → Option Store
free_both p q s = elim (free_in p s) [ none ↦ none | some s' ↦ free_in q s' ]

pub process_free_program_data : Process → Store → Option Store
process_free_program_data p s = elim p.program [
  | binary_data ptr ↦ free_in ptr s
  | elf_data file elf ↦ if file == 0 then some s else free_both elf.elf_memory file s
]

-- The loop of `paging_free_4gb` over the entries at index `i`.
pub free_tables : ℕ → ℕ → ℕ → Store → Option Store
free_tables zero i directory s = some s
free_tables (suc left) i directory s =
    elim (free_in (entry_address (s.words (u32 (directory + 4 * i)))) s) [
      | none ↦ none
      | some s' ↦ free_tables left (i + 1) directory s'
    ]

-- The chunk is the structure that holds the directory's address.
pub paging_free_4gb : ℕ → ℕ → Store → Option Store
paging_free_4gb chunk directory s = elim (free_tables 1024 0 directory s) [
  | none ↦ none
  | some s' ↦ free_both directory chunk s'
]

-- The task leaves the list of tasks before its memory is freed.
pub task_free : ℕ → ℕ → ℕ → Tasks → Store → Option (Tasks × Store)
task_free chunk directory task tasks s = elim (paging_free_4gb chunk directory s) [
  | none ↦ none
  | some s' ↦ elim (task_list_remove task tasks) [
    | none ↦ none
    | some tasks' ↦ elim (free_in task s') [ none ↦ none | some s'' ↦ some (tasks', s'') ]
  ]
]
