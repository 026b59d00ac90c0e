-- ===== src/Loader/NewTasks.antt =====
-- src/task/task.c: task_init and the allocation of a task; src/memory/paging/paging.c: the allocations of
-- paging_new_4gb.
use maer_os.Common.{ℕ, zero, suc, Option, none, some, List, [], ◌∷◌}
use maer_os.Memory.{Memory}
use maer_os.Paging.{paging_new_4gb}
use maer_os.Elf.{header_at, program_virtual_address}
use maer_os.Idt.{Registers}
use maer_os.Process.{ProgramData, elf_data, binary_data, Store}
use maer_os.Loader.{alloc, task_size}

-- The tables of a new directory, in order; a null one is written through.
pub new_tables : ℕ → Store → Option (List ℕ × Store)
new_tables zero s = some ([], s)
new_tables (suc left) s = elim (alloc 4096 s) [
  | none ↦ none
  | some (zero, s') ↦ none
  | some (suc n, s') ↦ elim (new_tables left s') [
    | none ↦ none
    | some (tables, s'') ↦ some (suc n ∷ tables, s'')
  ]
]

-- The chunk and the directory that `paging_new_4gb` allocates and fills.
pub new_directory : ℕ → Store → Option (ℕ × ℕ × Store)
new_directory flags s = elim (alloc 4096 s) [
  | none ↦ none
  | some (zero, s1) ↦ none
  | some (suc directory, s1) ↦ elim (new_tables 1024 s1) [
    | none ↦ none
    | some (tables, s2) ↦ elim (alloc 4 s2) [
      | none ↦ none
      | some (zero, s3) ↦ none
      | some (suc chunk, s3) ↦ some (
        suc chunk,
        suc directory,
        record s3 { words = paging_new_4gb (suc directory) tables flags s3.words },
      )
    ]
  ]
]

-- `PAGING_IS_PRESENT | PAGING_ACCESS_FROM_ALL`
abbrev pub task_flags : ℕ
task_flags = 0b101

-- `MAEROS_PROGRAM_VIRTUAL_STACK_ADDRESS_START`, `USER_DATA_SEGMENT`, `USER_CODE_SEGMENT`
abbrev pub stack_address_start : ℕ
stack_address_start = 0x3FF000

abbrev pub user_data_segment : ℕ
user_data_segment = 0x23

abbrev pub user_code_segment : ℕ
user_code_segment = 0x1b

-- Where a program starts: at its entry point if it is an ELF file.
pub start_address : Memory → ProgramData → ℕ
start_address m (elf_data file elf) = (header_at m elf.elf_memory).e_entry
start_address m (binary_data ptr) = program_virtual_address

pub task_init : Memory → ProgramData → Registers
unfolding start_address
task_init m program = record {
  edi = 0;
  esi = 0;
  ebp = 0;
  ebx = 0;
  edx = 0;
  ecx = 0;
  eax = 0;
  ip = start_address m program;
  cs = user_code_segment;
  flags = 0;
  esp = stack_address_start;
  ss = user_data_segment;
}

-- A task with its chunk, its page directory and its registers.
pub record NewTask : Type 0 where
  pub address : ℕ
  pub chunk : ℕ
  pub directory : ℕ
  pub registers : Registers

-- The allocation of `task_new` with `task_init`; a task that cannot be allocated is freed through the
-- null pointer.
pub new_task : ProgramData → Store → Option (NewTask × Store)
new_task program s = elim (alloc task_size s) [
  | none ↦ none
  | some (zero, s1) ↦ none
  | some (suc task, s1) ↦ elim (new_directory task_flags s1) [
    | none ↦ none
    | some (chunk, directory, s2) ↦ some (
      record {
        address = suc task;
        chunk = chunk;
        directory = directory;
        registers = task_init s2.memory program;
      },
      s2,
    )
  ]
]
