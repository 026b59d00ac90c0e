-- ===== src/Loader.antt =====
-- src/loader/formats/elfloader.c (elf_load, elf_close), src/task/task.c (task_new with task_init) and
-- src/task/process.c: the loading of a program into a process, and its end. The file system is that of
-- the files' interface. `none` is a fault: an access through a null or an uninitialised pointer, or
-- outside the heap's table.
pub mod NewTasks
pub mod Program
pub mod Volume
mod Tests
use maer_os.Common.{
  ℕ, zero, suc, ◌+◌, ◌*◌, ◌^◌, Bool, true, false, Option, none, some, List, [], ◌∷◌, replicate,
  ◌==◌, if◌then◌else◌, ℤ, pos, negsuc, Status, all_ok, eio, einvarg, enomem, ebadpath, efsnotus,
  erdonly, eunimp, eistkn, einformat,
}
use maer_os.Memory.{Memory}
use maer_os.Kheap.{kzalloc}
use maer_os.Paging.{Words, paging_new_4gb}
use maer_os.File.{Descriptors, FileSystem, FileStat, fopen, fclose, fstat, fread}
use maer_os.Elf.{ElfFile, new_elf_file, header_at, elf_process_loaded, program_virtual_address}
use maer_os.Idt.{Registers}
use maer_os.Task.{Tasks, task_new}
use maer_os.Process.{
  Process, ProgramData, elf_data, binary_data, Store, unused_allocation, max_program_allocations,
  free_in, task_free, process_free_program_data, process_terminate_allocations,
}
use maer_os.Process.Arguments.{write_bytes}
use maer_os.Process.Mapping.{stack_size, process_map_memory}
use maer_os.Process.Table.{
  Processes, process_get, process_switch, process_get_free_slot, add_process, process_unlink,
}

-- The number that a function returns for a status, `-EIO` and so on.
unfoldable pub code : Status → ℤ
code all_ok = pos 0
code eio = negsuc 0
code einvarg = negsuc 1
code enomem = negsuc 2
code ebadpath = negsuc 3
code efsnotus = negsuc 4
code erdonly = negsuc 5
code eunimp = negsuc 6
code eistkn = negsuc 7
code einformat = negsuc 8

-- What the loading of a file changes: the kernel's memory, the descriptors and the file system.
pub record Files (F : Type 0) : Type 0 where
  pub store : Store
  pub descriptors : Descriptors
  pub files : F

-- `kzalloc` in the kernel's memory.
unfoldable pub alloc : ℕ → Store → Option (ℕ × Store)
alloc size s = elim (kzalloc size s.heap s.memory) [
  | none ↦ none
  | some (ptr, heap, memory) ↦ some (ptr, record s { heap = heap; memory = memory })
]

-- "r"
abbrev pub read_mode : List ℕ
read_mode = 0x72 ∷ 0 ∷ []

-- `sizeof(struct elf_file)`, `sizeof(struct process)`, `sizeof(struct task)`
abbrev pub elf_file_size : ℕ
elf_file_size = 132

abbrev pub process_size : ℕ
process_size = 9364

abbrev pub task_size : ℕ
task_size = 64

module _ {F : Type 0} (fs : FileSystem F) where
  -- `out`: the descriptor is closed, whatever `fclose` returns.
  pub close_load {ℓ} : {A : Type ℓ} → ℤ → ℤ → Option A → Files F → Option (ℤ × Option A × Files F)
  close_load fd res out l =
      let (closed, ds, f) = fclose fs fd l.descriptors l.files in
      some (res, out, record l { descriptors = ds; files = f })

  -- The memory that was read, by the check of its header.
  pub elf_load_check : ℤ → ℕ → ℕ → Files F → Option (ℤ × Option (ℕ × ElfFile) × Files F)
  elf_load_check fd file ptr l =
      let (res, elf) = elf_process_loaded l.store.memory (new_elf_file ptr) in
      elim res [
        | all_ok ↦ close_load fd (pos 0) (some (file, elf)) l
        | err ↦ close_load fd (code err) none l
      ]

  -- Behind the read of the file into the memory at `ptr`; with a null pointer only an error without
  -- bytes is no fault.
  pub elf_load_read :
      ℤ → ℕ → ℕ → ℤ × List ℕ × F → Files F → Option (ℤ × Option (ℕ × ElfFile) × Files F)
  elf_load_read fd file zero (negsuc k, [], f) l =
      close_load fd (negsuc k) none (record l { files = f })
  elf_load_read fd file zero (negsuc k, b ∷ bytes, f) l = none
  elf_load_read fd file zero (pos k, bytes, f) l = none
  elf_load_read fd file (suc n) (negsuc k, bytes, f) l = close_load fd (negsuc k) none (record l {
    store = record (l.store) { memory = write_bytes (suc n) bytes l.store.memory };
    files = f;
  })
  elf_load_read fd file (suc n) (pos k, bytes, f) l = elf_load_check fd file (suc n) (record l {
    store = record (l.store) { memory = write_bytes (suc n) bytes l.store.memory };
    files = f;
  })

  -- Behind `fstat`, by what that returned: the memory for the file, and its read.
  pub elf_load_stat :
      ℤ → ℕ → ℤ × Option FileStat → Files F → Option (ℤ × Option (ℕ × ElfFile) × Files F)
  elf_load_stat fd file (negsuc k, stat) l = close_load fd (negsuc k) none l
  elf_load_stat fd zero (pos k, stat) l = none
  elf_load_stat fd (suc file) (pos k, none) l = none
  elf_load_stat fd (suc file) (pos k, some stat) l = elim (alloc stat.filesize l.store) [
    | none ↦ none
    | some (ptr, store) ↦
        elf_load_read fd (suc file) ptr (fread fs stat.filesize 1 fd l.descriptors l.files)
          (record l { store = store })
  ]

  pub elf_load : List ℕ → Files F → Option (ℤ × Option (ℕ × ElfFile) × Files F)
  elf_load filename l = elim (alloc elf_file_size l.store) [
    | none ↦ none
    | some (file, store) ↦ elim (fopen fs filename read_mode l.descriptors l.files) [
      | none ↦ none
      | some (fd, ds, f) ↦
          let l' : Files F = record { store = store; descriptors = ds; files = f } in
          if fd == 0
          then close_load (pos 0) (code eio) none l'
          else elf_load_stat (pos fd) file (fstat fs (pos fd) ds f) l'
    ]
  ]
